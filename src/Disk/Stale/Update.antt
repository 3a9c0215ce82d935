-- ===== src/Disk/Stale/Update.antt =====
-- An update of files and units ends with the files that the check wants.
use mathlib.Core.Path.{subst}
use openshift_machine_config.Common.{
  Bool-cases, inl, inr, ◌≡◌, refl, ◌∙◌, String, ◌==◌, ==_iff, Bool, true, false, not, Option, none,
  some, is_some, List, [], ◌∷◌, any, arith,
}
use openshift_machine_config.Disk.{
  Disk, System, File, delete, restore, remove_stamp, remove_backup, set_orig, set_stamp, is_shipped,
  and_write, write_files, check_v3_files,
}
use openshift_machine_config.Disk.Files.{
  has_path, DistinctPaths, AllWrote, check_v3_file-cong, write_files-AllWrote,
}
use openshift_machine_config.Disk.Units.{
  SystemdUnit, Dropin, unit_path, dropin_path, write_daemon_units,
}
use openshift_machine_config.Disk.Stale.{
  Ignition, has_file, has_unit, has_dropin, is_certificate, is_path_in_dropins, delete_path,
  restore_or, stale_path, delete_unless, delete_stale_file, delete_stale_files,
  delete_stale_unit_path, delete_stale_dropins, delete_stale_units, delete_stale_data, update_files,
}
use openshift_machine_config.Disk.Stale.Leaves.{
  Leaves, if-Leaves, Leaves-trans, and_write-Leaves, set_at-Leaves, write_daemon_units-Leaves,
}

module _ (system : System) (q : String) where
  delete_path-Leaves :
      (p : String) (disk : Disk) → (q == p) ≡ false → Leaves q disk (delete_path system p disk)
  unfolding delete_path
  delete_path-Leaves p disk n =
      if-Leaves q disk (not (is_some (disk.at p))) (some disk) _ refl
        (if-Leaves q disk (system.fails delete p) none _ tt (set_at-Leaves system q p none disk n))

  -- A path that is dealt with by `finish`.
  module _ (p : String) (n : (q == p) ≡ false) (finish : Disk → Option Disk)
      (h : (d : Disk) → Leaves q d (finish d)) where
    finish_after : (disk new : Disk) → new.at q ≡ disk.at q → Leaves q disk (finish new)
    finish_after disk new e = Leaves-trans q disk new (finish new) e (h new)

    restore_or-Leaves :
        (o : Option Bool) (disk : Disk) → Leaves q disk (restore_or system o finish p disk)
    restore_or-Leaves none disk = tt
    restore_or-Leaves (some true) disk =
        if-Leaves q disk (system.fails restore p) none _ tt (rw n refl)
    restore_or-Leaves (some false) disk =
        if-Leaves q disk (system.fails remove_backup p) none _ tt
          (finish_after disk (set_orig p none disk) refl)

    stale_path-Leaves :
        (o : Option Bool) (disk : Disk) → Leaves q disk (stale_path system o finish p disk)
    stale_path-Leaves o disk =
        if-Leaves q disk (disk.stamped p) _ _
          (if-Leaves q disk (system.fails remove_stamp p) none _ tt
            (finish_after disk (set_stamp p false disk) refl))
          (if-Leaves q disk (is_some (disk.orig p)) _ _ (restore_or-Leaves o disk) (h disk))

  -- A file of the new config is no stale file.
  delete_stale_file-Leaves :
      (new : Ignition) (p : String) (disk : Disk)
      → has_file q new.files ≡ true
      → Leaves q disk (delete_stale_file system new p disk)
  unfolding delete_stale_file
  delete_stale_file-Leaves new p disk h = elim (Bool-cases (q == p)) [
    | inl e ↦ rw (subst (λ s. has_file s new.files ≡ true) ((==_iff q p).0 e) h) refl
    | inr n ↦ if-Leaves q disk (has_file p new.files) (some disk) _ refl (
        if-Leaves q disk (is_certificate p) (some disk) _ refl (
          stale_path-Leaves p n (delete_unless system (is_path_in_dropins p new.units) p)
            (λ d.
              if-Leaves q d (is_path_in_dropins p new.units) (some d) _ refl
                (delete_path-Leaves p d n))
            (is_shipped system p disk) disk))
  ]

  delete_stale_files-Leaves :
      (new : Ignition) (files : List File) (disk : Disk)
      → has_file q new.files ≡ true
      → Leaves q disk (delete_stale_files system new files disk)
  unfolding delete_stale_files
  delete_stale_files-Leaves new [] disk h = refl
  delete_stale_files-Leaves new (f ∷ files) disk h =
      and_write-Leaves system q disk (delete_stale_file system new f.path disk)
        (delete_stale_files system new files) (delete_stale_file-Leaves new f.path disk h)
        (λ d. delete_stale_files-Leaves new files d h)

  delete_stale_unit_path-Leaves :
      (b : Bool) (p : String) (disk : Disk)
      → (q == p) ≡ false
      → Leaves q disk (delete_stale_unit_path system b p disk)
  unfolding delete_stale_unit_path
  delete_stale_unit_path-Leaves b p disk n = if-Leaves q disk b (some disk) _ refl (
      stale_path-Leaves p n (delete_path system p) (λ d. delete_path-Leaves p d n) (some true) disk)

  delete_stale_dropins-Leaves :
      (new : Ignition) (u : SystemdUnit) (dropins : List Dropin) (disk : Disk)
      → any (λ d. dropin_path u d == q) dropins ≡ false
      → Leaves q disk (delete_stale_dropins system new u dropins disk)
  unfolding delete_stale_dropins
  delete_stale_dropins-Leaves new u [] disk h = refl
  delete_stale_dropins-Leaves new u (d ∷ dropins) disk h =
      and_write-Leaves system q disk
        (delete_stale_unit_path system (has_dropin (dropin_path u d) new.units) (dropin_path u d)
          disk)
        (delete_stale_dropins system new u dropins)
        (delete_stale_unit_path-Leaves (has_dropin (dropin_path u d) new.units) (dropin_path u d)
          disk (ground (arith, h, ==_iff q (dropin_path u d), ==_iff (dropin_path u d) q)))
        (λ e. delete_stale_dropins-Leaves new u dropins e (ground (arith, h)))

  delete_stale_units-Leaves :
      (new : Ignition) (units : List SystemdUnit) (disk : Disk)
      → has_unit q units ≡ false
      → has_dropin q units ≡ false
      → Leaves q disk (delete_stale_units system new units disk)
  unfolding delete_stale_units
  delete_stale_units-Leaves new [] disk h g = refl
  delete_stale_units-Leaves new (u ∷ units) disk h g =
      and_write-Leaves system q disk
        (and_write system (delete_stale_dropins system new u u.dropins disk)
          (delete_stale_unit_path system (has_unit (unit_path u) new.units) (unit_path u)))
        (delete_stale_units system new units)
        (and_write-Leaves system q disk (delete_stale_dropins system new u u.dropins disk)
          (delete_stale_unit_path system (has_unit (unit_path u) new.units) (unit_path u))
          (delete_stale_dropins-Leaves new u u.dropins disk (ground (arith, g)))
          (λ d.
            delete_stale_unit_path-Leaves (has_unit (unit_path u) new.units) (unit_path u) d
              (ground (arith, h, ==_iff q (unit_path u), ==_iff (unit_path u) q))))
        (λ d. delete_stale_units-Leaves new units d (ground (arith, h)) (ground (arith, g)))

-- No file of the new config stands where the new or the old config has a unit or a dropin.
abbrev pub AreApart : Ignition → Ignition → Type 0
AreApart old new =
    (q : String)
    → has_path q new.files ≡ true
    → (has_unit q new.units ≡ false)
      × (has_dropin q new.units ≡ false)
      × (has_unit q old.units ≡ false)
      × (has_dropin q old.units ≡ false)

module _ (system : System) (old new : Ignition) (apart : AreApart old new) where
  -- Units and deletions leave the files of the new config.
  rest-Leaves :
      (core : Bool) (q : String) (disk : Disk)
      → has_path q new.files ≡ true
      → Leaves q disk (
          and_write system
            (write_daemon_units system core new.units disk)
            (delete_stale_data system old new))
  unfolding delete_stale_data
  rest-Leaves core q disk h =
      let (a, b, c, d) = apart q h in
      and_write-Leaves system q disk (write_daemon_units system core new.units disk)
        (delete_stale_data system old new)
        (write_daemon_units-Leaves system q core new.units disk a b)
        (λ e.
          and_write-Leaves system q e (delete_stale_files system new old.files e)
            (delete_stale_units system new old.units)
            (delete_stale_files-Leaves system q new old.files e h)
            (λ x. delete_stale_units-Leaves system q new old.units x c d))

check_v3_files-kept :
    (system : System) (files : List File) (disk new : Disk)
    → ((q : String) → has_path q files ≡ true → new.at q ≡ disk.at q)
    → check_v3_files system files new ≡ check_v3_files system files disk
unfolding check_v3_files
check_v3_files-kept system [] disk new h = refl
check_v3_files-kept system (f ∷ files) disk new h =
    rw
      (
        check_v3_file-cong system f disk new (h f.path (ground (arith, ==_iff f.path f.path))),
        check_v3_files-kept system files disk new (λ q g. h q (ground (arith, g))),
      )
      refl

-- Where a step ends well, the check of the files passes.
abbrev pub Passes : System → List File → Option Disk → Type 0
Passes system files none = Unit
Passes system files (some disk) = check_v3_files system files disk ≡ true

kept-Passes :
    (system : System) (files : List File) (disk : Disk) (o : Option Disk)
    → check_v3_files system files disk ≡ true
    → ((q : String) → has_path q files ≡ true → Leaves q disk o)
    → Passes system files o
kept-Passes system files disk none c h = tt
kept-Passes system files disk (some new) c h = check_v3_files-kept system files disk new h ∙ c

-- Where the daemon has updated the files and units from the old config to the new one without an
-- error, the check of the files of the new config passes; their paths are distinct, and none is the
-- path of a unit or a dropin of either config.
pub update_files-Passes :
    (system : System) (core skip : Bool) (old new : Ignition) (disk : Disk)
    → DistinctPaths new.files
    → AreApart old new
    → Passes system new.files (update_files system core skip old new disk)
unfolding update_files
update_files-Passes system core skip old new disk distinct apart =
    go (write_files system skip new.files disk)
      (write_files-AllWrote system skip new.files disk distinct)
  where
    go :
        (o : Option Disk)
        → AllWrote system new.files disk o
        → Passes system new.files (
            and_write system
              (and_write system o (write_daemon_units system core new.units))
              (delete_stale_data system old new))
    go none w = tt
    go (some d) w =
        kept-Passes system new.files d
          (and_write system (write_daemon_units system core new.units d)
            (delete_stale_data system old new))
          w.0 (λ q h. rest-Leaves system old new apart core q d h)
