-- ===== src/Disk/Units/Written.antt =====
-- Files and units are written without an error where the system does what it is asked for.
use openshift_machine_config.Common.{
  ℕ, ◌≡◌, ◌≢◌, refl, String, ◌==◌, Bool, true, false, ◌&&◌, not, Option, none, some, is_some, List,
  [], ◌∷◌, All, arith, if◌then◌else◌,
}
use openshift_machine_config.Disk.{
  decode_ignition_file_contents, Disk, System, WantsLink, unreadable, not_a_link, File, Call,
  Ownership, rpm_error, rpm_not_found, owned, not_owned, remove_backup, stamp, backup, write,
  delete, link, keep_orig, is_shipped, is_shipped_by, and_write, then_write, write_decoded,
  write_file, write_files, write_file_atomically, create_orig_file, get_file_ownership,
  ca_bundle_file_path, mode_of, default_file_permissions, with_usr_path,
}
use openshift_machine_config.Disk.Units.{
  SystemdUnit, Dropin, unit_path, dropin_path, text_of, is_masked, write_over, write_dropin,
  write_dropins, write_unit_file, write_unit, write_units, removed,
}

-- A link of systemctl that the fallback for an old systemd can deal with.
abbrev pub is_clearable : WantsLink → Bool
is_clearable unreadable = false
is_clearable not_a_link = false
is_clearable _ = true

-- No call fails, rpm answers, and among the links of systemctl there are no other files.
pub record Works (system : System) : Type 0 where
  pub calls : (call : Call) (path : String) → system.fails call path ≡ false
  pub rpm_answers : (path : String) → system.rpm path ≢ rpm_error
  pub links : (name : String) → is_clearable (system.wants_link name) ≡ true

-- The file can be written: it does not append, its contents can be decoded, and its owner is known.
abbrev pub IsWritable : System → File → Type 0
IsWritable system f =
    (f.appends ≡ false)
    × (is_some (decode_ignition_file_contents system f.source f.compression) ≡ true)
    × (is_some (get_file_ownership system f) ≡ true)

abbrev pub Succeeds : Option Disk → Type 0
Succeeds o = is_some o ≡ true

pub if-Succeeds :
    (b : Bool) (x y : Option Disk) → Succeeds x → Succeeds y → Succeeds (if b then x else y)
if-Succeeds true x y h g = h
if-Succeeds false x y h g = g

passed-Succeeds :
    (b : Bool) (x : Option Disk) → b ≡ false → Succeeds x → Succeeds (if b then none else x)
passed-Succeeds true x e h = absurd (cc e)
passed-Succeeds false x e h = h

module _ (system : System) (works : Works system) where
  -- The failing branch of a call.
  pub call-Succeeds :
      (call : Call) (path : String) (x : Option Disk)
      → Succeeds x
      → Succeeds (if system.fails call path then none else x)
  call-Succeeds call path x h = rw (works.calls call path) h

  pub and_write-Succeeds :
      (o : Option Disk) (f : Disk → Option Disk)
      → Succeeds o
      → ((d : Disk) → Succeeds (f d))
      → Succeeds (and_write system o f)
  and_write-Succeeds none f h g = absurd (cc h)
  and_write-Succeeds (some d) f h g = g d

  pub shipped_answers :
      (o : Ownership) (b : Bool) → o ≢ rpm_error → is_some (is_shipped_by o b) ≡ true
  shipped_answers rpm_not_found b h = refl
  shipped_answers owned b h = refl
  shipped_answers not_owned b h = refl
  shipped_answers rpm_error b h = absurd (h refl)

  keep_orig-Succeeds :
      (o : Option Bool) (from path : String) (disk : Disk)
      → is_some o ≡ true
      → Succeeds (keep_orig system o from path disk)
  keep_orig-Succeeds none from path disk h = absurd (cc h)
  keep_orig-Succeeds (some false) from path disk h =
      ground (arith, works.calls remove_backup path, works.calls stamp path)
  keep_orig-Succeeds (some true) from path disk h = ground (arith, works.calls backup path)

  create_orig_file-Succeeds :
      (from path : String) (disk : Disk) → Succeeds (create_orig_file system from path disk)
  unfolding create_orig_file
  create_orig_file-Succeeds from path disk =
      keep_orig-Succeeds
        (if is_some (disk.at path) then is_shipped system path disk else some false) from path disk
        (go (is_some (disk.at path)))
    where
      go : (b : Bool) → is_some (if b then is_shipped system path disk else some false) ≡ true
      go true = shipped_answers (system.rpm path) _ (works.rpm_answers path)
      go false = refl

  then_write-Succeeds :
      (path contents : String) (mode : ℕ) (o : Option Disk)
      → Succeeds o
      → Succeeds (then_write system path contents mode o)
  unfolding write_file_atomically
  then_write-Succeeds path contents mode none h = absurd (cc h)
  then_write-Succeeds path contents mode (some d) h = call-Succeeds write path _ refl

  write_decoded-Succeeds :
      (f : File) (o : Option String) (w : Option (ℕ × ℕ)) (disk : Disk)
      → is_some o ≡ true
      → is_some w ≡ true
      → Succeeds (write_decoded system f o w disk)
  write_decoded-Succeeds f none w disk h g = absurd (cc h)
  write_decoded-Succeeds f (some c) none disk h g = absurd (cc g)
  write_decoded-Succeeds f (some c) (some w) disk h g =
      then_write-Succeeds f.path c (mode_of f.mode) (create_orig_file system f.path f.path disk)
        (create_orig_file-Succeeds f.path f.path disk)

  pub write_files-Succeeds :
      (skip : Bool) (files : List File) (disk : Disk)
      → All (IsWritable system) files
      → Succeeds (write_files system skip files disk)
  unfolding write_files write_file
  write_files-Succeeds skip [] disk h = refl
  write_files-Succeeds skip (f ∷ files) disk h =
      and_write-Succeeds (write_file system skip f disk) (write_files system skip files)
        (if-Succeeds (skip && (f.path == ca_bundle_file_path)) (some disk) _ refl (
          passed-Succeeds f.appends _ h.0.0 (
            write_decoded-Succeeds f (decode_ignition_file_contents system f.source f.compression)
              (get_file_ownership system f) disk h.0.1 h.0.2)))
        (λ d. write_files-Succeeds skip files d h.1)

  removed-Succeeds : (path : String) (disk : Disk) → Succeeds (removed system path disk)
  removed-Succeeds path disk = call-Succeeds delete path _ refl

  write_over-Succeeds :
      (core : Bool) (path contents : String) (disk : Disk)
      → Succeeds (write_over system core path contents disk)
  write_over-Succeeds core path contents disk =
      then_write-Succeeds path contents default_file_permissions _ (
        if-Succeeds (is_some (disk.at (with_usr_path path)) && core)
          (create_orig_file system (with_usr_path path) path disk) (some disk)
          (create_orig_file-Succeeds (with_usr_path path) path disk) refl)

  write_dropins-Succeeds :
      (core : Bool) (u : SystemdUnit) (dropins : List Dropin) (disk : Disk)
      → Succeeds (write_dropins system core u dropins disk)
  unfolding write_dropins
  write_dropins-Succeeds core u [] disk = refl
  write_dropins-Succeeds core u (d ∷ dropins) disk =
      and_write-Succeeds (write_dropin system core (dropin_path u d) (text_of d.contents) disk)
        (write_dropins system core u dropins)
        (if-Succeeds (text_of d.contents == "") _ _
          (if-Succeeds (is_some (disk.at (dropin_path u d))) _ (some disk)
            (removed-Succeeds (dropin_path u d) disk) refl)
          (write_over-Succeeds core (dropin_path u d) (text_of d.contents) disk))
        (λ e. write_dropins-Succeeds core u dropins e)

  write_unit_file-Succeeds :
      (core : Bool) (path : String) (mask : Option Bool) (contents : String) (disk : Disk)
      → Succeeds (write_unit_file system core path mask contents disk)
  write_unit_file-Succeeds core path mask contents disk =
      if-Succeeds (is_masked mask) _ _
        (call-Succeeds delete path _ (call-Succeeds link path _ refl))
        (if-Succeeds (not (contents == "")) _ _ (write_over-Succeeds core path contents disk)
          (if-Succeeds (is_some mask) _ (some disk) (removed-Succeeds path disk) refl))

  pub write_units-Succeeds :
      (core : Bool) (units : List SystemdUnit) (disk : Disk)
      → Succeeds (write_units system core units disk)
  unfolding write_units write_unit
  write_units-Succeeds core [] disk = refl
  write_units-Succeeds core (u ∷ units) disk =
      and_write-Succeeds (write_unit system core u disk) (write_units system core units)
        (and_write-Succeeds (write_dropins system core u u.dropins disk)
          (write_unit_file system core (unit_path u) u.mask (text_of u.contents))
          (write_dropins-Succeeds core u u.dropins disk)
          (λ d. write_unit_file-Succeeds core (unit_path u) u.mask (text_of u.contents) d))
        (λ d. write_units-Succeeds core units d)
