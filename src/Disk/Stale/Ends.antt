-- ===== src/Disk/Stale/Ends.antt =====
-- An update of files and units ends well where the system does what it is asked for.
use openshift_machine_config.Common.{
  ◌≡◌, refl, String, Bool, true, false, not, Option, none, some, is_some, List, [], ◌∷◌, All,
}
use openshift_machine_config.Disk.{
  Disk, System, File, remove_backup, delete, restore, remove_stamp, is_shipped, and_write,
  write_files, set_orig, set_stamp,
}
use openshift_machine_config.Disk.Units.{
  SystemdUnit, Dropin, unit_path, dropin_path, write_daemon_units,
}
use openshift_machine_config.Disk.Stale.{
  Ignition, is_certificate, has_file, has_unit, has_dropin, is_path_in_dropins, delete_path,
  stale_path, delete_unless, delete_stale_file, delete_stale_files, delete_stale_unit_path,
  delete_stale_dropins, delete_stale_units, delete_stale_data, update_files,
}
use openshift_machine_config.Disk.Units.Served.{Serves, write_daemon_units-Succeeds}
use openshift_machine_config.Disk.Units.Written.{
  Works, IsWritable, Succeeds, if-Succeeds, call-Succeeds, and_write-Succeeds, shipped_answers,
  write_files-Succeeds,
}

module _ (system : System) (works : Works system) where
  delete_path-Succeeds : (path : String) (disk : Disk) → Succeeds (delete_path system path disk)
  unfolding delete_path
  delete_path-Succeeds path disk =
      if-Succeeds (not (is_some (disk.at path))) (some disk) _ refl
        (call-Succeeds system works delete path _ refl)

  stale_path-Succeeds :
      (o : Option Bool) (finish : Disk → Option Disk) (path : String) (disk : Disk)
      → is_some o ≡ true
      → ((d : Disk) → Succeeds (finish d))
      → Succeeds (stale_path system o finish path disk)
  stale_path-Succeeds none finish path disk h g = absurd (cc h)
  stale_path-Succeeds (some true) finish path disk h g =
      if-Succeeds (disk.stamped path) _ _
        (call-Succeeds system works remove_stamp path _ (g (set_stamp path false disk)))
        (if-Succeeds (is_some (disk.orig path)) _ _ (call-Succeeds system works restore path _ refl)
          (g disk))
  stale_path-Succeeds (some false) finish path disk h g =
      if-Succeeds (disk.stamped path) _ _
        (call-Succeeds system works remove_stamp path _ (g (set_stamp path false disk)))
        (if-Succeeds (is_some (disk.orig path)) _ _
          (call-Succeeds system works remove_backup path _ (g (set_orig path none disk))) (g disk))

  delete_stale_files-Succeeds :
      (new : Ignition) (files : List File) (disk : Disk)
      → Succeeds (delete_stale_files system new files disk)
  unfolding delete_stale_files delete_stale_file
  delete_stale_files-Succeeds new [] disk = refl
  delete_stale_files-Succeeds new (f ∷ files) disk =
      and_write-Succeeds system works (delete_stale_file system new f.path disk)
        (delete_stale_files system new files)
        (if-Succeeds (has_file f.path new.files) (some disk) _ refl (
          if-Succeeds (is_certificate f.path) (some disk) _ refl (
            stale_path-Succeeds (is_shipped system f.path disk)
              (delete_unless system (is_path_in_dropins f.path new.units) f.path) f.path disk
              (shipped_answers system works (system.rpm f.path) _ (works.rpm_answers f.path))
              (λ d.
                if-Succeeds (is_path_in_dropins f.path new.units) (some d) _ refl
                  (delete_path-Succeeds f.path d)))))
        (λ d. delete_stale_files-Succeeds new files d)

  delete_stale_unit_path-Succeeds :
      (b : Bool) (path : String) (disk : Disk)
      → Succeeds (delete_stale_unit_path system b path disk)
  unfolding delete_stale_unit_path
  delete_stale_unit_path-Succeeds b path disk = if-Succeeds b (some disk) _ refl (
      stale_path-Succeeds (some true) (delete_path system path) path disk refl
        (λ d. delete_path-Succeeds path d))

  delete_stale_dropins-Succeeds :
      (new : Ignition) (u : SystemdUnit) (dropins : List Dropin) (disk : Disk)
      → Succeeds (delete_stale_dropins system new u dropins disk)
  unfolding delete_stale_dropins
  delete_stale_dropins-Succeeds new u [] disk = refl
  delete_stale_dropins-Succeeds new u (d ∷ dropins) disk =
      and_write-Succeeds system works
        (delete_stale_unit_path system (has_dropin (dropin_path u d) new.units) (dropin_path u d)
          disk)
        (delete_stale_dropins system new u dropins)
        (delete_stale_unit_path-Succeeds (has_dropin (dropin_path u d) new.units) (dropin_path u d)
          disk)
        (λ e. delete_stale_dropins-Succeeds new u dropins e)

  delete_stale_units-Succeeds :
      (new : Ignition) (units : List SystemdUnit) (disk : Disk)
      → Succeeds (delete_stale_units system new units disk)
  unfolding delete_stale_units
  delete_stale_units-Succeeds new [] disk = refl
  delete_stale_units-Succeeds new (u ∷ units) disk =
      and_write-Succeeds system works
        (and_write system (delete_stale_dropins system new u u.dropins disk)
          (delete_stale_unit_path system (has_unit (unit_path u) new.units) (unit_path u)))
        (delete_stale_units system new units)
        (and_write-Succeeds system works (delete_stale_dropins system new u u.dropins disk)
          (delete_stale_unit_path system (has_unit (unit_path u) new.units) (unit_path u))
          (delete_stale_dropins-Succeeds new u u.dropins disk)
          (λ d. delete_stale_unit_path-Succeeds (has_unit (unit_path u) new.units) (unit_path u) d))
        (λ d. delete_stale_units-Succeeds new units d)

  -- Where no system call fails, rpm answers, and among the links of systemctl there are no other
  -- files, an update of files and units ends without an error, whatever stands on the disk, given two
  -- things. The files of the new config do not append, can be decoded and have known owners; and once
  -- its units are written, systemctl enables and disables those that it says, on a traditional RHEL 7
  -- at least where broken links were removed.
  pub update_files-Succeeds :
      (core skip : Bool) (old new : Ignition) (disk : Disk)
      → All (IsWritable system) new.files
      → Serves system core new.units
      → Succeeds (update_files system core skip old new disk)
  unfolding update_files delete_stale_data
  update_files-Succeeds core skip old new disk h serves =
      and_write-Succeeds system works
        (and_write system (write_files system skip new.files disk)
          (write_daemon_units system core new.units))
        (delete_stale_data system old new)
        (and_write-Succeeds system works (write_files system skip new.files disk)
          (write_daemon_units system core new.units)
          (write_files-Succeeds system works skip new.files disk h)
          (λ d. write_daemon_units-Succeeds system works core new.units d serves))
        (λ d.
          and_write-Succeeds system works (delete_stale_files system new old.files d)
            (delete_stale_units system new old.units) (delete_stale_files-Succeeds new old.files d)
            (λ e. delete_stale_units-Succeeds new old.units e))
