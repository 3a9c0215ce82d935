-- ===== src/Disk/Stale.antt =====
-- updateFiles and deleteStaleData of pkg/daemon/update.go: what an old config has on the disk and a
-- new one has not. The presets of units, whose errors are only logged, are left out.
pub mod Leaves
pub mod Update
pub mod Ends
use openshift_machine_config.Common.{
  String, ◌==◌, Bool, true, false, ◌&&◌, ◌||◌, not, Option, none, some, is_some, List, [], ◌∷◌, any,
  if◌then◌else◌,
}
use openshift_machine_config.Common.Texts.{
  split_on, join_with, last_part, but_last, ends_with, contains_text,
}
use text.Mathlib.Text.{starts_with}
use openshift_machine_config.Disk.{
  Disk, System, File, remove_stamp, remove_backup, restore, delete, set_at, set_orig, set_stamp,
  is_shipped, and_write, write_files, ca_bundle_file_path,
}
use openshift_machine_config.Disk.Units.{
  SystemdUnit, Dropin, unit_path, dropin_path, write_daemon_units,
}

pub record Ignition : Type 0 where
  pub files : List File
  pub units : List SystemdUnit

-- isPathASystemdDropin: the service and the dropin that the path names.
abbrev pub dropin_of_segments : List String → Option (String × String)
dropin_of_segments segments =
    let service = split_on 46 (last_part (but_last segments)) in
    if not (last_part service == "d")
    then none
    else some (join_with "." (but_last service), last_part segments)

unfoldable pub is_path_a_systemd_dropin : String → Option (String × String)
is_path_a_systemd_dropin path =
    if not (starts_with path "/etc/systemd/system")
    then none
    else if not (ends_with path ".conf")
    then none
    else dropin_of_segments (split_on 47 path)

unfoldable pub is_path_in_dropins : String → List SystemdUnit → Bool
is_path_in_dropins path units = elim (is_path_a_systemd_dropin path) [
  | none ↦ false
  | some (service, dropin) ↦
      any
        (λ (u : SystemdUnit).
          (u.name == service) && any (λ (d : Dropin). d.name == dropin) u.dropins)
        units
]

-- Certificates are left where they are.
unfoldable pub is_certificate : String → Bool
is_certificate path =
    (path == "/etc/pki/ca-trust/source/anchors/openshift-config-user-ca-bundle.crt")
    || (path == ca_bundle_file_path)
    || (path == "/etc/kubernetes/static-pod-resources/configmaps/cloud-config/ca-bundle.pem")
    || contains_text (join_with "/" (but_last (split_on 47 path))) "/etc/docker/certs.d"

abbrev pub has_file : String → List File → Bool
has_file p files = any (λ (f : File). f.path == p) files

abbrev pub has_unit : String → List SystemdUnit → Bool
has_unit p units = any (λ (u : SystemdUnit). unit_path u == p) units

abbrev pub has_dropin : String → List SystemdUnit → Bool
has_dropin p units =
    any (λ (u : SystemdUnit). any (λ (d : Dropin). dropin_path u d == p) u.dropins) units

module _ (system : System) where
  -- os.Remove, where a path that is not there is no error.
  unfoldable pub delete_path : String → Disk → Option Disk
  delete_path path disk =
      if not (is_some (disk.at path))
      then some disk
      else if system.fails delete path
      then none
      else some (set_at path none disk)

  abbrev pub restore_or : Option Bool → (Disk → Option Disk) → String → Disk → Option Disk
  restore_or none finish path disk = none
  restore_or (some true) finish path disk =
      if system.fails restore path
      then none
      else some (set_orig path none (set_at path (disk.orig path) disk))
  restore_or (some false) finish path disk =
      if system.fails remove_backup path then none else finish (set_orig path none disk)

  -- A stale path: the stamp is removed, or the backup is restored or removed, and where nothing was
  -- restored the path itself goes as `finish` says.
  abbrev pub stale_path : Option Bool → (Disk → Option Disk) → String → Disk → Option Disk
  stale_path restores finish path disk =
      if disk.stamped path
      then (if system.fails remove_stamp path then none else finish (set_stamp path false disk))
      else if is_some (disk.orig path)
      then restore_or restores finish path disk
      else finish disk

  abbrev pub delete_unless : Bool → String → Disk → Option Disk
  delete_unless keep path disk = if keep then some disk else delete_path path disk

  -- The round of the first loop for an old file.
  unfoldable pub delete_stale_file : Ignition → String → Disk → Option Disk
  delete_stale_file new path disk =
      if has_file path new.files
      then some disk
      else if is_certificate path
      then some disk
      else stale_path (is_shipped system path disk)
          (delete_unless (is_path_in_dropins path new.units) path) path disk

  unfoldable pub delete_stale_files : Ignition → List File → Disk → Option Disk
  delete_stale_files new [] disk = some disk
  delete_stale_files new (f ∷ files) disk =
      and_write system (delete_stale_file new f.path disk) (delete_stale_files new files)

  -- A path of an old unit or dropin; a backup is always restored.
  unfoldable pub delete_stale_unit_path : Bool → String → Disk → Option Disk
  delete_stale_unit_path is_kept path disk =
      if is_kept then some disk else stale_path (some true) (delete_path path) path disk

  unfoldable pub delete_stale_dropins : Ignition → SystemdUnit → List Dropin → Disk → Option Disk
  delete_stale_dropins new u [] disk = some disk
  delete_stale_dropins new u (d ∷ dropins) disk =
      and_write system
        (delete_stale_unit_path (has_dropin (dropin_path u d) new.units) (dropin_path u d) disk)
        (delete_stale_dropins new u dropins)

  unfoldable pub delete_stale_units : Ignition → List SystemdUnit → Disk → Option Disk
  delete_stale_units new [] disk = some disk
  delete_stale_units new (u ∷ units) disk =
      and_write system
        (and_write system (delete_stale_dropins new u u.dropins disk)
          (delete_stale_unit_path (has_unit (unit_path u) new.units) (unit_path u)))
        (delete_stale_units new units)

  unfoldable pub delete_stale_data : Ignition → Ignition → Disk → Option Disk
  delete_stale_data old new disk =
      and_write system (delete_stale_files new old.files disk) (delete_stale_units new old.units)

  unfoldable pub update_files : Bool → Bool → Ignition → Ignition → Disk → Option Disk
  update_files core skip old new disk =
      and_write system
        (and_write system (write_files system skip new.files disk)
          (write_daemon_units system core new.units))
        (delete_stale_data old new)
