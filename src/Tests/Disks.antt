-- ===== src/Tests/Disks.antt =====
-- Updates of files and units at concrete inputs.
use mathlib.Core.Path.{subst}
use openshift_machine_config.Common.{
  ◌≡◌, refl, String, ==_iff, Bool, true, false, not, Option, none, some, List, [], ◌∷◌, any, arith,
  ◌==◌,
}
use openshift_machine_config.Disk.{
  decode_ignition_file_contents, Disk, System, no_link, File, not_owned, get_file_ownership,
  create_orig_file, write_file_atomically, write_file, write_files, check_file_contents_and_mode,
  check_v3_file, check_v3_files, with_usr_path,
}
use openshift_machine_config.Disk.Units.{
  SystemdUnit, unit_path, dropin_path, write_units, write_unit, write_dropins, write_daemon_units,
  enable_units, units_set_to,
}
use openshift_machine_config.Disk.Stale.{
  Ignition, update_files, delete_stale_data, delete_stale_files, delete_stale_units,
  delete_stale_dropins, delete_stale_unit_path, delete_path, has_unit, has_dropin,
}
use openshift_machine_config.Disk.Stale.Ends.{update_files-Succeeds}
use openshift_machine_config.Disk.Units.Served.{Serves}
use openshift_machine_config.Disk.Units.Written.{Works, IsWritable, Succeeds}
use openshift_machine_config.Disk.Stale.Update.{Passes, AreApart, update_files-Passes}

-- No call fails, no rpm owns a file, and systemctl knows one unit that can be enabled.
abbrev system : System
system = record {
  data_url = λ source. some source;
  gunzip = λ bytes. none;
  lookup_uid = λ name. none;
  lookup_gid = λ name. none;
  rpm = λ path. not_owned;
  fails = λ call path. false;
  is_like_traditional_rhel7 = false;
  wants_link = λ name. no_link;
  enables = λ cleared names disk. not (any (λ name. not (name == "a.service")) names);
  disables = λ names disk. true;
}

abbrev empty_disk : Disk
empty_disk = record { at = λ p. none; orig = λ p. none; stamped = λ p. false }

abbrev plain_file : String → File
plain_file path = record {
  path = path;
  appends = false;
  source = some "text";
  compression = none;
  mode = none;
  user = record { id = none; name = none };
  group = record { id = some 0; name = none };
}

abbrev with_dropin : SystemdUnit
with_dropin = record {
  name = "b.service";
  contents = none;
  enabled = none;
  mask = none;
  dropins = record { name = "x.conf"; contents = some "x" } ∷ [];
}

-- A unit of the name that is to be enabled.
abbrev enabled_unit : String → SystemdUnit
enabled_unit name = record {
  name = name;
  contents = some "[Install]";
  enabled = some true;
  mask = none;
  dropins = [];
}

abbrev old_config : Ignition
old_config = record { files = []; units = with_dropin ∷ [] }

abbrev new_config : Ignition
new_config = record {
  files = plain_file "/etc/a" ∷ [];
  units = with_dropin ∷ enabled_unit "a.service" ∷ [];
}

-- What the theorem asks of one path.
abbrev IsApart : String → Type 0
IsApart q =
    (has_unit q new_config.units ≡ false)
    × (has_dropin q new_config.units ≡ false)
    × (has_unit q old_config.units ≡ false)
    × (has_dropin q old_config.units ≡ false)

file-IsApart : IsApart "/etc/a"
unfolding unit_path dropin_path
file-IsApart = (refl, refl, refl, refl)

apart : AreApart old_config new_config
apart q h = subst IsApart ((==_iff "/etc/a" q).0 (ground (arith, h))) file-IsApart

update_files-Passes_example :
    Passes system new_config.files (update_files system true false old_config new_config empty_disk)
update_files-Passes_example =
    update_files-Passes system true false old_config new_config empty_disk (refl, tt) apart

abbrev check_of : List File → Option Disk → Option Bool
check_of files none = none
check_of files (some disk) = some (check_v3_files system files disk)

-- The update ends well.
update_succeeds :
    check_of new_config.files (update_files system true false old_config new_config empty_disk)
    ≡ some true
unfolding update_files write_daemon_units enable_units units_set_to write_files write_file
    decode_ignition_file_contents get_file_ownership create_orig_file write_file_atomically
    write_units write_unit write_dropins delete_stale_data delete_stale_files delete_stale_units
    delete_stale_dropins delete_stale_unit_path delete_path unit_path dropin_path with_usr_path
    check_v3_files check_v3_file check_file_contents_and_mode
update_succeeds = refl

-- The dropin of the old config is a file of this one.
abbrev converted_config : Ignition
converted_config = record {
  files = plain_file "/etc/systemd/system/b.service.d/x.conf" ∷ [];
  units = [];
}

-- The file is written, and then deleted as a stale dropin.
converted_dropin_fails :
    check_of converted_config.files
      (update_files system true false old_config converted_config empty_disk)
    ≡ some false
unfolding update_files write_daemon_units enable_units units_set_to write_files write_file
    decode_ignition_file_contents get_file_ownership create_orig_file write_file_atomically
    write_units write_unit write_dropins delete_stale_data delete_stale_files delete_stale_units
    delete_stale_dropins delete_stale_unit_path delete_path unit_path dropin_path with_usr_path
    check_v3_files check_v3_file check_file_contents_and_mode
converted_dropin_fails = refl

system-Works : Works system
system-Works = record {
  calls = λ call path. refl;
  rpm_answers = λ path e. absurd (cc e);
  links = λ name. refl;
}

system-Serves : Serves system true new_config.units
unfolding units_set_to
system-Serves = record { enabling = λ d e w. refl; disabling = λ d e w. refl }

writable : IsWritable system (plain_file "/etc/a")
unfolding get_file_ownership decode_ignition_file_contents
writable = (refl, refl, refl)

update_files-Succeeds_example :
    Succeeds (update_files system true false old_config new_config empty_disk)
update_files-Succeeds_example =
    update_files-Succeeds system system-Works true false old_config new_config empty_disk
      (writable, tt) system-Serves

-- A unit that systemctl does not know cannot be enabled, and the update fails, although its file is written.
unknown_unit_fails :
    update_files system true false old_config
      (record new_config { units = enabled_unit "ghost.service" ∷ [] })
      empty_disk
    ≡ none
unfolding update_files write_daemon_units enable_units units_set_to write_files write_file
    decode_ignition_file_contents get_file_ownership create_orig_file write_file_atomically
    write_units write_unit write_dropins unit_path with_usr_path
unknown_unit_fails = refl
