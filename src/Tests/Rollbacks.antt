-- ===== src/Tests/Rollbacks.antt =====
-- Failing updates of a node at concrete inputs.
use openshift_machine_config.Common.{
  ◌≡◌, ◌≢◌, refl, inr, String, ◌==◌, true, false, ◌&&◌, not, Option, none, some, List, [], ◌∷◌, map,
  if◌then◌else◌,
}
use openshift_machine_config.Daemon.{
  MachineConfigDiff, in_slice, same_texts, action_reboot, diff_of, new_machine_config_diff,
  canonicalize_kernel_type,
}
use openshift_machine_config.Update.{
  User, MachineConfig, Host, World, UpdateError, known_user, concat_ssh_keys,
}
use openshift_machine_config.Update.System.{
  apply_layered_os_changes, remove_pending_deployment, stage_changes, update_layered_os,
  queue_revert_rt_kernel, run_rpm_ostree,
}
use openshift_machine_config.Update.Reconcile.{
  File, IgnitionConfig, Judge, fips_file, file_at, calculate_config_file_diffs, reconcilable,
  is_ignition_reconcilable, is_passwd_reconcilable, is_storage_reconcilable, check_fips,
  are_writable,
}
use openshift_machine_config.Update.Reconcile.Diffs.{differs, calculate_config_file_diffs_lem}
use openshift_machine_config.Update.Reconcile.Accepted.{Accepted, reconcilable-Accepted}
use openshift_machine_config.Update.System.Discards.{apply_layered_os_changes_discards}
use openshift_machine_config.Update.Apply.{Setting, update_planned}
use openshift_machine_config.Update.RollBack.Files.{is_error, settled_files, update_planned-files}
use openshift_machine_config.Update.RollBack.Keys.{update_planned-keys}

abbrev user : String → User
user key = record {
  name = "core";
  password_hash = none;
  ssh_authorized_keys = key ∷ [];
  is_plain = true;
}

abbrev motd : String → File String
motd body = record { path = "/etc/motd"; has_append = false; body = body }

-- One user with a key, and one file.
abbrev ignition : String → String → IgnitionConfig String
ignition key body = record {
  sections = record { passwd = key; files = body; units = "" };
  users = user key ∷ [];
  storage_files = motd body ∷ [];
  groups = "";
  kernel_arguments = "";
  disks = "";
  filesystems = "";
  raid = "";
  directories = "";
  links = [];
}

abbrev old_ignition : IgnitionConfig String
old_ignition = ignition "old key" "old"

abbrev new_ignition : IgnitionConfig String
new_ignition = ignition "new key" "new"

-- The raw configuration is the key, and the body of the file with it.
abbrev judge : Judge String String
judge = record {
  same = λ a b. a == b;
  same_users = λ a b. same_texts (map (λ u. u.name) a) (map (λ u. u.name) b);
  same_links = λ a b. same_texts a b;
  same_file = λ f g. (f.path == g.path) && (f.body == g.body);
  parse = λ raw. if raw == "" then none else some (ignition raw raw);
  is_valid = λ i. true;
  is_forced = false;
  fips = fips_file false;
}

abbrev config : String → MachineConfig String
config raw = record {
  name = raw;
  spec = record {
    os_image_url = raw;
    kernel_arguments = [];
    fips = false;
    kernel_type = "";
    extensions = [];
    raw = raw;
  };
  base_os_extensions_container_image = "";
}

-- A node on which every call succeeds but the reboot.
abbrev stuck : World
stuck = record {
  has_node_writer = true;
  can_set_working = true;
  can_drain = true;
  kubeconfig_mode_set = true;
  core_user = known_user;
  use_new_ssh_key_path = true;
  keys_cleaned = true;
  keys_written = true;
  foreign_ssh_dir_removed = true;
  usermod = λ name. true;
  is_core_os_variant = true;
  is_el = true;
  is_fcos = false;
  booted_os_image_url = "a";
  extensions_ready = true;
  pending_removed = true;
  booted = some ([], []);
  rpm_ostree = λ args. true;
  trim_space = λ t. t;
  map_order = λ ks. ks;
  tuning_updated = true;
  config_stored = true;
  image_stored = true;
  rebooted = false;
  reloaded = true;
}

-- A node on which rpm-ostree refuses every command.
abbrev frozen : World
frozen = record stuck { rpm_ostree = λ args. false }

abbrev setting : Setting String String (List String)
setting = record {
  judge = judge;
  empty_config = config "mco-empty-mc";
  skip_certificate_write = false;
  is_force_file_removed = true;
  safe = λ i j. some true;
  update_files = λ w i j skip fs. (map (λ f. f.body) j.storage_files, true);
  desired = some ("b", "");
  is_completed = true;
  another = λ h. (h, none);
}

abbrev host : Host (List String)
host = record {
  files = "old" ∷ [];
  passwords = none;
  keys = "old key";
  is_ssh_dir_foreign = true;
  staged = [];
  stored = "a";
  stored_image = "";
  state = some "Done";
  is_drained = false;
  is_rebooting = false;
}

abbrev diff : MachineConfigDiff
diff = record {
  os_update = true;
  kargs = false;
  fips = false;
  passwd = true;
  files = true;
  units = false;
  kernel_type = false;
  extensions = false;
}

abbrev after : Host (List String) × Option UpdateError
after =
    update_planned setting stuck stuck (config "a") (config "b") old_ignition new_ignition diff
      (action_reboot ∷ []) true host

update_planned-files_example : after.0.files ≡ (
    if true && not true
    then host.files
    else settled_files
        (setting.update_files stuck old_ignition new_ignition false host.files)
        (λ x. (setting.update_files stuck new_ignition old_ignition false x).0)
        (is_error after.1))
update_planned-files_example =
    update_planned-files setting stuck stuck (config "a") (config "b") old_ignition new_ignition
      diff (inr refl) (action_reboot ∷ []) true host

update_planned-keys_example : after.0.keys ≡ concat_ssh_keys new_ignition.users
update_planned-keys_example =
    update_planned-keys setting stuck stuck (config "a") (config "b") old_ignition new_ignition diff
      (inr refl) (action_reboot ∷ []) true host (refl, refl, refl) refl refl refl refl

frozen_fails : (apply_layered_os_changes frozen diff (config "a") (config "b") host).1 ≢ none
unfolding apply_layered_os_changes remove_pending_deployment stage_changes update_layered_os
    queue_revert_rt_kernel run_rpm_ostree
frozen_fails e = absurd cc

accepted : reconcilable judge (config "a").spec (config "b").spec ≡ some diff
unfolding reconcilable is_ignition_reconcilable is_passwd_reconcilable is_storage_reconcilable
    check_fips are_writable diff_of same_texts new_machine_config_diff canonicalize_kernel_type
accepted = refl

apply_layered_os_changes_discards_example :
    (apply_layered_os_changes frozen diff (config "a") (config "b") host).0.staged ≡ []
apply_layered_os_changes_discards_example =
    apply_layered_os_changes_discards frozen diff (config "a") (config "b") host refl refl
      frozen_fails

calculate_config_file_diffs_lem_example :
    in_slice "/etc/motd" (
      calculate_config_file_diffs judge
        (λ ks. ks)
        old_ignition.storage_files
        new_ignition.storage_files)
    ≡ differs judge
        (file_at judge "/etc/motd" old_ignition.storage_files)
        (file_at judge "/etc/motd" new_ignition.storage_files)
calculate_config_file_diffs_lem_example =
    calculate_config_file_diffs_lem judge (λ ks. ks) old_ignition.storage_files
      new_ignition.storage_files "/etc/motd" (λ ks. refl)

reconcilable-Accepted_example :
    Accepted judge (config "b").spec (ignition "a" "a") (ignition "b" "b")
reconcilable-Accepted_example =
    reconcilable-Accepted judge (config "a").spec (config "b").spec (ignition "a" "a")
      (ignition "b" "b") diff refl refl accepted
