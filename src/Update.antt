-- ===== src/Update.antt =====
-- pkg/daemon/update.go: how the daemon brings a node from one configuration to another, and what it takes
-- back where that fails.
pub mod System
pub mod Reconcile
pub mod Apply
pub mod Keeps
pub mod RollBack
use Prim.Native.String.{◌++◌ as append}
use openshift_machine_config.Common.{
  String, ◌==◌, Bool, true, false, ◌&&◌, ◌||◌, not, Option, none, some, List, [], ◌∷◌, ◌++◌,
  if◌then◌else◌, any, is_empty,
}
use openshift_machine_config.Common.StringMap.{StringMap, put, value}
use openshift_machine_config.Daemon.{ConfigSpec}

pub record User : Type 0 where
  pub name : String
  pub password_hash : Option String
  pub ssh_authorized_keys : List String
  -- Whether every other field is empty.
  pub is_plain : Bool

pub record MachineConfig (V : Type 0) : Type 0 where
  pub name : String
  pub spec : ConfigSpec V
  pub base_os_extensions_container_image : String

-- What an update changes on the node. `staged` has the commands that rpm-ostree has queued for the next
-- boot, and `stored` the name of the configuration that is written to the disk.
pub record Host (F : Type 0) : Type 0 where
  pub files : F
  pub passwords : StringMap
  pub keys : String
  pub is_ssh_dir_foreign : Bool
  pub staged : List (List String)
  pub stored : String
  pub stored_image : String
  pub state : Option String
  pub is_drained : Bool
  pub is_rebooting : Bool

pub data Stage : Type 0 where
  files_stage keys_stage passwords_stage system_stage config_stage : Stage

pub data UpdateError : Type 0 where
  not_working not_parsed not_reconcilable no_action no_drain_answer not_drained : UpdateError
  files_not_written kubeconfig_not_set no_user_lookup keys_not_cleaned keys_not_written :
      UpdateError
  password_not_set no_extensions pending_not_removed command_failed invalid_extensions : UpdateError
  unhandled_kernel tuning_failed not_stored not_rebooted not_reloaded not_settled : UpdateError
  -- The error of taking a stage back, with the one that was the reason for it.
  not_rolled_back : Stage → UpdateError → UpdateError

pub data CoreUser : Type 0 where
  known_user unknown_user failed_lookup : CoreUser

-- What the node is, and which of the calls that an update makes succeed on it. `map_order` is the order in
-- which a map with these keys is ranged over, and
-- `trim_space` is strings.TrimSpace.
pub record World : Type 0 where
  pub has_node_writer : Bool
  pub can_set_working : Bool
  pub can_drain : Bool
  pub kubeconfig_mode_set : Bool
  pub core_user : CoreUser
  pub use_new_ssh_key_path : Bool
  pub keys_cleaned : Bool
  pub keys_written : Bool
  pub foreign_ssh_dir_removed : Bool
  pub usermod : String → Bool
  pub is_core_os_variant : Bool
  pub is_el : Bool
  pub is_fcos : Bool
  pub booted_os_image_url : String
  pub extensions_ready : Bool
  pub pending_removed : Bool
  pub booted : Option (List String × List String)
  pub rpm_ostree : List String → Bool
  pub trim_space : String → String
  pub map_order : List String → List String
  pub tuning_updated : Bool
  pub config_stored : Bool
  pub image_stored : Bool
  pub rebooted : Bool
  pub reloaded : Bool

abbrev pub Result : Type 0 → Type 0
Result F = Host F × Option UpdateError

abbrev pub Step : Type 0 → Type 0
Step F = Host F → Result F

unfoldable pub is_user_present : User → List User → Bool
is_user_present user users = any (λ u. u.name == user.name) users

abbrev pub hash_of : Option String → String
hash_of none = "*"
hash_of (some hash) = if hash == "" then "*" else hash

unfoldable pub concat_keys : List String → String → String
concat_keys [] rest = rest
concat_keys (k ∷ keys) rest = append k (append "\n" (concat_keys keys rest))

unfoldable pub concat_ssh_keys : List User → String
concat_ssh_keys [] = ""
concat_ssh_keys (u ∷ users) = concat_keys u.ssh_authorized_keys (concat_ssh_keys users)

abbrev pub keeps_state : String → Bool
keeps_state state = (state == "Degraded") || (state == "Unreconcilable")

module _ {F : Type 0} where
  -- `if err != nil { return err }`
  abbrev pub chain : Result F → Step F → Result F
  chain (h, none) next = next h
  chain (h, some e) next = (h, some e)

  -- A deferred function that takes a stage back where an error is returned.
  abbrev pub undone : Stage → UpdateError → Result F → Result F
  undone stage e (h, none) = (h, some e)
  undone stage e (h, some x) = (h, some (not_rolled_back stage e))

  abbrev pub roll_back : Stage → Step F → Result F → Result F
  roll_back stage undo (h, none) = (h, none)
  roll_back stage undo (h, some e) = undone stage e (undo h)

  abbrev pub check : Bool → UpdateError → Step F
  check true e h = (h, none)
  check false e h = (h, some e)

  abbrev pub skip : Step F
  skip h = (h, none)

  abbrev set_password : String → String → Host F → Host F
  set_password name hash h = record h { passwords = put h.passwords name hash }

  -- The error of deconfigureUser is ignored.
  unfoldable pub deconfigure_user : World → User → Host F → Host F
  deconfigure_user w user h = if w.usermod user.name then set_password user.name "" h else h

  unfoldable pub deconfigure_absent_users : World → List User → List User → Host F → Host F
  deconfigure_absent_users w new [] h = h
  deconfigure_absent_users w new (user ∷ old) h =
      deconfigure_absent_users w new old
        (if not (is_user_present user new) then deconfigure_user w user h else h)

  -- user.Lookup of the core user; where it does not exist the rest is left out.
  abbrev pub with_core_user : CoreUser → Step F → Step F
  with_core_user known_user step h = step h
  with_core_user unknown_user step h = (h, none)
  with_core_user failed_lookup step h = (h, some no_user_lookup)

  unfoldable pub set_hashes : World → List User → Step F
  set_hashes w [] h = (h, none)
  set_hashes w (u ∷ users) h =
      let rest = set_hashes w users (set_password u.name (hash_of u.password_hash) h) in
      if w.usermod u.name then rest else (h, some password_not_set)

  unfoldable pub set_password_hash : World → List User → List User → Step F
  set_password_hash w new old h =
      with_core_user w.core_user (set_hashes w new) (deconfigure_absent_users w new old h)

  -- atomicallyWriteSSHKey removes an .ssh directory of another user, with all that is in it, before it
  -- writes; it may fail before or after that.
  abbrev pub write_keys : World → List User → Step F
  write_keys w new h =
      if w.keys_written
      then (record h { keys = concat_ssh_keys new; is_ssh_dir_foreign = false }, none)
      else (
        if h.is_ssh_dir_foreign && w.foreign_ssh_dir_removed
            then record h { keys = ""; is_ssh_dir_foreign = false }
            else h,
        some keys_not_written,
      )

  unfoldable pub update_ssh_keys : World → List User → List User → Step F
  update_ssh_keys w new old h =
      with_core_user w.core_user
        (λ g.
          chain (check (not w.use_new_ssh_key_path || w.keys_cleaned) keys_not_cleaned g)
            (write_keys w new))
        (deconfigure_absent_users w new old h)

  -- storeCurrentConfigOnDisk writes the configuration and then the image.
  unfoldable pub store_current_config_on_disk : World → String → String → Step F
  store_current_config_on_disk w name image h =
      let g = record h { stored = name } in
      if not w.config_stored
      then (h, some not_stored)
      else if not w.image_stored
      then (g, some not_stored)
      else (record g { stored_image = image }, none)

  unfoldable pub perform_drain : World → Step F
  perform_drain w h =
      if w.can_drain then (record h { is_drained = true }, none) else (h, some not_drained)

  unfoldable pub reboot : World → Step F
  reboot w h =
      if w.rebooted then (record h { is_rebooting = true }, none) else (h, some not_rebooted)

  -- The node is marked as working, unless it is degraded or unreconcilable.
  unfoldable pub begin_update : World → Step F
  begin_update w h =
      if not w.has_node_writer
      then (h, none)
      else if keeps_state (value h.state)
      then (h, none)
      else if w.can_set_working
      then (record h { state = some "Working" }, none)
      else (h, some not_working)
