-- ===== src/Update/Apply.antt =====
-- update, updateHypershift and performPostConfigChangeAction of pkg/daemon/update.go: the stages of an
-- update, each with what is deferred to take it back.
use openshift_machine_config.Common.{
  String, ◌==◌, Bool, false, ◌&&◌, ◌||◌, not, Option, none, some, List, if◌then◌else◌,
}
use openshift_machine_config.Daemon.{
  ConfigSpec, MachineConfigDiff, in_slice, action_reload_crio, action_reboot, calculate_action,
  is_drain_required,
}
use openshift_machine_config.Update.{
  MachineConfig, World, Step, UpdateError, chain, check, roll_back, begin_update, perform_drain,
  update_ssh_keys, set_password_hash, store_current_config_on_disk, reboot, files_stage, keys_stage,
  passwords_stage, system_stage, config_stage, not_parsed, not_reconcilable, no_action,
  no_drain_answer, files_not_written, kubeconfig_not_set, tuning_failed, not_reloaded, not_settled,
}
use openshift_machine_config.Update.System.{apply_os_changes, update_layered_os}
use openshift_machine_config.Update.Reconcile.{
  Judge, IgnitionConfig, reconcilable, calculate_config_file_diffs,
}

-- What an update takes from elsewhere. `update_files` writes the files and units of the second config and
-- deletes those of the first, and tells whether it succeeded; `safe` is isSafeContainerRegistryConfChanges;
-- `desired` is the configuration and the image that the node is to have, where they can be read, and
-- `another` the update that follows where it is not in them.
pub record Setting (V W F : Type 0) : Type 0 where
  pub judge : Judge V W
  pub empty_config : MachineConfig V
  pub skip_certificate_write : Bool
  pub is_force_file_removed : Bool
  pub safe : IgnitionConfig W → IgnitionConfig W → Option Bool
  pub update_files : World → IgnitionConfig W → IgnitionConfig W → Bool → F → F × Bool
  pub desired : Option (String × String)
  pub is_completed : Bool
  pub another : Step F

unfoldable pub is_in_desired_config : String → String → String → String → Bool
is_in_desired_config current current_image desired desired_image =
    if (desired_image == "") && (current_image == "")
    then current == desired
    else (current == desired) && (desired_image == current_image)

unfoldable pub canonicalize_empty_mc :
    {V : Type 0} → MachineConfig V → Option (MachineConfig V) → MachineConfig V
canonicalize_empty_mc empty none = empty
canonicalize_empty_mc empty (some config) = config

-- What update has found out before it changes anything.
pub data Plan (W : Type 0) : Type 0 where
  refused : UpdateError → Plan W
  planned : IgnitionConfig W → IgnitionConfig W → MachineConfigDiff → List String → Bool → Plan W

module _ {V W F : Type 0} (setting : Setting V W F) where
  abbrev with_drain :
      IgnitionConfig W → IgnitionConfig W → MachineConfigDiff → List String → Option Bool → Plan W
  with_drain i j diff actions none = refused no_drain_answer
  with_drain i j diff actions (some drain) = planned i j diff actions drain

  abbrev with_actions :
      IgnitionConfig W
      → IgnitionConfig W
      → MachineConfigDiff
      → List String
      → Option (List String)
      → Plan W
  with_actions i j diff paths none = refused no_action
  with_actions i j diff paths (some actions) =
      with_drain i j diff actions (is_drain_required actions paths (setting.safe i j))

  abbrev with_diff : World → IgnitionConfig W → IgnitionConfig W → Option MachineConfigDiff → Plan W
  with_diff w i j none = refused not_reconcilable
  with_diff w i j (some diff) =
      let paths =
        calculate_config_file_diffs setting.judge w.map_order i.storage_files j.storage_files in
      with_actions i j diff paths
        (calculate_action setting.judge.is_forced setting.is_force_file_removed diff paths)

  abbrev with_parsed :
      World
      → ConfigSpec V
      → ConfigSpec V
      → Option (IgnitionConfig W)
      → Option (IgnitionConfig W)
      → Plan W
  with_parsed w old new none j = refused not_parsed
  with_parsed w old new (some i) none = refused not_parsed
  with_parsed w old new (some i) (some j) = with_diff w i j (reconcilable setting.judge old new)

  unfoldable pub plan : World → ConfigSpec V → ConfigSpec V → Plan W
  plan w old new = with_parsed w old new (setting.judge.parse old.raw) (setting.judge.parse new.raw)

  abbrev pub written : F × Bool → Step F
  written (files, ok) h = (record h { files = files }, if ok then none else some files_not_written)

  unfoldable pub update_files_step : World → Bool → IgnitionConfig W → IgnitionConfig W → Step F
  update_files_step w skip i j h = written (setting.update_files w i j skip h.files) h

  -- The node is in the configuration that is wanted, and is told done; or another update follows.
  abbrev pub settle : Option (String × String) → Step F
  settle none h = (h, some not_settled)
  settle (some (name, image)) h =
      if not (is_in_desired_config h.stored h.stored_image name image)
      then setting.another h
      else if not setting.is_completed
      then (h, some not_settled)
      else (record h { state = some "Done" }, none)

  unfoldable pub perform_post_config_change_action : World → List String → Step F
  perform_post_config_change_action w actions h =
      if in_slice action_reboot actions
      then reboot w h
      else chain (check (not (in_slice action_reload_crio actions) || w.reloaded) not_reloaded h)
          (settle setting.desired)

  -- The stages, from the last to the first. Calls on the way forth answer by `forth`, and those that take
  -- back by `back`.
  module _ (forth back : World) (old new : MachineConfig V) (i j : IgnitionConfig W)
      (diff : MachineConfigDiff) where
    abbrev pub store : List String → Step F
    store actions h = chain (store_current_config_on_disk forth new.name "" h) (λ g.
        roll_back config_stage (store_current_config_on_disk back old.name "")
          (perform_post_config_change_action forth actions g))

    abbrev pub tune : Step F → Step F
    tune next h = chain (check forth.tuning_updated tuning_failed h) next

    abbrev pub change_system : Step F → Step F
    change_system next h =
        let changed =
          chain (apply_os_changes forth diff old new h)
            (λ g. roll_back system_stage (apply_os_changes back diff new old) (next g)) in
        if forth.is_core_os_variant then changed else next h

    abbrev pub change_passwords : Step F → Step F
    change_passwords next h =
        chain (set_password_hash forth j.users i.users h)
          (λ g. roll_back passwords_stage (set_password_hash back j.users i.users) (next g))

    abbrev pub change_keys : Step F → Step F
    change_keys next h =
        chain (update_ssh_keys forth j.users i.users h)
          (λ g. roll_back keys_stage (update_ssh_keys back j.users i.users) (next g))

    abbrev pub change_files : Bool → Step F → Step F
    change_files skip next h =
        chain (update_files_step forth skip i j h)
          (λ g. roll_back files_stage (update_files_step back skip j i) (next g))

    -- What follows the files.
    abbrev pub after_files : List String → Step F
    after_files actions h =
        let rest = change_passwords (change_system (tune (store actions))) in
        chain (check forth.kubeconfig_mode_set kubeconfig_not_set h)
          (if diff.passwd then change_keys rest else rest)

    unfoldable pub update_planned : List String → Bool → Step F
    update_planned actions drain h =
        chain (if drain then perform_drain forth h else (h, none))
          (change_files setting.skip_certificate_write (after_files actions))

    unfoldable pub update_hypershift_parsed : Step F
    update_hypershift_parsed h =
        change_files false (change_keys (change_system (tune (λ g. (g, none))))) h

  abbrev execute : World → World → MachineConfig V → MachineConfig V → Plan W → Step F
  execute forth back old new (refused e) h = (h, some e)
  execute forth back old new (planned i j diff actions drain) h =
      update_planned forth back old new i j diff actions drain h

  unfoldable pub update : World → World → Option (MachineConfig V) → MachineConfig V → Step F
  update forth back old new h =
      let config = canonicalize_empty_mc setting.empty_config old in
      chain (begin_update forth h) (execute forth back config new (plan forth config.spec new.spec))

  abbrev execute_hypershift :
      World
      → World
      → MachineConfig V
      → MachineConfig V
      → MachineConfigDiff
      → Option (IgnitionConfig W)
      → Option (IgnitionConfig W)
      → Step F
  execute_hypershift forth back old new diff none j h = (h, some not_parsed)
  execute_hypershift forth back old new diff (some i) none h = (h, some not_parsed)
  execute_hypershift forth back old new diff (some i) (some j) h =
      update_hypershift_parsed forth back old new i j diff h

  unfoldable pub update_hypershift :
      World → World → MachineConfig V → MachineConfig V → MachineConfigDiff → Step F
  update_hypershift forth back old new diff h =
      execute_hypershift forth back old new diff (setting.judge.parse old.spec.raw)
        (setting.judge.parse new.spec.raw) h

-- updateImage: a node that is not configured, but only runs another image.
unfoldable pub update_image : {F : Type 0} → World → String → String → Step F
update_image w config image h =
    chain
      (chain (chain (chain (begin_update w h) (perform_drain w)) (update_layered_os w image))
        (store_current_config_on_disk w config image))
      (reboot w)
