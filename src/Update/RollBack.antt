-- ===== src/Update/RollBack.antt =====
-- What the later stages of an update leave as it is, and take back without touching it.
pub mod Files
pub mod Keys
use mathlib.Core.Path.{subst}
use openshift_machine_config.Common.{
  ◌≡◌, ◌≢◌, ◌⊎◌, inl, inr, refl, sym, ap, ◌∙◌, String, ◌==◌, ==_iff, Bool, true, false, ◌&&◌, ◌||◌,
  not, Option, none, some, List, [], ◌∷◌, if◌then◌else◌, arith,
}
use openshift_machine_config.Common.StringMap.{StringMap}
use openshift_machine_config.Daemon.{MachineConfigDiff, in_slice, action_reboot, action_reload_crio}
use openshift_machine_config.Update.{
  MachineConfig, Host, World, Step, Result, UpdateError, Stage, User, known_user, chain, check,
  roll_back, with_core_user, reboot, perform_drain, store_current_config_on_disk, set_password_hash,
  update_ssh_keys, write_keys, concat_ssh_keys, deconfigure_absent_users, config_stage, files_stage,
  keys_stage, passwords_stage, system_stage, not_drained, undone, not_settled, not_stored,
  not_reloaded,
}
use openshift_machine_config.Update.System.{apply_os_changes}
use openshift_machine_config.Update.Reconcile.{IgnitionConfig}
use openshift_machine_config.Update.Apply.{
  Setting, is_in_desired_config, perform_post_config_change_action, settle, store, tune,
  change_system, change_passwords, change_keys, change_files, after_files, update_files_step,
  update_planned, written,
}
use openshift_machine_config.Update.Keeps.{
  Keeps, Leaves, left, leaves, Keeps-from, chain-Keeps, if-Keeps, check-Keeps, roll_back-Leaves,
  roll_back-Keeps, roll_back-undoes, set_password_hash-Keeps, update_ssh_keys-Keeps,
  apply_os_changes-Keeps,
}

-- A part of the node that is none of what the last stages change.
pub record IsBlind {F X : Type 0} (v : Host F → X) : Type 0 where
  staged : (h : Host F) (s : List (List String)) → v (record h { staged = s }) ≡ v h
  stored : (h : Host F) (s : String) → v (record h { stored = s }) ≡ v h
  image : (h : Host F) (s : String) → v (record h { stored_image = s }) ≡ v h
  state : (h : Host F) (s : Option String) → v (record h { state = s }) ≡ v h
  rebooting : (h : Host F) (b : Bool) → v (record h { is_rebooting = b }) ≡ v h

-- Nothing else is wanted of the node than the new configuration, where that can be read.
abbrev pub IsWanted : {V W F : Type 0} → Setting V W F → MachineConfig V → Type 0
IsWanted setting new = (setting.desired ≡ none) ⊎ (setting.desired ≡ some (new.name, ""))

in_desired :
    {F : Type 0} (name : String) (h : Host F)
    → h.stored ≡ name
    → h.stored_image ≡ ""
    → is_in_desired_config h.stored h.stored_image name "" ≡ true
unfolding is_in_desired_config
in_desired name h e k = rw (e, k) ((==_iff name name).1 refl)

module _ {V W F X : Type 0} (setting : Setting V W F) (forth back : World)
    (old new : MachineConfig V) (i j : IgnitionConfig W) (diff : MachineConfigDiff)
    (wanted : IsWanted setting new) where
  module _ (v : Host F → X) (blind : IsBlind v) where
    settle-Keeps :
        (h : Host F)
        → h.stored ≡ new.name
        → h.stored_image ≡ ""
        → Leaves v (v h) (settle setting setting.desired h)
    settle-Keeps h e k = elim wanted [
      | inl none' ↦ rw none' (leaves v (v h) h _ refl)
      | inr named ↦
          rw (named, in_desired new.name h e k)
            (if-Keeps v (not setting.is_completed) _ _ (v h) (leaves v _ _ _ refl)
              (leaves v _ _ _ (blind.state h _)))
    ]

    post-Keeps :
        (actions : List String) (h : Host F)
        → h.stored ≡ new.name
        → h.stored_image ≡ ""
        → Leaves v (v h) (perform_post_config_change_action setting forth actions h)
    unfolding perform_post_config_change_action reboot
    post-Keeps actions h e k =
        if-Keeps v (in_slice action_reboot actions) _ _ (v h)
          (if-Keeps v forth.rebooted _ _ (v h) (leaves v _ _ _ (blind.rebooting h _))
            (leaves v _ _ _ refl))
          (go (not (in_slice action_reload_crio actions) || forth.reloaded))
      where
        go :
            (b : Bool)
            → Leaves v (v h) (chain (check b not_reloaded h) (settle setting setting.desired))
        go true = settle-Keeps h e k
        go false = leaves v _ _ _ refl

    store_config-Keeps :
        (w : World) (name : String) → Keeps v (store_current_config_on_disk w name "")
    unfolding store_current_config_on_disk
    store_config-Keeps w name h = if-Keeps v (not w.config_stored) _ _ (v h) (leaves v _ _ _ refl) (
        if-Keeps v (not w.image_stored) _ _ (v h) (leaves v _ _ _ (blind.stored h _))
          (leaves v _ _ _ (blind.image _ _ ∙ blind.stored h _)))

    tune-Keeps :
        (next : Step F) → Keeps v next → Keeps v (tune setting forth back old new i j diff next)
    tune-Keeps next k h = chain-Keeps v _ next (v h) (check-Keeps v _ _ h) k

    change_system-Keeps :
        (next : Step F)
        → Keeps v next
        → Keeps v (change_system setting forth back old new i j diff next)
    change_system-Keeps next k h =
        if-Keeps v forth.is_core_os_variant _ _ (v h)
          (chain-Keeps v _ _ (v h) (apply_os_changes-Keeps v blind.staged forth diff old new h)
            (λ g.
              roll_back-Keeps v system_stage _ _ (v g) (k g)
                (apply_os_changes-Keeps v blind.staged back diff new old)))
          (k h)

    store-Keeps :
        (actions : List String) → Keeps v (store setting forth back old new i j diff actions)
    unfolding store_current_config_on_disk
    store-Keeps actions h = go forth.config_stored forth.image_stored
      where
        saved : Host F
        saved = record h { stored = new.name; stored_image = "" }

        rest : Step F
        rest g =
            roll_back config_stage (store_current_config_on_disk back old.name "")
              (perform_post_config_change_action setting forth actions g)

        go :
            (c m : Bool)
            → Leaves v (v h) (
                chain
                  (if not c
                    then (h, some not_stored)
                    else if not m
                    then (record h { stored = new.name }, some not_stored)
                    else (saved, none))
                  rest)
        go false m = leaves v _ _ _ refl
        go true false = leaves v _ _ _ (blind.stored h _)
        go true true =
            roll_back-Keeps v config_stage _ _ (v h)
              (subst
                (λ x. Leaves v x (perform_post_config_change_action setting forth actions saved))
                (blind.image _ _ ∙ blind.stored h _) (post-Keeps actions saved refl refl))
              (store_config-Keeps back old.name)

    -- What follows the passwords leaves the part as it is, and what was done is taken back without it.
    pub finish-Keeps :
        (actions : List String)
        → Keeps v (
            change_system setting forth back old new i j diff (
              tune setting forth back old new i j diff
                (store setting forth back old new i j diff actions)))
    finish-Keeps actions = change_system-Keeps _ (tune-Keeps _ (store-Keeps actions))

    pub change_passwords-Keeps :
        ((h : Host F) (p : StringMap) → v (record h { passwords = p }) ≡ v h)
        → (next : Step F) → Keeps v next
        → Keeps v (change_passwords setting forth back old new i j diff next)
    change_passwords-Keeps passwords next k h =
        chain-Keeps v _ _ (v h) (set_password_hash-Keeps v passwords forth j.users i.users h) (λ g.
          roll_back-Keeps v passwords_stage _ _ (v g) (k g)
            (set_password_hash-Keeps v passwords back j.users i.users))
