-- ===== src/Update/Keeps.antt =====
-- The parts of a node that a stage of an update leaves as they are.
use openshift_machine_config.Common.{
  ◌≡◌, ◌≢◌, refl, ◌∙◌, String, ◌==◌, Bool, true, false, ◌&&◌, ◌||◌, not, Option, none, some, List,
  [], ◌∷◌, if◌then◌else◌, is_empty,
}
use openshift_machine_config.Common.StringMap.{StringMap, put}
use openshift_machine_config.Daemon.{
  ConfigSpec, MachineConfigDiff, same_texts, canonicalize_kernel_type,
}
use openshift_machine_config.Update.{
  MachineConfig, Host, World, Step, Result, UpdateError, Stage, User, CoreUser, known_user,
  unknown_user, failed_lookup, chain, check, undone, roll_back, with_core_user, is_user_present,
  deconfigure_user, deconfigure_absent_users, set_hashes, set_password_hash, update_ssh_keys,
  write_keys, system_stage, skip,
}
use openshift_machine_config.Update.System.{
  run_rpm_ostree, remove_pending_deployment, revert, queue_revert_rt_kernel, update_layered_os,
  update_kernel_arguments, switch_kernel, apply_extensions, stage_changes, apply_layered_os_changes,
  apply_os_changes, validate_extensions,
}

module _ {F X : Type 0} (v : Host F → X) where
  -- What `v` sees of the node afterwards.
  unfoldable pub Leaves : X → Result F → Type 0
  Leaves x r = v r.0 ≡ x

  pub left : (x : X) (r : Result F) → Leaves x r → v r.0 ≡ x
  unfolding Leaves
  left x r e = e

  pub leaves : (x : X) (h : Host F) (y : Option UpdateError) → v h ≡ x → Leaves x (h, y)
  unfolding Leaves
  leaves x h y e = e

  -- What `v` sees of a node is the same after the step.
  abbrev pub Keeps : Step F → Type 0
  Keeps step = (h : Host F) → Leaves (v h) (step h)

  pub Keeps-from : (x : X) (step : Step F) (h : Host F) → v h ≡ x → Keeps step → Leaves x (step h)
  unfolding Leaves
  Keeps-from x step h e k = k h ∙ e

  pub chain-Keeps :
      (r : Result F) (next : Step F) (x : X) → Leaves x r → Keeps next → Leaves x (chain r next)
  chain-Keeps (h, none) next x e k = Keeps-from x next h (left x (h, none) e) k
  chain-Keeps (h, some y) next x e k = e

  pub if-Keeps :
      (b : Bool) (p q : Result F) (x : X) → Leaves x p → Leaves x q → Leaves x (if b then p else q)
  if-Keeps true p q x e k = e
  if-Keeps false p q x e k = k

  pub check-Keeps : (b : Bool) (y : UpdateError) → Keeps (check b y)
  check-Keeps true y h = leaves (v h) h _ refl
  check-Keeps false y h = leaves (v h) h _ refl

  undone-Keeps : (stage : Stage) (y : UpdateError) (r : Result F) → v (undone stage y r).0 ≡ v r.0
  undone-Keeps stage y (h, none) = refl
  undone-Keeps stage y (h, some x) = refl

  pub roll_back-Leaves :
      (stage : Stage) (undo : Step F) (r : Result F) (x : X)
      → Leaves x r
      → ((h : Host F) → v h ≡ x → Leaves x (undo h))
      → Leaves x (roll_back stage undo r)
  unfolding Leaves
  roll_back-Leaves stage undo (h, none) x e k = e
  roll_back-Leaves stage undo (h, some y) x e k = undone-Keeps stage y (undo h) ∙ k h e

  pub roll_back-Keeps :
      (stage : Stage) (undo : Step F) (r : Result F) (x : X)
      → Leaves x r
      → Keeps undo
      → Leaves x (roll_back stage undo r)
  roll_back-Keeps stage undo r x e k =
      roll_back-Leaves stage undo r x e (λ h e'. Keeps-from x undo h e' k)

  -- Where an error is returned, the stage was taken back from where the rest had left the node.
  pub roll_back-undoes :
      (stage : Stage) (undo : Step F) (r : Result F)
      → (roll_back stage undo r).1 ≢ none
      → v (roll_back stage undo r).0 ≡ v (undo r.0).0
  roll_back-undoes stage undo (h, none) n = absurd (n refl)
  roll_back-undoes stage undo (h, some y) n = undone-Keeps stage y (undo h)

  -- A part that is not the passwords.
  module _ (blind : (h : Host F) (p : StringMap) → v (record h { passwords = p }) ≡ v h)
      (w : World) where
    deconfigure_user-Keeps : (user : User) (h : Host F) → v (deconfigure_user w user h) ≡ v h
    unfolding deconfigure_user
    deconfigure_user-Keeps user h = go (w.usermod user.name)
      where
        go :
            (b : Bool)
            → v (if b then record h { passwords = put h.passwords user.name "" } else h) ≡ v h
        go true = blind h _
        go false = refl

    pub deconfigure_absent_users-Keeps :
        (new old : List User) (h : Host F) → v (deconfigure_absent_users w new old h) ≡ v h
    unfolding deconfigure_absent_users
    deconfigure_absent_users-Keeps new [] h = refl
    deconfigure_absent_users-Keeps new (user ∷ old) h =
        deconfigure_absent_users-Keeps new old _ ∙ go (not (is_user_present user new))
      where
        go : (b : Bool) → v (if b then deconfigure_user w user h else h) ≡ v h
        go true = deconfigure_user-Keeps user h
        go false = refl

    with_core_user-Keeps :
        (core : CoreUser) (step : Step F) (h : Host F) (x : X)
        → v h ≡ x
        → Keeps step
        → Leaves x (with_core_user core step h)
    with_core_user-Keeps known_user step h x e k = Keeps-from x step h e k
    with_core_user-Keeps unknown_user step h x e k = leaves x h _ e
    with_core_user-Keeps failed_lookup step h x e k = leaves x h _ e

    set_hashes-Keeps : (users : List User) → Keeps (set_hashes w users)
    unfolding set_hashes
    set_hashes-Keeps [] h = leaves (v h) h _ refl
    set_hashes-Keeps (u ∷ users) h =
        if-Keeps (w.usermod u.name) _ _ (v h)
          (Keeps-from (v h) (set_hashes w users) _ (blind h _) (set_hashes-Keeps users))
          (leaves _ _ _ refl)

    pub set_password_hash-Keeps : (new old : List User) → Keeps (set_password_hash w new old)
    unfolding set_password_hash
    set_password_hash-Keeps new old h =
        with_core_user-Keeps w.core_user (set_hashes w new) _ (v h)
          (deconfigure_absent_users-Keeps new old h) (set_hashes-Keeps new)

    pub update_ssh_keys-Keeps :
        (keys : (h : Host F) (k : String)
          → v (record h { keys = k; is_ssh_dir_foreign = false }) ≡ v h)
        → (new old : List User) → Keeps (update_ssh_keys w new old)
    unfolding update_ssh_keys
    update_ssh_keys-Keeps keys new old h =
        with_core_user-Keeps w.core_user _ _ (v h) (deconfigure_absent_users-Keeps new old h) (λ g.
          chain-Keeps _ (write_keys w new) (v g) (check-Keeps _ _ g) (λ f.
            if-Keeps w.keys_written _ _ (v f) (leaves _ _ _ (keys f _))
              (leaves _ _ _ (lost f (f.is_ssh_dir_foreign && w.foreign_ssh_dir_removed)))))
      where
        lost :
            (f : Host F) (b : Bool)
            → v (if b then record f { keys = ""; is_ssh_dir_foreign = false } else f) ≡ v f
        lost f true = keys f ""
        lost f false = refl

  -- A part that is not what rpm-ostree has queued.
  module _ (blind : (h : Host F) (s : List (List String)) → v (record h { staged = s }) ≡ v h)
      (w : World) where
    run_rpm_ostree-Keeps : (args : List String) → Keeps (run_rpm_ostree w args)
    unfolding run_rpm_ostree
    run_rpm_ostree-Keeps args h =
        if-Keeps (w.rpm_ostree args) _ _ (v h) (leaves _ _ _ (blind h _)) (leaves _ _ _ refl)

    remove_pending-Keeps : Keeps (remove_pending_deployment w)
    unfolding remove_pending_deployment
    remove_pending-Keeps h =
        if-Keeps w.pending_removed _ _ (v h) (leaves _ _ _ (blind h _)) (leaves _ _ _ refl)

    queue_revert-Keeps : Keeps (queue_revert_rt_kernel w)
    unfolding queue_revert_rt_kernel
    queue_revert-Keeps h = go w.booted
      where
        go : (b : Option (List String × List String)) → Leaves (v h) (revert w b h)
        go none = leaves _ _ _ refl
        go (some (overrides, layers)) =
            if-Keeps _ _ _ (v h) (run_rpm_ostree-Keeps _ h) (leaves _ _ _ refl)

    when-Keeps : (b : Bool) (step : Step F) → Keeps step → Keeps (if b then step else skip)
    when-Keeps true step k h = k h
    when-Keeps false step k h = leaves _ _ _ refl

    kargs-Keeps : (old new : List String) → Keeps (update_kernel_arguments w old new)
    unfolding update_kernel_arguments
    kargs-Keeps old new h = if-Keeps _ _ _ (v h) (leaves _ _ _ refl) (run_rpm_ostree-Keeps _ h)

    switch_kernel-Keeps : (old new : String) → Keeps (switch_kernel w old new)
    unfolding switch_kernel
    switch_kernel-Keeps old new h =
        let kind = canonicalize_kernel_type new in
        if-Keeps (not w.is_el) _ _ (v h) (leaves _ _ _ refl) (
          if-Keeps (kind == "default") _ _ (v h) (leaves _ _ _ refl) (
            if-Keeps (kind == "realtime") _ _ (v h) (run_rpm_ostree-Keeps _ h) (leaves _ _ _ refl)))

    apply_extensions-Keeps :
        {V : Type 0} (old new : ConfigSpec V) → Keeps (apply_extensions w old new)
    unfolding apply_extensions
    apply_extensions-Keeps old new h =
        if-Keeps
          ((is_empty old.extensions && is_empty new.extensions)
            || (same_texts old.extensions new.extensions && (old.os_image_url == new.os_image_url)))
          _ _ (v h) (leaves _ _ _ refl)
          (if-Keeps (not (validate_extensions new.extensions) && w.is_el) _ _ (v h)
            (leaves _ _ _ refl) (run_rpm_ostree-Keeps _ h))

    stage_changes-Keeps :
        {V : Type 0} (diff : MachineConfigDiff) (old new : ConfigSpec V)
        → Keeps (stage_changes w diff old new)
    unfolding stage_changes update_layered_os
    stage_changes-Keeps diff old new h =
        chain-Keeps _ _ (v h)
          (chain-Keeps _ _ (v h)
            (chain-Keeps _ _ (v h)
              (chain-Keeps _ _ (v h) (when-Keeps _ _ queue_revert-Keeps h)
                (when-Keeps _ _ (run_rpm_ostree-Keeps _)))
              (when-Keeps _ _ (kargs-Keeps _ _)))
            (when-Keeps _ _ (switch_kernel-Keeps _ _)))
          (apply_extensions-Keeps old new)

    pub apply_os_changes-Keeps :
        {V : Type 0} (diff : MachineConfigDiff) (old new : MachineConfig V)
        → Keeps (apply_os_changes w diff old new)
    unfolding apply_os_changes apply_layered_os_changes
    apply_os_changes-Keeps diff old new h =
        if-Keeps _ _ _ (v h)
          (chain-Keeps _ _ (v h) (chain-Keeps _ _ (v h) (check-Keeps _ _ h) remove_pending-Keeps)
            (λ g.
              roll_back-Keeps system_stage _ _ (v g) (stage_changes-Keeps _ old.spec new.spec g)
                remove_pending-Keeps))
          (leaves _ _ _ refl)
