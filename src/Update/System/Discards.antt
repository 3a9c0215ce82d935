-- ===== src/Update/System/Discards.antt =====
-- What is queued for the next boot where a change of the system fails.
use openshift_machine_config.Common.{
  ◌≡◌, ◌≢◌, refl, Bool, true, false, ◌||◌, not, none, some, [], if◌then◌else◌,
}
use openshift_machine_config.Daemon.{MachineConfigDiff}
use openshift_machine_config.Update.{
  MachineConfig, Host, World, Step, Result, chain, check, roll_back, system_stage, no_extensions,
  pending_not_removed,
}
use openshift_machine_config.Update.System.{
  apply_layered_os_changes, remove_pending_deployment, stage_changes, effective, needs_extensions,
}

module _ {V F : Type 0} (w : World) (diff : MachineConfigDiff) (old new : MachineConfig V) where
  -- Where the pending deployment can be removed and the extensions are ready if they are needed, a
  -- change of the operating system that fails at any command leaves nothing queued for the next boot.
  pub apply_layered_os_changes_discards :
      (h : Host F)
      → w.pending_removed ≡ true
      → (not (needs_extensions (effective w diff new) new) || w.extensions_ready) ≡ true
      → (apply_layered_os_changes w diff old new h).1 ≢ none
      → (apply_layered_os_changes w diff old new h).0.staged ≡ []
  unfolding apply_layered_os_changes remove_pending_deployment
  apply_layered_os_changes_discards h removed ready =
      go (not (needs_extensions d new) || w.extensions_ready) w.pending_removed ready removed
    where
      d : MachineConfigDiff
      d = effective w diff new

      remove : Bool → Step F
      remove b g = if b then (record g { staged = [] }, none) else (g, some pending_not_removed)

      discarded :
          (r : Result F)
          → (roll_back system_stage (remove true) r).1 ≢ none
          → (roll_back system_stage (remove true) r).0.staged ≡ []
      discarded (g, none) n = absurd (n refl)
      discarded (g, some e) n = refl

      go :
          (b c : Bool)
          → b ≡ true
          → c ≡ true
          → let r =
              chain
                (chain (check b no_extensions h) (remove c))
                (λ g. roll_back system_stage (remove c) (stage_changes w d old.spec new.spec g)) in
            r.1 ≢ none → r.0.staged ≡ []
      go true true e k = discarded _
      go true false e k = absurd cc
      go false c e k = absurd cc
