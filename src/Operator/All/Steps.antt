-- ===== src/Operator/All/Steps.antt =====
-- Each report of the operator, where the calls on the cluster operator succeed.
use openshift_machine_config.Common.{
  ◌≡◌, refl, ap, ◌∙◌, String, Bool, true, false, ◌&&◌, not, Option, none, some, is_some, List, [],
  ◌∷◌, Bool-cases, inl, inr, if◌then◌else◌,
}
use openshift_machine_config.Kube.{Pool}
use openshift_machine_config.Operator.{
  World, Operator, ClusterOperator, OperatorCondition, Step, reads, upgradeable, related, version,
  Lawful, clearing, with_cluster_operator, update_status, set_operator_status_extension, is_true,
  get_all_versions,
}
use openshift_machine_config.Operator.Status.{
  SyncError, clear_degraded_status, is_cleared_by, degraded_condition, degrade,
  sync_degraded_status, sync_progressing_status, sync_available_status, sync_upgradeable_status,
  sync_version, sync_related_objects, sync_metrics, upgradeable_condition, skew_of_pools,
  bool_status, hinders, failure_reason, as_expected, upgradeable_listed,
}
use openshift_machine_config.Operator.All.{Task}

-- Every call succeeds and the pools are `ps`.
pub record IsWell (world : World) (ps : List Pool) : Type 0 where
  pub lawful : Lawful world.helpers
  pub all_read : (s : Step) → world.reading s ≡ reads
  pub all_written : (s : Step) → world.updates s ≡ true
  pub listed : world.pools ≡ some ps

-- The first task that fails.
abbrev pub first_failing : List Task → SyncError
first_failing [] = none
first_failing (t ∷ tasks) = if t.fails then some t.name else first_failing tasks

abbrev pub holding : ClusterOperator → Bool → Operator
holding co b = record { stored = some co; in_cluster_bringup = b }

-- What is reported of a failed task.
abbrev pub degraded_report : SyncError → OperatorCondition
degraded_report err = record {
  type = "Degraded";
  status = bool_status (is_some err);
  reason = failure_reason err "";
}

abbrev pub available_condition : SyncError → OperatorCondition
available_condition err = record {
  type = "Available";
  status = bool_status (not (hinders err));
  reason = if hinders err then failure_reason err "" else as_expected;
}

module _ (world : World) (ps : List Pool) (well : IsWell world ps) where
  written :
      (s : Step) (f : ClusterOperator → Option ClusterOperator) (co new : ClusterOperator)
      (b : Bool)
      → f co ≡ some new
      → with_cluster_operator world s f (holding co b) ≡ (holding new b, false)
  unfolding with_cluster_operator
  written s f co new b e = rw (well.all_read s, e, well.all_written s) refl

  unwritten :
      (s : Step) (f : ClusterOperator → Option ClusterOperator) (co : ClusterOperator) (b : Bool)
      → f co ≡ none
      → with_cluster_operator world s f (holding co b) ≡ (holding co b, false)
  unfolding with_cluster_operator
  unwritten s f co b e = rw (well.all_read s, e) refl

  pub degraded_lem :
      (err : SyncError) (co : ClusterOperator) (b : Bool)
      → sync_degraded_status world err (holding co b) ≡ (holding (degrade world err co) b, false)
  unfolding sync_degraded_status
  degraded_lem err co b = written _ _ co (degrade world err co) b refl

  pub available_lem :
      (err : SyncError) (co : ClusterOperator) (b : Bool)
      → sync_available_status world err (holding co b)
        ≡ (holding (update_status world co (available_condition err)) b, false)
  unfolding sync_available_status
  available_lem err co b = written _ _ co (update_status world co (available_condition err)) b refl

  pub upgradeable_lem :
      (co : ClusterOperator) (b : Bool)
      → sync_upgradeable_status world (holding co b) ≡ (
        holding (update_status world co (upgradeable_condition (skew_of_pools world ps) ps)) b,
        false,
      )
  unfolding sync_upgradeable_status
  upgradeable_lem co b =
      ap (λ l. upgradeable_listed world l (holding co b)) well.listed
      ∙ written upgradeable
          (λ c. some (update_status world c (upgradeable_condition (skew_of_pools world ps) ps))) co
          (update_status world co (upgradeable_condition (skew_of_pools world ps) ps)) b refl

  abbrev pub stands : ClusterOperator → Bool
  stands co = is_true world co "Progressing" && is_true world co "Degraded"

  abbrev pub new_versions : ClusterOperator → ClusterOperator
  new_versions co =
      set_operator_status_extension world
        (record co { versions = get_all_versions world.version_store })

  version_written : ClusterOperator → Option ClusterOperator
  version_written co = if stands co then none else some (new_versions co)

  -- What is made of the versions.
  unfoldable pub versioned : ClusterOperator → ClusterOperator
  versioned co = if stands co then co else new_versions co

  pub version_lem :
      (co : ClusterOperator) (b : Bool)
      → sync_version world (holding co b) ≡ (holding (versioned co) b, false)
  unfolding sync_version versioned version_written
  version_lem co b = elim (Bool-cases (stands co)) [
    | inl h ↦ unwritten version version_written co b (rw h refl) ∙ rw h refl
    | inr h ↦ written version version_written co (new_versions co) b (rw h refl) ∙ rw h refl
  ]

  pub related_lem :
      (co : ClusterOperator) (b : Bool)
      → sync_related_objects world (holding co b) ≡ (holding co b, false)
  unfolding sync_related_objects
  related_lem co b = elim (Bool-cases world.related_differ) [
    | inl h ↦
        written related (λ c. if world.related_differ then some c else none) co co b (rw h refl)
    | inr h ↦
        unwritten related (λ c. if world.related_differ then some c else none) co b (rw h refl)
  ]

  pub metrics_lem :
      (co : ClusterOperator) (b : Bool) → sync_metrics world (holding co b) ≡ (holding co b, false)
  unfolding sync_metrics
  metrics_lem co b = rw well.listed refl

  -- An object is still stored, and the flag is as it was.
  abbrev pub Holds : Bool → Operator × Bool → Type 0
  Holds b r = (co : ClusterOperator) × (r ≡ (holding co b, false))

  pub progressing_lem :
      (co : ClusterOperator) (b : Bool) → Holds b (sync_progressing_status world (holding co b))
  unfolding sync_progressing_status
  progressing_lem co b = (_, written _ _ co _ b refl)

  pub clear-Holds :
      (task : String) (co : ClusterOperator) (b : Bool)
      → Holds b (clear_degraded_status world task (holding co b))
  unfolding clear_degraded_status
  clear-Holds task co b =
      rw (well.all_read (clearing task), unwritten (clearing task) (λ c. none) co b refl)
        (go (is_cleared_by world task (degraded_condition world (holding co b))))
    where
      go :
          (c : Bool)
          → Holds b
              (if c then sync_degraded_status world none (holding co b) else (holding co b, false))
      go true = (degrade world none co, degraded_lem none co b)
      go false = (co, refl)
