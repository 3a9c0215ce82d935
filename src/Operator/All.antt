-- ===== src/Operator/All.antt =====
-- syncAll of pkg/operator/sync.go: the tasks of the operator in their order, and what is reported.
pub mod Steps
pub mod Reports
use openshift_machine_config.Common.{
  String, ◌==◌, Bool, true, false, ◌&&◌, not, Option, none, some, is_some, List, [], ◌∷◌,
  if◌then◌else◌,
}
use openshift_machine_config.Operator.{World, Operator}
use openshift_machine_config.Operator.Status.{
  SyncError, then_sync, sync_progressing_status, sync_available_status, sync_degraded_status,
  clear_degraded_status, sync_upgradeable_status, sync_version, sync_related_objects, sync_metrics,
}

-- A task, by its name and whether its function fails.
pub record Task : Type 0 where
  pub name : String
  pub fails : Bool

-- How the loop over the tasks ends: with the error of the last one that ran, or with an error of
-- clearDegradedStatus. `ran` are the tasks that were run, and
-- `is_saved` is whether safetySyncControllerConfig was, of which the error is only logged.
pub record Ran : Type 0 where
  pub operator : Operator
  pub ran : List String
  pub error : SyncError
  pub is_saved : Bool
  pub is_clear_error : Bool

abbrev pub add_ran : String → Ran → Ran
add_ran name r = record r { ran = name ∷ r.ran }

-- What syncAll returns: no error, the error of a task, or one of the reports.
pub data Outcome : Type 0 where
  all_synced report_failed : Outcome
  failed_task : String → Outcome

abbrev pub outcome_of : SyncError → Outcome
outcome_of none = all_synced
outcome_of (some task) = failed_task task

module _ (world : World) where
  abbrev pub after_clear : String → (Operator → Ran) → Operator × Bool → Ran
  after_clear name rest (op, true) = record {
    operator = op;
    ran = name ∷ [];
    error = none;
    is_saved = false;
    is_clear_error = true;
  }
  after_clear name rest (op, false) = add_ran name (rest op)

  unfoldable pub run_tasks : List Task → Operator → Ran
  run_tasks [] op = record {
    operator = op;
    ran = [];
    error = none;
    is_saved = false;
    is_clear_error = false;
  }
  run_tasks (t ∷ tasks) op =
      if t.fails
      then record {
        operator = op;
        ran = t.name ∷ [];
        error = some t.name;
        is_saved = t.name == "MachineConfigDaemon";
        is_clear_error = false;
      }
      else after_clear t.name (run_tasks tasks) (clear_degraded_status world t.name op)

  -- The reports in their order; the first error ends them.
  unfoldable pub report_all : SyncError → Operator → Operator × Bool
  report_all err op = then_sync world (sync_metrics world) (
      then_sync world (sync_related_objects world) (
        then_sync world (sync_version world) (
          then_sync world (sync_upgradeable_status world) (
            then_sync world (sync_available_status world err)
              (sync_degraded_status world err op)))))

  abbrev pub bring_up : SyncError → Operator → Operator
  bring_up none op = record op { in_cluster_bringup = false }
  bring_up (some task) op = op

  abbrev pub end_sync : SyncError → Operator × Bool → Operator × Outcome
  end_sync err (op, true) = (op, report_failed)
  end_sync err (op, false) = (bring_up err op, outcome_of err)

  abbrev pub after_tasks : Ran → Operator × Outcome
  after_tasks r =
      if r.is_clear_error
      then (r.operator, report_failed)
      else end_sync r.error (report_all r.error r.operator)

  abbrev pub after_progressing : List Task → Operator × Bool → Operator × Outcome
  after_progressing tasks (op, true) = (op, report_failed)
  after_progressing tasks (op, false) = after_tasks (run_tasks tasks op)

  unfoldable pub sync_all : List Task → Operator → Operator × Outcome
  sync_all tasks op = after_progressing tasks (sync_progressing_status world op)
