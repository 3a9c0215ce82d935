-- ===== src/Watcher/Tracker.antt =====
-- healthTracker of cmd/apiserver-watcher/run.go: OnComplete, and its triggers over a run of checks. The
-- counters are Go ints, 64 bits wide; at one check in two seconds they do not wrap.
pub mod Runs
use openshift_machine_config.Common.{
  ℕ, ◌+◌, String, ◌==◌, Bool, true, false, ◌&&◌, not, Option, none, some, List, [], ◌∷◌, leb,
  if◌then◌else◌,
}

pub data TrackerState : Type 0 where
  unknown_state failed_state succeeded_state : TrackerState

pub record HealthTracker : Type 0 where
  pub state : TrackerState
  pub succeeded : ℕ
  pub failed : ℕ
  pub success_threshold : ℕ
  pub failure_threshold : ℕ

-- The callback that OnComplete runs.
pub data Trigger : Type 0 where
  on_success on_failure : Trigger

abbrev pub is_failed : TrackerState → Bool
is_failed failed_state = true
is_failed _ = false

abbrev pub is_succeeded : TrackerState → Bool
is_succeeded succeeded_state = true
is_succeeded _ = false

-- `status` is that of the completed check; an error of the callback goes to a channel, and the state
-- is set all the same.
unfoldable pub on_complete : HealthTracker → String → HealthTracker × Option Trigger
on_complete t status =
    if status == "ok"
    then (let counted = record t { failed = 0; succeeded = t.succeeded + 1 } in
        if leb t.success_threshold (t.succeeded + 1)
        then (
          record counted { state = succeeded_state },
          if is_succeeded t.state then none else some on_success,
        )
        else (counted, none))
    else if status == "failed"
    then (let counted = record t { succeeded = 0; failed = t.failed + 1 } in
        if leb t.failure_threshold (t.failed + 1)
        then (
          record counted { state = failed_state },
          if is_failed t.state then none else some on_failure,
        )
        else (counted, none))
    else (t, none)

abbrev pub cons_trigger : Option Trigger → List Trigger → List Trigger
cons_trigger none l = l
cons_trigger (some x) l = x ∷ l

-- A run of completed checks, with the callbacks in order.
unfoldable pub run_checks : HealthTracker → List String → HealthTracker × List Trigger
run_checks t [] = (t, [])
run_checks t (s ∷ l) =
    let (t', x) = on_complete t s in let (u, xs) = run_checks t' l in (u, cons_trigger x xs)

-- The tracker that runRunCmd makes.
abbrev pub initial_tracker : HealthTracker
initial_tracker = record {
  state = unknown_state;
  succeeded = 0;
  failed = 0;
  success_threshold = 1;
  failure_threshold = 8;
}
