-- ===== src/Tests/Watcher.antt =====
-- The health tracker at concrete inputs.
use openshift_machine_config.Common.{◌≡◌, refl, none, [], ◌∷◌, arith}
use openshift_machine_config.Watcher.Tracker.{initial_tracker, run_checks, on_failure}
use openshift_machine_config.Watcher.Tracker.Runs.{
  failures_trigger, run_checks-Alternates, replicate, Alternates, last_trigger, last,
}

failures_trigger_example : (run_checks initial_tracker (replicate 8 "failed")).1 ≡ on_failure ∷ []
failures_trigger_example = failures_trigger initial_tracker 8 (omega arith) refl

run_checks-Alternates_example :
    let (u, xs) = run_checks initial_tracker ("ok" ∷ replicate 9 "failed") in
    Alternates none xs × (last_trigger u.state ≡ last none xs)
run_checks-Alternates_example = run_checks-Alternates initial_tracker ("ok" ∷ replicate 9 "failed")
