-- ===== src/Watcher/Tracker/Runs.antt =====
-- What the triggers of a run of checks look like.
use openshift_machine_config.Common.{
  ℕ, zero, suc, ◌+◌, ◌<◌, ◌≡◌, ◌≢◌, refl, String, true, false, Option, none, some, List, [], ◌∷◌,
  arith, leb, Bool-cases, ◌⊎◌, inl, inr, if◌then◌else◌,
}
use openshift_machine_config.Watcher.Tracker.{
  TrackerState, unknown_state, failed_state, succeeded_state, HealthTracker, Trigger, on_success,
  on_failure, on_complete, run_checks, is_failed, is_succeeded, cons_trigger,
}

-- The callback after which a tracker is in the state.
abbrev pub last_trigger : TrackerState → Option Trigger
last_trigger unknown_state = none
last_trigger failed_state = some on_failure
last_trigger succeeded_state = some on_success

abbrev pub Differs : Option Trigger → Trigger → Type 0
Differs none x = Unit
Differs (some x) y = x ≢ y

-- No callback follows itself, and the first is not the one that is given.
abbrev pub Alternates : Option Trigger → List Trigger → Type 0
Alternates o [] = Unit
Alternates o (x ∷ l) = Differs o x × Alternates (some x) l

abbrev pub last : Option Trigger → List Trigger → Option Trigger
last o [] = o
last o (x ∷ l) = last (some x) l

-- A step from the state `a` to the state `b` with the callback `x`.
abbrev Fits : TrackerState → TrackerState → Option Trigger → Type 0
Fits a b none = last_trigger b ≡ last_trigger a
Fits a b (some y) = Differs (last_trigger a) y × (last_trigger b ≡ some y)

trigger-Fits :
    (a b : TrackerState) (x : Option Trigger)
    → ((x ≡ none) × (a ≡ b))
      ⊎ (((x ≡ (if is_succeeded a then none else some on_success)) × (b ≡ succeeded_state))
          ⊎ ((x ≡ (if is_failed a then none else some on_failure)) × (b ≡ failed_state)))
    → Fits a b x
trigger-Fits unknown_state b none h = ground arith
trigger-Fits failed_state b none h = ground arith
trigger-Fits succeeded_state b none h = ground arith
trigger-Fits unknown_state b (some y) h = ground arith
trigger-Fits failed_state b (some y) h = ground arith
trigger-Fits succeeded_state b (some y) h = ground arith

step-Fits :
    (t : HealthTracker) (s : String) → Fits t.state (on_complete t s).0.state (on_complete t s).1
step-Fits t s =
    trigger-Fits t.state (on_complete t s).0.state (on_complete t s).1
      (unfold on_complete in ground arith)

Alternates-cons :
    (a b c : TrackerState) (x : Option Trigger) (xs : List Trigger)
    → Fits a b x
    → Alternates (last_trigger b) xs × (last_trigger c ≡ last (last_trigger b) xs)
    → Alternates (last_trigger a) (cons_trigger x xs)
      × (last_trigger c ≡ last (last_trigger a) (cons_trigger x xs))
Alternates-cons a b c none xs f h = rw (← f) h
Alternates-cons a b c (some y) xs f h = let (h', e) = rw f.1 at h in ((f.0, h'), e)

-- Over any run of checks the callbacks alternate, and the state of the tracker is that of the last
-- callback that ran.
pub run_checks-Alternates :
    (t : HealthTracker) (l : List String)
    → let (u, xs) = run_checks t l in
      Alternates (last_trigger t.state) xs × (last_trigger u.state ≡ last (last_trigger t.state) xs)
unfolding run_checks
run_checks-Alternates t [] = (tt, refl)
run_checks-Alternates t (s ∷ l) =
    let (t', x) = on_complete t s in
    let (u, xs) = run_checks t' l in
    Alternates-cons t.state t'.state u.state x xs (step-Fits t s) (run_checks-Alternates t' l)

-- The same status, so often.
abbrev pub replicate : ℕ → String → List String
replicate zero s = []
replicate (suc n) s = s ∷ replicate n s

quiet_when_failed :
    (t : HealthTracker) (n : ℕ)
    → is_failed t.state ≡ true
    → (run_checks t (replicate n "failed")).1 ≡ []
unfolding run_checks
quiet_when_failed t zero h = refl
quiet_when_failed t (suc n) h =
    let u = (on_complete t "failed").0 in
    let step : (is_failed u.state ≡ true) × ((on_complete t "failed").1 ≡ none) =
      unfold on_complete in ground arith in
    rw step.1 (quiet_when_failed u n step.0)

fired_step :
    (t : HealthTracker)
    → is_failed t.state ≡ false
    → leb t.failure_threshold (t.failed + 1) ≡ true
    → ((on_complete t "failed").1 ≡ some on_failure)
      × (is_failed (on_complete t "failed").0.state ≡ true)
unfolding on_complete
fired_step t live reached = ground arith

counted_step :
    (t : HealthTracker)
    → leb t.failure_threshold (t.failed + 1) ≡ false
    → let u = (on_complete t "failed").0 in
      ((on_complete t "failed").1 ≡ none)
      × (u.state ≡ t.state)
      × (u.failed ≡ t.failed + 1)
      × (u.failure_threshold ≡ t.failure_threshold)
unfolding on_complete
counted_step t short = ground arith

-- The failure callback runs in a run of failed checks exactly when the checks that failed in a row
-- reach the threshold, and then once; the tracker is not in the failed state before the run, and
-- has counted fewer failures than the threshold.
pub failures_trigger :
    (t : HealthTracker) (n : ℕ)
    → t.failed < t.failure_threshold
    → is_failed t.state ≡ false
    → (run_checks t (replicate n "failed")).1
      ≡ (if leb t.failure_threshold (t.failed + n) then on_failure ∷ [] else [])
unfolding run_checks
failures_trigger t zero below live = ground arith
failures_trigger t (suc n) below live = elim (Bool-cases (leb t.failure_threshold (t.failed + 1))) [
  | inl reached ↦
      ground (arith, quiet_when_failed (on_complete t "failed").0 n, fired_step t live reached)
  | inr short ↦ ground (arith, failures_trigger (on_complete t "failed").0 n, counted_step t short)
]
