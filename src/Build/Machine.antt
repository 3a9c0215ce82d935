-- ===== src/Build/Machine.antt =====
-- The build of a pool as a state machine, and that the reports of a build move the pool along it.
use mathlib.Core.Path.{subst}
use openshift_machine_config.Common.{
  ◌≡◌, ◌≢◌, ◌⊎◌, inl, inr, refl, sym, ap, ◌∙◌, Bool, true, false, Option, none,
}
use openshift_machine_config.Kube.{Pool}
use openshift_machine_config.Layered.{
  is_build_success, is_build_pending, is_building, is_build_failure,
}
use openshift_machine_config.Build.Updates.{
  Answers, BuildError, Report, PodPhase, pending_pod, running_pod, succeeded_pod, failed_pod,
  unknown_pod, BuildPhase, new_build, pending_build, running_build, complete_build, failed_build,
  errored_build, cancelled_build, other_build, unless, custom_build_pod_updater,
  image_build_updater, mark_build_succeeded, go_pending, go_building, go_succeeded, go_failed,
}
use openshift_machine_config.Build.Marks.{
  BuildState, idle, pending, building, succeeded, failed, flags, IsAt,
}
use openshift_machine_config.Build.Landing.{
  conditions, Lands, mark_build_in_progress-Lands, mark_build_pending-Lands,
  mark_build_succeeded-Lands, mark_build_failed-Lands,
}

-- The state that a report of a pod leads to.
abbrev pub next : BuildState → PodPhase → BuildState
next s pending_pod = pending
next s running_pod = building
next s succeeded_pod = succeeded
next s failed_pod = failed
next s unknown_pod = s

-- A build object reports what a pod does.
abbrev pub as_pod : BuildPhase → PodPhase
as_pod new_build = pending_pod
as_pod pending_build = pending_pod
as_pod running_build = running_pod
as_pod complete_build = succeeded_pod
as_pod failed_build = failed_pod
as_pod errored_build = failed_pod
as_pod cancelled_build = failed_pod
as_pod other_build = unknown_pod

-- The build is where it was or in `s'`, and without an error it is in `s'`.
abbrev pub Moves : BuildState → BuildState → Pool × Option BuildError → Type 0
Moves s s' (after, err) =
    (IsAt (conditions after) s ⊎ IsAt (conditions after) s')
    × (err ≡ none → IsAt (conditions after) s')

pub Lands-Moves :
    (stored : Pool) (s s' : BuildState) (r : Pool × Option BuildError)
    → IsAt (conditions stored) s
    → Lands stored (flags s') r
    → Moves s s' r
Lands-Moves stored s s' (after, err) at (inl e, h) = (inl (subst (λ cs. IsAt cs s) (sym e) at), h)
Lands-Moves stored s s' (after, err) at (inr k, h) = (inr k, h)

-- A pool that is marked already is left alone.
unless-Moves :
    (a : Answers) (r : Report) (seen stored : Pool) (s s' : BuildState) (test : Bool)
    (result : Pool × Option BuildError)
    → IsAt (conditions stored) s
    → (test ≡ true → s ≡ s')
    → Lands stored (flags s') result
    → Moves s s' (unless a r seen stored test result)
unless-Moves a r seen stored s s' true result at same h =
    (inl at, λ e. subst (IsAt (conditions stored)) (same refl) at)
unless-Moves a r seen stored s s' false result at same h = Lands-Moves stored s s' result at h

-- Each of the four conditions tells its state apart from the others.
pending_true : (s : BuildState) → (flags s).1 ≡ true → s ≡ pending
pending_true pending e = refl
pending_true idle e = absurd cc
pending_true building e = absurd cc
pending_true succeeded e = absurd cc
pending_true failed e = absurd cc

building_true : (s : BuildState) → (flags s).3 ≡ true → s ≡ building
building_true building e = refl
building_true idle e = absurd cc
building_true pending e = absurd cc
building_true succeeded e = absurd cc
building_true failed e = absurd cc

succeeded_true : (s : BuildState) → (flags s).2 ≡ true → s ≡ succeeded
succeeded_true succeeded e = refl
succeeded_true idle e = absurd cc
succeeded_true pending e = absurd cc
succeeded_true building e = absurd cc
succeeded_true failed e = absurd cc

failed_true : (s : BuildState) → (flags s).0 ≡ true → s ≡ failed
failed_true failed e = refl
failed_true idle e = absurd cc
failed_true pending e = absurd cc
failed_true building e = absurd cc
failed_true succeeded e = absurd cc

not_pending : (s : BuildState) → s ≢ pending → (flags s).1 ≡ false
not_pending pending n = absurd (n refl)
not_pending idle n = refl
not_pending building n = refl
not_pending succeeded n = refl
not_pending failed n = refl

-- The pool that was read before the switch and the one that the update finds both stand at `s`.
module _ (a : Answers) (r : Report) (seen stored : Pool) (s : BuildState)
    (was : IsAt (conditions seen) s) (at : IsAt (conditions stored) s) where
  pending-Moves : Moves s pending (go_pending a r seen stored)
  unfolding is_build_pending
  pending-Moves =
      unless-Moves a r seen stored s pending (is_build_pending seen) _ at
        (λ e. pending_true s (sym (ap (λ t. t.1) was.1) ∙ e))
        (mark_build_pending-Lands a stored at.0 r.ref)

  building-Moves : Moves s building (go_building a r seen stored)
  unfolding is_building
  building-Moves =
      unless-Moves a r seen stored s building (is_building seen) _ at
        (λ e. building_true s (sym (ap (λ t. t.3) was.1) ∙ e))
        (mark_build_in_progress-Lands a stored at.0)

  succeeded-Moves : s ≢ pending → Moves s succeeded (go_succeeded a r seen stored)
  unfolding is_build_success is_build_pending
  succeeded-Moves n =
      unless-Moves a r seen stored s succeeded (is_build_success seen) _ at
        (λ e. succeeded_true s (sym (ap (λ t. t.2) was.1) ∙ e))
        (subst
          (λ p.
            Lands stored (false, p, true, false)
              (mark_build_succeeded a r.pullspec r.cleaned stored))
          (ap (λ t. t.1) at.1 ∙ not_pending s n)
          (mark_build_succeeded-Lands a stored at.0 r.pullspec r.cleaned))

  failed-Moves : Moves s failed (go_failed a r seen stored)
  unfolding is_build_failure
  failed-Moves =
      unless-Moves a r seen stored s failed (is_build_failure seen) _ at
        (λ e. failed_true s (sym (ap (λ t. t.0) was.1) ∙ e))
        (mark_build_failed-Lands a stored at.0 r.message).0

  -- A failure is told as an error even when it is written.
  failed_written :
      a.read ≡ true
      → a.status_updated ≡ true
      → IsAt (conditions (go_failed a r seen stored).0) failed
  unfolding is_build_failure
  failed_written h k =
      go (is_build_failure seen) (λ e. failed_true s (sym (ap (λ t. t.0) was.1) ∙ e)) _
        ((mark_build_failed-Lands a stored at.0 r.message).1 h k)
    where
      go :
          (test : Bool)
          → (test ≡ true → s ≡ failed)
          → (result : Pool × Option BuildError) → IsAt (conditions result.0) failed
          → IsAt (conditions (unless a r seen stored test result).0) failed
      go true e result h = subst (IsAt (conditions stored)) (e refl) at
      go false e result h = h

  -- A report of a pod moves the build of the pool as the abstract machine does: where the pool that
  -- was read and the one that is stored are in a state of the machine, the stored one is afterwards in
  -- that state or in the next, and in the next where no error is returned; a failure, which always
  -- returns one, is marked wherever the pool was read and its status written. A success is not
  -- reported of a pending pool.
  pub custom_build_pod_updater-Moves :
      (phase : PodPhase)
      → (phase ≡ succeeded_pod → s ≢ pending)
      → Moves s (next s phase) (custom_build_pod_updater a r seen stored phase)
        × (phase ≡ failed_pod
            → a.read ≡ true
            → a.status_updated ≡ true
            → IsAt (conditions (custom_build_pod_updater a r seen stored phase).0) failed)
  unfolding custom_build_pod_updater
  custom_build_pod_updater-Moves pending_pod n = (pending-Moves, λ e. absurd cc)
  custom_build_pod_updater-Moves running_pod n = (building-Moves, λ e. absurd cc)
  custom_build_pod_updater-Moves succeeded_pod n = (succeeded-Moves (n refl), λ e. absurd cc)
  custom_build_pod_updater-Moves failed_pod n = (failed-Moves, λ e. failed_written)
  custom_build_pod_updater-Moves unknown_pod n = ((inl at, λ e. at), λ e. absurd cc)

-- A build is followed as the pod that does the same is.
pub image_build_updater_lem :
    (a : Answers) (r : Report) (seen stored : Pool) (phase : BuildPhase)
    → image_build_updater a r seen stored phase
      ≡ custom_build_pod_updater a r seen stored (as_pod phase)
unfolding image_build_updater custom_build_pod_updater
image_build_updater_lem a r seen stored new_build = refl
image_build_updater_lem a r seen stored pending_build = refl
image_build_updater_lem a r seen stored running_build = refl
image_build_updater_lem a r seen stored complete_build = refl
image_build_updater_lem a r seen stored failed_build = refl
image_build_updater_lem a r seen stored errored_build = refl
image_build_updater_lem a r seen stored cancelled_build = refl
image_build_updater_lem a r seen stored other_build = refl
