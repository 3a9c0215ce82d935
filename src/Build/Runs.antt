-- ===== src/Build/Runs.antt =====
-- What holds of a pool however the build controller has updated it.
use openshift_machine_config.Common.{
  ◌≡◌, inl, inr, refl, ap, ◌∙◌, Bool, true, false, Option, List, [], ◌∷◌, arith, String, ◌==◌,
  ==_iff, Bool-cases,
}
use openshift_machine_config.Kube.{Condition, Pool, ObjectReference}
use openshift_machine_config.Conditions.{is_condition_true, is_condition_present_and_equal}
use openshift_machine_config.Conditions.Unique.{IsUnique, has_type}
use openshift_machine_config.Layered.{is_build_pending}
use openshift_machine_config.Build.{
  is_build_type, clear_all_build_conditions, clear_image_pullspec,
  delete_build_ref_for_current_machine_config, delete_build_ref_by_name, machine_config_pool,
  set_build_conditions,
}
use openshift_machine_config.Build.Updates.{
  Answers, BuildError, Report, PodPhase, BuildPhase, succeeded_pod, custom_build_pod_updater,
  image_build_updater, finalize_opt_out, mark_build_pending_with_object_ref,
}
use openshift_machine_config.Build.Marks.{
  BuildState, idle, pending, flags, IsAt, set_build_conditions-Says,
}
use openshift_machine_config.Build.Landing.{
  conditions, Lands, mark_build_pending-Lands, update_pool-Lands, unread-Lands,
}
use openshift_machine_config.Build.Machine.{
  next, as_pod, Moves, Lands-Moves, custom_build_pod_updater-Moves, image_build_updater_lem,
}
use openshift_machine_config.Build.Refs.{
  HasOneBuild, custom_build_pod_updater-HasOneBuild, mark_build_pending-HasOneBuild,
  finalize_opt_out-HasOneBuild,
}

has_type-clear :
    (t : String) (cs : List Condition)
    → has_type t cs ≡ false
    → has_type t (clear_all_build_conditions cs) ≡ false
unfolding clear_all_build_conditions
has_type-clear t [] h = refl
has_type-clear t (c ∷ cs) h = elim (Bool-cases (is_build_type c.type)) [
  | inl e ↦ rw e (has_type-clear t cs (ground (arith, h)))
  | inr e ↦ rw e (ground (arith, h, has_type-clear t cs))
]

clear-IsUnique : (cs : List Condition) → IsUnique cs → IsUnique (clear_all_build_conditions cs)
unfolding clear_all_build_conditions
clear-IsUnique [] u = u
clear-IsUnique (c ∷ cs) u = elim (Bool-cases (is_build_type c.type)) [
  | inl e ↦ rw e (clear-IsUnique cs u.1)
  | inr e ↦ rw e (has_type-clear c.type cs u.0, clear-IsUnique cs u.1)
]

other_type : (t u : String) → is_build_type t ≡ true → is_build_type u ≡ false → (u == t) ≡ false
other_type t u h e = elim (Bool-cases (u == t)) [
  | inl q ↦ absurd (cc (h, e, ap is_build_type ((==_iff u t).0 q)))
  | inr q ↦ q
]

cleared :
    (t : String) (cs : List Condition)
    → is_build_type t ≡ true
    → is_condition_true (clear_all_build_conditions cs) t ≡ false
unfolding clear_all_build_conditions is_condition_true is_condition_present_and_equal
cleared t [] h = refl
cleared t (c ∷ cs) h = elim (Bool-cases (is_build_type c.type)) [
  | inl e ↦ rw e (cleared t cs h)
  | inr e ↦ rw (e, other_type t c.type h e) (cleared t cs h)
]

clear-Says : (cs : List Condition) → IsUnique cs → IsAt (clear_all_build_conditions cs) idle
clear-Says cs u =
    let c = λ (t : String) (h : is_build_type t ≡ true). cleared t cs h in
    (
      clear-IsUnique cs u,
      rw (c "BuildFailed" refl, c "BuildPending" refl, c "BuildSuccess" refl, c "Building" refl)
          refl,
    )

-- Opting out clears the build.
finalize_opt_out-Lands :
    (a : Answers) (cleaned : Bool) (stored : Pool)
    → IsUnique (conditions stored)
    → Lands stored (flags idle) (finalize_opt_out a cleaned stored)
unfolding finalize_opt_out machine_config_pool clear_image_pullspec
    delete_build_ref_for_current_machine_config delete_build_ref_by_name set_build_conditions
finalize_opt_out-Lands a cleaned stored u =
    let at = clear-Says (conditions stored) u in
    unread-Lands stored (flags idle) cleaned _ _ (
      unread-Lands stored (flags idle) a.read _ _ (
        update_pool-Lands a stored (flags idle) _ (λ c e.
          set_build_conditions-Says (clear_all_build_conditions (conditions stored)) [] c
            (flags idle) e at.0 at.1)))

-- The reports that the controller follows, in any order; a pool that is pending is reported to run before
-- it is reported to have succeeded.
pub data Run (start : Pool) : Pool → Type 0 where
  begin : Run start start
  begin_build :
      {p : Pool}
      → Run start p
      → (a : Answers) (ref : ObjectReference)
      → Run start (mark_build_pending_with_object_ref a ref p).0
  report_pod :
      {p : Pool}
      → Run start p
      → (a : Answers) (r : Report) (phase : PodPhase)
      → (phase ≡ succeeded_pod → is_build_pending p ≡ false)
      → Run start (custom_build_pod_updater a r p p phase).0
  report_build :
      {p : Pool}
      → Run start p
      → (a : Answers) (r : Report) (phase : BuildPhase)
      → (as_pod phase ≡ succeeded_pod → is_build_pending p ≡ false)
      → Run start (image_build_updater a r p p phase).0
  leave :
      {p : Pool}
      → Run start p
      → (a : Answers) (cleaned : Bool) → Run start (finalize_opt_out a cleaned p).0

-- The build is in one state, and the pool refers to one build at most.
abbrev pub IsConsistent : Pool → Type 0
IsConsistent p = ((s : BuildState) × IsAt (conditions p) s) × HasOneBuild p

moved :
    (s s' : BuildState) (r : Pool × Option BuildError)
    → Moves s s' r
    → (s : BuildState) × IsAt (conditions r.0) s
moved s s' r (inl h, k) = (s, h)
moved s s' r (inr h, k) = (s', h)

pending_at :
    (p : Pool) (s : BuildState) → IsAt (conditions p) s → s ≡ pending → is_build_pending p ≡ true
unfolding is_build_pending
pending_at p s at h = ap (λ t. t.1) at.1 ∙ ap (λ b. (flags b).1) h

report-IsConsistent :
    (p : Pool) (a : Answers) (r : Report) (phase : PodPhase)
    → (phase ≡ succeeded_pod → is_build_pending p ≡ false)
    → IsConsistent p
    → IsConsistent (custom_build_pod_updater a r p p phase).0
report-IsConsistent p a r phase n ((s, at), one) = (
  moved s (next s phase) (custom_build_pod_updater a r p p phase)
      (custom_build_pod_updater-Moves a r p p s at at phase
        (λ e h. absurd (cc (pending_at p s at h, n e)))).0,
  custom_build_pod_updater-HasOneBuild a p one r p phase,
)

start_build-IsConsistent :
    (p : Pool) (a : Answers) (ref : ObjectReference)
    → IsConsistent p
    → IsConsistent (mark_build_pending_with_object_ref a ref p).0
start_build-IsConsistent p a ref ((s, at), one) =
    let r = mark_build_pending_with_object_ref a ref p in
    (
      moved s pending r (Lands-Moves p s pending r at (mark_build_pending-Lands a p at.0 ref)),
      mark_build_pending-HasOneBuild a p one ref,
    )

opt_out-IsConsistent :
    (p : Pool) (a : Answers) (cleaned : Bool)
    → IsConsistent p
    → IsConsistent (finalize_opt_out a cleaned p).0
opt_out-IsConsistent p a cleaned ((s, at), one) =
    let r = finalize_opt_out a cleaned p in
    (
      moved s idle r (Lands-Moves p s idle r at (finalize_opt_out-Lands a cleaned p at.0)),
      finalize_opt_out-HasOneBuild a p one cleaned,
    )

-- However the controller starts a build, follows the reports of pods and builds and opts out, with any
-- of its calls failing, the build conditions of the pool say one state of a build, each condition type
-- stands at most once, and the pool refers to one build at most; they did at the start, and no report
-- of success comes while the pool is marked as pending.
pub Run-IsConsistent : (start p : Pool) → Run start p → IsConsistent start → IsConsistent p
Run-IsConsistent start p begin h = h
Run-IsConsistent start p (begin_build {p = q} run a ref) h =
    start_build-IsConsistent q a ref (Run-IsConsistent start q run h)
Run-IsConsistent start p (report_pod {p = q} run a r phase n) h =
    report-IsConsistent q a r phase n (Run-IsConsistent start q run h)
Run-IsConsistent start p (report_build {p = q} run a r phase n) h =
    rw (image_build_updater_lem a r q q phase)
      (report-IsConsistent q a r (as_pod phase) n (Run-IsConsistent start q run h))
Run-IsConsistent start p (leave {p = q} run a cleaned) h =
    opt_out-IsConsistent q a cleaned (Run-IsConsistent start q run h)
