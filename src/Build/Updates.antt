-- ===== src/Build/Updates.antt =====
-- The updates of a pool by pkg/controller/build/build_controller.go. An update reads the pool from the API
-- server, changes it, and writes it back; each call may fail. RetryOnConflict tries again, which is one
-- more update.
use openshift_machine_config.Common.{
  ℕ, String, ◌==◌, Bool, not, Option, none, some, List, [], ◌∷◌, if◌then◌else◌,
}
use openshift_machine_config.Kube.{Condition, ObjectReference, Pool, status_true, status_false}
use openshift_machine_config.Conditions.{new_condition, set_pool_condition}
use openshift_machine_config.Layered.{
  is_build_success, is_build_pending, is_building, is_build_failure,
}
use openshift_machine_config.Build.{
  machine_config_pool, set_image_pullspec, clear_image_pullspec,
  delete_build_ref_for_current_machine_config, has_build_object_ref, add_build_object_ref,
  with_conditions, set_build_conditions, clear_all_build_conditions,
}

-- Which calls succeed: the read, the update of the pool, and the update of its status. `time` gives the
-- time of each new condition by its type.
pub record Answers : Type 0 where
  pub read : Bool
  pub updated : Bool
  pub status_updated : Bool
  pub time : String → ℕ

pub data BuildError : Type 0 where
  not_read not_updated status_not_updated invalid_ref build_failed no_pullspec not_cleaned_up :
      BuildError

-- The conditions that a step sets, as type, reason and status.
abbrev pub wanted : Answers → String → String → String → Condition
wanted a type reason status = new_condition (a.time type) type status reason ""

abbrev pub failed_conditions : Answers → List Condition
failed_conditions a =
    wanted a "BuildFailed" "BuildFailed" status_true
    ∷ wanted a "BuildSuccess" "" status_false
    ∷ wanted a "Building" "" status_false
    ∷ wanted a "BuildPending" "" status_false
    ∷ wanted a "Degraded" "" status_true
    ∷ []

abbrev pub in_progress_conditions : Answers → List Condition
in_progress_conditions a =
    wanted a "BuildFailed" "" status_false
    ∷ wanted a "BuildSuccess" "" status_false
    ∷ wanted a "Building" "BuildRunning" status_true
    ∷ wanted a "BuildPending" "" status_false
    ∷ []

abbrev pub succeeded_conditions : Answers → List Condition
succeeded_conditions a =
    wanted a "BuildFailed" "" status_false
    ∷ wanted a "BuildSuccess" "BuildSucceeded" status_true
    ∷ wanted a "Building" "" status_false
    ∷ wanted a "Degraded" "" status_false
    ∷ []

abbrev pub pending_conditions : Answers → List Condition
pending_conditions a =
    wanted a "BuildFailed" "" status_false
    ∷ wanted a "BuildSuccess" "" status_false
    ∷ wanted a "Building" "" status_false
    ∷ wanted a "BuildPending" "BuildPending" status_true
    ∷ []

abbrev pub set_all : List Condition → Pool → Pool
set_all news pool = with_conditions pool (set_build_conditions pool.status.conditions news)

-- The status subresource: an update of the status leaves the rest of the stored pool, and an update of
-- the pool leaves the status.
abbrev pub write_status : Pool → Pool → Pool
write_status stored pool = record stored { status = pool.status }

abbrev pub write_pool : Pool → Pool → Pool
write_pool stored pool = record pool { status = stored.status }

abbrev pub set_render_degraded : Answers → String → String → Pool → Pool
set_render_degraded a status message pool = with_conditions pool (
    set_pool_condition pool.status.conditions
      (new_condition (a.time "RenderDegraded") "RenderDegraded" status "" message))

-- Each update returns the pool as it is stored afterwards, and its error.
unfoldable pub sync_available_status : Answers → Pool → Pool → Pool × Option BuildError
sync_available_status a stored pool =
    if a.status_updated
    then (write_status stored (set_render_degraded a status_false "" pool), none)
    else (stored, some status_not_updated)

-- `message` stands for the text of the error; what the code returns is that error, written or not.
unfoldable pub sync_failing_status : Answers → Pool → Pool → String → Pool × Option BuildError
sync_failing_status a stored pool message = (
  if a.status_updated
      then write_status stored (set_render_degraded a status_true message pool)
      else stored,
  some build_failed,
)

unfoldable pub update_pool_and_sync_available_status :
    Answers → Pool → Pool → Pool × Option BuildError
update_pool_and_sync_available_status a stored pool =
    let after = write_pool stored pool in
    let result = sync_available_status a after (write_status after pool) in
    if a.updated then result else (stored, some not_updated)

unfoldable pub mark_build_failed : Answers → String → Pool → Pool × Option BuildError
mark_build_failed a message stored =
    if not a.read
    then (stored, some not_read)
    else sync_failing_status a stored (machine_config_pool (set_all (failed_conditions a) stored))
        message

unfoldable pub mark_build_in_progress : Answers → Pool → Pool × Option BuildError
mark_build_in_progress a stored =
    if not a.read
    then (stored, some not_read)
    else sync_available_status a stored
        (machine_config_pool (set_all (in_progress_conditions a) stored))

-- What markBuildSucceeded makes of the pool that it reads.
unfoldable pub succeeded_pool : Answers → String → Pool → Pool
succeeded_pool a pullspec pool = machine_config_pool (
    set_all (succeeded_conditions a)
      (delete_build_ref_for_current_machine_config (set_image_pullspec pullspec pool)))

-- `pullspec` is what FinalPullspec returns, none on its error, and `cleaned` tells whether
-- postBuildCleanup succeeded.
unfoldable pub mark_build_succeeded :
    Answers → Option String → Bool → Pool → Pool × Option BuildError
mark_build_succeeded a none cleaned stored = (stored, some no_pullspec)
mark_build_succeeded a (some pullspec) cleaned stored =
    if pullspec == ""
    then (stored, some no_pullspec)
    else if not cleaned
    then (stored, some not_cleaned_up)
    else if not a.read
    then (stored, some not_read)
    else update_pool_and_sync_available_status a stored (succeeded_pool a pullspec stored)

abbrev pub add_ref_and_update : Answers → Pool → Option Pool → Pool × Option BuildError
add_ref_and_update a stored none = (stored, some invalid_ref)
add_ref_and_update a stored (some pool) =
    update_pool_and_sync_available_status a stored (machine_config_pool pool)

unfoldable pub mark_build_pending_with_object_ref :
    Answers → ObjectReference → Pool → Pool × Option BuildError
mark_build_pending_with_object_ref a ref stored =
    let pool = set_all (pending_conditions a) stored in
    if not a.read
    then (stored, some not_read)
    else if has_build_object_ref ref pool
    then sync_available_status a stored (machine_config_pool pool)
    else add_ref_and_update a stored (add_build_object_ref ref pool)

-- `cleaned` tells whether postBuildCleanup succeeded.
unfoldable pub finalize_opt_out : Answers → Bool → Pool → Pool × Option BuildError
finalize_opt_out a cleaned stored =
    let pool = clear_image_pullspec (delete_build_ref_for_current_machine_config stored) in
    if not cleaned
    then (stored, some not_cleaned_up)
    else if not a.read
    then (stored, some not_read)
    else update_pool_and_sync_available_status a stored (
        machine_config_pool
          (with_conditions pool (clear_all_build_conditions pool.status.conditions)))

-- The phases of a build, and of a pod that builds.
pub data BuildPhase : Type 0 where
  new_build pending_build running_build complete_build failed_build errored_build cancelled_build :
      BuildPhase
  other_build : BuildPhase

pub data PodPhase : Type 0 where
  pending_pod running_pod succeeded_pod failed_pod unknown_pod : PodPhase

-- What an object that builds tells: the object, the pullspec that it made, and the cleaning up.
pub record Report : Type 0 where
  pub ref : ObjectReference
  pub pullspec : Option String
  pub cleaned : Bool
  pub message : String

-- The switches of imageBuildUpdater and customBuildPodUpdater; `seen` is the pool that was read before
-- them, `stored` the one that the update finds.
module _ (a : Answers) (r : Report) (seen stored : Pool) where
  abbrev pub unless : Bool → Pool × Option BuildError → Pool × Option BuildError
  unless test result = if test then (stored, none) else result

  abbrev pub go_pending : Pool × Option BuildError
  go_pending = unless (is_build_pending seen) (mark_build_pending_with_object_ref a r.ref stored)

  abbrev pub go_building : Pool × Option BuildError
  go_building = unless (is_building seen) (mark_build_in_progress a stored)

  abbrev pub go_succeeded : Pool × Option BuildError
  go_succeeded = unless (is_build_success seen) (mark_build_succeeded a r.pullspec r.cleaned stored)

  abbrev pub go_failed : Pool × Option BuildError
  go_failed = unless (is_build_failure seen) (mark_build_failed a r.message stored)

  unfoldable pub image_build_updater : BuildPhase → Pool × Option BuildError
  image_build_updater new_build = go_pending
  image_build_updater pending_build = go_pending
  image_build_updater running_build = go_building
  image_build_updater complete_build = go_succeeded
  image_build_updater failed_build = go_failed
  image_build_updater errored_build = go_failed
  image_build_updater cancelled_build = go_failed
  image_build_updater other_build = (stored, none)

  unfoldable pub custom_build_pod_updater : PodPhase → Pool × Option BuildError
  custom_build_pod_updater pending_pod = go_pending
  custom_build_pod_updater running_pod = go_building
  custom_build_pod_updater succeeded_pod = go_succeeded
  custom_build_pod_updater failed_pod = go_failed
  custom_build_pod_updater unknown_pod = (stored, none)
