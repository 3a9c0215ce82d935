-- ===== src/Tests/Builds.antt =====
-- Builds of a pool at concrete inputs.
use openshift_machine_config.Common.{◌≡◌, ◌↔◌, refl, true, false, none, some, arith}
use openshift_machine_config.Kube.{ObjectReference, Pool}
use openshift_machine_config.Conditions.{is_condition_true}
use openshift_machine_config.Build.{get_build_object_refs}
use openshift_machine_config.Build.Refs.{HasOneBuild}
use openshift_machine_config.Build.Updates.{
  Answers, Report, running_pod, failed_pod, mark_build_succeeded, custom_build_pod_updater,
  mark_build_pending_with_object_ref, finalize_opt_out,
}
use openshift_machine_config.Build.Decisions.{
  sync_machine_config_pool, start_build, wants_build, sync_machine_config_pool_lem,
}
use openshift_machine_config.Build.Marks.{idle, failed, IsAt}
use openshift_machine_config.Build.Landing.{conditions, Lands, finished, mark_build_succeeded-Lands}
use openshift_machine_config.Build.Machine.{Moves, custom_build_pod_updater-Moves}
use openshift_machine_config.Build.Runs.{
  Run, begin, begin_build, report_pod, leave, IsConsistent, Run-IsConsistent,
}
use openshift_machine_config.Tests.Samples.{layered_pool}

abbrev answers : Answers
answers = record { read = true; updated = true; status_updated = true; time = λ t. 7 }

abbrev pod_ref : ObjectReference
pod_ref = record {
  kind = "Pod";
  api_version = "v1";
  uid = "1";
  namespace = "mco";
  name = "build-new";
}

abbrev report : Report
report = record { ref = pod_ref; pullspec = some "registry/image"; cleaned = true; message = "" }

abbrev pending_pool : Pool
pending_pool = (mark_build_pending_with_object_ref answers pod_ref layered_pool).0

idle_pool : IsAt (conditions layered_pool) idle
unfolding is_condition_true
idle_pool = ((refl, tt), refl)

no_build : HasOneBuild layered_pool
unfolding get_build_object_refs
no_build = omega arith

mark_build_succeeded-Lands_example :
    Lands layered_pool
      (finished layered_pool)
      (mark_build_succeeded answers (some "registry/image") true layered_pool)
mark_build_succeeded-Lands_example =
    mark_build_succeeded-Lands answers layered_pool idle_pool.0 (some "registry/image") true

custom_build_pod_updater-Moves_example :
    Moves idle failed (custom_build_pod_updater answers report layered_pool layered_pool failed_pod)
    × (failed_pod ≡ failed_pod
        → answers.read ≡ true
        → answers.status_updated ≡ true
        → IsAt
            (conditions
              (custom_build_pod_updater answers report layered_pool layered_pool failed_pod).0)
            failed)
custom_build_pod_updater-Moves_example =
    custom_build_pod_updater-Moves answers report layered_pool layered_pool idle idle_pool idle_pool
      failed_pod (λ e. absurd cc)

-- A build that starts, runs and is given up.
abbrev running_pool : Pool
running_pool = (custom_build_pod_updater answers report pending_pool pending_pool running_pod).0

abbrev left_pool : Pool
left_pool = (finalize_opt_out answers true running_pool).0

build_run : Run layered_pool left_pool
build_run =
    leave
      (report_pod (begin_build begin answers pod_ref) answers report running_pod (λ e. absurd cc))
      answers true

Run-IsConsistent_example : IsConsistent left_pool
Run-IsConsistent_example =
    Run-IsConsistent layered_pool left_pool build_run ((idle, idle_pool), no_build)

-- The layered pool without an image.
abbrev imageless_pool : Pool
imageless_pool = record layered_pool { annotations = none }

sync_machine_config_pool_lem_example :
    (sync_machine_config_pool (some false) imageless_pool ≡ start_build)
    ↔ ((wants_build imageless_pool ≡ true) × (false ≡ false))
sync_machine_config_pool_lem_example = sync_machine_config_pool_lem false imageless_pool
