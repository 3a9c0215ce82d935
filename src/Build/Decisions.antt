-- ===== src/Build/Decisions.antt =====
-- pkg/controller/build/build_controller.go: when a build is started.
use openshift_machine_config.Common.{
  ◌≡◌, ◌↔◌, arith, ==_iff, ◌==◌, Bool, true, false, ◌&&◌, ◌||◌, not, Option, none, some,
  if◌then◌else◌,
}
use openshift_machine_config.Kube.{Pool}
use openshift_machine_config.Layered.{
  is_layered, is_layered_pool, has_os_image, is_any_degraded, is_degraded, is_render_degraded,
  is_building, is_build_pending, is_build_failure, is_build_success,
}
use openshift_machine_config.Build.{
  build_name, has_build_object_for_current_machine_config, has_build_object_ref_name,
}

unfoldable pub is_pool_config_change : Pool → Pool → Bool
is_pool_config_change old cur = not (old.configuration.name == cur.configuration.name)

unfoldable pub can_pool_build : Pool → Bool
can_pool_build pool =
    if not (is_layered pool)
    then false
    else if has_build_object_for_current_machine_config pool
    then false
    else if is_any_degraded pool
    then false
    else if is_building pool
    then false
    else if is_build_pending pool
    then false
    else if is_build_failure pool
    then false
    else true

-- `running` is what IsBuildRunning answers, none on its error.
unfoldable pub should_we_do_a_build : Option Bool → Pool → Pool → Option Bool
should_we_do_a_build running old cur =
    if can_pool_build cur
      && (is_pool_config_change old cur || not (has_os_image cur))
      && not (has_build_object_ref_name (build_name cur) cur)
    then elim running [ none ↦ none | some r ↦ some (not r) ]
    else some false

-- What a sync goes on to do.
pub data Action : Type 0 where
  do_nothing queue_again start_build sync_available fail : Action

abbrev pub act : Option Bool → Action
act none = fail
act (some true) = start_build
act (some false) = sync_available

-- syncMachineConfigPool on the pool that it has read.
unfoldable pub sync_machine_config_pool : Option Bool → Pool → Action
sync_machine_config_pool running pool =
    if not (is_layered pool)
    then do_nothing
    else if is_degraded pool
    then queue_again
    else if is_render_degraded pool
    then queue_again
    else if is_build_pending pool
    then do_nothing
    else if is_building pool
    then do_nothing
    else if is_build_success pool
    then do_nothing
    else act (should_we_do_a_build running pool pool)

-- updateMachineConfigPool: opting out, a build, or nothing but queueing; none is an error.
pub data UpdateAction : Type 0 where
  opt_out build up_to_date : UpdateAction

unfoldable pub update_machine_config_pool : Option Bool → Pool → Pool → Option UpdateAction
update_machine_config_pool running old cur = elim (should_we_do_a_build running old cur) [
  | none ↦ none
  | some do_build ↦ some (
      if is_layered_pool old && not (is_layered_pool cur)
      then opt_out
      else if do_build
      then build
      else up_to_date)
]

-- What must hold of a pool that is built.
abbrev pub wants_build : Pool → Bool
wants_build pool =
    is_layered pool
    && not (is_any_degraded pool)
    && not (is_building pool)
    && not (is_build_pending pool)
    && not (is_build_failure pool)
    && not (is_build_success pool)
    && not (has_os_image pool)
    && not (has_build_object_for_current_machine_config pool)

-- A sync that knows whether a build is running starts one exactly where none is and the pool is
-- layered, not degraded in any way, has no build condition true, no image and no reference to a build
-- for its configuration.
pub sync_machine_config_pool_lem :
    (running : Bool) (pool : Pool)
    → (sync_machine_config_pool (some running) pool ≡ start_build)
      ↔ ((wants_build pool ≡ true) × (running ≡ false))
unfolding sync_machine_config_pool should_we_do_a_build can_pool_build is_pool_config_change
    is_any_degraded is_degraded is_render_degraded has_build_object_for_current_machine_config
sync_machine_config_pool_lem running pool = (
  λ h. ground (arith, h, ==_iff pool.configuration.name pool.configuration.name),
  λ h. ground (arith, h, ==_iff pool.configuration.name pool.configuration.name),
)
