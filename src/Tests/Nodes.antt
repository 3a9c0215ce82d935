-- ===== src/Tests/Nodes.antt =====
-- The states of a node at concrete inputs.
use openshift_machine_config.Common.{
  ◌==◌, Option, some, is_some, [], ◌∷◌, ◌≡◌, ◌≢◌, refl, String, true, false, arith, ==_iff,
}
use openshift_machine_config.Common.StringMap.{get, get_str}
use openshift_machine_config.Kube.{Node, Pool}
use openshift_machine_config.Layered.{
  desired_config_key, desired_image_key, is_node_mcd_state, is_node_done, is_node_done_at,
  is_node_ready, check_node_ready, check_conditions, condition_error, is_done_at, is_unavailable,
  is_desired_equal_to_pool, is_desired_image_equal_to_pool, is_current_image_equal_to_pool,
  is_image_annotation_equal_to_pool, is_layered, has_os_image, set_desired_state_from_pool,
}
use openshift_machine_config.Layered.Facts.{targeted_counts, image_update_uncounted}
use openshift_machine_config.Layered.Targeting.{set_desired_state_from_pool-targets}
use openshift_machine_config.NodeController.Pools.{
  Selector, is_windows, get_pools_for_node, get_primary_pool_for_node, matching_pools, matches,
  split_roles, add_role, choose_pools,
}
use openshift_machine_config.Daemon.Prepare.{on_disk, no_update, prep_update_from_cluster}
use openshift_machine_config.Daemon.Prepare.Settled.{prep_update_from_cluster-done_node}
use openshift_machine_config.Daemon.Writer.{set_done}
use openshift_machine_config.Daemon.Writer.Annotations.{pool_image}
use openshift_machine_config.Daemon.Writer.Done.{at_pool, done_node, is_done_at-set_done}
use openshift_machine_config.Tests.Samples.{node_at, pool_to, layered_pool}

abbrev old_node : Node
old_node = node_at "a" "old" "old" "Done"

abbrev new_node : Node
new_node = node_at "b" "new" "new" "Done"

ready_old : is_node_ready old_node ≡ true
unfolding is_node_ready check_node_ready check_conditions condition_error
ready_old = refl

set_desired_state_from_pool-targets_example :
    (is_desired_equal_to_pool (set_desired_state_from_pool old_node layered_pool) layered_pool
      ≡ true)
    × ((k : String)
        → k ≢ desired_config_key
        → k ≢ desired_image_key
        → get (set_desired_state_from_pool old_node layered_pool).annotations k
          ≡ get old_node.annotations k)
    × (record (set_desired_state_from_pool old_node layered_pool) {
      annotations = old_node.annotations;
    }
        ≡ old_node)
set_desired_state_from_pool-targets_example =
    set_desired_state_from_pool-targets old_node layered_pool

targeted_counts_example :
    is_unavailable (set_desired_state_from_pool old_node (pool_to "new")) (pool_to "new") ≡ true
unfolding is_node_mcd_state get get_str
targeted_counts_example =
    targeted_counts old_node (pool_to "new") (λ e. ground (arith, ==_iff "old" "new", e)) refl refl

new_node_done : is_done_at new_node (pool_to "new") ≡ true
unfolding is_done_at is_node_done_at is_node_done is_node_mcd_state is_desired_image_equal_to_pool
    is_current_image_equal_to_pool is_image_annotation_equal_to_pool is_layered has_os_image get
    get_str
new_node_done = refl

image_update_uncounted_example :
    is_unavailable (set_desired_state_from_pool new_node layered_pool) layered_pool ≡ false
unfolding is_node_ready check_node_ready check_conditions condition_error is_node_done_at
    is_node_done is_node_mcd_state get get_str
image_update_uncounted_example = image_update_uncounted new_node layered_pool refl refl

abbrev pub worker_selector : Pool → Option Selector
worker_selector p = some (record {
  is_empty = false;
  selects = λ labels. is_some (get labels "node-role.kubernetes.io/worker");
})

primary_is_worker :
    get_primary_pool_for_node worker_selector (some (pool_to "new" ∷ [])) old_node
    ≡ some (pool_to "new")
unfolding get get_primary_pool_for_node get_pools_for_node is_windows matching_pools matches
    split_roles add_role choose_pools
primary_is_worker = refl

is_done_at-set_done_example :
    (set_done
        (at_pool layered_pool)
        (set_desired_state_from_pool (node_at "a" "old" "old" "Done") layered_pool)
      ≡ some (done_node (node_at "a" "old" "old" "Done") layered_pool))
    × (is_done_at (done_node (node_at "a" "old" "old" "Done") layered_pool) layered_pool ≡ true)
is_done_at-set_done_example =
    is_done_at-set_done (node_at "a" "old" "old" "Done") layered_pool (λ e. absurd cc)

prep_update_from_cluster-done_node_example :
    prep_update_from_cluster
      (λ name. name == "new")
      (on_disk "new" (pool_image layered_pool))
      (done_node (node_at "a" "old" "old" "Done") layered_pool)
    ≡ no_update
prep_update_from_cluster-done_node_example =
    prep_update_from_cluster-done_node (λ name. name == "new") (node_at "a" "old" "old" "Done")
      layered_pool refl
