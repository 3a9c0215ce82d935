-- ===== src/Layered/Facts.antt =====
-- The states of a node, one against the other, before and after its pool targets it.
use openshift_machine_config.Common.{◌≡◌, ◌≢◌, refl, String, ==_iff, true, false, some, arith}
use openshift_machine_config.Common.StringMap.{get, get_str, is_nil, value, put, remove}
use openshift_machine_config.Kube.{Node, Pool}
use openshift_machine_config.Layered.{
  current_config_key, desired_config_key, state_key, state_done, state_degraded,
  state_unreconcilable, is_node_mcd_state, is_node_done, is_node_done_at, is_node_ready,
  is_node_mcd_failing, is_node_unavailable, is_done_at, is_unavailable, is_desired_equal_to_pool,
  is_desired_machine_config_equal_to_pool, set_desired_state_from_pool, check_node_ready,
}
use openshift_machine_config.Layered.Targeting.{get-set_desired_state_from_pool, targeted_image}

module _ (node : Node) (pool : Pool) where
  -- A node that is done at its pool is targeted by the pool, and while it is ready it does not
  -- count as unavailable.
  pub is_done_at-settled :
      is_done_at node pool ≡ true
      → (is_desired_equal_to_pool node pool ≡ true)
        × (is_node_ready node ≡ true → is_unavailable node pool ≡ false)
  unfolding is_done_at is_desired_equal_to_pool is_unavailable is_node_done is_node_done_at
      is_node_unavailable is_desired_machine_config_equal_to_pool get_str
  is_done_at-settled h =
      let c = value (get node.annotations current_config_key) in
      let d = value (get node.annotations desired_config_key) in
      ground (arith, ==_iff c d, ==_iff c pool.configuration.name, ==_iff d pool.configuration.name)

  state_kept :
      (s : String)
      → is_node_mcd_state (set_desired_state_from_pool node pool) s ≡ is_node_mcd_state node s
  unfolding is_node_mcd_state
  state_kept s = ground (arith, get-set_desired_state_from_pool node pool state_key)

  current_kept :
      get (set_desired_state_from_pool node pool).annotations current_config_key
      ≡ get node.annotations current_config_key
  current_kept = ground (arith, get-set_desired_state_from_pool node pool current_config_key)

  desired_set :
      get (set_desired_state_from_pool node pool).annotations desired_config_key
      ≡ some pool.configuration.name
  desired_set = ground (arith, get-set_desired_state_from_pool node pool desired_config_key)

  pub annotations_made : is_nil (set_desired_state_from_pool node pool).annotations ≡ false
  unfolding set_desired_state_from_pool put remove
  annotations_made = ground arith

  ready_kept : is_node_ready (set_desired_state_from_pool node pool) ≡ is_node_ready node
  unfolding set_desired_state_from_pool is_node_ready check_node_ready
  ready_kept = refl

  -- A node whose current configuration is not the pool's, and whose daemon has not failed, counts
  -- as unavailable from the moment that the pool targets it.
  pub targeted_counts :
      get_str node.annotations current_config_key ≢ pool.configuration.name
      → is_node_mcd_state node state_degraded ≡ false
      → is_node_mcd_state node state_unreconcilable ≡ false
      → is_unavailable (set_desired_state_from_pool node pool) pool ≡ true
  unfolding is_unavailable is_node_unavailable is_node_done is_node_mcd_failing get_str
  targeted_counts differs not_degraded not_unreconcilable =
      let c = value (get node.annotations current_config_key) in
      ground (
        arith,
        ==_iff c pool.configuration.name,
        differs,
        current_kept,
        desired_set,
        state_kept state_degraded,
        state_kept state_unreconcilable,
        targeted_image node pool,
      )

  -- A ready node that is done at the configuration of its pool does not count as unavailable after
  -- the pool targets it, so an update of the image alone is not counted.
  pub image_update_uncounted :
      is_node_ready node ≡ true
      → is_node_done_at node pool ≡ true
      → is_unavailable (set_desired_state_from_pool node pool) pool ≡ false
  unfolding is_unavailable is_node_unavailable is_node_done_at is_node_done get_str
  image_update_uncounted ready done =
      let c = value (get node.annotations current_config_key) in
      let d = value (get node.annotations desired_config_key) in
      ground (
        arith,
        ==_iff c pool.configuration.name,
        current_kept,
        desired_set,
        ready_kept,
        state_kept state_done,
        annotations_made,
        ==_iff pool.configuration.name "",
        ==_iff c "",
      )
