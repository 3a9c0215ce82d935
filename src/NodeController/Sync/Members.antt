-- ===== src/NodeController/Sync/Members.antt =====
-- The nodes of a pool that are unavailable, counted among all nodes: the calls before the rollout do
-- not change them.
use openshift_machine_config.Common.{
  ◌≡◌, refl, String, Bool, true, false, ◌&&◌, Option, none, some, List, [], ◌∷◌, arith, select,
  length,
}
use mathlib.Core.Path.{subst}
use openshift_machine_config.Common.StringMap.{StringMap, is_nil, get, get_str, put, get-put}
use openshift_machine_config.Kube.{Node, Pool}
use openshift_machine_config.Layered.{
  is_unavailable, is_node_unavailable, is_node_ready, check_node_ready, is_node_done,
  is_node_mcd_state, is_node_mcd_failing, is_desired_image_equal_to_pool,
  is_image_annotation_equal_to_pool, current_config_key, desired_config_key, desired_image_key,
  state_key,
}
use openshift_machine_config.NodeController.Status.{get_unavailable_machines}
use openshift_machine_config.NodeController.Pools.{
  Selector, nodes_selected, get_nodes_for_pool, get_primary_pool_for_node, get_pools_for_node,
  matching_pools, matches, add_matching, is_windows, has_name,
}
use openshift_machine_config.NodeController.Server.{
  with_topology, with_in_progress_taint, without_in_progress_taint, control_plane_topology_key,
}
use openshift_machine_config.NodeController.Server.Fits.{Blind}
use openshift_machine_config.NodeController.Sync.{Env}

is_nil-put : (m : StringMap) (k v : String) → is_nil (put m k v) ≡ false
unfolding put
is_nil-put m k v = refl

get-nil : (m : StringMap) (k : String) → is_nil m ≡ true → get m k ≡ none
unfolding get
get-nil none k h = refl
get-nil (some l) k h = absurd (cc h)

unavailable-with_topology :
    (pool : Pool) (value : String) (n : Node)
    → is_unavailable (with_topology value n) pool ≡ is_unavailable n pool
unfolding is_unavailable is_node_unavailable is_node_ready check_node_ready is_node_done
    is_node_mcd_state is_node_mcd_failing is_desired_image_equal_to_pool
    is_image_annotation_equal_to_pool get_str
unavailable-with_topology pool value n =
    let at = λ (k : String). get-put n.annotations control_plane_topology_key value k in
    rw
      (
        at current_config_key,
        at desired_config_key,
        at desired_image_key,
        at state_key,
        is_nil-put n.annotations control_plane_topology_key value,
      )
      (ground (arith, get-nil n.annotations current_config_key))

matching_pools-labels :
    (selector : Pool → Option Selector) (n m : Node) (ps : List Pool)
    → n.labels ≡ m.labels
    → matching_pools selector n ps ≡ matching_pools selector m ps
unfolding matching_pools matches
matching_pools-labels selector n m [] e = refl
matching_pools-labels selector n m (p ∷ ps) e =
    go (selector p) (matching_pools selector n ps) (matching_pools-labels selector n m ps e)
  where
    go :
        (o : Option Selector) (r : Option (List Pool))
        → r ≡ matching_pools selector m ps
        → add_matching selector n p o r ≡ add_matching selector m p o (matching_pools selector m ps)
    go none r h = refl
    go (some s) r h = rw (← h) (done r)
      where
        done :
            (r : Option (List Pool))
            → add_matching selector n p (some s) r ≡ add_matching selector m p (some s) r
        done none = refl
        done (some l) = rw e refl

primary-labels :
    (selector : Pool → Option Selector) (listed : Option (List Pool)) (n m : Node)
    → n.labels ≡ m.labels
    → get_primary_pool_for_node selector listed n ≡ get_primary_pool_for_node selector listed m
unfolding get_primary_pool_for_node get_pools_for_node is_windows
primary-labels selector none n m e = rw e refl
primary-labels selector (some ps) n m e = rw (matching_pools-labels selector n m ps e, e) refl

-- A pool that has nodes has a valid selector.
pub get_nodes_for_pool-selector :
    (env : Env) (pool : Pool) (nodes listed : List Node)
    → get_nodes_for_pool env.selector env.pools pool nodes ≡ some listed
    → (s : Selector) × (env.selector pool ≡ some s)
unfolding get_nodes_for_pool
get_nodes_for_pool-selector env pool nodes listed h = go (env.selector pool) refl h
  where
    go :
        (o : Option Selector)
        → env.selector pool ≡ o
        → nodes_selected env.selector env.pools pool o nodes ≡ some listed
        → (s : Selector) × (env.selector pool ≡ some s)
    go none d g = absurd (cc g)
    go (some t) d g = (t, d)

module _ (env : Env) (pool : Pool) (s : Selector) where
  -- The nodes that a pool with the selector `s` has and that are unavailable.
  abbrev pub in_pool : Node → Bool
  in_pool n =
      s.selects n.labels
      && has_name env.selector pool.name (get_primary_pool_for_node env.selector env.pools n)

  abbrev pub counted : Node → Bool
  counted n = in_pool n && is_unavailable n pool

  in_pool-labels : (n m : Node) → n.labels ≡ m.labels → in_pool n ≡ in_pool m
  in_pool-labels n m e = rw (primary-labels env.selector env.pools n m e, e) refl

  pub counted-Blind : Blind counted
  unfolding is_unavailable is_node_unavailable is_node_ready check_node_ready is_node_done
      is_node_mcd_failing is_desired_image_equal_to_pool is_node_mcd_state
      is_image_annotation_equal_to_pool
  counted-Blind = record {
    topology_kept = λ value n. (
      refl,
      rw (in_pool-labels (with_topology value n) n refl, unavailable-with_topology pool value n)
          refl,
    );
    taint_kept = λ n. (refl, rw (in_pool-labels (with_in_progress_taint n) n refl) refl);
    untaint_kept = λ n. (refl, rw (in_pool-labels (without_in_progress_taint n) n refl) refl);
  }

  -- The unavailable nodes of the pool are the ones counted.
  counted-length :
      (nodes : List Node)
      → length (
          get_unavailable_machines
            (select
              (λ n.
                has_name env.selector pool.name
                  (get_primary_pool_for_node env.selector env.pools n))
              (select (λ n. s.selects n.labels) nodes))
            pool)
        ≡ length (select counted nodes)
  unfolding get_unavailable_machines
  counted-length [] = refl
  counted-length (n ∷ nodes) = ground (arith, counted-length nodes)

  -- The unavailable nodes of the pool are the ones counted.
  pub get_nodes-counted :
      (nodes listed : List Node)
      → env.selector pool ≡ some s
      → get_nodes_for_pool env.selector env.pools pool nodes ≡ some listed
      → length (get_unavailable_machines listed pool) ≡ length (select counted nodes)
  unfolding get_nodes_for_pool
  get_nodes-counted nodes listed e h =
      let h' : nodes_selected env.selector env.pools pool (some s) nodes ≡ some listed =
        subst (λ o. nodes_selected env.selector env.pools pool o nodes ≡ some listed) e h in
      ground (arith, h', counted-length nodes)
