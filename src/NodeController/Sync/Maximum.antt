-- ===== src/NodeController/Sync/Maximum.antt =====
-- One sync of a pool, in all its calls and however it ends, against the maximum of unavailable nodes.
use openshift_machine_config.Common.{
  ℕ, pos, ◌≡◌, refl, ◌≤◌, ◌+◌, some, List, [], ◌∷◌, ◌++◌, ◌∙◌, arith, length,
}
use openshift_machine_config.Kube.{Node, Pool, PoolStatus}
use openshift_machine_config.NodeController.Status.{get_unavailable_machines}
use openshift_machine_config.NodeController.Pools.{Selector, get_nodes_for_pool}
use openshift_machine_config.NodeController.Candidates.Capacity.{get_all_candidate_machines_lem}
use openshift_machine_config.NodeController.Candidates.Rollout.{UniqueNames, chosen-le-capacity}
use openshift_machine_config.NodeController.Candidates.{
  get_all_candidate_machines, chosen_candidates, max_unavailable,
}
use openshift_machine_config.NodeController.Server.{
  nodes_of, Written, written, failed, panicked, sync_taints, set_cluster_config_annotation,
}
use openshift_machine_config.NodeController.Server.Counted.{Fits, Fits-and_then}
use openshift_machine_config.NodeController.Server.Fits.{
  sync_taints-Fits, set_cluster_config_annotation-Fits, set_desired_annotations-Fits,
}
use openshift_machine_config.NodeController.Sync.{
  Env, can_layered_pool_continue, not_targeted, Synced, End, Failure, done, panic, error, found,
  after_error, then_status, after_annotations, update_pool, sync_found_pool,
  sync_machine_config_pool, sync_status_only, update_candidate_machines, update_candidates,
  roll_out, topology_of,
}
use openshift_machine_config.NodeController.Sync.Members.{
  counted, counted-Blind, get_nodes-counted, get_nodes_for_pool-selector,
}
use openshift_machine_config.NodeController.Sync.Held.{sync_status_only-nodes, through_gate-nodes}

module _ (env : Env) (pool : Pool) (s : Selector) where
  update_candidates-Fits :
      (length-sort_nodes : (l : List Node) → length (env.sort_nodes l) ≡ length l)
      (candidates : List Node) (capacity k most : ℕ) (nodes : List Node)
      → k + capacity ≤ most
      → Fits (counted env pool s) k nodes
      → Fits
          (counted env pool s)
          most
          (nodes_of (update_candidates env pool candidates capacity nodes))
  unfolding update_candidate_machines
  update_candidates-Fits sorted [] capacity k most nodes le h = (h.0, omega (arith, le, h.1))
  update_candidates-Fits sorted (c ∷ candidates) capacity k most nodes le h =
      let chosen = chosen_candidates env.sort_nodes env.pods pool (c ∷ candidates) capacity in
      let (u, count) =
        set_desired_annotations-Fits env.answers (counted env pool s) pool chosen k nodes h in
      (
        u,
        omega (
          arith,
          le,
          count,
          chosen-le-capacity env.sort_nodes sorted env.pods pool (c ∷ candidates) capacity,
        ),
      )

  roll_out-Fits :
      (length-sort_nodes : (l : List Node) → length (env.sort_nodes l) ≡ length l)
      (listed : List Node) (most : ℕ) (nodes : List Node)
      → length (get_unavailable_machines listed pool) ≤ most
      → Fits (counted env pool s) (length (get_unavailable_machines listed pool)) nodes
      → Fits (counted env pool s) most (nodes_of (roll_out env pool listed (pos most) nodes))
  roll_out-Fits sorted listed most nodes le h =
      let (candidates, capacity) = get_all_candidate_machines pool listed (pos most) in
      let k = length (get_unavailable_machines listed pool) in
      Fits-and_then (counted env pool s) k most (sync_taints env.answers pool listed nodes)
        (update_candidates env pool candidates capacity) le
        (sync_taints-Fits env.answers (counted env pool s) (counted-Blind env pool s) pool listed k
          nodes h)
        (λ ns g.
          update_candidates-Fits sorted candidates capacity k most ns
            (ground (arith, le, get_all_candidate_machines_lem pool listed most)) g)

after_error-nodes : (e : Failure) (s : Synced) → (after_error e s).nodes ≡ s.nodes
after_error-nodes e s = go s.end
  where
    go :
        (x : End)
        → (elim x as (λ (y : End). Synced) [
          | done ↦ record s { end = error (e ∷ []) }
          | panic ↦ s
          | error es ↦ record s { end = error (es ++ e ∷ []) }
        ]).nodes
          ≡ s.nodes
    go done = refl
    go panic = refl
    go (error es) = refl

then_status-nodes :
    (env : Env) (pool : Pool) (w : Written) → (then_status env pool w).nodes ≡ nodes_of w
then_status-nodes env pool (written nodes) = sync_status_only-nodes env pool nodes
then_status-nodes env pool (failed nodes) =
    after_error-nodes not_targeted (sync_status_only env pool nodes)
    ∙ sync_status_only-nodes env pool nodes
then_status-nodes env pool (panicked nodes) = refl

module _ (env : Env) (length-sort_nodes : (l : List Node) → length (env.sort_nodes l) ≡ length l)
    (pool : Pool) (s : Selector) (listed : List Node) (most : ℕ)
    (few : length (get_unavailable_machines listed pool) ≤ most) where
  after_annotations-Fits :
      (w : Written)
      → Fits (counted env pool s) (length (get_unavailable_machines listed pool)) (nodes_of w)
      → Fits (counted env pool s) most (after_annotations env pool listed (pos most) w).nodes
  after_annotations-Fits (written nodes) h =
      rw (then_status-nodes env pool (roll_out env pool listed (pos most) nodes))
        (roll_out-Fits env pool s length-sort_nodes listed most nodes few h)
  after_annotations-Fits (failed nodes) h = (h.0, omega (arith, few, h.1))
  after_annotations-Fits (panicked nodes) h = (h.0, omega (arith, few, h.1))

  update_pool-Fits :
      (nodes : List Node)
      → get_nodes_for_pool env.selector env.pools pool env.nodes ≡ some listed
      → max_unavailable env.scaled pool listed ≡ some (pos most)
      → Fits (counted env pool s) (length (get_unavailable_machines listed pool)) nodes
      → Fits (counted env pool s) most (update_pool env pool nodes).nodes
  unfolding update_pool
  update_pool-Fits nodes e m h =
      rw (e, m)
        (after_annotations-Fits
          (set_cluster_config_annotation env.answers (topology_of env.config) listed nodes)
          (set_cluster_config_annotation-Fits env.answers (counted env pool s)
            (counted-Blind env pool s) (topology_of env.config) listed _ nodes h))

  sync_found_pool-Fits :
      (nodes : List Node)
      → get_nodes_for_pool env.selector env.pools pool env.nodes ≡ some listed
      → max_unavailable env.scaled pool listed ≡ some (pos most)
      → Fits (counted env pool s) (length (get_unavailable_machines listed pool)) nodes
      → Fits (counted env pool s) most (sync_found_pool env pool nodes).nodes
  unfolding sync_found_pool
  sync_found_pool-Fits nodes e m h =
      let still : Fits (counted env pool s) most nodes = (h.0, omega (arith, few, h.1)) in
      ground (
        arith,
        still,
        sync_status_only-nodes env pool nodes,
        through_gate-nodes env (can_layered_pool_continue pool) pool nodes,
        update_pool-Fits nodes e m h,
      )

-- However a sync ends, and whatever calls on the API server fail, the pool has at most `most`
-- unavailable nodes after it where it had at most `most` before; `most` is the maximum of the pool,
-- node names are distinct, the lister agrees with the server as the sync starts, and sorting keeps the
-- number of nodes.
pub sync_keeps_maximum :
    (env : Env) (length-sort_nodes : (l : List Node) → length (env.sort_nodes l) ≡ length l)
    (pool : Pool) (status : PoolStatus) (listed after : List Node) (most : ℕ)
    → UniqueNames env.nodes
    → get_nodes_for_pool env.selector env.pools pool env.nodes ≡ some listed
    → max_unavailable env.scaled pool listed ≡ some (pos most)
    → length (get_unavailable_machines listed pool) ≤ most
    → get_nodes_for_pool env.selector env.pools pool
        (sync_machine_config_pool env (found pool) status env.nodes).nodes
      ≡ some after
    → length (get_unavailable_machines after pool) ≤ most
unfolding sync_machine_config_pool
sync_keeps_maximum env sorted pool status listed after most u e m few e' =
    let (s, sel) = get_nodes_for_pool-selector env pool env.nodes listed e in
    let fits =
      sync_found_pool-Fits env sorted pool s listed most few env.nodes e m
        (u, omega (arith, get_nodes-counted env pool s env.nodes listed sel e)) in
    omega (
      arith,
      fits.1,
      get_nodes-counted env pool s (sync_found_pool env pool env.nodes).nodes after sel e',
    )
