-- ===== src/NodeController/Server/Fits.antt =====
-- How many nodes satisfy a test, after the loops of a sync over its calls.
use openshift_machine_config.Common.{
  ℕ, ◌≡◌, refl, ◌+◌, suc, String, ◌==◌, Bool, true, false, not, Option, none, some, List, [], ◌∷◌,
  arith, if◌then◌else◌, length,
}
use openshift_machine_config.Common.StringMap.{is_nil, get_str}
use openshift_machine_config.Kube.{Node, Pool}
use openshift_machine_config.Layered.{is_desired_equal_to_pool, set_desired_state_from_pool}
use openshift_machine_config.NodeController.Server.{
  find_node, write_node, written, failed, panicked, nodes_of, Answers, logged, read_node,
  patch_node, topology, target, update_node_retry, target_found, with_topology,
  with_in_progress_taint, without_in_progress_taint, set_topology, set_topologies,
  set_cluster_config_annotation, sync_taint, sync_taints, update_candidate_node,
  set_desired_annotations, set_update_in_progress_taint, remove_update_in_progress_taint,
  control_plane_topology_key, check_if_node_has_in_progress_taint,
}
use openshift_machine_config.NodeController.Server.Counted.{
  Fits, Keeps, Fits-write_node, found_again, Fits-update_node_retry, Fits-and_then, logged_nodes,
}

-- A test that the calls before the rollout do not see.
pub record Blind (p : Node → Bool) : Type 0 where
  pub topology_kept : (value : String) → Keeps p (with_topology value)
  pub taint_kept : Keeps p with_in_progress_taint
  pub untaint_kept : Keeps p without_in_progress_taint

module _ (answers : Answers) (p : Node → Bool) (blind : Blind p) where
  set_topology-Fits :
      (k : ℕ) (value : String) (n : Node) (nodes : List Node)
      → Fits p k nodes
      → Fits p k (nodes_of (set_topology answers value n nodes))
  set_topology-Fits k value n nodes h =
      go (answers (read_node topology n.name)) (is_nil n.annotations)
    where
      go :
          (r b : Bool)
          → Fits p k (
              nodes_of (
                if not r
                then failed nodes
                else if b
                then panicked nodes
                else update_node_retry true
                    (answers (patch_node topology n.name))
                    (find_node n.name nodes)
                    (with_topology value)
                    nodes))
      go false b = h
      go true true = h
      go true false =
          Fits-update_node_retry p k (with_topology value) true
            (answers (patch_node topology n.name)) n.name nodes (blind.topology_kept value) h

  set_topologies-Fits :
      (value : String) (listed : List Node) (k : ℕ) (nodes : List Node)
      → Fits p k nodes
      → Fits p k (nodes_of (set_topologies answers value listed nodes))
  unfolding set_topologies
  set_topologies-Fits value [] k nodes h = h
  set_topologies-Fits value (n ∷ listed) k nodes h =
      Fits-and_then p k k
        (if get_str n.annotations control_plane_topology_key == value
          then written nodes
          else set_topology answers value n nodes)
        (set_topologies answers value listed) (omega arith)
        (go (get_str n.annotations control_plane_topology_key == value))
        (λ ns. set_topologies-Fits value listed k ns)
    where
      go :
          (b : Bool)
          → Fits p k (nodes_of (if b then written nodes else set_topology answers value n nodes))
      go true = h
      go false = set_topology-Fits k value n nodes h

  pub set_cluster_config_annotation-Fits :
      (found : Option (Option String)) (listed : List Node) (k : ℕ) (nodes : List Node)
      → Fits p k nodes
      → Fits p k (nodes_of (set_cluster_config_annotation answers found listed nodes))
  unfolding set_cluster_config_annotation
  set_cluster_config_annotation-Fits none listed k nodes h = h
  set_cluster_config_annotation-Fits (some none) [] k nodes h = h
  set_cluster_config_annotation-Fits (some none) (n ∷ listed) k nodes h = h
  set_cluster_config_annotation-Fits (some (some value)) listed k nodes h =
      set_topologies-Fits value listed k nodes h

  sync_taint-Fits :
      (pool : Pool) (n : Node) (k : ℕ) (nodes : List Node)
      → Fits p k nodes
      → Fits p k (nodes_of (sync_taint answers pool n nodes))
  unfolding sync_taint set_update_in_progress_taint remove_update_in_progress_taint
  sync_taint-Fits pool n k nodes h =
      go (is_desired_equal_to_pool n pool) (check_if_node_has_in_progress_taint n)
    where
      go :
          (e t : Bool)
          → Fits p k (
              nodes_of (
                if e
                then (if t
                    then logged (remove_update_in_progress_taint answers n.name nodes)
                    else written nodes)
                else if t
                then written nodes
                else logged (set_update_in_progress_taint answers n.name nodes)))
      go true true = rw (logged_nodes (remove_update_in_progress_taint answers n.name nodes)) (
          Fits-update_node_retry p k without_in_progress_taint _ _ n.name nodes blind.untaint_kept
            h)
      go true false = h
      go false true = h
      go false false =
          rw (logged_nodes (set_update_in_progress_taint answers n.name nodes))
            (Fits-update_node_retry p k with_in_progress_taint _ _ n.name nodes blind.taint_kept h)

  pub sync_taints-Fits :
      (pool : Pool) (listed : List Node) (k : ℕ) (nodes : List Node)
      → Fits p k nodes
      → Fits p k (nodes_of (sync_taints answers pool listed nodes))
  unfolding sync_taints
  sync_taints-Fits pool [] k nodes h = h
  sync_taints-Fits pool (n ∷ listed) k nodes h =
      Fits-and_then p k k (sync_taint answers pool n nodes) (sync_taints answers pool listed)
        (omega arith) (sync_taint-Fits pool n k nodes h) (λ ns. sync_taints-Fits pool listed k ns)

-- A node that is targeted adds at most one.
module _ (answers : Answers) (p : Node → Bool) (pool : Pool) where
  update_candidate_node-Fits :
      (s : String) (k : ℕ) (nodes : List Node)
      → Fits p k nodes
      → Fits p (k + 1) (nodes_of (update_candidate_node answers pool s nodes))
  unfolding update_candidate_node set_desired_state_from_pool
  update_candidate_node-Fits s k nodes h =
      go (answers (read_node target s)) (answers (patch_node target s)) (find_node s nodes) refl
    where
      go :
          (r w : Bool) (o : Option Node)
          → find_node s nodes ≡ o
          → Fits p (k + 1) (nodes_of (target_found pool r w o nodes))
      go r w none e = (h.0, omega (arith, h.1))
      go false w (some m) e = (h.0, omega (arith, h.1))
      go true w (some m) e = under (is_desired_equal_to_pool m pool) w
        where
          under :
              (b v : Bool)
              → Fits p (k + 1) (
                  nodes_of (
                    if b
                    then written nodes
                    else if v
                    then written (write_node (set_desired_state_from_pool m pool) nodes)
                    else failed nodes))
          under true v = (h.0, omega (arith, h.1))
          under false false = (h.0, omega (arith, h.1))
          under false true =
              Fits-write_node p k (k + 1) (set_desired_state_from_pool m pool) m nodes
                (found_again s m nodes e) refl (ground arith) h

  pub set_desired_annotations-Fits :
      (candidates : List Node) (k : ℕ) (nodes : List Node)
      → Fits p k nodes
      → Fits p
          (k + length candidates)
          (nodes_of (set_desired_annotations answers pool candidates nodes))
  unfolding set_desired_annotations
  set_desired_annotations-Fits [] k nodes h = (h.0, omega (arith, h.1))
  set_desired_annotations-Fits (n ∷ candidates) k nodes h =
      Fits-and_then p (k + 1) (k + suc (length candidates))
        (update_candidate_node answers pool n.name nodes)
        (set_desired_annotations answers pool candidates) (omega arith)
        (update_candidate_node-Fits n.name k nodes h)
        (λ ns g.
          let (u, c) = set_desired_annotations-Fits candidates (k + 1) ns g in
          (u, omega (arith, c)))
