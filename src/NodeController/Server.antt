-- ===== src/NodeController/Server.antt =====
-- The nodes as the API server has them, and the calls by which pkg/controller/node/node_controller.go
-- changes one of them, with UpdateNodeRetry of internal/kubeutils.go. What is tried again after a
-- conflict is one call, with the outcome of the last try; a call that fails changes nothing.
pub mod Counted
pub mod Fits
use openshift_machine_config.Common.{
  ℕ, ◌≡◌, refl, ◌≤◌, ◌+◌, String, ◌==◌, ==_iff, Bool, true, false, ◌&&◌, not, Option, none, some,
  List, [], ◌∷◌, ◌++◌, arith, if◌then◌else◌, select, any, length, All,
}
use openshift_machine_config.Common.StringMap.{get_str, put, is_nil}
use openshift_machine_config.Kube.{Node, Pool, Taint}
use openshift_machine_config.Layered.{is_desired_equal_to_pool, set_desired_state_from_pool}

-- What a call is for.
pub data Purpose : Type 0 where
  topology in_progress target scheduling : Purpose

pub data Call : Type 0 where
  read_node patch_node : Purpose → String → Call
  read_config write_status : Call

-- Which calls succeed.
abbrev pub Answers : Type 0
Answers = Call → Bool

unfoldable pub find_node : String → List Node → Option Node
find_node s [] = none
find_node s (n ∷ nodes) = if n.name == s then some n else find_node s nodes

-- `n` in place of the nodes of its name.
unfoldable pub write_node : Node → List Node → List Node
write_node n [] = []
write_node n (m ∷ nodes) =
    let rest = write_node n nodes in if m.name == n.name then n ∷ rest else m ∷ rest

-- How calls on nodes end, with the nodes as they are then.
pub data Written : Type 0 where
  written failed panicked : List Node → Written

abbrev pub nodes_of : Written → List Node
nodes_of (written nodes) = nodes
nodes_of (failed nodes) = nodes
nodes_of (panicked nodes) = nodes

-- `if err := …; err != nil { return err }`
abbrev pub and_then : Written → (List Node → Written) → Written
and_then (written nodes) f = f nodes
and_then (failed nodes) f = failed nodes
and_then (panicked nodes) f = panicked nodes

-- `if err := …; err != nil { klog.Error(err) }`
abbrev pub logged : Written → Written
logged (written nodes) = written nodes
logged (failed nodes) = written nodes
logged (panicked nodes) = panicked nodes

abbrev pub node_update_in_progress_taint : Taint
node_update_in_progress_taint = record {
  key = "UpdateInProgress";
  taint_value = "";
  effect = "PreferNoSchedule";
}

-- MatchTaint compares the key and the effect.
unfoldable pub match_taint : Taint → Taint → Bool
match_taint t u = (t.key == u.key) && (t.effect == u.effect)

unfoldable pub check_if_node_has_in_progress_taint : Node → Bool
check_if_node_has_in_progress_taint node =
    any (λ t. match_taint t node_update_in_progress_taint) node.taints

abbrev pub with_in_progress_taint : Node → Node
with_in_progress_taint node = record node {
  taints = node.taints ++ node_update_in_progress_taint ∷ [];
}

abbrev pub without_in_progress_taint : Node → Node
without_in_progress_taint node = record node {
  taints = select (λ t. not (match_taint t node_update_in_progress_taint)) node.taints;
}

abbrev pub control_plane_topology_key : String
control_plane_topology_key = "machineconfiguration.openshift.io/controlPlaneTopology"

abbrev pub with_topology : String → Node → Node
with_topology value node = record node {
  annotations = put node.annotations control_plane_topology_key value;
}

-- A node is read and, if it is there, written back changed.
abbrev pub update_node_retry : Bool → Bool → Option Node → (Node → Node) → List Node → Written
update_node_retry reads patches none f nodes = failed nodes
update_node_retry reads patches (some n) f nodes =
    if not reads
    then failed nodes
    else if patches
    then written (write_node (f n) nodes)
    else failed nodes

-- A node that is targeted already is not written.
abbrev pub target_found : Pool → Bool → Bool → Option Node → List Node → Written
target_found pool reads patches none nodes = failed nodes
target_found pool reads patches (some n) nodes =
    if not reads
    then failed nodes
    else if is_desired_equal_to_pool n pool
    then written nodes
    else if patches
    then written (write_node (set_desired_state_from_pool n pool) nodes)
    else failed nodes

module _ (answers : Answers) where
  abbrev pub update_by_name : Purpose → (Node → Node) → String → List Node → Written
  update_by_name p f s nodes =
      update_node_retry (answers (read_node p s)) (answers (patch_node p s)) (find_node s nodes) f
        nodes

  unfoldable pub set_update_in_progress_taint : String → List Node → Written
  set_update_in_progress_taint s nodes = update_by_name in_progress with_in_progress_taint s nodes

  unfoldable pub remove_update_in_progress_taint : String → List Node → Written
  remove_update_in_progress_taint s nodes =
      update_by_name in_progress without_in_progress_taint s nodes

  -- UpdateNodeRetry reads the node as the lister has it, here `listed`, and sends what changed.
  abbrev pub set_topology : String → Node → List Node → Written
  set_topology value listed nodes =
      if not (answers (read_node topology listed.name))
      then failed nodes
      else if is_nil listed.annotations
      then panicked nodes
      else update_node_retry true (answers (patch_node topology listed.name))
          (find_node listed.name nodes) (with_topology value) nodes

  -- The loop over the nodes; an assignment to a nil map is a panic.
  unfoldable pub set_topologies : String → List Node → List Node → Written
  set_topologies value [] nodes = written nodes
  set_topologies value (n ∷ listed) nodes =
      and_then
        (if get_str n.annotations control_plane_topology_key == value
          then written nodes
          else set_topology value n nodes)
        (set_topologies value listed)

  -- `found` is the topology in the infrastructure of the controller config, none where the config cannot
  -- be read; without an infrastructure the look at the first node is a panic.
  unfoldable pub set_cluster_config_annotation :
      Option (Option String) → List Node → List Node → Written
  set_cluster_config_annotation none listed nodes = failed nodes
  set_cluster_config_annotation (some none) [] nodes = written nodes
  set_cluster_config_annotation (some none) (n ∷ listed) nodes = panicked nodes
  set_cluster_config_annotation (some (some value)) listed nodes = set_topologies value listed nodes

  -- The round of the taint loop of syncMachineConfigPool for a node as it was listed.
  unfoldable pub sync_taint : Pool → Node → List Node → Written
  sync_taint pool n nodes =
      if is_desired_equal_to_pool n pool
      then (if check_if_node_has_in_progress_taint n
          then logged (remove_update_in_progress_taint n.name nodes)
          else written nodes)
      else if check_if_node_has_in_progress_taint n
      then written nodes
      else logged (set_update_in_progress_taint n.name nodes)

  unfoldable pub sync_taints : Pool → List Node → List Node → Written
  sync_taints pool [] nodes = written nodes
  sync_taints pool (n ∷ listed) nodes = and_then (sync_taint pool n nodes) (sync_taints pool listed)

  unfoldable pub update_candidate_node : Pool → String → List Node → Written
  update_candidate_node pool s nodes =
      target_found pool (answers (read_node target s)) (answers (patch_node target s))
        (find_node s nodes) nodes

  -- setDesiredAnnotations: the first error ends it.
  unfoldable pub set_desired_annotations : Pool → List Node → List Node → Written
  set_desired_annotations pool [] nodes = written nodes
  set_desired_annotations pool (n ∷ candidates) nodes =
      and_then (update_candidate_node pool n.name nodes) (set_desired_annotations pool candidates)
