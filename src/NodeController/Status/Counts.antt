-- ===== src/NodeController/Status/Counts.antt =====
-- How the counts of a pool's status relate, and when all its machines are updated.
use openshift_machine_config.Common.{
  ◌≡◌, refl, ◌≤◌, ◌<◌, ◌^◌, true, Option, List, [], ◌∷◌, arith, ◌↔◌, select, length, All,
  length-select-le,
}
use openshift_machine_config.Kube.{Node, Pool}
use openshift_machine_config.Layered.{is_done_at, is_node_ready, is_unavailable}
use openshift_machine_config.Layered.Facts.{is_done_at-settled}
use openshift_machine_config.NodeController.Status.{
  ControllerCertificate, get_updated_machines, get_ready_machines, get_unavailable_machines,
  get_degraded_machines, initial_status, all_updated,
}

-- Done at the pool's configuration and image, and ready.
abbrev pub IsSettled : Pool → Node → Type 0
IsSettled pool n = (is_done_at n pool ≡ true) × (is_node_ready n ≡ true)

pub ready-le-updated :
    (pool : Pool) (nodes : List Node)
    → length (get_ready_machines pool nodes) ≤ length (get_updated_machines pool nodes)
unfolding get_ready_machines
ready-le-updated pool nodes = length-select-le is_node_ready (get_updated_machines pool nodes)

pub updated-le-all :
    (pool : Pool) (nodes : List Node) → length (get_updated_machines pool nodes) ≤ length nodes
unfolding get_updated_machines
updated-le-all pool nodes = length-select-le (λ n. is_done_at n pool) nodes

pub unavailable-le-all :
    (pool : Pool) (nodes : List Node) → length (get_unavailable_machines nodes pool) ≤ length nodes
unfolding get_unavailable_machines
unavailable-le-all pool nodes = length-select-le (λ n. is_unavailable n pool) nodes

pub degraded-le-all : (nodes : List Node) → length (get_degraded_machines nodes) ≤ length nodes
unfolding get_degraded_machines
degraded-le-all nodes = length-select-le _ nodes

-- As many ready machines as there are nodes: every node is settled.
ready-All-IsSettled :
    (pool : Pool) (nodes : List Node)
    → length (get_ready_machines pool nodes) ≡ length nodes
    → All (IsSettled pool) nodes
unfolding get_ready_machines get_updated_machines
ready-All-IsSettled pool [] h = tt
ready-All-IsSettled pool (n ∷ nodes) h = ground (
  arith,
  ready-All-IsSettled pool nodes,
  length-select-le is_node_ready (select (λ m. is_done_at m pool) nodes),
  length-select-le (λ m. is_done_at m pool) nodes,
)

settled-ready-All :
    (pool : Pool) (nodes : List Node)
    → All (IsSettled pool) nodes
    → (length (get_ready_machines pool nodes) ≡ length nodes)
      × (length (get_updated_machines pool nodes) ≡ length nodes)
      × (length (get_unavailable_machines nodes pool) ≡ 0)
unfolding get_ready_machines get_updated_machines get_unavailable_machines
settled-ready-All pool [] h = (refl, refl, refl)
settled-ready-All pool (n ∷ nodes) h =
    ground (arith, settled-ready-All pool nodes h.1, is_done_at-settled n pool)

-- The test of calculateStatus for all machines updated passes exactly when every node is settled;
-- there are fewer nodes than an int32 can count.
pub all_updated_iff :
    (certs : Option (List ControllerCertificate)) (pool : Pool) (nodes : List Node)
    → length nodes < 2 ^ 31
    → (all_updated (initial_status certs pool nodes) ≡ true) ↔ All (IsSettled pool) nodes
unfolding all_updated initial_status
all_updated_iff certs pool nodes small =
    let a = ready-le-updated pool nodes in
    let b = updated-le-all pool nodes in
    (
      λ h. ready-All-IsSettled pool nodes (ground arith),
      λ h. let (r, u, z) = settled-ready-All pool nodes h in ground arith,
    )
