-- ===== src/NodeController/Candidates/Capacity.antt =====
-- The candidates and the capacity never take a pool past its maximum of unavailable nodes.
use openshift_machine_config.Common.{
  ℕ, pos, ◌+◌, ◌-◌, ◌≤◌, ◌<◌, ◌≡◌, ◌⊎◌, refl, ◌&&◌, not, List, [], ◌∷◌, arith, select, length,
}
use openshift_machine_config.Kube.{Node, Pool}
use openshift_machine_config.Layered.{is_desired_equal_to_pool, is_node_mcd_failing}
use openshift_machine_config.NodeController.Status.{get_unavailable_machines}
use openshift_machine_config.NodeController.Candidates.{scan, get_all_candidate_machines}

-- The nodes that already target the pool and are failing.
abbrev pub failing_here : Pool → List Node → List Node
failing_here pool nodes =
    select (λ n. is_desired_equal_to_pool n pool && is_node_mcd_failing n) nodes

-- The nodes that do not target the pool.
abbrev pub untargeted : Pool → List Node → List Node
untargeted pool nodes = select (λ n. not (is_desired_equal_to_pool n pool)) nodes

pub scan_lem :
    (pool : Pool) (nodes : List Node)
    → scan pool nodes ≡ (untargeted pool nodes, length (failing_here pool nodes))
unfolding scan
scan_lem pool [] = refl
scan_lem pool (n ∷ nodes) = ground (arith, scan_lem pool nodes)

-- Either no node may be moved, and then the unavailable and the failing nodes use the maximum up, or
-- the candidates are all the nodes that do not target the pool, and the capacity is what the
-- unavailable and the failing nodes leave of the maximum.
pub get_all_candidate_machines_lem :
    (pool : Pool) (nodes : List Node) (most : ℕ)
    → let used = length (get_unavailable_machines nodes pool) + length (failing_here pool nodes) in
      ((get_all_candidate_machines pool nodes (pos most) ≡ ([], 0)) × (most ≤ used))
      ⊎ ((get_all_candidate_machines pool nodes (pos most) ≡ (untargeted pool nodes, most - used))
          × (used < most))
unfolding get_all_candidate_machines
get_all_candidate_machines_lem pool nodes most = ground (arith, scan_lem pool nodes)
