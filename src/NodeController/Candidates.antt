-- ===== src/NodeController/Candidates.antt =====
-- pkg/controller/node/node_controller.go: how many nodes of a pool may be unavailable, which nodes may
-- be moved to its configuration, and how many of them at once.
pub mod Capacity
pub mod Rollout
use openshift_machine_config.Common.{
  ℕ, ℤ, pos, negsuc, ◌+◌, ◌-◌, suc, String, ◌==◌, Bool, true, false, ◌&&◌, not, Option, none, some,
  List, [], ◌∷◌, ltb, leb, nat_eq, if◌then◌else◌, select, length, take,
}
use openshift_machine_config.Common.StringMap.{value}
use openshift_machine_config.Kube.{Node, Pool, IntOrString, int}
use openshift_machine_config.Layered.{is_desired_equal_to_pool, is_node_mcd_failing}
use openshift_machine_config.NodeController.Status.{get_unavailable_machines}

infixl 5 ◌>>=◌
abbrev pub ◌>>=◌ : {A B : Type 0} → Option A → (A → Option B) → Option B
none >>= f = none
some a >>= f = f a

-- `*pool.Spec.MaxUnavailable`, or 1.
abbrev pub or_one : Option IntOrString → IntOrString
or_one none = int (pos 1)
or_one (some v) = v

abbrev pub zero_is_one : ℤ → ℤ
zero_is_one (pos n) = if nat_eq n 0 then pos 1 else pos n
zero_is_one (negsuc n) = negsuc n

-- `scaled` stands for intstr.GetScaledValueFromIntOrPercent, rounding down; `none` is its error.
unfoldable pub max_unavailable : (IntOrString → ℕ → Option ℤ) → Pool → List Node → Option ℤ
max_unavailable scaled pool nodes = do
  n ← scaled (or_one pool.max_unavailable) (length nodes)
  some (zero_is_one n)

-- The loop of getAllCandidateMachines: the nodes that do not target the pool yet, and how many that
-- do are failing.
unfoldable pub scan : Pool → List Node → List Node × ℕ
scan pool [] = ([], 0)
scan pool (n ∷ nodes) =
    let (rest, failing) = scan pool nodes in
    if is_desired_equal_to_pool n pool
    then (rest, if is_node_mcd_failing n then failing + 1 else failing)
    else (n ∷ rest, failing)

-- A negative maximum never exceeds the number of unavailable nodes. Past the first guard the
-- difference is positive, and past the second it is again.
unfoldable pub get_all_candidate_machines : Pool → List Node → ℤ → List Node × ℕ
get_all_candidate_machines pool nodes (negsuc _) = ([], 0)
get_all_candidate_machines pool nodes (pos most) =
    let unavail = length (get_unavailable_machines nodes pool) in
    let capacity = most - unavail in
    let (rest, failing) = scan pool nodes in
    if leb most unavail
    then ([], 0)
    else if leb capacity failing
    then ([], 0)
    else (rest, capacity - failing)

unfoldable pub get_candidate_machines : Pool → List Node → ℤ → List Node
get_candidate_machines pool nodes most =
    let (rest, capacity) = get_all_candidate_machines pool nodes most in
    if ltb (length rest) capacity then rest else take capacity rest

-- getOperatorNodeName: `pods` are the node names of the operator's pods, none when the lister
-- fails. In every case but one pod the name is the empty text.
unfoldable pub get_operator_node_name : Option (List String) → String
get_operator_node_name (some (n ∷ [])) = n
get_operator_node_name _ = ""

unfoldable pub filter_control_plane_candidate_nodes : Option (List String) → List Node → List Node
filter_control_plane_candidate_nodes pods candidates =
    if leb (length candidates) 1
    then candidates
    else select (λ n. not (n.name == get_operator_node_name pods)) candidates

-- The nodes that updateCandidateMachines targets, in order; `sort_nodes` is sortNodeList.
unfoldable pub chosen_candidates :
    (List Node → List Node) → Option (List String) → Pool → List Node → ℕ → List Node
chosen_candidates sort_nodes pods pool candidates capacity =
    let kept =
      if pool.name == "master"
      then filter_control_plane_candidate_nodes pods candidates
      else candidates in
    if ltb capacity (length kept) then take capacity (sort_nodes kept) else kept
