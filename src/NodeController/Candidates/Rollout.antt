-- ===== src/NodeController/Candidates/Rollout.antt =====
-- One round of the rollout over a snapshot of the pool's nodes: the chosen candidates are targeted.
use openshift_machine_config.Common.{
  ℕ, min, pos, ◌+◌, ◌≤◌, ◌<◌, ◌≡◌, refl, String, ◌==◌, ==_iff, Bool, false, ◌||◌, not, Option, List,
  [], ◌∷◌, arith, ltb, if◌then◌else◌, select, any, All, length, take, length-take, map,
  length-select-not,
}
use openshift_machine_config.Kube.{Node, Pool}
use openshift_machine_config.Layered.{
  is_desired_equal_to_pool, is_unavailable, set_desired_state_from_pool,
  is_desired_image_equal_to_pool,
}
use openshift_machine_config.NodeController.Status.{get_unavailable_machines}
use openshift_machine_config.NodeController.Candidates.{
  get_all_candidate_machines, filter_control_plane_candidate_nodes, chosen_candidates,
  get_operator_node_name,
}
use openshift_machine_config.NodeController.Candidates.Capacity.{
  untargeted, failing_here, get_all_candidate_machines_lem,
}

abbrev pub named : String → Node → Bool
named s n = n.name == s

abbrev pub UniqueNames : List Node → Type 0
UniqueNames [] = Unit
UniqueNames (n ∷ nodes) = (any (named n.name) nodes ≡ false) × UniqueNames nodes

abbrev pub among : List Node → Node → Bool
among cs n = any (λ c. named c.name n) cs

-- The nodes once those named in `cs` were targeted.
abbrev pub retarget : Pool → List Node → List Node → List Node
retarget pool cs nodes =
    map (λ n. if among cs n then set_desired_state_from_pool n pool else n) nodes

unavailable-retarget-le :
    (pool : Pool) (cs nodes : List Node)
    → length (get_unavailable_machines (retarget pool cs nodes) pool)
      ≤ length (get_unavailable_machines nodes pool) + length (select (among cs) nodes)
unfolding get_unavailable_machines
unavailable-retarget-le pool cs [] = omega arith
unavailable-retarget-le pool cs (n ∷ nodes) = ground (arith, unavailable-retarget-le pool cs nodes)

absent_name :
    (s : String) (nodes : List Node)
    → any (named s) nodes ≡ false
    → length (select (named s) nodes) ≡ 0
absent_name s [] h = refl
absent_name s (n ∷ nodes) h = ground (arith, absent_name s nodes)

one_name :
    (s : String) (nodes : List Node) → UniqueNames nodes → length (select (named s) nodes) ≤ 1
one_name s [] u = omega arith
one_name s (n ∷ nodes) u =
    ground (arith, one_name s nodes u.1, absent_name s nodes, ==_iff n.name s)

select-or-le :
    (p q : Node → Bool) (nodes : List Node)
    → length (select (λ n. p n || q n) nodes) ≤ length (select p nodes) + length (select q nodes)
select-or-le p q [] = omega arith
select-or-le p q (n ∷ nodes) = ground (arith, select-or-le p q nodes)

select_none : (nodes : List Node) → length (select (among []) nodes) ≡ 0
select_none [] = refl
select_none (n ∷ nodes) = select_none nodes

select-among-le :
    (cs nodes : List Node) → UniqueNames nodes → length (select (among cs) nodes) ≤ length cs
select-among-le [] nodes u = omega (arith, select_none nodes)
select-among-le (c ∷ cs) nodes u = omega (
  arith,
  select-among-le cs nodes u,
  one_name c.name nodes u,
  select-or-le (named c.name) (among cs) nodes,
)

absent-select :
    (s : String) (p : Node → Bool) (nodes : List Node)
    → any (named s) nodes ≡ false
    → any (named s) (select p nodes) ≡ false
absent-select s p [] h = refl
absent-select s p (n ∷ nodes) h = ground (arith, absent-select s p nodes)

UniqueNames-select :
    (p : Node → Bool) (nodes : List Node) → UniqueNames nodes → UniqueNames (select p nodes)
UniqueNames-select p [] u = tt
UniqueNames-select p (n ∷ nodes) u =
    ground (arith, UniqueNames-select p nodes u.1, absent-select n.name p nodes)

-- Of candidates with distinct names, one at least is left.
filter_control_plane-keeps_one :
    (pods : Option (List String)) (cs : List Node)
    → UniqueNames cs
    → 0 < length cs
    → 0 < length (filter_control_plane_candidate_nodes pods cs)
unfolding filter_control_plane_candidate_nodes
filter_control_plane-keeps_one pods cs u h =
    let s = get_operator_node_name pods in
    ground (arith, length-select-not (named s) cs, one_name s cs u)

stale_lem :
    (pool : Pool) (nodes : List Node)
    → All (λ n. is_desired_image_equal_to_pool n pool ≡ false) nodes
    → (length (get_unavailable_machines nodes pool) ≡ 0)
      × (length (failing_here pool nodes) ≡ 0)
      × (untargeted pool nodes ≡ nodes)
unfolding get_unavailable_machines is_unavailable is_desired_equal_to_pool
stale_lem pool [] h = (refl, refl, refl)
stale_lem pool (n ∷ nodes) h = ground (arith, stale_lem pool nodes h.1)

module _ (sort_nodes : List Node → List Node)
    (length-sort_nodes : (l : List Node) → length (sort_nodes l) ≡ length l) where
  cut : ℕ → List Node → List Node
  cut capacity l = if ltb capacity (length l) then take capacity (sort_nodes l) else l

  length-cut : (capacity : ℕ) (l : List Node) → length (cut capacity l) ≡ min capacity (length l)
  unfolding cut
  length-cut capacity l = ground (arith, length-take capacity (sort_nodes l), length-sort_nodes l)

  pub chosen-le-capacity :
      (pods : Option (List String)) (pool : Pool) (cs : List Node) (capacity : ℕ)
      → length (chosen_candidates sort_nodes pods pool cs capacity) ≤ capacity
  unfolding chosen_candidates cut
  chosen-le-capacity pods pool cs capacity =
      let kept =
        if pool.name == "master" then filter_control_plane_candidate_nodes pods cs else cs in
      omega (arith, length-cut capacity kept)

  -- Where at most `most` nodes are unavailable, at most `most` are after the round has targeted the
  -- nodes that it chose; node names are distinct, and sorting keeps the number of nodes.
  pub rollout_keeps_maximum :
      (pods : Option (List String)) (pool : Pool) (nodes : List Node) (most : ℕ)
      → UniqueNames nodes
      → length (get_unavailable_machines nodes pool) ≤ most
      → let (candidates, capacity) = get_all_candidate_machines pool nodes (pos most) in
        let chosen = chosen_candidates sort_nodes pods pool candidates capacity in
        length (get_unavailable_machines (retarget pool chosen nodes) pool) ≤ most
  rollout_keeps_maximum pods pool nodes most u h =
      let (candidates, capacity) = get_all_candidate_machines pool nodes (pos most) in
      let chosen = chosen_candidates sort_nodes pods pool candidates capacity in
      ground (
        arith,
        unavailable-retarget-le pool chosen nodes,
        select-among-le chosen nodes u,
        chosen-le-capacity pods pool candidates capacity,
        get_all_candidate_machines_lem pool nodes most,
      )

  -- While some node does not target the pool, and the unavailable and the failing nodes leave room
  -- under the maximum, the round targets at least one node: that the node of the operator is passed
  -- over never stops the rollout. Node names are distinct, and sorting keeps the number of nodes.
  pub rollout_progresses :
      (pods : Option (List String)) (pool : Pool) (nodes : List Node) (most : ℕ)
      → UniqueNames nodes
      → 0 < length (untargeted pool nodes)
      → length (get_unavailable_machines nodes pool) + length (failing_here pool nodes) < most
      → let (candidates, capacity) = get_all_candidate_machines pool nodes (pos most) in
        0 < length (chosen_candidates sort_nodes pods pool candidates capacity)
  unfolding chosen_candidates cut
  rollout_progresses pods pool nodes most u some_left room =
      let (candidates, capacity) = get_all_candidate_machines pool nodes (pos most) in
      let kept =
        if pool.name == "master"
        then filter_control_plane_candidate_nodes pods candidates
        else candidates in
      let u' = UniqueNames-select (λ n. not (is_desired_equal_to_pool n pool)) nodes u in
      ground (
        arith,
        length-cut capacity kept,
        get_all_candidate_machines_lem pool nodes most,
        filter_control_plane-keeps_one pods (untargeted pool nodes) u',
      )

-- Where no node has the image of the pool as its desired one, as after a new image was built, no
-- node counts as unavailable, whether it is ready or not: every node that is a candidate may be
-- taken up to the whole maximum.
pub stale_images_uncounted :
    (pool : Pool) (nodes : List Node) (most : ℕ)
    → All (λ n. is_desired_image_equal_to_pool n pool ≡ false) nodes
    → 0 < most
    → get_all_candidate_machines pool nodes (pos most) ≡ (nodes, most)
stale_images_uncounted pool nodes most stale positive =
    let (a, b, c) = stale_lem pool nodes stale in
    ground (arith, get_all_candidate_machines_lem pool nodes most)
