-- ===== src/Tests/Rollout.antt =====
-- A round of the rollout at concrete inputs.
use openshift_machine_config.Common.{
  ◌+◌, ◌-◌, ◌≤◌, ◌<◌, ◌≡◌, ◌⊎◌, ◌↔◌, refl, pos, true, false, ◌&&◌, ◌||◌, not, none, List, [], ◌∷◌,
  arith, length, All,
}
use openshift_machine_config.Common.StringMap.{get, get_str}
use openshift_machine_config.Kube.{Node}
use openshift_machine_config.Conditions.Unique.{IsUnique}
use openshift_machine_config.Layered.{
  is_desired_equal_to_pool, is_desired_machine_config_equal_to_pool, is_desired_image_equal_to_pool,
  is_image_annotation_equal_to_pool, is_layered, is_layered_pool, has_os_image, get_os_image,
  is_unavailable, is_node_unavailable, is_node_ready, check_node_ready, check_conditions,
  condition_error, is_node_done, is_node_mcd_state, is_node_mcd_failing,
}
use openshift_machine_config.NodeController.Status.{
  Library, calculate_status, get_unavailable_machines, get_degraded_machines,
}
use openshift_machine_config.NodeController.Status.Counts.{IsSettled}
use openshift_machine_config.NodeController.Status.Report.{says, calculate_status-reports}
use openshift_machine_config.NodeController.Candidates.{
  get_all_candidate_machines, chosen_candidates,
}
use openshift_machine_config.NodeController.Candidates.Capacity.{
  untargeted, failing_here, get_all_candidate_machines_lem,
}
use openshift_machine_config.NodeController.Candidates.Rollout.{
  rollout_progresses, stale_images_uncounted,
}
use openshift_machine_config.Tests.Samples.{pool_to, three_nodes, layered_pool, lost_node}

abbrev pub plain : Library
plain = record { quote = λ s. s; decimal = λ n. "n"; source_eq = λ a b. true }

abbrev pub as_is : List Node → List Node
as_is l = l

pub one_unavailable : length (get_unavailable_machines three_nodes (pool_to "new")) ≡ 1
unfolding get_unavailable_machines is_unavailable is_node_unavailable is_node_ready check_node_ready
    check_conditions condition_error is_node_done is_node_mcd_state is_node_mcd_failing
    is_desired_image_equal_to_pool is_image_annotation_equal_to_pool is_layered has_os_image get
    get_str
one_unavailable = refl

two_left : length (untargeted (pool_to "new") three_nodes) ≡ 2
unfolding is_desired_equal_to_pool is_desired_machine_config_equal_to_pool
    is_desired_image_equal_to_pool is_image_annotation_equal_to_pool is_layered has_os_image get
    get_str
two_left = refl

none_failing : length (failing_here (pool_to "new") three_nodes) ≡ 0
unfolding is_desired_equal_to_pool is_desired_machine_config_equal_to_pool is_node_mcd_failing
    is_node_mcd_state is_desired_image_equal_to_pool is_image_annotation_equal_to_pool is_layered
    has_os_image get get_str
none_failing = refl

rollout_progresses_example :
    let (candidates, capacity) = get_all_candidate_machines (pool_to "new") three_nodes (pos 2) in
    0 < length (chosen_candidates as_is none (pool_to "new") candidates capacity)
rollout_progresses_example =
    rollout_progresses as_is (λ l. refl) none (pool_to "new") three_nodes 2
      (refl, (refl, (refl, tt))) (omega (arith, two_left))
      (omega (arith, one_unavailable, none_failing))

get_all_candidate_machines_lem_example :
    let used =
      length (get_unavailable_machines three_nodes (pool_to "new"))
      + length (failing_here (pool_to "new") three_nodes) in
    ((get_all_candidate_machines (pool_to "new") three_nodes (pos 2) ≡ ([], 0)) × (2 ≤ used))
    ⊎ ((get_all_candidate_machines (pool_to "new") three_nodes (pos 2)
          ≡ (untargeted (pool_to "new") three_nodes, 2 - used))
        × (used < 2))
get_all_candidate_machines_lem_example =
    get_all_candidate_machines_lem (pool_to "new") three_nodes 2

stale_images_uncounted_example :
    get_all_candidate_machines layered_pool (lost_node ∷ three_nodes) (pos 1)
    ≡ (lost_node ∷ three_nodes, 1)
unfolding is_desired_image_equal_to_pool is_image_annotation_equal_to_pool is_layered
    is_layered_pool has_os_image get_os_image get get_str
stale_images_uncounted_example =
    stale_images_uncounted layered_pool (lost_node ∷ three_nodes) 1
      (refl, (refl, (refl, (refl, tt)))) (omega arith)

calculate_status-reports_example :
    let s = calculate_status plain (λ k. k) none (pool_to "new") three_nodes in
    IsUnique s.conditions
    × ((says s "Updated" ≡ true) ↔ All (IsSettled (pool_to "new")) three_nodes)
    × (says s "Updating" ≡ (not (says s "Updated") && not false))
    × ((says s "NodeDegraded" ≡ true) ↔ (0 < length (get_degraded_machines three_nodes)))
    × (says s "Degraded" ≡ (says s "NodeDegraded" || says (pool_to "new").status "RenderDegraded"))
    × (says s "RenderDegraded" ≡ says (pool_to "new").status "RenderDegraded")
calculate_status-reports_example =
    calculate_status-reports plain (pool_to "new") (λ k. k) none three_nodes (omega arith)
      (refl, tt)
