-- ===== src/Layered.antt =====
-- pkg/controller/common/layered_node_state.go and layered_pool_state.go: whether a node is done,
-- unavailable or targeted by its pool, and the annotations that target it. A LayeredPoolState is its
-- pool, which no caller leaves nil, and a LayeredNodeState is its node.
pub mod Facts
pub mod Targeting
use openshift_machine_config.Common.{
  ◌≡◌, String, ◌==◌, Bool, true, false, ◌&&◌, ◌||◌, not, Option, none, some, is_some, List, [], ◌∷◌,
  if◌then◌else◌,
}
use openshift_machine_config.Common.StringMap.{get, get_str, put, remove, is_nil, value}
use openshift_machine_config.Kube.{Node, NodeCondition, Pool, Condition, status_true, status_false}
use openshift_machine_config.Conditions.{is_condition_true}

abbrev pub layering_enabled_pool_label : String
layering_enabled_pool_label = "machineconfiguration.openshift.io/layering-enabled"

abbrev pub newest_layered_image_key : String
newest_layered_image_key = "machineconfiguration.openshift.io/newestImageEquivalentConfig"

abbrev pub current_image_key : String
current_image_key = "machineconfiguration.openshift.io/currentImage"

abbrev pub desired_image_key : String
desired_image_key = "machineconfiguration.openshift.io/desiredImage"

abbrev pub current_config_key : String
current_config_key = "machineconfiguration.openshift.io/currentConfig"

abbrev pub desired_config_key : String
desired_config_key = "machineconfiguration.openshift.io/desiredConfig"

abbrev pub state_key : String
state_key = "machineconfiguration.openshift.io/state"

abbrev pub state_done : String
state_done = "Done"

abbrev pub state_degraded : String
state_degraded = "Degraded"

abbrev pub state_unreconcilable : String
state_unreconcilable = "Unreconcilable"

-- IsLayeredPool of pkg/controller/common/helpers.go
unfoldable pub is_layered_pool : Pool → Bool
is_layered_pool pool = is_some (get pool.labels layering_enabled_pool_label)

unfoldable pub is_layered : Pool → Bool
is_layered pool = if is_nil pool.labels then false else is_layered_pool pool

unfoldable pub get_os_image : Pool → String
get_os_image pool = get_str pool.annotations newest_layered_image_key

-- `ok && val != ""`
abbrev pub is_set : Option String → Bool
is_set none = false
is_set (some v) = not (v == "")

unfoldable pub has_os_image : Pool → Bool
has_os_image pool =
    if is_nil pool.labels then false else is_set (get pool.annotations newest_layered_image_key)

unfoldable pub is_build_success : Pool → Bool
is_build_success pool = is_condition_true pool.status.conditions "BuildSuccess"

unfoldable pub is_build_pending : Pool → Bool
is_build_pending pool = is_condition_true pool.status.conditions "BuildPending"

unfoldable pub is_building : Pool → Bool
is_building pool = is_condition_true pool.status.conditions "Building"

unfoldable pub is_build_failure : Pool → Bool
is_build_failure pool = is_condition_true pool.status.conditions "BuildFailed"

unfoldable pub is_degraded : Pool → Bool
is_degraded pool = is_condition_true pool.status.conditions "Degraded"

unfoldable pub is_node_degraded : Pool → Bool
is_node_degraded pool = is_condition_true pool.status.conditions "NodeDegraded"

unfoldable pub is_render_degraded : Pool → Bool
is_render_degraded pool = is_condition_true pool.status.conditions "RenderDegraded"

-- The loop of IsAnyDegraded over the condition types.
any_condition_true : List Condition → List String → Bool
any_condition_true cs [] = false
any_condition_true cs (t ∷ ts) = if is_condition_true cs t then true else any_condition_true cs ts

unfoldable pub is_any_degraded : Pool → Bool
unfolding any_condition_true
is_any_degraded pool =
    any_condition_true pool.status.conditions ("Degraded" ∷ "NodeDegraded" ∷ "RenderDegraded" ∷ [])

-- `dstate, ok := …; if !ok || dstate == "" { return false }; return dstate == state`
unfoldable pub is_node_mcd_state : Node → String → Bool
is_node_mcd_state node state =
    let d = get node.annotations state_key in if is_set d then value d == state else false

unfoldable pub is_node_done : Node → Bool
is_node_done node =
    let current = get node.annotations current_config_key in
    let desired = get node.annotations desired_config_key in
    if is_nil node.annotations
    then false
    else if not (is_set current)
    then false
    else if not (is_set desired)
    then false
    else (value current == value desired) && is_node_mcd_state node state_done

unfoldable pub is_node_done_at : Node → Pool → Bool
is_node_done_at node pool =
    is_node_done node && (get_str node.annotations current_config_key == pool.configuration.name)

pub data NotReady : Type 0 where
  not_ready out_of_disk network_unavailable : String → NotReady
  is_unschedulable : NotReady

-- One round of the loop of checkNodeReady.
unfoldable pub condition_error : NodeCondition → Option NotReady
condition_error c =
    if (c.type == "Ready") && not (c.status == status_true)
    then some (not_ready c.status)
    else if (c.type == "DiskPressure") && not (c.status == status_false)
    then some (out_of_disk c.status)
    else if (c.type == "NetworkUnavailable") && not (c.status == status_false)
    then some (network_unavailable c.status)
    else none

abbrev pub or_else : Option NotReady → Option NotReady → Option NotReady
or_else none rest = rest
or_else (some e) rest = some e

unfoldable pub check_conditions : List NodeCondition → Bool → Option NotReady
check_conditions [] unschedulable = if unschedulable then some is_unschedulable else none
check_conditions (c ∷ cs) unschedulable =
    or_else (condition_error c) (check_conditions cs unschedulable)

unfoldable pub check_node_ready : Node → Option NotReady
check_node_ready node = check_conditions node.conditions node.unschedulable

unfoldable pub is_node_ready : Node → Bool
is_node_ready node = not (is_some (check_node_ready node))

unfoldable pub is_node_mcd_failing : Node → Bool
is_node_mcd_failing node =
    if get_str node.annotations current_config_key == get_str node.annotations desired_config_key
    then false
    else is_node_mcd_state node state_degraded || is_node_mcd_state node state_unreconcilable

unfoldable pub is_node_unavailable : Node → Bool
is_node_unavailable node =
    if not (is_node_ready node)
    then true
    else if is_node_done node
    then false
    else not (is_node_mcd_failing node)

unfoldable pub is_image_annotation_equal_to_pool : Node → String → Pool → Bool
is_image_annotation_equal_to_pool node key pool =
    let v = get node.annotations key in
    if is_layered pool && has_os_image pool
    then get_os_image pool == value v
    else (value v == "") || not (is_some v)

unfoldable pub is_desired_image_equal_to_pool : Node → Pool → Bool
is_desired_image_equal_to_pool node pool =
    is_image_annotation_equal_to_pool node desired_image_key pool

unfoldable pub is_current_image_equal_to_pool : Node → Pool → Bool
is_current_image_equal_to_pool node pool =
    is_image_annotation_equal_to_pool node current_image_key pool

unfoldable pub is_desired_machine_config_equal_to_pool : Node → Pool → Bool
is_desired_machine_config_equal_to_pool node pool =
    get_str node.annotations desired_config_key == pool.configuration.name

unfoldable pub is_desired_equal_to_pool : Node → Pool → Bool
is_desired_equal_to_pool node pool =
    is_desired_machine_config_equal_to_pool node pool && is_desired_image_equal_to_pool node pool

unfoldable pub is_done_at : Node → Pool → Bool
is_done_at node pool =
    is_node_done_at node pool
    && is_desired_image_equal_to_pool node pool
    && is_current_image_equal_to_pool node pool

unfoldable pub is_unavailable : Node → Pool → Bool
is_unavailable node pool = is_node_unavailable node && is_desired_image_equal_to_pool node pool

-- SetDesiredStateFromPool; the deep copy is the value itself.
unfoldable pub set_desired_state_from_pool : Node → Pool → Node
set_desired_state_from_pool node pool =
    let annotations = put node.annotations desired_config_key pool.configuration.name in
    record node {
      annotations =
          if is_layered pool && has_os_image pool
          then put annotations desired_image_key (get_os_image pool)
          else remove annotations desired_image_key;
    }
