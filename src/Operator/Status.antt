-- ===== src/Operator/Status.antt =====
-- The conditions that pkg/operator/status.go keeps on the cluster operator object.
pub mod Upgradeable
use openshift_machine_config.Common.{
  String, ◌==◌, Bool, true, false, ◌&&◌, ◌||◌, not, Option, none, some, is_some, List, [], ◌∷◌,
  if◌then◌else◌,
}
use openshift_machine_config.Kube.{Pool}
use openshift_machine_config.Operator.{
  OperatorCondition, ClusterOperator, World, Operator, Reading, reads, no_match, refused,
  progressing, degraded, available, upgradeable, version, related, clearing, has_status, is_true,
  equal_versions, get_all_versions, update_status, set_operator_status_extension,
  with_cluster_operator,
}
use openshift_machine_config.Operator.Pools.{is_pool_status_condition_true}
use openshift_machine_config.Operator.Skew.{
  is_kubelet_skew_supported, get_all_managed_nodes, Skew, unchecked, supported, unsupported,
  present,
}
use Prim.Native.String.{◌++◌ as append}

abbrev pub as_expected : String
as_expected = "AsExpected"

unfoldable pub task_failed : String → String
task_failed task = append task "Failed"

-- A syncError: the task, if it has failed.
abbrev pub SyncError : Type 0
SyncError = Option String

-- The reason of an unhealthy condition.
abbrev pub failure_reason : SyncError → String → String
failure_reason none otherwise = otherwise
failure_reason (some task) otherwise = task_failed task

abbrev pub hinders : SyncError → Bool
hinders none = false
hinders (some task) = not (task == "RequiredPools")

abbrev pub bool_status : Bool → String
bool_status true = "True"
bool_status false = "False"

abbrev pub skew_reason : Skew → String
skew_reason unchecked = "KubeletSkewUnchecked"
skew_reason supported = as_expected
skew_reason unsupported = "KubeletSkewUnsupported"
skew_reason present = "KubeletSkewPresent"

-- The loop over the pools: `updating` and `degraded` as it ends.
unfoldable pub scan_pools : Bool → List Pool → Bool × Bool
scan_pools updating [] = (updating, false)
scan_pools updating (p ∷ pools) =
    let updating' = if is_pool_status_condition_true p "Updating" then true else updating in
    let rest = scan_pools updating' pools in
    if is_pool_status_condition_true p "Degraded" then (updating', true) else rest

unfoldable pub upgradeable_condition : Skew → List Pool → OperatorCondition
upgradeable_condition skew pools =
    let (updating, is_degraded) = scan_pools false pools in
    if is_degraded
    then record { type = "Upgradeable"; status = "False"; reason = "DegradedPool" }
    else if updating
    then record { type = "Upgradeable"; status = "False"; reason = "PoolUpdating" }
    else record { type = "Upgradeable"; status = "True"; reason = skew_reason skew }

module _ (world : World) where
  -- syncError is none where the task has succeeded.
  unfoldable pub sync_available_status : SyncError → Operator → Operator × Bool
  sync_available_status err op =
      with_cluster_operator world available
        (λ co. some (
          update_status world co (record {
            type = "Available";
            status = bool_status (not (hinders err));
            reason = if hinders err then failure_reason err "" else as_expected;
          })))
        op

  unfoldable pub sync_progressing_status : Operator → Operator × Bool
  sync_progressing_status op =
      with_cluster_operator world progressing
        (λ co. some (
          update_status world co (record {
            type = "Progressing";
            status = bool_status (
                if equal_versions world.version_store co.versions
                then op.in_cluster_bringup
                else true);
            reason = "";
          })))
        op

  -- The first part of syncDegradedStatus, after an error: the status of Progressing is kept.
  abbrev pub keep_progressing : SyncError → ClusterOperator → ClusterOperator
  keep_progressing none co = co
  keep_progressing (some task) co = record co {
    conditions = world.helpers.set_status_condition co.conditions (record {
      type = "Progressing";
      status = bool_status (is_true world co "Progressing");
      reason = "";
    });
  }

  abbrev pub degrade : SyncError → ClusterOperator → ClusterOperator
  degrade err co = update_status world (keep_progressing err co) (record {
    type = "Degraded";
    status = bool_status (is_some err);
    reason = failure_reason err "";
  })

  unfoldable pub sync_degraded_status : SyncError → Operator → Operator × Bool
  sync_degraded_status err op =
      with_cluster_operator world degraded (λ co. some (degrade err co)) op

  -- Whether clearDegradedStatus goes on: the condition is there, it is not False, and the task is what
  -- has failed.
  abbrev pub is_cleared_by : String → Option OperatorCondition → Bool
  is_cleared_by task none = false
  is_cleared_by task (some c) = not (c.status == "False") && (c.reason == task_failed task)

  abbrev pub degraded_condition : Operator → Option OperatorCondition
  degraded_condition op = elim op.stored [
    | none ↦ none
    | some co ↦ world.helpers.find_status_condition co.conditions "Degraded"
  ]

  abbrev pub then_sync : (Operator → Operator × Bool) → Operator × Bool → Operator × Bool
  then_sync f (op, true) = (op, true)
  then_sync f (op, false) = f op

  -- The object is read again by syncDegradedStatus.
  abbrev pub clear_read : String → Reading → Operator → Operator × Bool
  clear_read task no_match op = (op, false)
  clear_read task refused op = (op, true)
  clear_read task reads op =
      then_sync
        (λ o.
          if is_cleared_by task (degraded_condition o)
          then sync_degraded_status none o
          else (o, false))
        (with_cluster_operator world (clearing task) (λ co. none) op)

  unfoldable pub clear_degraded_status : String → Operator → Operator × Bool
  clear_degraded_status task op = clear_read task (world.reading (clearing task)) op

  abbrev pub skew_of_pools : List Pool → Skew
  skew_of_pools ps =
      is_kubelet_skew_supported world.api_server
        (get_all_managed_nodes world.selector world.kubelet_nodes ps)

  abbrev pub is_no_match : Reading → Bool
  is_no_match no_match = true
  is_no_match reads = false
  is_no_match refused = false

  -- A failure to list the pools is an error, once there is an object.
  abbrev pub upgradeable_listed : Option (List Pool) → Operator → Operator × Bool
  upgradeable_listed none op =
      let (o, e) = with_cluster_operator world upgradeable (λ co. none) op in
      (o, not (is_no_match (world.reading upgradeable)))
  upgradeable_listed (some ps) op =
      with_cluster_operator world upgradeable
        (λ co. some (update_status world co (upgradeable_condition (skew_of_pools ps) ps))) op

  unfoldable pub sync_upgradeable_status : Operator → Operator × Bool
  sync_upgradeable_status op = upgradeable_listed world.pools op

  unfoldable pub sync_related_objects : Operator → Operator × Bool
  sync_related_objects op =
      with_cluster_operator world related (λ co. if world.related_differ then some co else none) op

  -- syncMetrics fails where the pools cannot be listed.
  unfoldable pub sync_metrics : Operator → Operator × Bool
  sync_metrics op = (op, not (is_some world.pools))

  -- The versions are kept while the object says that it progresses and is degraded.
  unfoldable pub sync_version : Operator → Operator × Bool
  sync_version op =
      with_cluster_operator world version
        (λ co.
          if is_true world co "Progressing" && is_true world co "Degraded"
          then none
          else some (
              set_operator_status_extension world
                (record co { versions = get_all_versions world.version_store })))
        op
