-- ===== src/NodeController/Events.antt =====
-- The handlers of pkg/controller/node/node_controller.go for events on nodes, and the queue of pools.
pub mod Noticed
use openshift_machine_config.Common.{
  ℕ, ltb, String, ◌==◌, Bool, true, false, ◌&&◌, ◌||◌, not, Option, none, some, is_some, List, [],
  ◌∷◌, ◌++◌, bool_eq, if◌then◌else◌, any,
}
use openshift_machine_config.Common.StringMap.{StringMap, get, get_str, is_nil, value}
use openshift_machine_config.Kube.{Node, Pool, Taint}
use openshift_machine_config.Layered.{
  NotReady, not_ready, out_of_disk, network_unavailable, is_unschedulable, check_node_ready,
  is_node_done, is_set, current_config_key, desired_config_key, state_key, current_image_key,
  desired_image_key,
}
use openshift_machine_config.NodeController.Pools.{
  Selector, Pools, pools, failed, get_pools_for_node, is_windows,
}
use openshift_machine_config.NodeController.Masters.{is_master}

-- What a handler does: whether the master is reconciled with the scheduler config, and the pools it
-- enqueues, in order. `panics` is a panic after these.
pub record Reaction : Type 0 where
  pub reconciles : Bool
  pub enqueues : List (Option Pool)
  pub panics : Bool

abbrev pub nothing : Reaction
nothing = record { reconciles = false; enqueues = []; panics = false }

abbrev pub enqueue_pools : Bool → Pools → Reaction
enqueue_pools reconciles (failed e) = record {
  reconciles = reconciles;
  enqueues = [];
  panics = false;
}
enqueue_pools reconciles (pools ps) = record {
  reconciles = reconciles;
  enqueues = ps;
  panics = false;
}

unfoldable pub is_node_managed : Node → Bool
is_node_managed node =
    if is_windows node
    then false
    else if is_nil node.annotations
    then false
    else is_set (get node.annotations current_config_key)

unfoldable pub has_node_annotation_changed : Node → Node → String → Bool
has_node_annotation_changed old cur key =
    let o = get old.annotations key in
    let c = get cur.annotations key in
    if not (bool_eq (is_some o) (is_some c)) then true else not (value o == value c)

-- getErrorString, compared: the messages name the node, the kind of the error and the status.
abbrev pub same_error : Option NotReady → Option NotReady → Bool
same_error none none = true
same_error (some (not_ready s)) (some (not_ready t)) = s == t
same_error (some (out_of_disk s)) (some (out_of_disk t)) = s == t
same_error (some (network_unavailable s)) (some (network_unavailable t)) = s == t
same_error (some is_unschedulable) (some is_unschedulable) = true
same_error _ _ = false

abbrev pub reason_key : String
reason_key = "machineconfiguration.openshift.io/reason"

-- The annotations that updateNode compares.
abbrev pub annos : List String
annos =
    current_config_key ∷ desired_config_key ∷ state_key ∷ reason_key ∷ current_image_key
    ∷ desired_image_key ∷ []

-- `labels_eq` and `taints_eq` are reflect.DeepEqual on the labels and the taints.
pub record Equality : Type 0 where
  pub labels_eq : StringMap → StringMap → Bool
  pub taints_eq : List Taint → List Taint → Bool

-- The node has completed an update.
abbrev pub has_completed : Node → Node → Bool
has_completed old cur =
    not (get_str old.annotations current_config_key == get_str old.annotations desired_config_key)
    && is_node_done cur

-- `changed`
unfoldable pub has_changed : Equality → Node → Node → Bool
has_changed eq old cur =
    not (same_error (check_node_ready old) (check_node_ready cur))
    || (if has_completed old cur
        then true
        else any (λ k. has_node_annotation_changed old cur k) annos
          || not (eq.labels_eq old.labels cur.labels)
          || not (eq.taints_eq old.taints cur.taints))

-- The pools of the node as it is now, where it has changed, after what was enqueued for its old pool.
abbrev pub after_old_pool : Bool → List (Option Pool) → Bool → Pools → Reaction
after_old_pool reconciles before changed now =
    if changed
    then (let r = enqueue_pools reconciles now in record r { enqueues = before ++ r.enqueues })
    else record { reconciles = reconciles; enqueues = before; panics = false }

-- The old node's pool against the new one's name: `oldPool.Name` is read without a test for nil.
abbrev pub with_old_pool : Bool → Pool → Pools → Bool → Pools → Reaction
with_old_pool reconciles pool (failed e) changed now = after_old_pool reconciles [] changed now
with_old_pool reconciles pool (pools []) changed now = record {
  reconciles = reconciles;
  enqueues = [];
  panics = true;
}
with_old_pool reconciles pool (pools (none ∷ _)) changed now = record {
  reconciles = reconciles;
  enqueues = [];
  panics = true;
}
with_old_pool reconciles pool (pools (some p ∷ _)) changed now =
    if not (p.name == pool.name)
    then after_old_pool reconciles (some p ∷ []) changed now
    else after_old_pool reconciles [] changed now

abbrev pub with_new_pool : Bool → Pools → Pools → Bool → Reaction
with_new_pool reconciles (failed e) old changed = record {
  reconciles = reconciles;
  enqueues = [];
  panics = false;
}
with_new_pool reconciles (pools []) old changed = record {
  reconciles = reconciles;
  enqueues = [];
  panics = false;
}
with_new_pool reconciles (pools (none ∷ _)) old changed = record {
  reconciles = reconciles;
  enqueues = [];
  panics = false;
}
with_new_pool reconciles (pools (some p ∷ ps)) old changed =
    with_old_pool reconciles p old changed (pools (some p ∷ ps))

-- The calls on the work queue.
pub data QueueCall : Type 0 where
  forget add_rate_limited : String → QueueCall
  add_after : String → ℕ → QueueCall

abbrev pub max_retries : ℕ
max_retries = 15

-- One minute, in nanoseconds.
abbrev pub minute : ℕ
minute = 60000000000

-- `requeues` is NumRequeues. The calls in their order.
unfoldable pub handle_sync_err : ℕ → Bool → String → List QueueCall
handle_sync_err requeues is_error key =
    if not is_error
    then forget key ∷ []
    else if ltb requeues max_retries
    then add_rate_limited key ∷ []
    else forget key ∷ add_after key minute ∷ []

module _ (selector : Pool → Option Selector) (listed : Option (List Pool)) where
  -- A node that is being deleted is handled as deleted.
  unfoldable pub delete_node : Node → Reaction
  delete_node node = enqueue_pools false (get_pools_for_node selector listed node)

  unfoldable pub add_node : Bool → Node → Reaction
  add_node is_deleted node =
      if is_deleted
      then delete_node node
      else enqueue_pools (is_master node) (get_pools_for_node selector listed node)

  unfoldable pub update_node : Equality → Node → Node → Reaction
  update_node eq old cur =
      if not (is_node_managed cur)
      then nothing
      else with_new_pool (is_master cur) (get_pools_for_node selector listed cur)
          (get_pools_for_node selector listed old) (has_changed eq old cur)
