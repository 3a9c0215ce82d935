-- ===== src/NodeController/Masters.antt =====
-- The part of pkg/controller/node/node_controller.go that makes masters schedulable, as the scheduler
-- config asks for: a label and a taint of each master.
pub mod Schedulable
use openshift_machine_config.Common.{
  String, ◌==◌, Bool, true, false, ◌&&◌, ◌||◌, not, Option, none, some, is_some, List, [], ◌∷◌,
  ◌++◌, if◌then◌else◌, select, any,
}
use openshift_machine_config.Common.StringMap.{get, put, remove, is_nil}
use openshift_machine_config.Kube.{Node, Taint}
use openshift_machine_config.NodeController.Server.{
  Answers, scheduling, read_node, patch_node, find_node, write_node, Written, written, failed,
  panicked, and_then, logged,
}

abbrev pub master_label : String
master_label = "node-role.kubernetes.io/master"

abbrev pub worker_label : String
worker_label = "node-role.kubernetes.io/worker"

abbrev pub no_schedule : String
no_schedule = "NoSchedule"

-- The scheduler config: its name and `Spec.MastersSchedulable`.
pub record Scheduler : Type 0 where
  pub name : String
  pub masters_schedulable : Bool

unfoldable pub is_master_taint : Taint → Bool
is_master_taint t = (t.key == master_label) && (t.effect == no_schedule)

abbrev pub master_taint : Taint
master_taint = record { key = master_label; taint_value = ""; effect = no_schedule }

-- The function that makeMasterNodeUnSchedulable applies to the node.
unfoldable pub unschedulable_master : Node → Node
unschedulable_master node = record node {
  labels =
      if is_some (get node.labels worker_label)
      then remove node.labels worker_label
      else node.labels;
  taints =
      if any is_master_taint node.taints then node.taints else node.taints ++ master_taint ∷ [];
}

-- The one that makeMasterNodeSchedulable applies; none is an assignment to a nil map.
unfoldable pub schedulable_master : Node → Option Node
schedulable_master node =
    let taints = select (λ t. not (is_master_taint t)) node.taints in
    if is_some (get node.labels worker_label)
    then some (record node { taints = taints })
    else if is_nil node.labels
    then none
    else some (record node { labels = put node.labels worker_label ""; taints = taints })

unfoldable pub is_master : Node → Bool
is_master node = is_some (get node.labels master_label)

-- The config named `cluster`; none where there is none, or no list.
unfoldable pub find_scheduler : List Scheduler → Option Bool
find_scheduler [] = none
find_scheduler (s ∷ schedulers) =
    if s.name == "cluster" then some s.masters_schedulable else find_scheduler schedulers

unfoldable pub get_masters_schedulable : Option (List Scheduler) → Option Bool
get_masters_schedulable none = none
get_masters_schedulable (some schedulers) = find_scheduler schedulers

-- The selector asks for the label with an empty value.
abbrev pub is_current_master : Node → Bool
is_current_master node = elim (get node.labels master_label) [ none ↦ false | some v ↦ v == "" ]

unfoldable pub get_current_masters : Option (List Node) → Option (List Node)
get_current_masters none = none
get_current_masters (some nodes) = some (select is_current_master nodes)

abbrev pub master_written : Bool → Option Node → List Node → Written
master_written patches none nodes = panicked nodes
master_written patches (some n) nodes =
    if patches then written (write_node n nodes) else failed nodes

-- UpdateNodeRetry on a lister that is up to date.
abbrev pub update_master : Bool → Bool → Option Node → (Node → Option Node) → List Node → Written
update_master reads patches none f nodes = failed nodes
update_master reads patches (some n) f nodes =
    if reads then master_written patches (f n) nodes else failed nodes

module _ (answers : Answers) where
  unfoldable pub make_master_node_unschedulable : String → List Node → Written
  make_master_node_unschedulable s nodes =
      update_master (answers (read_node scheduling s)) (answers (patch_node scheduling s))
        (find_node s nodes) (λ n. some (unschedulable_master n)) nodes

  unfoldable pub make_master_node_schedulable : String → List Node → Written
  make_master_node_schedulable s nodes =
      update_master (answers (read_node scheduling s)) (answers (patch_node scheduling s))
        (find_node s nodes) schedulable_master nodes

  -- An error is logged. `schedulers` is what the lister has, none where it fails.
  abbrev pub reconcile_to : Option Bool → String → List Node → Written
  reconcile_to none s nodes = written nodes
  reconcile_to (some true) s nodes = logged (make_master_node_schedulable s nodes)
  reconcile_to (some false) s nodes = logged (make_master_node_unschedulable s nodes)

  unfoldable pub reconcile_master : Option (List Scheduler) → String → List Node → Written
  reconcile_master schedulers s nodes = reconcile_to (get_masters_schedulable schedulers) s nodes

  abbrev pub reconcile_each : Option (List Scheduler) → List Node → List Node → Written
  reconcile_each schedulers [] nodes = written nodes
  reconcile_each schedulers (n ∷ masters) nodes =
      and_then (reconcile_master schedulers n.name nodes) (reconcile_each schedulers masters)

  abbrev pub when_listed :
      (List Node → List Node → Written) → Option (List Node) → List Node → Written
  when_listed f none nodes = written nodes
  when_listed f (some masters) nodes = f masters nodes

  -- `listed` is what the lister has, none where it fails; checkMasterNodesOnAdd is this too.
  unfoldable pub reconcile_masters :
      Option (List Scheduler) → Option (List Node) → List Node → Written
  reconcile_masters schedulers listed nodes =
      when_listed (reconcile_each schedulers) (get_current_masters listed) nodes

  -- The errors are collected and reported together.
  unfoldable pub make_masters_unschedulable : List Node → List Node → Written
  make_masters_unschedulable [] nodes = written nodes
  make_masters_unschedulable (n ∷ masters) nodes =
      and_then (logged (make_master_node_unschedulable n.name nodes))
        (make_masters_unschedulable masters)

  unfoldable pub check_master_nodes_on_delete : Scheduler → Option (List Node) → List Node → Written
  check_master_nodes_on_delete scheduler listed nodes =
      if not (scheduler.name == "cluster")
      then written nodes
      else when_listed make_masters_unschedulable (get_current_masters listed) nodes

  -- `spec_eq` is whether the two specs are equal.
  unfoldable pub check_master_nodes_on_update :
      Option (List Scheduler)
      → Option (List Node)
      → Scheduler
      → Scheduler
      → Bool
      → List Node
      → Written
  check_master_nodes_on_update schedulers listed old cur spec_eq nodes =
      if not (old.name == "cluster") || not (cur.name == "cluster")
      then written nodes
      else if spec_eq
      then written nodes
      else reconcile_masters schedulers listed nodes
