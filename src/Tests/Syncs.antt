-- ===== src/Tests/Syncs.antt =====
-- A sync of a pool and the events on nodes at concrete inputs.
use openshift_machine_config.Common.{
  ◌≡◌, refl, pos, ◌≤◌, true, false, none, some, is_some, select, List, [], ◌∷◌, arith, length, inl,
}
use openshift_machine_config.Common.StringMap.{get, put, without}
use openshift_machine_config.Kube.{Node, Pool, Condition}
use openshift_machine_config.Conditions.{is_condition_true}
use openshift_machine_config.Layered.{has_os_image, state_key}
use openshift_machine_config.NodeController.Status.{get_unavailable_machines}
use openshift_machine_config.NodeController.Pools.{
  pools, get_pools_for_node, get_nodes_for_pool, get_primary_pool_for_node, is_windows,
  matching_pools, matches, has_name, split_roles, add_role, choose_pools,
}
use openshift_machine_config.NodeController.Candidates.{max_unavailable}
use openshift_machine_config.NodeController.Masters.{
  schedulable_master, is_master, is_master_taint, master_taint,
}
use openshift_machine_config.NodeController.Masters.Schedulable.{IsSettled, reconciled-IsSettled}
use openshift_machine_config.NodeController.Events.{Equality, is_node_managed, update_node}
use openshift_machine_config.NodeController.Events.Noticed.{update_node-notices, update_node_panics}
use openshift_machine_config.NodeController.Sync.{
  Env, found, continue, can_layered_pool_continue, sync_machine_config_pool,
}
use openshift_machine_config.NodeController.Sync.Held.{
  can_layered_pool_continue_lem, sync_machine_config_pool-spares,
}
use openshift_machine_config.NodeController.Sync.Maximum.{sync_keeps_maximum}
use openshift_machine_config.Build.Marks.{succeeded}
use openshift_machine_config.Tests.Samples.{pool_to, three_nodes, layered_pool, node_at}
use openshift_machine_config.Tests.Rollout.{plain, as_is, one_unavailable}
use openshift_machine_config.Tests.Nodes.{worker_selector}

abbrev built : Condition
built = record {
  type = "BuildSuccess";
  status = "True";
  last_transition_time = 6;
  reason = "BuildSucceeded";
  message = "";
}

abbrev built_pool : Pool
built_pool = record layered_pool { status = record layered_pool.status { conditions = built ∷ [] } }

can_layered_pool_continue_lem_example : can_layered_pool_continue built_pool ≡ continue
unfolding is_condition_true has_os_image get
can_layered_pool_continue_lem_example =
    can_layered_pool_continue_lem built_pool succeeded ((refl, tt), refl)

-- Every call succeeds.
abbrev all_well : Env
all_well = record {
  pools = some (pool_to "new" ∷ []);
  nodes = three_nodes;
  relisted = three_nodes;
  config =
      some
        (record { control_plane_topology = some "HighlyAvailable"; controller_certificates = [] });
  pods = some ("a" ∷ []);
  now = λ k. k;
  lib = plain;
  selector = worker_selector;
  selects_all = λ p. false;
  scaled = λ v n. some (pos 2);
  sort_nodes = as_is;
  status_eq = λ a b. false;
  answers = λ c. true;
}

abbrev paused_pool : Pool
paused_pool = record (pool_to "new") { paused = true }

sync_machine_config_pool-spares_example :
    (sync_machine_config_pool all_well (found paused_pool) paused_pool.status three_nodes).nodes
    ≡ three_nodes
sync_machine_config_pool-spares_example =
    sync_machine_config_pool-spares all_well paused_pool paused_pool.status three_nodes (inl refl)

all_of_pool :
    get_nodes_for_pool worker_selector (some (pool_to "new" ∷ [])) (pool_to "new") three_nodes
    ≡ some three_nodes
unfolding get get_nodes_for_pool get_primary_pool_for_node get_pools_for_node is_windows
    matching_pools matches split_roles add_role choose_pools
all_of_pool = refl

at_most_two : max_unavailable all_well.scaled (pool_to "new") three_nodes ≡ some (pos 2)
unfolding max_unavailable
at_most_two = refl

-- The nodes after the sync.
abbrev synced_nodes : List Node
synced_nodes =
    (sync_machine_config_pool all_well (found (pool_to "new")) (pool_to "new").status
      three_nodes).nodes

abbrev members : List Node → List Node
members nodes =
    select
      (λ n.
        has_name worker_selector "worker"
          (get_primary_pool_for_node worker_selector (some (pool_to "new" ∷ [])) n))
      (select (λ n. is_some (get n.labels "node-role.kubernetes.io/worker")) nodes)

sync_keeps_maximum_example :
    length (get_unavailable_machines (members synced_nodes) (pool_to "new")) ≤ 2
unfolding get_nodes_for_pool
sync_keeps_maximum_example =
    sync_keeps_maximum all_well (λ l. refl) (pool_to "new") (pool_to "new").status three_nodes
      (members synced_nodes) 2 (refl, (refl, (refl, tt))) all_of_pool at_most_two
      (omega (arith, one_unavailable)) refl

abbrev master : Node
master = record (node_at "m" "old" "old" "Done") {
  labels = some (("node-role.kubernetes.io/master", "") ∷ []);
  taints = master_taint ∷ [];
}

abbrev open_master : Node
open_master = record master {
  labels =
      some (("node-role.kubernetes.io/worker", "") ∷ ("node-role.kubernetes.io/master", "") ∷ []);
  taints = [];
}

master_opens : schedulable_master master ≡ some open_master
unfolding schedulable_master is_master_taint get put without
master_opens = refl

reconciled-IsSettled_example : IsSettled true master open_master
reconciled-IsSettled_example = reconciled-IsSettled true master open_master master_opens

abbrev equality : Equality
equality = record { labels_eq = λ a b. true; taints_eq = λ a b. true }

abbrev working : Node
working = node_at "a" "old" "new" "Working"

abbrev idle_node : Node
idle_node = node_at "a" "old" "old" "Done"

is_managed : is_node_managed working ≡ true
unfolding is_node_managed is_windows get
is_managed = refl

has_pool :
    get_pools_for_node worker_selector (some (pool_to "new" ∷ [])) working
    ≡ pools (some (pool_to "new") ∷ [])
unfolding get get_pools_for_node is_windows matching_pools matches split_roles add_role choose_pools
has_pool = refl

had_pool :
    get_pools_for_node worker_selector (some (pool_to "new" ∷ [])) idle_node
    ≡ pools (some (pool_to "new") ∷ [])
unfolding get get_pools_for_node is_windows matching_pools matches split_roles add_role choose_pools
had_pool = refl

update_node-notices_example :
    update_node worker_selector (some (pool_to "new" ∷ [])) equality idle_node working ≡ record {
      reconciles = is_master working;
      enqueues = some (pool_to "new") ∷ [];
      panics = false;
    }
unfolding get
update_node-notices_example =
    update_node-notices worker_selector (some (pool_to "new" ∷ [])) equality idle_node working
      (pool_to "new") (pool_to "new") [] [] state_key is_managed has_pool had_pool refl
      (λ e. absurd (cc e))

-- A node that had no label of a role.
abbrev unlabelled : Node
unlabelled = record idle_node { labels = none }

update_node_panics_example :
    (update_node worker_selector (some (pool_to "new" ∷ [])) equality unlabelled working).panics
    ≡ true
unfolding get_pools_for_node is_windows get matching_pools matches
update_node_panics_example =
    update_node_panics worker_selector (some (pool_to "new" ∷ [])) equality unlabelled working
      (pool_to "new") [] is_managed has_pool
