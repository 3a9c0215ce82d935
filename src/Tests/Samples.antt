-- ===== src/Tests/Samples.antt =====
-- Nodes and pools for the tests.
use openshift_machine_config.Common.{String, false, none, some, List, [], ◌∷◌}
use openshift_machine_config.Kube.{Node, Pool, Condition}
use openshift_machine_config.Layered.{current_config_key, desired_config_key, state_key}

-- A node with its current and desired configuration and the state of its daemon.
abbrev pub node_at : String → String → String → String → Node
node_at name current desired state = record {
  name = name;
  labels = some (("node-role.kubernetes.io/worker", "") ∷ []);
  annotations =
      some
        ((current_config_key, current) ∷ (desired_config_key, desired) ∷ (state_key, state) ∷ []);
  creation_timestamp = 1;
  unschedulable = false;
  taints = [];
  conditions = record { type = "Ready"; status = "True" } ∷ [];
}

abbrev pub updating : Condition
updating = record {
  type = "Updating";
  status = "True";
  last_transition_time = 5;
  reason = "";
  message = "All nodes are updating to MachineConfig new";
}

abbrev pub pool_to : String → Pool
pool_to config = record {
  name = "worker";
  generation = 2;
  labels = none;
  annotations = none;
  is_deleted = false;
  configuration = record { name = config; source = [] };
  max_unavailable = none;
  paused = false;
  status = record {
    observed_generation = 1;
    machine_count = 3;
    updated_machine_count = 0;
    ready_machine_count = 0;
    unavailable_machine_count = 0;
    degraded_machine_count = 0;
    cert_expirys = [];
    configuration = record { name = "old"; source = [] };
    conditions = updating ∷ [];
  };
}

-- Two nodes at the old configuration, and one on its way to the new one.
abbrev pub three_nodes : List Node
three_nodes =
    node_at "a" "old" "old" "Done"
    ∷ node_at "b" "old" "old" "Done"
    ∷ node_at "c" "old" "new" "Working"
    ∷ []

-- The pool with layering and an image that no node has yet.
abbrev pub layered_pool : Pool
layered_pool = record (pool_to "new") {
  labels = some (("machineconfiguration.openshift.io/layering-enabled", "") ∷ []);
  annotations =
      some (("machineconfiguration.openshift.io/newestImageEquivalentConfig", "image") ∷ []);
}

-- A node that is not ready.
abbrev pub lost_node : Node
lost_node = record (node_at "d" "new" "new" "Done") {
  conditions = record { type = "Ready"; status = "Unknown" } ∷ [];
}
