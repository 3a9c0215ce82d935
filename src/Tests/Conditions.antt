-- ===== src/Tests/Conditions.antt =====
-- Condition lists at concrete inputs.
use openshift_machine_config.Kube.{Condition}

abbrev updated : Condition
updated = record {
  type = "Updated";
  status = "True";
  last_transition_time = 9;
  reason = "";
  message = "All nodes are updated with MachineConfig new";
}
