-- ===== src/Tests/Operators.antt =====
-- The reports of the operator at concrete inputs.
use openshift_machine_config.Common.{
  pos, ◌≡◌, refl, ◌↔◌, String, ◌==◌, true, false, ◌&&◌, not, ◌||◌, Option, none, some, List, [],
  ◌∷◌, any, All, if◌then◌else◌,
}
use openshift_machine_config.Kube.{Pool}
use openshift_machine_config.Operator.{Helpers, World, ClusterOperator, OperatorCondition, reads}
use openshift_machine_config.Common.Texts.{split_on}
use openshift_machine_config.Operator.Pools.{
  Wanted, ready, Round, reported, is_reported, poll_round,
}
use openshift_machine_config.Operator.Pools.Valid.{HasArrived}
use openshift_machine_config.Operator.Pools.Rounds.{poll_round-ready_iff}
use openshift_machine_config.Operator.Skew.{
  check_kubelets, present, after_nodes, get_minor_kubelet_version, parse_int,
}
use openshift_machine_config.Operator.Skew.Behind.{
  first_verdict, or_end, is_unparsed, check_kubelets_lem,
}
use openshift_machine_config.Operator.Status.{upgradeable_condition, skew_of_pools}
use openshift_machine_config.Operator.Status.Upgradeable.{
  upgradeable_condition_lem, is_degraded_pool, is_updating,
}
use openshift_machine_config.Operator.All.{Task, sync_all, failed_task}
use openshift_machine_config.Operator.All.Steps.{
  IsWell, holding, degraded_report, available_condition,
}
use openshift_machine_config.Operator.All.Reports.{sync_all-reports}
use openshift_machine_config.Tests.Samples.{pool_to}

abbrev first_of : List OperatorCondition → String → Option OperatorCondition
first_of [] t = none
first_of (c ∷ cs) t = if c.type == t then some c else first_of cs t

abbrev helpers : Helpers
helpers = record { set_status_condition = λ cs c. c ∷ cs; find_status_condition = first_of }

abbrev world : World
world = record {
  helpers = helpers;
  version_store = ("operator", "4.15") ∷ [];
  pools = some (pool_to "new" ∷ []);
  api_server = some (("kube-apiserver", "1.28.1") ∷ []);
  selector = λ p. some (λ l. true);
  kubelet_nodes = some (record { labels = none; kubelet_version = "v1.26.2" } ∷ []);
  related_differ = false;
  reading = λ s. reads;
  creates = λ s. true;
  updates = λ s. true;
}

is_well : IsWell world (pool_to "new" ∷ [])
is_well = record {
  lawful = record { find_set = λ cs c t. refl };
  all_read = λ s. refl;
  all_written = λ s. refl;
  listed = refl;
}

abbrev empty_operator : ClusterOperator
empty_operator = record { conditions = []; versions = []; extension = [] }

abbrev two_tasks : List Task
two_tasks =
    record { name = "RenderConfig"; fails = false }
    ∷ record { name = "RequiredPools"; fails = true }
    ∷ []

sync_all-reports_example :
    let (op, outcome) = sync_all world two_tasks (holding empty_operator true) in
    (outcome ≡ failed_task "RequiredPools")
    × ((new : ClusterOperator) × (op ≡ holding new true)
        × (first_of new.conditions "Degraded" ≡ some (degraded_report (some "RequiredPools")))
        × (first_of new.conditions "Available" ≡ some (available_condition (some "RequiredPools")))
        × (first_of new.conditions "Upgradeable"
            ≡ some (
                upgradeable_condition
                  (skew_of_pools world (pool_to "new" ∷ []))
                  (pool_to "new" ∷ []))))
sync_all-reports_example =
    sync_all-reports world (pool_to "new" ∷ []) is_well two_tasks empty_operator true

minor_of : get_minor_kubelet_version "v1.26.2" ≡ some (pos 26)
unfolding get_minor_kubelet_version split_on parse_int
minor_of = refl

-- The second node is three minor versions behind, and is not noticed.
present_hides : check_kubelets (pos 28) ("v1.26.2" ∷ "v1.25.0" ∷ []) "" false ≡ present
unfolding check_kubelets get_minor_kubelet_version split_on parse_int
present_hides = refl

check_kubelets_lem_example :
    check_kubelets (pos 28) ("v1.26.2" ∷ "v1.25.0" ∷ []) "" false
    ≡ or_end
        (first_verdict (pos 28) ("v1.26.2" ∷ "v1.25.0" ∷ []))
        (after_nodes "v1.25.0" (any is_unparsed ("v1.26.2" ∷ "v1.25.0" ∷ [])))
check_kubelets_lem_example = check_kubelets_lem (pos 28) ("v1.26.2" ∷ "v1.25.0" ∷ []) "" false

upgradeable_condition_lem_example : upgradeable_condition present (pool_to "new" ∷ []) ≡ record {
  type = "Upgradeable";
  status =
      if any is_degraded_pool (pool_to "new" ∷ []) || any is_updating (pool_to "new" ∷ [])
      then "False"
      else "True";
  reason =
      if any is_degraded_pool (pool_to "new" ∷ [])
      then "DegradedPool"
      else if any is_updating (pool_to "new" ∷ [])
      then "PoolUpdating"
      else "KubeletSkewPresent";
}
upgradeable_condition_lem_example = upgradeable_condition_lem present (pool_to "new" ∷ [])

abbrev wanted : Wanted
wanted = record { version = "v"; release_version = "4.15"; os_url = "os"; mcs = λ name. none }

-- An error is left of the round before, and was reported.
abbrev second_round : Round
second_round = record {
  metrics_synced = true;
  has_last_error = true;
  error_report = reported;
  listed = some (pool_to "new" ∷ []);
}

poll_round-ready_iff_example : (poll_round (some wanted) second_round ≡ ready) ↔ (
    (true ≡ true)
    × ((true && not (is_reported reported)) ≡ false)
    × ((pools : List Pool) × (some (pool_to "new" ∷ []) ≡ some pools)
        × All (HasArrived wanted) pools))
poll_round-ready_iff_example = poll_round-ready_iff wanted second_round
