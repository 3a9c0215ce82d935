-- ===== src/Tests/Drains.antt =====
-- The drain controller at concrete inputs: an API server that holds one node, with a log of the calls.
use openshift_machine_config.Common.{
  ℕ, ◌+◌, ◌-◌, ◌≡◌, ◌⊎◌, refl, String, Bool, true, false, Option, some, [], ◌∷◌, if◌then◌else◌,
}
use openshift_machine_config.Common.StringMap.{get_str, get, find}
use openshift_machine_config.Kube.{Node}
use openshift_machine_config.Drain.{
  Api, Config, Controller, SyncError, cordon_or_uncordon_node, alert_late, begin, attempt_drain,
  drain_node, sync_found, started, verb_of,
}
use openshift_machine_config.Drain.Ongoing.{Remembers, SameElsewhere, drain_node-Remembers}
use openshift_machine_config.Drain.Cordoned.{SeenAs, Steady, drain_node-SeenAs, uncordoned_drain}
use openshift_machine_config.Tests.Samples.{node_at}

-- `cordons` tells whether cordons succeed; no drain does.
abbrev server : Bool → Api
server cordons = record {
  State = Node;
  cordon = λ s n desired. (if cordons then record s { unschedulable = desired } else s, cordons);
  get_node = λ s name. (s, some s);
  run_drain = λ s name. (s, false);
  update = λ s name f. (f s, true);
}

abbrev config : Config
config = record {
  max_retries = 15;
  drain_timeout = 3600;
  requeue_delay = 60;
  failing_threshold = 600;
  failing_delay = 300;
  cordon_steps = 5;
}

abbrev asked_to : String → Node
asked_to request = record (node_at "a" "old" "new" "Working") {
  annotations = some (("machineconfiguration.openshift.io/desiredDrain", request) ∷ []);
}

abbrev idle : Controller
idle = record { ongoing = []; alerts = []; queue = [] }

abbrev draining : Controller
draining = record idle { ongoing = ("a", 100) ∷ [] }

-- A server on which no cordon takes effect, with the number of drains that it has seen.
abbrev counting : Api
counting = record {
  State = Node × ℕ;
  cordon = λ s n desired. (s, true);
  get_node = λ s name. (s, some s.0);
  run_drain = λ s name. ((s.0, s.1 + 1), true);
  update = λ s name f. ((f s.0, s.1), true);
}

-- No drain was seen.
abbrev IsQuiet : Node × ℕ → Type 0
IsQuiet s = s.1 ≡ 0

counting-Steady : Steady counting IsQuiet
counting-Steady = record { cordons = λ s n desired h. h; reads = λ s name h. h }

abbrev asked : Node × ℕ
asked = (asked_to "drain-new", 0)

drain_node-SeenAs_example :
    ((s1 : Node × ℕ) × SeenAs counting true asked.0 s1
      × IsQuiet s1
      × (drain_node counting config 100 idle asked.0 asked
          ≡ attempt_drain counting config 0 (begin 100 idle "a") asked.0 s1))
    ⊎ (((cordon_or_uncordon_node counting 5 true asked.0 asked).1 ≡ false)
        × ((s1 : Node × ℕ) × IsQuiet s1
            × (drain_node counting config 100 idle asked.0 asked ≡ (idle, s1, false))))
unfolding started
drain_node-SeenAs_example =
    drain_node-SeenAs counting config 100 idle asked.0 asked IsQuiet counting-Steady refl refl

drain_node-Remembers_example :
    let r : Controller × Node × Bool =
      drain_node (server true) config 1000 draining (asked_to "drain-new") (asked_to "drain-new") in
    Remembers config 1000 100 "a" [] r.0 r.2 × SameElsewhere "a" r.0 draining
unfolding started
drain_node-Remembers_example =
    drain_node-Remembers (server true) config 1000 (asked_to "drain-new") draining
      (asked_to "drain-new") 100 refl

uncordoned_drain_example :
    let r : Controller × Node × Option SyncError =
      sync_found
        (server true)
        config
        200
        draining
        (asked_to "uncordon-new")
        (asked_to "uncordon-new") in
    drain_node (server true) config 300 r.0 (asked_to "drain-newer") r.1
    ≡ attempt_drain
        (server true)
        config
        (300 - 100)
        (alert_late config (300 - 100) draining "a")
        (asked_to "drain-newer")
        r.1
unfolding started verb_of get_str get find
uncordoned_drain_example =
    uncordoned_drain (server true) config 200 draining (asked_to "uncordon-new")
      (asked_to "uncordon-new") 100 300 (asked_to "drain-newer") refl refl refl
