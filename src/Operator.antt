-- ===== src/Operator.antt =====
-- pkg/operator: the cluster operator object that the operator keeps, with status.go and version.go.
-- Messages and times of its conditions are left out, and so are its related objects.
pub mod Pools
pub mod Skew
pub mod Status
pub mod All
use openshift_machine_config.Common.{
  String, ◌==◌, ◌≡◌, Bool, true, false, ◌&&◌, ◌||◌, not, Option, none, some, List, [], ◌∷◌, any,
  if◌then◌else◌, map,
}
use openshift_machine_config.Kube.{Pool}
use openshift_machine_config.NodeController.Sorting.{text_lt}
use openshift_machine_config.Common.StringMap.{StringMap}
use openshift_machine_config.Operator.Skew.{KubeletNode}
use openshift_machine_config.Operator.Pools.{PoolReport, machine_config_pool_status}

pub record OperatorCondition : Type 0 where
  pub type : String
  pub status : String
  pub reason : String

-- The operands and their versions, as the status lists them.
abbrev pub Versions : Type 0
Versions = List (String × String)

pub record ClusterOperator : Type 0 where
  pub conditions : List OperatorCondition
  pub versions : Versions
  pub extension : List (String × PoolReport)

-- The helpers of library-go for these conditions.
pub record Helpers : Type 0 where
  pub set_status_condition : List OperatorCondition → OperatorCondition → List OperatorCondition
  pub find_status_condition : List OperatorCondition → String → Option OperatorCondition

abbrev pub has_status : String → Option OperatorCondition → Bool
has_status s none = false
has_status s (some c) = c.status == s

-- What is relied on: a condition that was set is found, and the others are found as before.
pub record Lawful (h : Helpers) : Type 0 where
  pub find_set :
      (cs : List OperatorCondition) (c : OperatorCondition) (t : String)
      → h.find_status_condition (h.set_status_condition cs c) t
        ≡ (if c.type == t then some c else h.find_status_condition cs t)

-- versionStore.Equal: every version of the store is among those given.
unfoldable pub equal_versions : Versions → Versions → Bool
equal_versions [] opvs = true
equal_versions ((n, v) ∷ versions) opvs =
    if any (λ (op : String × String). (op.0 == n) && (op.1 == v)) opvs
    then equal_versions versions opvs
    else false

-- A version in its place by name.
insert_version : String × String → Versions → Versions
insert_version v [] = v ∷ []
insert_version v (w ∷ versions) =
    let rest = insert_version v versions in if text_lt w.0 v.0 then w ∷ rest else v ∷ w ∷ versions

-- versionStore.GetAll: sorted by name.
unfoldable pub get_all_versions : Versions → Versions
unfolding insert_version
get_all_versions [] = []
get_all_versions (v ∷ versions) = insert_version v (get_all_versions versions)

-- The calls on the object, by the function that makes them.
pub data Step : Type 0 where
  progressing degraded available upgradeable version : Step
  related : Step
  clearing : String → Step

-- How a Get ends: with the object as it is stored or with that there is none, with no match for the
-- kind, or with another error.
pub data Reading : Type 0 where
  reads no_match refused : Reading

-- What the operator finds: what the lister has of the pools, none where it fails, what the skew of the
-- kubelets is read from, whether the related objects of the stored object are others than it should
-- have, and how the calls end.
pub record World : Type 0 where
  pub helpers : Helpers
  pub version_store : Versions
  pub pools : Option (List Pool)
  pub api_server : Option Versions
  pub selector : Pool → Option (StringMap → Bool)
  pub kubelet_nodes : Option (List KubeletNode)
  pub related_differ : Bool
  pub reading : Step → Reading
  pub creates : Step → Bool
  pub updates : Step → Bool

-- The object as it is stored, and `inClusterBringup`.
pub record Operator : Type 0 where
  pub stored : Option ClusterOperator
  pub in_cluster_bringup : Bool

abbrev pub status_unknown : String
status_unknown = "Unknown"

module _ (world : World) where
  abbrev pub is_true : ClusterOperator → String → Bool
  is_true co t = has_status "True" (world.helpers.find_status_condition co.conditions t)

  abbrev pub set_all : List OperatorCondition → List OperatorCondition → List OperatorCondition
  set_all cs [] = cs
  set_all cs (c ∷ news) = set_all (world.helpers.set_status_condition cs c) news

  -- initializeClusterOperator, before it is sent.
  unfoldable pub initial_cluster_operator : ClusterOperator
  initial_cluster_operator = record {
    conditions = set_all [] (
        record { type = "Available"; status = "False"; reason = "" }
        ∷ record { type = "Progressing"; status = "False"; reason = "" }
        ∷ record { type = "Degraded"; status = "False"; reason = "" }
        ∷ record { type = "Upgradeable"; status = status_unknown; reason = "NoData" }
        ∷ []);
    versions = get_all_versions world.version_store;
    extension = [];
  }

  -- setOperatorStatusExtension: the pools that cannot be listed leave it as it was.
  abbrev pub extend : Option (List Pool) → ClusterOperator → ClusterOperator
  extend none co = co
  extend (some ps) co = record co {
    extension = map (λ p. (p.name, machine_config_pool_status p)) ps;
  }

  unfoldable pub set_operator_status_extension : ClusterOperator → ClusterOperator
  set_operator_status_extension co = extend world.pools co

  -- updateStatus, before it is sent.
  unfoldable pub update_status : ClusterOperator → OperatorCondition → ClusterOperator
  update_status co c =
      set_operator_status_extension
        (record co { conditions = world.helpers.set_status_condition co.conditions c })

  -- An object that is to be written, if there is one; the second part is whether there is an error.
  abbrev pub send : Step → Option ClusterOperator → Operator → Operator × Bool
  send s none op = (op, false)
  send s (some co) op =
      if world.updates s then (record op { stored = some co }, false) else (op, true)

  -- What is done with the object that initializeClusterOperator has created and sent.
  abbrev pub with_initial :
      Step → (ClusterOperator → Option ClusterOperator) → Operator → Operator × Bool
  with_initial s f op =
      if not (world.creates s)
      then (op, true)
      else if world.updates s
      then send s (f initial_cluster_operator)
          (record op { stored = some initial_cluster_operator })
      else (
        record op { stored = some (record { conditions = []; versions = []; extension = [] }) },
        true,
      )

  abbrev pub with_stored :
      Step
      → (ClusterOperator → Option ClusterOperator)
      → Reading
      → Option ClusterOperator
      → Operator
      → Operator × Bool
  with_stored s f reads (some co) op = send s (f co) op
  with_stored s f reads none op = with_initial s f op
  with_stored s f no_match co op = (op, false)
  with_stored s f refused co op = (op, true)

  -- fetchClusterOperator, and what a function makes of the object, sent.
  unfoldable pub with_cluster_operator :
      Step → (ClusterOperator → Option ClusterOperator) → Operator → Operator × Bool
  with_cluster_operator s f op = with_stored s f (world.reading s) op.stored op
