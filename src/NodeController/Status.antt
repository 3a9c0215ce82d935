-- ===== src/NodeController/Status.antt =====
-- pkg/controller/node/status.go: the machines of a pool by state, and calculateStatus. The file has
-- copies of the node tests of layered_node_state.go, word for word; the model has them once.
pub mod Counts
pub mod Report
use Prim.Native.String.{◌++◌ as append}
use openshift_machine_config.Common.{
  ℕ, String, ◌==◌, Bool, true, false, ◌&&◌, ◌||◌, not, Option, none, some, List, [], ◌∷◌, map, ◌^◌,
  ltb, nat_eq, if◌then◌else◌, select, length,
}
use openshift_machine_config.Common.StringMap.{get, is_nil, value}
use openshift_machine_config.Kube.{
  Node, Pool, PoolStatus, Condition, CertExpiry, ObjectReference, int32, status_true, status_false,
}
use openshift_machine_config.Conditions.{new_condition, set_pool_condition, is_condition_true}
use openshift_machine_config.Layered.{
  is_set, is_done_at, is_node_ready, is_unavailable, is_layered_pool, newest_layered_image_key,
  desired_config_key, state_key, state_degraded, state_unreconcilable,
}

unfoldable pub get_updated_machines : Pool → List Node → List Node
get_updated_machines pool nodes = select (λ n. is_done_at n pool) nodes

unfoldable pub get_ready_machines : Pool → List Node → List Node
get_ready_machines pool nodes = select is_node_ready (get_updated_machines pool nodes)

unfoldable pub get_unavailable_machines : List Node → Pool → List Node
get_unavailable_machines nodes pool = select (λ n. is_unavailable n pool) nodes

-- The body of the loop of getDegradedMachines.
unfoldable pub is_degraded_machine : Node → Bool
is_degraded_machine node =
    let d = get node.annotations state_key in
    if is_nil node.annotations
    then false
    else if not (is_set (get node.annotations desired_config_key))
    then false
    else if not (is_set d)
    then false
    else (value d == state_degraded) || (value d == state_unreconcilable)

unfoldable pub get_degraded_machines : List Node → List Node
get_degraded_machines nodes = select is_degraded_machine nodes

-- What the code takes from fmt and from apimachinery: `%q`, `%d`, and the semantic equality of the
-- source lists of two configurations.
pub record Library : Type 0 where
  pub quote : String → String
  pub decimal : ℕ → String
  pub source_eq : List ObjectReference → List ObjectReference → Bool

pub record ControllerCertificate : Type 0 where
  pub bundle_file : String
  pub subject : String
  pub not_after : Option ℕ

cert_expirys : Option (List ControllerCertificate) → List CertExpiry
cert_expirys none = []
cert_expirys (some certs) =
    map (λ c. record { bundle = c.bundle_file; subject = c.subject; expiry = c.not_after })
      (select (λ c. c.bundle_file == "KubeAPIServerServingCAData") certs)

unfoldable pub get_pool_update_line : Pool → String
get_pool_update_line pool =
    let line = append "MachineConfig " pool.configuration.name in
    if not (is_layered_pool pool)
    then line
    else elim (get pool.annotations newest_layered_image_key) [
      | none ↦ line
      | some image ↦ append line (append " / Image " image)
    ]

-- strings.Join(l, ", ")
join : List String → String
join [] = ""
join (s ∷ []) = s
join (s ∷ t ∷ l) = append s (append ", " (join (t ∷ l)))

-- The counts, and what is carried over from the last status.
unfoldable pub initial_status : Option (List ControllerCertificate) → Pool → List Node → PoolStatus
unfolding cert_expirys
initial_status certs pool nodes = record {
  observed_generation = pool.generation;
  machine_count = int32 (length nodes);
  updated_machine_count = int32 (length (get_updated_machines pool nodes));
  ready_machine_count = int32 (length (get_ready_machines pool nodes));
  unavailable_machine_count = int32 (length (get_unavailable_machines nodes pool));
  degraded_machine_count = int32 (length (get_degraded_machines nodes));
  cert_expirys = cert_expirys certs;
  configuration = pool.status.configuration;
  conditions = pool.status.conditions;
}

unfoldable pub all_updated : PoolStatus → Bool
all_updated s =
    nat_eq s.updated_machine_count s.machine_count
    && nat_eq s.ready_machine_count s.machine_count
    && nat_eq s.unavailable_machine_count 0

abbrev pub with_condition : Condition → PoolStatus → PoolStatus
with_condition c s = record s { conditions = set_pool_condition s.conditions c }

-- `degradedMachineCount > 0` on an int32.
abbrev pub positive : ℕ → Bool
positive n = ltb 0 n && ltb n (2 ^ 31)

module _ (lib : Library) where
  -- The reasons that the degraded machines give.
  degraded_reasons : List Node → List String
  degraded_reasons nodes =
      map
        (λ n. append "Node " (
          append n.name (
            append " is reporting: "
              (lib.quote (value (get n.annotations "machineconfiguration.openshift.io/reason"))))))
        (select (λ n. is_set (get n.annotations "machineconfiguration.openshift.io/reason")) nodes)

  -- The branches on `allUpdated`; `t` and `u` are the times of the two new conditions.
  unfoldable pub update_conditions : ℕ → ℕ → Pool → PoolStatus → PoolStatus
  update_conditions t u pool s =
      if all_updated s
      then (let done = with_condition (new_condition u "Updating" status_false "" "") (
            with_condition
              (new_condition t "Updated" status_true ""
                (append "All nodes are updated with " (get_pool_update_line pool)))
              s) in
          if not (s.configuration.name == pool.configuration.name)
            || not (lib.source_eq s.configuration.source pool.configuration.source)
          then record done { configuration = pool.configuration }
          else done)
      else with_condition
          (if pool.paused
            then new_condition u "Updating" status_false ""
                (append "Pool is paused; will not update to " (get_pool_update_line pool))
            else new_condition u "Updating" status_true ""
                (append "All nodes are updating to " (get_pool_update_line pool)))
          (with_condition (new_condition t "Updated" status_false "" "") s)

  unfoldable pub degraded_conditions : ℕ → ℕ → Pool → List Node → PoolStatus → PoolStatus
  unfolding degraded_reasons join
  degraded_conditions t u pool degraded s =
      let node_degraded = positive s.degraded_machine_count in
      let render_degraded = is_condition_true pool.status.conditions "RenderDegraded" in
      with_condition
        (new_condition u "Degraded"
          (if node_degraded || render_degraded then status_true else status_false) "" "")
        (with_condition
          (if node_degraded
            then new_condition t "NodeDegraded" status_true
                (append (lib.decimal (length degraded))
                  " nodes are reporting degraded status on sync")
                (join (degraded_reasons degraded))
            else new_condition t "NodeDegraded" status_false "" "")
          s)

  -- calculateStatus; `now` gives the time at each of the four calls of metav1.Now().
  unfoldable pub calculate_status :
      (ℕ → ℕ) → Option (List ControllerCertificate) → Pool → List Node → PoolStatus
  calculate_status now certs pool nodes =
      degraded_conditions (now 2) (now 3) pool (get_degraded_machines nodes)
        (update_conditions (now 0) (now 1) pool (initial_status certs pool nodes))
