-- ===== src/ResourceMerge/Pods.antt =====
-- The containers and pods of lib/resourcemerge/core.go.
pub mod Init
pub mod Workloads
use openshift_machine_config.Common.{
  ℤ, String, ◌==◌, Bool, true, false, not, ◌||◌, Option, none, some, List, [], ◌∷◌, ◌++◌,
  if◌then◌else◌,
}
use openshift_machine_config.Common.StringMap.{StringMap}
use openshift_machine_config.ResourceMerge.Values.{
  Machinery, set_bool, set_int32_ptr, set_string_slice_if_set, set_resource_list_if_set,
  ensure_env_var, ensure_container_port, ensure_volume_mount, ensure_volume,
}
use openshift_machine_config.ResourceMerge.Security.{
  SecurityContext, PodSecurityContext, Probe, Affinity, ensure_security_context_ptr,
  ensure_pod_security_context_ptr, ensure_probe_ptr, ensure_affinity_ptr,
}
use openshift_machine_config.ResourceMerge.Lists.{place_all, remove_extra, ensure_tolerations}

pub record Container (V : Type 0) : Type 0 where
  pub name : String
  pub image : String
  pub requests : V
  pub command : V
  pub args : V
  pub working_dir : String
  pub env : List V
  pub ports : List V
  pub volume_mounts : List V
  pub liveness_probe : Option (Probe V)
  pub readiness_probe : Option (Probe V)
  pub security_context : Option (SecurityContext V)

pub record PodSpec (V : Type 0) : Type 0 where
  pub init_containers : List (Container V)
  pub containers : List (Container V)
  pub volumes : List V
  pub restart_policy : String
  pub service_account_name : String
  pub host_network : Bool
  pub node_selector : StringMap
  pub security_context : Option PodSecurityContext
  pub affinity : Option (Affinity V)
  pub tolerations : List V
  pub priority_class_name : String
  pub priority : Option ℤ

pub record PodTemplate (V : Type 0) : Type 0 where
  pub meta : V
  pub spec : PodSpec V

-- `toleration_key` reads the key of a toleration; `same_containers` is the semantic equality of two
-- lists of containers.
module _ (k : Machinery) (toleration_key : k.Value → String)
    (same_containers : List (Container k.Value) → List (Container k.Value) → Bool) where
  open k use {
    Value, zero_value, is_nil, deep_equal, set_string_if_set, merge_map, ensure_object_meta,
  }

  unfoldable pub ensure_container :
      Bool → Container Value → Container Value → Bool × Container Value
  ensure_container modified e r =
      let (m1, name) = set_string_if_set modified e.name r.name in
      let (m2, image) = set_string_if_set m1 e.image r.image in
      let (m3, requests) = set_resource_list_if_set k m2 e.requests r.requests in
      let (m4, command) = set_string_slice_if_set k m3 e.command r.command in
      let (m5, args) = set_string_slice_if_set k m4 e.args r.args in
      let (m6, working_dir) = set_string_if_set m5 e.working_dir r.working_dir in
      let (m7, placed) = place_all k (ensure_env_var k) m6 e.env r.env in
      let (m8, env) = remove_extra k m7 r.env placed in
      let (m9, ports) = place_all k (ensure_container_port k) m8 e.ports r.ports in
      let (m10, mounts) = place_all k (ensure_volume_mount k) m9 e.volume_mounts r.volume_mounts in
      let (m11, liveness) = ensure_probe_ptr k m10 e.liveness_probe r.liveness_probe in
      let (m12, readiness) = ensure_probe_ptr k m11 e.readiness_probe r.readiness_probe in
      let (m13, context) =
        ensure_security_context_ptr k m12 e.security_context r.security_context in
      (
        m13,
        record {
          name = name;
          image = image;
          requests = requests;
          command = command;
          args = args;
          working_dir = working_dir;
          env = env;
          ports = ports;
          volume_mounts = mounts;
          liveness_probe = liveness;
          readiness_probe = readiness;
          security_context = context;
        },
      )

  abbrev pub zero_container : Container Value
  zero_container = record {
    name = "";
    image = "";
    requests = zero_value;
    command = zero_value;
    args = zero_value;
    working_dir = "";
    env = [];
    ports = [];
    volume_mounts = [];
    liveness_probe = none;
    readiness_probe = none;
    security_context = none;
  }

  -- The search of an init container by name, and its merge.
  unfoldable pub merge_found :
      Bool → List (Container Value) → Container Value → Option (Bool × List (Container Value))
  merge_found modified [] r = none
  merge_found modified (e ∷ es) r =
      let (m, c) = ensure_container modified e r in
      let rest = merge_found modified es r in
      if e.name == r.name
      then some (m, c ∷ es)
      else elim rest [ none ↦ none | some (m', es') ↦ some (m', e ∷ es') ]

  -- `&l[len(l)-1]` merged with the container; on an empty list the index is -1 and the code panics.
  unfoldable pub merge_last :
      List (Container Value) → Container Value → Option (Bool × List (Container Value))
  merge_last [] r = none
  merge_last (e ∷ []) r = let (m, c) = ensure_container true e r in some (m, c ∷ [])
  merge_last (e ∷ f ∷ es) r = elim (merge_last (f ∷ es) r) [
    | none ↦ none
    | some (m, es') ↦ some (m, e ∷ es')
  ]

  -- The loop over the required init containers; none is a panic. One that is missing is appended, with
  -- the init containers, to the containers of the pod, and the last init container that there was is
  -- merged with it. The two lists are separate values here; where append finds room in the array of
  -- the init containers they share it, and the containers are then compared with the required ones.
  unfoldable pub ensure_init_containers :
      Bool
      → List (Container Value)
      → List (Container Value)
      → List (Container Value)
      → Option (Bool × List (Container Value) × List (Container Value))
  ensure_init_containers modified init containers [] = some (modified, init, containers)
  ensure_init_containers modified init containers (r ∷ rs) = elim (merge_found modified init r) [
    | some (m, init') ↦ ensure_init_containers m init' containers rs
    | none ↦ elim (merge_last init r) [
      | none ↦ none
      | some (m, init') ↦ ensure_init_containers m init' (init ++ zero_container ∷ []) rs
    ]
  ]

  -- What ensurePodSpec does after the init containers.
  unfoldable pub ensure_pod_rest : Bool → PodSpec Value → PodSpec Value → Bool × PodSpec Value
  ensure_pod_rest modified e r =
      let same = same_containers r.containers e.containers in
      let m1 = if same then modified else true in
      let containers = if same then e.containers else r.containers in
      let (m2, volumes) = place_all k (ensure_volume k) m1 e.volumes r.volumes in
      let keep = r.restart_policy == "" || e.restart_policy == r.restart_policy in
      let m3 = if keep then m2 else true in
      let policy = if keep then e.restart_policy else r.restart_policy in
      let (m4, account) = set_string_if_set m3 e.service_account_name r.service_account_name in
      let (m5, network) = set_bool m4 e.host_network r.host_network in
      let (m6, selector) = merge_map m5 e.node_selector r.node_selector in
      let (m7, context) =
        ensure_pod_security_context_ptr k m6 e.security_context r.security_context in
      let (m8, affinity) = ensure_affinity_ptr k m7 e.affinity r.affinity in
      let (m9, tolerations) = ensure_tolerations k toleration_key m8 e.tolerations r.tolerations in
      let (m10, class) = set_string_if_set m9 e.priority_class_name r.priority_class_name in
      let (m11, priority) = set_int32_ptr m10 e.priority r.priority in
      (
        m11,
        record e {
          containers = containers;
          volumes = volumes;
          restart_policy = policy;
          service_account_name = account;
          host_network = network;
          node_selector = selector;
          security_context = context;
          affinity = affinity;
          tolerations = tolerations;
          priority_class_name = class;
          priority = priority;
        },
      )

  unfoldable pub ensure_pod_spec :
      Bool → PodSpec Value → PodSpec Value → Option (Bool × PodSpec Value)
  ensure_pod_spec modified e r =
      elim (ensure_init_containers modified e.init_containers e.containers r.init_containers) [
        | none ↦ none
        | some (m, init, containers) ↦
            some
              (ensure_pod_rest m (record e { init_containers = init; containers = containers }) r)
      ]

  unfoldable pub ensure_pod_template_spec :
      Bool → PodTemplate Value → PodTemplate Value → Option (Bool × PodTemplate Value)
  ensure_pod_template_spec modified e r =
      let (m1, meta) = ensure_object_meta modified e.meta r.meta in
      elim (ensure_pod_spec m1 e.spec r.spec) [
        | none ↦ none
        | some (m2, spec) ↦ some (m2, record { meta = meta; spec = spec })
      ]
