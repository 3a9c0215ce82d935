-- ===== src/ResourceMerge/Pods/Workloads.antt =====
-- lib/resourcemerge/apps.go: deployments and daemon sets.
pub mod Priority
use openshift_machine_config.Common.{
  String, ◌==◌, Bool, true, false, not, Option, none, some, List, if◌then◌else◌,
}
use openshift_machine_config.ResourceMerge.Values.{Machinery}
use openshift_machine_config.ResourceMerge.Pods.{Container, PodTemplate, ensure_pod_template_spec}

pub record Workload (V : Type 0) : Type 0 where
  pub meta : V
  pub selector : V
  pub update_strategy : V
  pub template : PodTemplate V

module _ (k : Machinery) (toleration_key : k.Value → String)
    (same_containers : List (Container k.Value) → List (Container k.Value) → Bool) where
  open k use {Value, is_nil, deep_equal, ensure_object_meta}

  -- The two tests on the selector of a workload.
  unfoldable pub ensure_selector : Bool → Value → Value → Bool × Value
  ensure_selector modified e r =
      let m = if is_nil e then true else modified in
      let v = if is_nil e then r else e in if not (deep_equal v r) then (true, r) else (m, v)

  unfoldable pub ensure_deployment :
      Bool → Workload Value → Workload Value → Option (Bool × Workload Value)
  ensure_deployment modified e r =
      let (m1, meta) = ensure_object_meta modified e.meta r.meta in
      let (m2, selector) = ensure_selector m1 e.selector r.selector in
      elim (ensure_pod_template_spec k toleration_key same_containers m2 e.template r.template) [
        | none ↦ none
        | some (m3, template) ↦
            some (m3, record e { meta = meta; selector = selector; template = template })
      ]

  unfoldable pub ensure_daemon_set :
      Bool → Workload Value → Workload Value → Option (Bool × Workload Value)
  ensure_daemon_set modified e r =
      let (m1, meta) = ensure_object_meta modified e.meta r.meta in
      let (m2, selector) = ensure_selector m1 e.selector r.selector in
      let same = deep_equal e.update_strategy r.update_strategy in
      let strategy = if same then e.update_strategy else r.update_strategy in
      elim (ensure_pod_template_spec k toleration_key same_containers (if same then m2 else true)
        e.template r.template) [
          | none ↦ none
          | some (m3, template) ↦ some (
            m3,
            record {
              meta = meta;
              selector = selector;
              update_strategy = strategy;
              template = template;
            },
          )
        ]
