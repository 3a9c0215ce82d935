-- ===== src/Tests/Merge.antt =====
-- The merges at concrete inputs, over texts as values.
use openshift_machine_config.Common.{
  ◌≡◌, inl, refl, String, ◌==◌, ==_iff, Bool, true, false, none, some, List, [], ◌↔◌,
}
use openshift_machine_config.ResourceMerge.Lists.{place_all, ensure_tolerations}
use openshift_machine_config.ResourceMerge.Values.{
  Machinery, set_bool, set_bytes_if_set, set_int32_ptr,
}
use openshift_machine_config.ResourceMerge.Values.Laws.{IsMerge, Lawful, set_bytes_if_set-IsMerge}
use openshift_machine_config.ResourceMerge.Security.{
  ensure_pod_security_context_ptr, ensure_affinity_ptr, at_pointer,
}
use openshift_machine_config.ResourceMerge.Security.Laws.{at_pointer-IsMerge}
use openshift_machine_config.ResourceMerge.Pods.{
  Container, PodSpec, ensure_pod_spec, ensure_pod_template_spec, ensure_init_containers,
  ensure_pod_rest,
}
use openshift_machine_config.ResourceMerge.Pods.Workloads.{
  Workload, ensure_deployment, ensure_selector,
}
use openshift_machine_config.ResourceMerge.Pods.Workloads.Priority.{workload_never_settles}
use openshift_machine_config.ResourceMerge.Configs.Controller.{
  Infra, ControllerConfigSpec, ensure_controller_config_spec,
}
use openshift_machine_config.ResourceMerge.Configs.Controller.Panics.{
  needs_platform, ensure_controller_config_spec_panics,
}

unfoldable keep_map :
    Bool → List (String × String) → List (String × String) → Bool × List (String × String)
keep_map m e r = (m, e)

keep_map-IsMerge : IsMerge keep_map
unfolding keep_map
keep_map-IsMerge = record {
  honest = λ m e r h. (h, refl);
  settles = λ m e r. refl;
  stable = λ r. refl;
}

-- Empty texts require nothing, and a map is set where there is none.
abbrev texts : Machinery
texts = record {
  Value = String;
  zero_value = "";
  is_nil = λ v. v == "";
  name = λ v. v;
  deep_equal = λ v w. v == w;
  set_string_if_set = set_bytes_if_set;
  merge_map = at_pointer keep_map;
  ensure_object_meta = set_bytes_if_set;
}

texts_lawful : Lawful texts
texts_lawful = record {
  deep_equal_refl = λ v. (==_iff v v).1 refl;
  strings = set_bytes_if_set-IsMerge;
  maps = at_pointer-IsMerge keep_map keep_map-IsMerge;
  metas = set_bytes_if_set-IsMerge;
}

abbrev same_texts : Infra String → Infra String → Bool
same_texts a b = a.others == b.others

abbrev no_containers : List (Container String) → List (Container String) → Bool
no_containers [] [] = true
no_containers a b = false

abbrev empty_spec : ControllerConfigSpec String
empty_spec = record {
  cluster_dns_ip = "";
  cloud_provider_config = "";
  platform = "";
  etcd_discovery_domain = "";
  os_image_url = "";
  base_image = "";
  base_extensions_image = "";
  network_type = "";
  internal_registry_pull_secret = "";
  additional_trust_bundle = "";
  root_ca_data = "";
  serving_ca_data = "";
  cloud_provider_ca_data = "";
  ip_families = "";
  bundle_data = "";
  bundle_user_data = "";
  infra = none;
  proxy = "";
  pull_secret = "";
  dns = "";
  network = "";
  images = none;
}

abbrev on_aws : ControllerConfigSpec String
on_aws = record empty_spec { infra = some (record { platform_type = some "AWS"; others = "" }) }

ensure_controller_config_spec_panics_example :
    (ensure_controller_config_spec texts same_texts false on_aws empty_spec ≡ none)
    ↔ ((empty_spec.infra ≡ none) × (needs_platform on_aws.infra ≡ true))
ensure_controller_config_spec_panics_example =
    ensure_controller_config_spec_panics texts same_texts false on_aws empty_spec

abbrev container : Container String
container = record {
  name = "init";
  image = "image";
  requests = "";
  command = "";
  args = "";
  working_dir = "";
  env = [];
  ports = [];
  volume_mounts = [];
  liveness_probe = none;
  readiness_probe = none;
  security_context = none;
}

abbrev pod : PodSpec String
pod = record {
  init_containers = [];
  containers = [];
  volumes = [];
  restart_policy = "";
  service_account_name = "";
  host_network = false;
  node_selector = none;
  security_context = none;
  affinity = none;
  tolerations = [];
  priority_class_name = "";
  priority = none;
}

abbrev workload : Workload String
workload = record {
  meta = "meta";
  selector = "selector";
  update_strategy = "";
  template = record { meta = ""; spec = pod };
}

-- What the merges give for a workload that sets no priority.
workload_reported :
    ensure_deployment texts (λ v. v) no_containers false workload workload ≡ some (true, workload)
unfolding ensure_deployment ensure_selector ensure_pod_template_spec ensure_pod_spec
    ensure_init_containers ensure_pod_rest set_bytes_if_set place_all set_bool
    ensure_pod_security_context_ptr ensure_affinity_ptr ensure_tolerations set_int32_ptr
workload_reported = refl

workload_never_settles_example : true ≡ true
workload_never_settles_example =
    workload_never_settles texts (λ v. v) no_containers false workload workload workload workload
      refl (inl (workload_reported, workload_reported))
