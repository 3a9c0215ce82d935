-- ===== src/ResourceMerge/Configs/Controller.antt =====
-- EnsureControllerConfig of lib/resourcemerge/machineconfig.go.
pub mod Panics
use openshift_machine_config.Common.{
  ℕ, String, ◌==◌, Bool, true, false, ◌&&◌, not, Option, none, some, bool_eq, if◌then◌else◌,
}
use openshift_machine_config.Common.StringMap.{StringMap}
use openshift_machine_config.ResourceMerge.Values.{
  Machinery, set_bytes_if_set, set_ip_families_if_set,
}
use openshift_machine_config.ResourceMerge.Configs.{set_field, set_field_if_set}

-- An infrastructure object: the type in its platform status, where it has one, and the rest of it.
pub record Infra (V : Type 0) : Type 0 where
  pub platform_type : Option String
  pub others : V

pub record ControllerConfigSpec (V : Type 0) : Type 0 where
  pub cluster_dns_ip : String
  pub cloud_provider_config : String
  pub platform : String
  pub etcd_discovery_domain : String
  pub os_image_url : String
  pub base_image : String
  pub base_extensions_image : String
  pub network_type : String
  pub internal_registry_pull_secret : String
  pub additional_trust_bundle : String
  pub root_ca_data : String
  pub serving_ca_data : String
  pub cloud_provider_ca_data : String
  pub ip_families : String
  pub bundle_data : V
  pub bundle_user_data : V
  pub infra : Option (Infra V)
  pub proxy : V
  pub pull_secret : V
  pub dns : V
  pub network : V
  pub images : StringMap

pub record ControllerConfig (V : Type 0) : Type 0 where
  pub meta : V
  pub spec : ControllerConfigSpec V

module _ (k : Machinery) (same_infra : Infra k.Value → Infra k.Value → Bool) where
  open k use {Value, set_string_if_set, merge_map, ensure_object_meta}

  -- `required.Infra != nil && !DeepEqual(…)`
  unfoldable pub set_infra :
      Bool → Option (Infra Value) → Option (Infra Value) → Bool × Option (Infra Value)
  set_infra modified e none = (modified, e)
  set_infra modified none (some r) = (true, some r)
  set_infra modified (some e) (some r) =
      if not (same_infra e r) then (true, some r) else (modified, some e)

  -- The platform types of two infrastructure objects.
  unfoldable pub set_platform_type : Bool → Infra Value → Infra Value → Bool × Infra Value
  set_platform_type modified e r = elim e.platform_type [
    | none ↦ (modified, e)
    | some t ↦ elim r.platform_type [
      | none ↦ (modified, e)
      | some u ↦ if not (t == u) then (true, record e { platform_type = some u }) else (modified, e)
    ]
  ]

  -- The test on the platform statuses reads through both pointers: none is the panic on a nil one. The
  -- required one is read only where the existing object has a platform status.
  unfoldable pub ensure_platform :
      Bool → Option (Infra Value) → Option (Infra Value) → Option (Bool × Option (Infra Value))
  ensure_platform modified none r = none
  ensure_platform modified (some e) (some r) =
      let (m, v) = set_platform_type modified e r in some (m, some v)
  ensure_platform modified (some e) none = elim e.platform_type [
    | none ↦ some (modified, some e)
    | some t ↦ none
  ]

  unfoldable pub ensure_controller_config_spec :
      Bool
      → ControllerConfigSpec Value
      → ControllerConfigSpec Value
      → Option (Bool × ControllerConfigSpec Value)
  ensure_controller_config_spec modified e r =
      let (m1, dns_ip) = set_string_if_set modified e.cluster_dns_ip r.cluster_dns_ip in
      let (m2, cloud) = set_string_if_set m1 e.cloud_provider_config r.cloud_provider_config in
      let (m3, platform) = set_string_if_set m2 e.platform r.platform in
      let (m4, etcd) = set_string_if_set m3 e.etcd_discovery_domain r.etcd_discovery_domain in
      let (m5, os) = set_string_if_set m4 e.os_image_url r.os_image_url in
      let (m6, base) = set_string_if_set m5 e.base_image r.base_image in
      let (m7, extensions) = set_string_if_set m6 e.base_extensions_image r.base_extensions_image in
      let (m8, net_type) = set_string_if_set m7 e.network_type r.network_type in
      let (m9, registry) =
        set_bytes_if_set m8 e.internal_registry_pull_secret r.internal_registry_pull_secret in
      let (m10, trust) = set_bytes_if_set m9 e.additional_trust_bundle r.additional_trust_bundle in
      let (m11, root) = set_bytes_if_set m10 e.root_ca_data r.root_ca_data in
      let (m12, serving) = set_bytes_if_set m11 e.serving_ca_data r.serving_ca_data in
      let (m13, cloud_ca) =
        set_bytes_if_set m12 e.cloud_provider_ca_data r.cloud_provider_ca_data in
      let (m14, ip) = set_ip_families_if_set m13 e.ip_families r.ip_families in
      let (m15, bundle) = set_field_if_set k m14 e.bundle_data r.bundle_data in
      let (m16, user_bundle) = set_field_if_set k m15 e.bundle_user_data r.bundle_user_data in
      let (m17, infra) = set_infra m16 e.infra r.infra in
      elim (ensure_platform m17 infra r.infra) [
        | none ↦ none
        | some (m18, infra') ↦
            let (m19, proxy) = set_field k m18 e.proxy r.proxy in
            let (m20, pull) = set_field_if_set k m19 e.pull_secret r.pull_secret in
            let (m21, dns) = set_field_if_set k m20 e.dns r.dns in
            let (m22, network) = set_field k m21 e.network r.network in
            let (m23, images) = merge_map m22 e.images r.images in
            some (
              m23,
              record {
                cluster_dns_ip = dns_ip;
                cloud_provider_config = cloud;
                platform = platform;
                etcd_discovery_domain = etcd;
                os_image_url = os;
                base_image = base;
                base_extensions_image = extensions;
                network_type = net_type;
                internal_registry_pull_secret = registry;
                additional_trust_bundle = trust;
                root_ca_data = root;
                serving_ca_data = serving;
                cloud_provider_ca_data = cloud_ca;
                ip_families = ip;
                bundle_data = bundle;
                bundle_user_data = user_bundle;
                infra = infra';
                proxy = proxy;
                pull_secret = pull;
                dns = dns;
                network = network;
                images = images;
              },
            )
      ]

  unfoldable pub ensure_controller_config :
      Bool
      → ControllerConfig Value
      → ControllerConfig Value
      → Option (Bool × ControllerConfig Value)
  ensure_controller_config modified e r =
      let (m1, meta) = ensure_object_meta modified e.meta r.meta in
      elim (ensure_controller_config_spec m1 e.spec r.spec) [
        | none ↦ none
        | some (m2, spec) ↦ some (m2, record { meta = meta; spec = spec })
      ]
