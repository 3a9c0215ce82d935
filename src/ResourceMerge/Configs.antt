-- ===== src/ResourceMerge/Configs.antt =====
-- lib/resourcemerge/machineconfig.go: machine configs and pools, and config maps.
pub mod Controller
pub mod Laws
use openshift_machine_config.Common.{
  ℕ, String, ◌==◌, Bool, true, false, ◌&&◌, not, Option, none, some, bool_eq, if◌then◌else◌,
}
use openshift_machine_config.Common.StringMap.{StringMap}
use openshift_machine_config.ResourceMerge.Values.{
  Machinery, set_bytes_if_set, set_ip_families_if_set,
}

pub record MachineConfigSpec (V : Type 0) : Type 0 where
  pub os_image_url : String
  pub kernel_type : String
  pub extensions_image : String
  pub kernel_arguments : V
  pub config : V
  pub fips : Bool
  pub extensions : V

pub record MachineConfig (V : Type 0) : Type 0 where
  pub meta : V
  pub spec : MachineConfigSpec V

pub record PoolSelectors (V : Type 0) : Type 0 where
  pub meta : V
  pub machine_config_selector : V
  pub node_selector : V

pub record ConfigMap (V : Type 0) : Type 0 where
  pub meta : V
  pub map_data : StringMap

module _ (k : Machinery) where
  open k use {Value, is_nil, deep_equal, set_string_if_set, merge_map, ensure_object_meta}

  -- `if !DeepEqual(existing.F, required.F) { *modified = true; existing.F = required.F }`
  unfoldable pub set_field : Bool → Value → Value → Bool × Value
  set_field modified e r = if not (deep_equal e r) then (true, r) else (modified, e)

  -- The same, where a required nil is no requirement.
  unfoldable pub set_field_if_set : Bool → Value → Value → Bool × Value
  set_field_if_set modified e r =
      if not (is_nil r) && not (deep_equal e r) then (true, r) else (modified, e)

  unfoldable pub set_fips : Bool → Bool → Bool → Bool × Bool
  set_fips modified e r = if not (bool_eq e r) then (true, r) else (modified, e)

  unfoldable pub ensure_machine_config_spec :
      Bool → MachineConfigSpec Value → MachineConfigSpec Value → Bool × MachineConfigSpec Value
  ensure_machine_config_spec modified e r =
      let (m1, url) = set_string_if_set modified e.os_image_url r.os_image_url in
      let (m2, kernel) = set_string_if_set m1 e.kernel_type r.kernel_type in
      let (m3, image) = set_string_if_set m2 e.extensions_image r.extensions_image in
      let (m4, arguments) = set_field m3 e.kernel_arguments r.kernel_arguments in
      let (m5, config) = set_field m4 e.config r.config in
      let (m6, fips) = set_fips m5 e.fips r.fips in
      let (m7, extensions) = set_field m6 e.extensions r.extensions in
      (
        m7,
        record {
          os_image_url = url;
          kernel_type = kernel;
          extensions_image = image;
          kernel_arguments = arguments;
          config = config;
          fips = fips;
          extensions = extensions;
        },
      )

  unfoldable pub ensure_machine_config :
      Bool → MachineConfig Value → MachineConfig Value → Bool × MachineConfig Value
  ensure_machine_config modified e r =
      let (m1, meta) = ensure_object_meta modified e.meta r.meta in
      let (m2, spec) = ensure_machine_config_spec m1 e.spec r.spec in
      (m2, record { meta = meta; spec = spec })

  -- The two tests on a selector; a nil one is always reported as changed.
  unfoldable pub set_selector : Bool → Value → Value → Bool × Value
  set_selector modified e r =
      let m = if is_nil e then true else modified in
      let v = if is_nil e then r else e in if not (deep_equal v r) then (true, r) else (m, v)

  unfoldable pub ensure_machine_config_pool :
      Bool → PoolSelectors Value → PoolSelectors Value → Bool × PoolSelectors Value
  ensure_machine_config_pool modified e r =
      let (m1, meta) = ensure_object_meta modified e.meta r.meta in
      let (m2, configs) = set_selector m1 e.machine_config_selector r.machine_config_selector in
      let (m3, nodes) = set_selector m2 e.node_selector r.node_selector in
      (m3, record { meta = meta; machine_config_selector = configs; node_selector = nodes })

  unfoldable pub ensure_config_map :
      Bool → ConfigMap Value → ConfigMap Value → Bool × ConfigMap Value
  ensure_config_map modified e r =
      let (m1, meta) = ensure_object_meta modified e.meta r.meta in
      let (m2, values) = merge_map m1 e.map_data r.map_data in
      (m2, record { meta = meta; map_data = values })
