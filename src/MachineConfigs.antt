-- ===== src/MachineConfigs.antt =====
-- MergeMachineConfigs of pkg/controller/common/helpers.go: one machine config out of those that a pool
-- selects.
pub mod Priorities
use openshift_machine_config.Common.{
  String, ◌==◌, Bool, true, false, ◌&&◌, not, Option, none, some, List, [], ◌∷◌, ◌++◌,
  if◌then◌else◌, map,
}
use openshift_machine_config.Daemon.{ConfigSpec, in_slice}
use openshift_machine_config.Update.{MachineConfig}

-- A file of an Ignition config, with its overwrite setting.
pub record OutFile (W : Type 0) : Type 0 where
  pub overwrite : Option Bool
  pub body : W

pub record OutIgnition (W : Type 0) : Type 0 where
  pub files : List (OutFile W)
  pub rest : W

-- The Ignition library: an empty config of the version in use, ParseAndConvertConfig, Merge and the
-- marshaller; and the stable sort by name.
pub record Library (R W : Type 0) : Type 0 where
  pub empty : OutIgnition W
  pub parse : R → Option (OutIgnition W)
  pub merge : OutIgnition W → OutIgnition W → OutIgnition W
  pub marshal : OutIgnition W → Option R
  pub sort : List (MachineConfig (Option R)) → List (MachineConfig (Option R))

pub data Merged (R : Type 0) : Type 0 where
  nothing_to_merge not_merged : Merged R
  merged : MachineConfig (Option R) → Merged R

abbrev pub kernel_devel : String
kernel_devel = "kernel-devel"

abbrev overwrite_file : {W : Type 0} → OutFile W → OutFile W
overwrite_file f = elim f.overwrite [ none ↦ record f { overwrite = some true } | some b ↦ f ]

-- For file entries without a default overwrite, it is set to true.
unfoldable pub overwrite_files : {W : Type 0} → OutIgnition W → OutIgnition W
overwrite_files ign = record ign { files = map overwrite_file ign.files }

-- If no config sets the kernel type, it is the default one.
abbrev pub kernel_or_default : String → String
kernel_or_default kernel = if kernel == "" then "default" else kernel

module _ {R : Type 0} where
  -- The loops over the configs; the first argument is what the variable holds.
  unfoldable pub merge_fips : Bool → List (MachineConfig (Option R)) → Bool
  merge_fips fips [] = fips
  merge_fips fips (c ∷ cs) = merge_fips (if c.spec.fips then true else fips) cs

  unfoldable pub merge_kernel_type : String → List (MachineConfig (Option R)) → String
  merge_kernel_type kernel [] = kernel
  merge_kernel_type kernel (c ∷ cs) =
      merge_kernel_type (if c.spec.kernel_type == "realtime" then c.spec.kernel_type else kernel) cs

  unfoldable pub merge_kargs : List (MachineConfig (Option R)) → List String
  merge_kargs [] = []
  merge_kargs (c ∷ cs) = c.spec.kernel_arguments ++ merge_kargs cs

  unfoldable pub merge_extensions : List (MachineConfig (Option R)) → List String
  merge_extensions [] = []
  merge_extensions (c ∷ cs) = c.spec.extensions ++ merge_extensions cs

  unfoldable pub last_set :
      (MachineConfig (Option R) → String) → String → List (MachineConfig (Option R)) → String
  last_set field image [] = image
  last_set field image (c ∷ cs) = last_set field (if not (field c == "") then field c else image) cs

module _ {R W : Type 0} (library : Library R W) where
  unfoldable pub merge_rest :
      OutIgnition W → List (MachineConfig (Option R)) → Option (OutIgnition W)
  merge_rest out [] = some out
  merge_rest out (c ∷ cs) = elim c.spec.raw [
    | none ↦ merge_rest out cs
    | some raw ↦ elim (library.parse raw) [
      | none ↦ none
      | some ign ↦ merge_rest (library.merge out ign) cs
    ]
  ]

  abbrev first_ignition : MachineConfig (Option R) → Option (OutIgnition W)
  first_ignition c = elim c.spec.raw [ none ↦ some library.empty | some raw ↦ library.parse raw ]

  unfoldable pub merge_ignition : List (MachineConfig (Option R)) → Option (OutIgnition W)
  merge_ignition [] = some library.empty
  merge_ignition (c ∷ cs) = elim (first_ignition c) [ none ↦ none | some out ↦ merge_rest out cs ]

  abbrev pub merged_config :
      String → String → List (MachineConfig (Option R)) → R → MachineConfig (Option R)
  merged_config os_image extensions_image cs raw = record {
    name = "";
    spec = record {
      os_image_url = last_set (λ c. c.spec.os_image_url) os_image cs;
      kernel_arguments = merge_kargs cs;
      fips = merge_fips false cs;
      kernel_type = kernel_or_default (merge_kernel_type "" cs);
      extensions = merge_extensions cs;
      raw = some raw;
    };
    base_os_extensions_container_image =
        last_set (λ c. c.base_os_extensions_container_image) extensions_image cs;
  }

  -- `kernel-devel` goes with the default kernel only.
  abbrev pub with_raw : String → String → List (MachineConfig (Option R)) → Option R → Merged R
  with_raw os_image extensions_image cs none = not_merged
  with_raw os_image extensions_image cs (some raw) =
      if not (kernel_or_default (merge_kernel_type "" cs) == "default")
        && in_slice kernel_devel (merge_extensions cs)
      then not_merged
      else merged (merged_config os_image extensions_image cs raw)

  abbrev pub with_ignition :
      String → String → List (MachineConfig (Option R)) → Option (OutIgnition W) → Merged R
  with_ignition os_image extensions_image cs none = not_merged
  with_ignition os_image extensions_image cs (some out) =
      with_raw os_image extensions_image cs (library.marshal (overwrite_files out))

  -- `os_image` is what GetDefaultBaseImageContainer takes from the controller config.
  unfoldable pub merge_machine_configs :
      String → String → List (MachineConfig (Option R)) → Merged R
  merge_machine_configs os_image extensions_image [] = nothing_to_merge
  merge_machine_configs os_image extensions_image (c ∷ cs) =
      let sorted = library.sort (c ∷ cs) in
      with_ignition os_image extensions_image sorted (merge_ignition sorted)
