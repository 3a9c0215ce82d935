-- ===== src/Tests/Configs.antt =====
-- Merges of machine configs at concrete inputs.
use openshift_machine_config.Common.{
  ◌≡◌, refl, String, true, false, Option, none, some, List, [], ◌∷◌,
}
use openshift_machine_config.Daemon.{in_slice}
use openshift_machine_config.Update.{MachineConfig}
use openshift_machine_config.MachineConfigs.{
  Library, merged, merge_machine_configs, merge_ignition, merge_rest, merge_fips, merge_kernel_type,
  merge_kargs, merge_extensions, last_set, overwrite_files,
}
use openshift_machine_config.MachineConfigs.Priorities.{Prevails, merge_machine_configs-Prevails}

-- Ignition configs that are texts, without files.
abbrev texts : Library String String
texts = record {
  empty = record { files = []; rest = "" };
  parse = λ raw. some (record { files = []; rest = raw });
  merge = λ a b. b;
  marshal = λ ign. some ign.rest;
  sort = λ cs. cs;
}

-- The base config of a pool.
abbrev base : MachineConfig (Option String)
base = record {
  name = "00-worker";
  spec = record {
    os_image_url = "";
    kernel_arguments = "nosmt" ∷ [];
    fips = true;
    kernel_type = "";
    extensions = [];
    raw = some "base";
  };
  base_os_extensions_container_image = "";
}

-- The real time kernel, without an Ignition config.
abbrev realtime : MachineConfig (Option String)
realtime = record {
  name = "99-realtime";
  spec = record {
    os_image_url = "custom";
    kernel_arguments = [];
    fips = false;
    kernel_type = "realtime";
    extensions = "usbguard" ∷ [];
    raw = none;
  };
  base_os_extensions_container_image = "";
}

abbrev rendered : MachineConfig (Option String)
rendered = record {
  name = "";
  spec = record {
    os_image_url = "custom";
    kernel_arguments = "nosmt" ∷ [];
    fips = true;
    kernel_type = "realtime";
    extensions = "usbguard" ∷ [];
    raw = some "base";
  };
  base_os_extensions_container_image = "extensions";
}

abbrev two_configs : List (MachineConfig (Option String))
two_configs = base ∷ realtime ∷ []

rendered_of : merge_machine_configs texts "default" "extensions" two_configs ≡ merged rendered
unfolding merge_machine_configs merge_ignition merge_rest merge_fips merge_kernel_type merge_kargs
    merge_extensions last_set overwrite_files in_slice
rendered_of = refl

merge_machine_configs-Prevails_example : Prevails two_configs rendered
merge_machine_configs-Prevails_example =
    merge_machine_configs-Prevails texts "default" "extensions" two_configs rendered (λ p. refl)
      rendered_of
