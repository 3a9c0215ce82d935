-- ===== src/Tests/Updates.antt =====
-- Updates of a node at concrete inputs.
use openshift_machine_config.Common.{
  ◌≡◌, refl, String, ◌==◌, true, false, Option, some, List, [], ◌∷◌, arith,
}
use openshift_machine_config.Daemon.{
  Ignition, ConfigSpec, MachineConfigDiff, action_reload_crio, registries_path, in_slice,
  same_texts, canonicalize_kernel_type, diff_of, new_machine_config_diff, calculate_action,
  calculate_action_from_file_diffs, file_actions,
}
use openshift_machine_config.Daemon.Kargs.{
  is_space, split_kernel_arguments, split_rounds, size, generate_kargs, parse_kernel_arguments,
  next_arg, skip_spaces, take_arg,
}
use openshift_machine_config.Daemon.Kargs.Split.{join_args, split-join_args, split_rounds_enough}
use openshift_machine_config.Daemon.Live.{SameSystem, rebootless-SameSystem}

abbrev changed_files : List String
changed_files = "/var/lib/kubelet/config.json" ∷ registries_path ∷ []

abbrev spec : ConfigSpec String
spec = record {
  os_image_url = "image";
  kernel_arguments = "nosmt" ∷ [];
  fips = false;
  kernel_type = "";
  extensions = [];
  raw = "old";
}

abbrev next_spec : ConfigSpec String
next_spec = record spec { raw = "new"; kernel_type = "default" }

abbrev parse : String → Option (Ignition String)
parse raw = some (record { passwd = ""; files = raw; units = "" })

abbrev files_only : MachineConfigDiff
files_only = record {
  os_update = false;
  kargs = false;
  fips = false;
  passwd = false;
  files = true;
  units = false;
  kernel_type = false;
  extensions = false;
}

rebootless-SameSystem_example :
    (false ≡ false) × SameSystem parse (λ a b. a == b) false spec next_spec
unfolding new_machine_config_diff diff_of same_texts canonicalize_kernel_type calculate_action
    calculate_action_from_file_diffs file_actions in_slice
rebootless-SameSystem_example =
    rebootless-SameSystem parse (λ a b. a == b) false spec next_spec false changed_files
      (action_reload_crio ∷ []) files_only refl refl refl

-- Each argument after what separates it from the one before; the text ends in an argument.
abbrev kargs : List (String × String)
kargs = ("", "nosmt") ∷ (" \t", "dyndbg=\"file a.c +p\"") ∷ (" ", "a=b") ∷ []

split-join_args_example :
    split_kernel_arguments (join_args kargs "") ≡ "nosmt" ∷ "dyndbg=\"file a.c +p\"" ∷ "a=b" ∷ []
unfolding is_space
split-join_args_example = split-join_args kargs "" refl refl

split_rounds_enough_example :
    split_rounds 10 "nosmt  a=b" ≡ some (split_kernel_arguments "nosmt  a=b")
unfolding size
split_rounds_enough_example = split_rounds_enough 10 "nosmt  a=b" (omega arith)

replaced :
    generate_kargs (λ a. a) ("nosmt a=b" ∷ []) ("a=\"b c\"" ∷ [])
    ≡ "--delete=nosmt" ∷ "--delete=a=b" ∷ "--append=a=\"b c\"" ∷ []
unfolding generate_kargs parse_kernel_arguments split_kernel_arguments split_rounds size next_arg
    skip_spaces take_arg is_space
replaced = refl
