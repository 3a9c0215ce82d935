-- ===== src/Daemon.antt =====
-- pkg/daemon/update.go and drain.go: what changes between two machine configs, what the daemon does
-- after it has applied the change, and whether the node is drained before.
pub mod Actions
pub mod Live
pub mod Kargs
pub mod Writer
pub mod Prepare
use openshift_machine_config.Common.{
  String, ◌==◌, Bool, true, false, ◌&&◌, ◌||◌, not, Option, none, some, List, [], ◌∷◌, ◌++◌,
  bool_eq, is_empty, if◌then◌else◌,
}

pub record MachineConfigDiff : Type 0 where
  pub os_update : Bool
  pub kargs : Bool
  pub fips : Bool
  pub passwd : Bool
  pub files : Bool
  pub units : Bool
  pub kernel_type : Bool
  pub extensions : Bool

-- The parts of an Ignition config that are compared.
pub record Ignition (V : Type 0) : Type 0 where
  pub passwd : V
  pub files : V
  pub units : V

pub record ConfigSpec (V : Type 0) : Type 0 where
  pub os_image_url : String
  pub kernel_arguments : List String
  pub fips : Bool
  pub kernel_type : String
  pub extensions : List String
  pub raw : V

abbrev pub action_none : String
action_none = "none"

abbrev pub action_reload_crio : String
action_reload_crio = "reload crio"

abbrev pub action_reboot : String
action_reboot = "reboot"

abbrev pub registries_path : String
registries_path = "/etc/containers/registries.conf"

unfoldable pub in_slice : String → List String → Bool
in_slice elem [] = false
in_slice elem (k ∷ l) = let rest = in_slice elem l in if k == elem then true else rest

unfoldable pub is_empty_diff : MachineConfigDiff → Bool
is_empty_diff d =
    not d.os_update
    && not d.kargs
    && not d.fips
    && not d.passwd
    && not d.files
    && not d.units
    && not d.kernel_type
    && not d.extensions

unfoldable pub canonicalize_kernel_type : String → String
canonicalize_kernel_type kernel = if kernel == "realtime" then "realtime" else "default"

-- reflect.DeepEqual on slices of texts, one of which is not empty.
unfoldable pub same_texts : List String → List String → Bool
same_texts [] [] = true
same_texts [] (t ∷ ts) = false
same_texts (s ∷ ss) [] = false
same_texts (s ∷ ss) (t ∷ ts) = (s == t) && same_texts ss ts

-- `same` is reflect.DeepEqual, and `force` tells whether the force file exists.
unfoldable pub diff_of :
    {V W : Type 0}
    → (W → W → Bool)
    → Bool
    → ConfigSpec V
    → ConfigSpec V
    → Ignition W
    → Ignition W
    → MachineConfigDiff
diff_of same force old new i j =
    let kargs_empty = is_empty old.kernel_arguments && is_empty new.kernel_arguments in
    let extensions_empty = is_empty old.extensions && is_empty new.extensions in
    record {
      os_update = not (old.os_image_url == new.os_image_url) || force;
      kargs = not (kargs_empty || same_texts old.kernel_arguments new.kernel_arguments);
      fips = not (bool_eq old.fips new.fips);
      passwd = not (same i.passwd j.passwd);
      files = not (same i.files j.files);
      units = not (same i.units j.units);
      kernel_type =
          not
            (canonicalize_kernel_type old.kernel_type == canonicalize_kernel_type new.kernel_type);
      extensions = not (extensions_empty || same_texts old.extensions new.extensions);
    }

-- `parse` is ParseAndConvertConfig, none where it returns an error.
unfoldable pub new_machine_config_diff :
    {V W : Type 0}
    → (V → Option (Ignition W))
    → (W → W → Bool)
    → Bool
    → ConfigSpec V
    → ConfigSpec V
    → Option MachineConfigDiff
new_machine_config_diff parse same force old new = elim (parse old.raw) [
  | none ↦ none
  | some i ↦ elim (parse new.raw) [ none ↦ none | some j ↦ some (diff_of same force old new i j) ]
]

-- compareMachineConfig; an error counts as a change.
unfoldable pub compare_machine_config : Option MachineConfigDiff → Bool
compare_machine_config none = true
compare_machine_config (some d) = not (is_empty_diff d)

abbrev pub files_none : List String
files_none =
    "/etc/kubernetes/kubelet-ca.crt" ∷ "/etc/mco/internal-registry-pull-secret.json"
    ∷ "/var/lib/kubelet/config.json" ∷ []

abbrev pub files_reload_crio : List String
files_reload_crio =
    registries_path ∷ "/etc/machine-config-daemon/no-reboot/containers-gpg.pub"
    ∷ "/etc/containers/policy.json" ∷ []

-- The loop over the changed files; the first argument is what `actions` holds.
unfoldable pub file_actions : List String → List String → List String
file_actions actions [] = actions
file_actions actions (path ∷ paths) =
    let next = if in_slice path files_none then actions else action_reload_crio ∷ [] in
    let rest = file_actions next paths in
    if in_slice path files_none
    then rest
    else if in_slice path files_reload_crio
    then rest
    else action_reboot ∷ []

unfoldable pub calculate_action_from_file_diffs : List String → List String
calculate_action_from_file_diffs paths = file_actions (action_none ∷ []) paths

-- `force` tells whether the force file exists, and `removed` whether it could be removed; none is an
-- error.
unfoldable pub calculate_action :
    Bool → Bool → MachineConfigDiff → List String → Option (List String)
calculate_action force removed d paths =
    if force
    then (if removed then some (action_reboot ∷ []) else none)
    else if d.os_update || d.kargs || d.fips || d.units || d.kernel_type || d.extensions
    then some (action_reboot ∷ [])
    else some (calculate_action_from_file_diffs paths)

-- `safe` is the answer of isSafeContainerRegistryConfChanges, none where it returns an error.
unfoldable pub is_drain_required : List String → List String → Option Bool → Option Bool
is_drain_required actions paths safe =
    if in_slice action_reboot actions
    then some true
    else if in_slice action_reload_crio actions
    then (if in_slice registries_path paths
        then elim safe [ none ↦ none | some s ↦ some (not s) ]
        else some false)
    else if in_slice action_none actions
    then some false
    else some true
