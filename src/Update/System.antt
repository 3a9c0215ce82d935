-- ===== src/Update/System.antt =====
-- applyOSChanges and applyLayeredOSChanges of pkg/daemon/update.go: the commands that change the operating
-- system of a node.
pub mod Discards
use text.Mathlib.Text.{starts_with}
use openshift_machine_config.Common.{
  String, ◌==◌, Bool, true, false, ◌&&◌, ◌||◌, not, Option, none, some, List, [], ◌∷◌, ◌++◌,
  if◌then◌else◌, any, is_empty, select,
}
use openshift_machine_config.Daemon.{
  ConfigSpec, MachineConfigDiff, in_slice, same_texts, canonicalize_kernel_type,
}
use openshift_machine_config.Daemon.Kargs.{generate_kargs}
use openshift_machine_config.Update.{
  MachineConfig, Host, World, Step, Result, UpdateError, chain, check, skip, no_extensions,
  pending_not_removed, command_failed, invalid_extensions, unhandled_kernel, not_rolled_back,
  undone, roll_back, Stage, system_stage,
}

abbrev pub supported_extensions : List (String × List String)
supported_extensions =
    ("wasm", "crun-wasm" ∷ [])
    ∷ ("ipsec", "NetworkManager-libreswan" ∷ "libreswan" ∷ [])
    ∷ ("usbguard", "usbguard" ∷ [])
    ∷ ("kerberos", "krb5-workstation" ∷ "libkadm5" ∷ [])
    ∷ ("kernel-devel", "kernel-devel" ∷ "kernel-headers" ∷ [])
    ∷ ("sandboxed-containers", "kata-containers" ∷ [])
    ∷ []

-- The packages of an extension, none of one that is not supported.
unfoldable pub packages_of : List (String × List String) → String → List String
packages_of [] ext = []
packages_of ((name, packages) ∷ rest) ext = if name == ext then packages else packages_of rest ext

unfoldable pub is_supported : List (String × List String) → String → Bool
is_supported [] ext = false
is_supported ((name, packages) ∷ rest) ext = if name == ext then true else is_supported rest ext

unfoldable pub validate_extensions : List String → Bool
validate_extensions [] = true
validate_extensions (ext ∷ exts) = is_supported supported_extensions ext && validate_extensions exts

-- Each package behind the flag.
unfoldable pub with_flag : String → List String → List String
with_flag flag [] = []
with_flag flag (p ∷ ps) = flag ∷ p ∷ with_flag flag ps

unfoldable pub packages : List String → List String
packages [] = []
packages (ext ∷ exts) = packages_of supported_extensions ext ++ packages exts

-- The keys of `left` that are no keys of `right`, in the order in which the map is ranged over.
abbrev pub missing : World → List String → List String → List String
missing w left right = select (λ ext. not (in_slice ext right)) (w.map_order left)

unfoldable pub generate_extensions_args :
    {V : Type 0} → World → ConfigSpec V → ConfigSpec V → List String
generate_extensions_args w old new =
    let removed = missing w old.extensions new.extensions in
    let added = missing w new.extensions old.extensions in
    "update"
      ∷ (if w.is_el
          then with_flag "--install" (packages added) ++ with_flag "--uninstall" (packages removed)
          else [])
    ++ (if w.is_fcos then with_flag "--install" added ++ with_flag "--uninstall" removed else [])

abbrev pub default_kernel : List String
default_kernel =
    "kernel" ∷ "kernel-core" ∷ "kernel-modules" ∷ "kernel-modules-core" ∷ "kernel-modules-extra"
    ∷ []

abbrev pub realtime_kernel : List String
realtime_kernel =
    "kernel-rt-core" ∷ "kernel-rt-modules" ∷ "kernel-rt-modules-extra" ∷ "kernel-rt-kvm" ∷ []

abbrev pub is_kernel_override : String → Bool
is_kernel_override removal = (removal == "kernel") || starts_with removal "kernel-"

abbrev pub is_rt_layer : String → Bool
is_rt_layer pkg = starts_with pkg "kernel-rt-"

-- The image is not updated where it is booted already.
abbrev pub effective :
    {V : Type 0} → World → MachineConfigDiff → MachineConfig V → MachineConfigDiff
effective w diff new =
    if diff.os_update && (w.booted_os_image_url == new.spec.os_image_url)
    then record diff { os_update = false }
    else diff

abbrev pub needs_extensions : {V : Type 0} → MachineConfigDiff → MachineConfig V → Bool
needs_extensions diff new =
    not (new.base_os_extensions_container_image == "")
    && (diff.os_update || diff.extensions || diff.kernel_type)

module _ {F : Type 0} (w : World) where
  -- A command of rpm-ostree is queued for the next boot.
  unfoldable pub run_rpm_ostree : List String → Step F
  run_rpm_ostree args h =
      if w.rpm_ostree args
      then (record h { staged = h.staged ++ args ∷ [] }, none)
      else (h, some command_failed)

  -- `rpm-ostree cleanup -p`
  unfoldable pub remove_pending_deployment : Step F
  remove_pending_deployment h =
      if w.pending_removed then (record h { staged = [] }, none) else (h, some pending_not_removed)

  abbrev pub revert : Option (List String × List String) → Step F
  revert none h = (h, some command_failed)
  revert (some (removals, packages)) h =
      let overrides = select is_kernel_override removals in
      let layers = select is_rt_layer packages in
      if not (is_empty overrides) && not (is_empty layers)
      then run_rpm_ostree ("override" ∷ "reset" ∷ overrides ++ with_flag "--uninstall" layers) h
      else (h, none)

  -- `booted` has the base removals and the packages that were asked for in the booted deployment, none
  -- where it cannot be read.
  unfoldable pub queue_revert_rt_kernel : Step F
  queue_revert_rt_kernel h = revert w.booted h

  -- The new image, by a rebase or by a container: a command like the others.
  unfoldable pub update_layered_os : String → Step F
  update_layered_os url h = run_rpm_ostree ("rebase" ∷ url ∷ []) h

  unfoldable pub update_kernel_arguments : List String → List String → Step F
  update_kernel_arguments old new h =
      let kargs = generate_kargs w.trim_space old new in
      if is_empty kargs then (h, none) else run_rpm_ostree ("kargs" ∷ kargs) h

  unfoldable pub switch_kernel : String → String → Step F
  switch_kernel old new h =
      let kind = canonicalize_kernel_type new in
      if not w.is_el
      then (h, none)
      else if kind == "default"
      then (h, none)
      else if kind == "realtime"
      then run_rpm_ostree
          ("override" ∷ "remove" ∷ default_kernel ++ with_flag "--install" realtime_kernel) h
      else (h, some unhandled_kernel)

  unfoldable pub apply_extensions : {V : Type 0} → ConfigSpec V → ConfigSpec V → Step F
  apply_extensions old new h =
      if (is_empty old.extensions && is_empty new.extensions)
        || (same_texts old.extensions new.extensions && (old.os_image_url == new.os_image_url))
      then (h, none)
      else if not (validate_extensions new.extensions) && w.is_el
      then (h, some invalid_extensions)
      else run_rpm_ostree (generate_extensions_args w old new) h

  -- What is queued after the pending deployment was removed.
  unfoldable pub stage_changes :
      {V : Type 0} → MachineConfigDiff → ConfigSpec V → ConfigSpec V → Step F
  stage_changes diff old new h =
      let when = λ (b : Bool) (step : Step F). (if b then step else skip) in
      let kernel = diff.os_update || diff.kernel_type in
      chain
        (chain
          (chain
            (chain (when kernel queue_revert_rt_kernel h)
              (when diff.os_update (update_layered_os new.os_image_url)))
            (when diff.kargs (update_kernel_arguments old.kernel_arguments new.kernel_arguments)))
          (when kernel (switch_kernel old.kernel_type new.kernel_type)))
        (apply_extensions old new)

  unfoldable pub apply_layered_os_changes :
      {V : Type 0} → MachineConfigDiff → MachineConfig V → MachineConfig V → Step F
  apply_layered_os_changes diff old new h =
      let d = effective w diff new in
      chain
        (chain (check (not (needs_extensions d new) || w.extensions_ready) no_extensions h)
          remove_pending_deployment)
        (λ g.
          roll_back system_stage remove_pending_deployment (stage_changes d old.spec new.spec g))

  unfoldable pub apply_os_changes :
      {V : Type 0} → MachineConfigDiff → MachineConfig V → MachineConfig V → Step F
  apply_os_changes diff old new h =
      if diff.os_update
        || diff.extensions
        || diff.kernel_type
        || diff.kargs
        || (canonicalize_kernel_type new.spec.kernel_type == "realtime")
        || not (is_empty new.spec.extensions)
      then apply_layered_os_changes diff old new h
      else (h, none)
