-- ===== src/MachineConfigs/Priorities.antt =====
-- Which settings win in a merge.
use mathlib.Core.Path.{subst}
use openshift_machine_config.Common.{
  ◌≡◌, refl, sym, ap, ◌∙◌, String, ◌==◌, ==_iff, Bool, true, false, ◌&&◌, ◌||◌, not, Option, none,
  some, List, [], ◌∷◌, if◌then◌else◌, any, arith, Bool-cases, inl, inr,
}
use openshift_machine_config.Daemon.{in_slice}
use openshift_machine_config.Update.{MachineConfig}
use openshift_machine_config.MachineConfigs.{
  OutIgnition, Library, Merged, nothing_to_merge, not_merged, merged, merge_fips, merge_kernel_type,
  kernel_or_default, merge_extensions, kernel_devel, merged_config, with_raw, with_ignition,
  merge_machine_configs,
}

abbrev pub Configs : Type 0 → Type 0
Configs R = List (MachineConfig (Option R))

abbrev pub is_realtime : {R : Type 0} → MachineConfig (Option R) → Bool
is_realtime c = c.spec.kernel_type == "realtime"

module _ {R : Type 0} where
  merge_fips-any : (cs : Configs R) (b : Bool) → merge_fips b cs ≡ (b || any (λ c. c.spec.fips) cs)
  unfolding merge_fips
  merge_fips-any [] b = ground arith
  merge_fips-any (c ∷ cs) b =
      merge_fips-any cs (if c.spec.fips then true else b)
      ∙ go c.spec.fips b (any (λ c. c.spec.fips) cs)
    where
      go : (f b r : Bool) → ((if f then true else b) || r) ≡ (b || (f || r))
      go f b r = ground arith

  merge_kernel_type-any :
      (k : String) (cs : Configs R)
      → merge_kernel_type k cs ≡ (if any is_realtime cs then "realtime" else k)
  unfolding merge_kernel_type
  merge_kernel_type-any k [] = refl
  merge_kernel_type-any k (c ∷ cs) = elim (Bool-cases (c.spec.kernel_type == "realtime")) [
    | inl e ↦ rw e (
        merge_kernel_type-any c.spec.kernel_type cs
        ∙ ap (λ t. if any is_realtime cs then "realtime" else t)
            ((==_iff c.spec.kernel_type "realtime").0 e)
        ∙ same (any is_realtime cs))
    | inr e ↦ rw e (merge_kernel_type-any k cs)
  ]
    where
      same : (b : Bool) → let t : String = "realtime" in (if b then t else t) ≡ t
      same true = refl
      same false = refl

-- What the configs ask for, in whatever order they come.
abbrev pub Prevails : {R : Type 0} → Configs R → MachineConfig (Option R) → Type 0
Prevails cs m =
    (m.spec.fips ≡ any (λ c. c.spec.fips) cs)
    × (m.spec.kernel_type ≡ (if any is_realtime cs then "realtime" else "default"))
    × (in_slice kernel_devel m.spec.extensions ≡ true → any is_realtime cs ≡ false)

module _ {R W : Type 0} (library : Library R W) (os_image extensions_image : String) where
  kernel :
      (b : Bool)
      → kernel_or_default (if b then "realtime" else "") ≡ (if b then "realtime" else "default")
  kernel true = refl
  kernel false = refl

  merged_kernel :
      (cs : Configs R)
      → kernel_or_default (merge_kernel_type "" cs)
        ≡ (if any is_realtime cs then "realtime" else "default")
  merged_kernel cs =
      ap kernel_or_default (merge_kernel_type-any "" cs) ∙ kernel (any is_realtime cs)

  abbrev config_of : MachineConfig (Option R) → Merged R → MachineConfig (Option R)
  config_of c nothing_to_merge = c
  config_of c not_merged = c
  config_of c (merged m) = m

  merged-Prevails :
      (cs : Configs R) (raw : R)
      → (not (kernel_or_default (merge_kernel_type "" cs) == "default")
          && in_slice kernel_devel (merge_extensions cs))
        ≡ false
      → Prevails cs (merged_config library os_image extensions_image cs raw)
  merged-Prevails cs raw e = (
    merge_fips-any cs false,
    merged_kernel cs,
    λ d.
        go (any is_realtime cs)
          (subst
            (λ k. (not (k == "default") && in_slice kernel_devel (merge_extensions cs)) ≡ false)
            (merged_kernel cs) e)
          d,
  )
    where
      go :
          (b : Bool)
          → (not ((if b then "realtime" else "default") == "default")
              && in_slice kernel_devel (merge_extensions cs))
            ≡ false
          → in_slice kernel_devel (merge_extensions cs) ≡ true
          → b ≡ false
      go false e d = refl
      go true e d = absurd cc

  with_raw-Prevails :
      (cs : Configs R) (raw : Option R) (m : MachineConfig (Option R))
      → with_raw library os_image extensions_image cs raw ≡ merged m
      → Prevails cs m
  with_raw-Prevails cs none m h = absurd cc
  with_raw-Prevails cs (some raw) m h =
      go
        (not (kernel_or_default (merge_kernel_type "" cs) == "default")
          && in_slice kernel_devel (merge_extensions cs))
        refl h
    where
      go :
          (b : Bool)
          → (not (kernel_or_default (merge_kernel_type "" cs) == "default")
              && in_slice kernel_devel (merge_extensions cs))
            ≡ b
          → (if b
              then not_merged
              else merged (merged_config library os_image extensions_image cs raw))
            ≡ merged m
          → Prevails cs m
      go true e h = absurd cc
      go false e h = subst (Prevails cs) (ap (config_of m) h) (merged-Prevails cs raw e)

  with_ignition-Prevails :
      (cs : Configs R) (out : Option (OutIgnition W)) (m : MachineConfig (Option R))
      → with_ignition library os_image extensions_image cs out ≡ merged m
      → Prevails cs m
  with_ignition-Prevails cs none m h = absurd cc
  with_ignition-Prevails cs (some out) m h = with_raw-Prevails cs _ m h

  -- A merge that succeeds has FIPS exactly where some config asks for it, the real time kernel exactly
  -- where some config does and else the default one, and the kernel-devel extension only where none
  -- does, in whatever order the configs come; sorting keeps which configs there are.
  pub merge_machine_configs-Prevails :
      (cs : Configs R) (m : MachineConfig (Option R))
      → ((p : MachineConfig (Option R) → Bool) → any p (library.sort cs) ≡ any p cs)
      → merge_machine_configs library os_image extensions_image cs ≡ merged m
      → Prevails cs m
  unfolding merge_machine_configs
  merge_machine_configs-Prevails [] m sorted h = absurd cc
  merge_machine_configs-Prevails (c ∷ cs) m sorted h =
      let kept = with_ignition-Prevails (library.sort (c ∷ cs)) _ m h in
      (
        kept.0 ∙ sorted (λ c. c.spec.fips),
        kept.1 ∙ ap (λ b. if b then "realtime" else "default") (sorted is_realtime),
        λ d. sym (sorted is_realtime) ∙ kept.2 d,
      )
