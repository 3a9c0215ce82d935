-- ===== src/Daemon/Live.antt =====
-- What cannot have changed where the daemon does not reboot its node.
use mathlib.Core.Path.{ap₂}
use openshift_machine_config.Common.{
  ◌≡◌, refl, ap, ◌∙◌, inl, inr, String, ==_iff, Bool, true, false, ◌&&◌, ◌||◌, not, Option, none,
  some, List, [], ◌∷◌, arith, if◌then◌else◌, Bool-cases, is_empty,
}
use openshift_machine_config.Daemon.{
  MachineConfigDiff, Ignition, ConfigSpec, action_reboot, in_slice, same_texts,
  canonicalize_kernel_type, diff_of, calculate_action_from_file_diffs, new_machine_config_diff,
  calculate_action,
}

same_texts→≡ : (s t : List String) → same_texts s t ≡ true → s ≡ t
unfolding same_texts
same_texts→≡ [] [] h = refl
same_texts→≡ [] (t ∷ ts) h = cc
same_texts→≡ (s ∷ ss) [] h = cc
same_texts→≡ (s ∷ ss) (t ∷ ts) h =
    ap₂ ◌∷◌ ((==_iff s t).0 (ground arith)) (same_texts→≡ ss ts (ground arith))

same_texts_refl : (s : List String) → same_texts s s ≡ true
unfolding same_texts
same_texts_refl [] = refl
same_texts_refl (s ∷ ss) = ground (arith, ==_iff s s, same_texts_refl ss)

both_empty : (s t : List String) → (is_empty s && is_empty t) ≡ true → s ≡ t
both_empty [] [] h = refl
both_empty [] (t ∷ ts) h = cc
both_empty (s ∷ ss) t h = cc

same_lists :
    (s t : List String) → not ((is_empty s && is_empty t) || same_texts s t) ≡ false → s ≡ t
same_lists s t h = elim (Bool-cases (is_empty s && is_empty t)) [
  | inl e ↦ both_empty s t e
  | inr e ↦ same_texts→≡ s t (ground (arith, e))
]

chosen :
    (force removed system : Bool) (by_files actions : List String)
    → (if force
        then (if removed then some (action_reboot ∷ []) else none)
        else if system
        then some (action_reboot ∷ [])
        else some by_files)
      ≡ some actions
    → in_slice action_reboot actions ≡ false
    → (force ≡ false) × (system ≡ false)
unfolding in_slice
chosen true true system l actions a r = cc
chosen true false system l actions a r = cc
chosen false removed true l actions a r = cc
chosen false removed false l actions a r = (refl, refl)

-- What the choice of the action reads of a diff.
rebootless :
    (force removed : Bool) (d : MachineConfigDiff) (paths actions : List String)
    → calculate_action force removed d paths ≡ some actions
    → in_slice action_reboot actions ≡ false
    → (force ≡ false)
      × (d.os_update ≡ false)
      × (d.kargs ≡ false)
      × (d.fips ≡ false)
      × (d.units ≡ false)
      × (d.kernel_type ≡ false)
      × (d.extensions ≡ false)
unfolding calculate_action
rebootless force removed d paths actions a r =
    let (f, b) =
      chosen force removed
        (d.os_update || d.kargs || d.fips || d.units || d.kernel_type || d.extensions)
        (calculate_action_from_file_diffs paths) actions a r in
    (f, ground arith, ground arith, ground arith, ground arith, ground arith, ground arith)

module _ {V W : Type 0} (parse : V → Option (Ignition W)) (same : W → W → Bool) (force : Bool)
    (old new : ConfigSpec V) where
  -- What only a reboot brings about, but for the units.
  abbrev pub SameSystem : Type 0
  SameSystem =
      (old.os_image_url ≡ new.os_image_url)
      × (old.kernel_arguments ≡ new.kernel_arguments)
      × (old.fips ≡ new.fips)
      × (canonicalize_kernel_type old.kernel_type ≡ canonicalize_kernel_type new.kernel_type)
      × (old.extensions ≡ new.extensions)

  -- Where the daemon applies a change without a reboot, the image, the kernel arguments, the FIPS mode,
  -- the kernel type and the extensions are what they were, and there is no force file.
  pub rebootless-SameSystem :
      (removed : Bool) (paths actions : List String) (d : MachineConfigDiff)
      → new_machine_config_diff parse same force old new ≡ some d
      → calculate_action force removed d paths ≡ some actions
      → in_slice action_reboot actions ≡ false
      → (force ≡ false) × SameSystem
  unfolding new_machine_config_diff diff_of
  rebootless-SameSystem removed paths actions d e a r =
      let (f, o, k, p, u, t, x) = rebootless force removed d paths actions a r in
      (f, go (parse old.raw) (parse new.raw) e o k p t x)
    where
      go :
          (i j : Option (Ignition W))
          → (elim i [
            | none ↦ none
            | some i' ↦ elim j [ none ↦ none | some j' ↦ some (diff_of same force old new i' j') ]
          ])
            ≡ some d
          → d.os_update ≡ false
          → d.kargs ≡ false
          → d.fips ≡ false
          → d.kernel_type ≡ false
          → d.extensions ≡ false
          → SameSystem
      go none j e o k p t x = cc
      go (some i) none e o k p t x = cc
      go (some i) (some j) e o k p t x =
          let q : diff_of same force old new i j ≡ d = cc in
          let kernel : String → String = canonicalize_kernel_type in
          let o' = ap (λ (c : MachineConfigDiff). c.os_update) q ∙ o in
          let p' = ap (λ (c : MachineConfigDiff). c.fips) q ∙ p in
          let t' = ap (λ (c : MachineConfigDiff). c.kernel_type) q ∙ t in
          (
            (==_iff old.os_image_url new.os_image_url).0 (ground (arith, o')),
            same_lists old.kernel_arguments new.kernel_arguments
                (ap (λ (c : MachineConfigDiff). c.kargs) q ∙ k),
            ground (arith, p'),
            (==_iff (kernel old.kernel_type) (kernel new.kernel_type)).0 (ground (arith, t')),
            same_lists old.extensions new.extensions
                (ap (λ (c : MachineConfigDiff). c.extensions) q ∙ x),
          )
