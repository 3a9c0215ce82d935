-- ===== src/ResourceMerge/Configs/Controller/Panics.antt =====
-- Where the merge of controller configs reads through a nil pointer.
use openshift_machine_config.Common.{
  ◌≡◌, ◌↔◌, inl, inr, refl, Bool, true, Option, none, some, is_some, arith, Option-cases,
}
use openshift_machine_config.ResourceMerge.Values.{Machinery}
use openshift_machine_config.ResourceMerge.Configs.Controller.{
  Infra, ControllerConfigSpec, set_infra, set_platform_type, ensure_platform,
  ensure_controller_config_spec,
}

-- No infrastructure, or one that comes with a platform status.
abbrev pub needs_platform : {V : Type 0} → Option (Infra V) → Bool
needs_platform none = true
needs_platform (some i) = is_some i.platform_type

panics_through :
    {A B : Type 0} (x : Option A) (f : A → B)
    → (elim x [ none ↦ none | some v ↦ some (f v) ] ≡ none) ↔ (x ≡ none)
panics_through none f = (λ h. refl, λ h. refl)
panics_through (some v) f = (λ h. cc, λ h. cc)

module _ (k : Machinery) (same_infra : Infra k.Value → Infra k.Value → Bool) where
  -- After `required.Infra` was copied where it is not nil.
  platform_panics :
      (m : Bool) (e r : Option (Infra k.Value))
      → (ensure_platform k same_infra
            (set_infra k same_infra m e r).0
            (set_infra k same_infra m e r).1
            r
          ≡ none)
        ↔ ((r ≡ none) × (needs_platform e ≡ true))
  unfolding ensure_platform set_infra set_platform_type
  platform_panics m none none = (λ h. (refl, refl), λ h. refl)
  platform_panics m none (some r) = (λ h. ground arith, λ h. ground arith)
  platform_panics m (some e) (some r) = (λ h. ground arith, λ h. ground arith)
  platform_panics m (some e) none = elim (Option-cases e.platform_type) [
    | inl p ↦ (λ h. ground arith, λ h. ground arith)
    | inr (t, p) ↦ (λ h. ground arith, λ h. ground arith)
  ]

  -- EnsureControllerConfig panics exactly where, of the two objects, neither has an infrastructure, or
  -- only the existing one has and it comes with a platform status.
  pub ensure_controller_config_spec_panics :
      (m : Bool) (e r : ControllerConfigSpec k.Value)
      → (ensure_controller_config_spec k same_infra m e r ≡ none)
        ↔ ((r.infra ≡ none) × (needs_platform e.infra ≡ true))
  unfolding ensure_controller_config_spec ensure_platform set_infra
  ensure_controller_config_spec_panics m e r =
      let x = panics_through _ _ in
      let p = platform_panics _ e.infra r.infra in (λ h. p.0 (x.0 h), λ h. x.1 (p.1 h))
