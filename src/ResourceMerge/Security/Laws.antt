-- ===== src/ResourceMerge/Security/Laws.antt =====
-- The merges of the security contexts are honest and settle.
use openshift_machine_config.Common.{
  ◌≡◌, refl, ap, sym, Bool, true, none, some, List, [], ◌∷◌, ◌++◌, arith, any, Bool-cases, inl, inr,
  All, false,
}
use mathlib.Core.Path.{subst}
use openshift_machine_config.ResourceMerge.Values.{
  Machinery, set_bool_ptr, set_int32, set_int64_ptr,
}
use openshift_machine_config.ResourceMerge.Values.Laws.{
  IsHonest, IsStable, Settles, IsMerge, Lawful, set_bool_ptr-IsMerge, set_int64_ptr-IsMerge,
  set_int32-IsMerge, ensure_probe_handler-IsMerge,
}
use openshift_machine_config.ResourceMerge.Security.{
  at_pointer, add_missing, ensure_se_linux_options, ensure_capabilities, ensure_capabilities_ptr,
  ensure_se_linux_options_ptr, ensure_security_context, ensure_probe, replace_different,
  ensure_affinity,
}

pub at_pointer-IsMerge :
    {A : Type 0} (f : Bool → A → A → Bool × A) → IsMerge f → IsMerge (at_pointer f)
at_pointer-IsMerge {A} f law = record { honest = go; settles = again; stable = still }
  where
    go : IsHonest (at_pointer f)
    go m e none h = (h, refl)
    go m none (some r) h = cc
    go m (some e) (some r) h = let (p, q) = law.honest m e r h in (p, ap some q)

    again : Settles (at_pointer f)
    again m e none = refl
    again m none (some r) = rw (law.stable r)
    again m (some e) (some r) = rw (law.settles m e r)

    still : IsStable (at_pointer f)
    still none = refl
    still (some r) = rw (law.stable r)

module _ {A : Type 0} (same : A → A → Bool) (same_refl : (a : A) → same a a ≡ true) where
  abbrev present : List A → A → Bool
  present l r = any (λ e. same e r) l

  present-snoc : (l : List A) (r : A) → present (l ++ r ∷ []) r ≡ true
  present-snoc [] r = ground (arith, same_refl r)
  present-snoc (a ∷ l) r = ground (arith, present-snoc l r)

  present_kept : (l : List A) (x r : A) → present l x ≡ true → present (l ++ r ∷ []) x ≡ true
  present_kept [] x r h = cc
  present_kept (a ∷ l) x r h = ground (arith, present_kept l x r)

  step_found :
      (m : Bool) (l : List A) (r : A) (rs : List A)
      → present l r ≡ true
      → add_missing same m l (r ∷ rs) ≡ add_missing same m l rs
  unfolding add_missing
  step_found m l r rs f = rw f refl

  step_absent :
      (m : Bool) (l : List A) (r : A) (rs : List A)
      → present l r ≡ false
      → add_missing same m l (r ∷ rs) ≡ add_missing same true (l ++ r ∷ []) rs
  unfolding add_missing
  step_absent m l r rs f = rw f refl

  -- What is present stays so.
  present-add_missing :
      (m : Bool) (l rs : List A) (x : A)
      → present l x ≡ true
      → present (add_missing same m l rs).1 x ≡ true
  unfolding add_missing
  present-add_missing m l [] x h = h
  present-add_missing m l (r ∷ rs) x h = elim (Bool-cases (any (λ e. same e r) l)) [
    | inl f ↦ rw (step_found m l r rs f) (present-add_missing m l rs x h)
    | inr f ↦
        rw (step_absent m l r rs f)
          (present-add_missing true (l ++ r ∷ []) rs x (present_kept l x r h))
  ]

  abbrev AllPresent : List A → List A → Type 0
  AllPresent l rs = All (λ r. present l r ≡ true) rs

  add_missing-AllPresent : (m : Bool) (l rs : List A) → AllPresent (add_missing same m l rs).1 rs
  unfolding add_missing
  add_missing-AllPresent m l [] = tt
  add_missing-AllPresent m l (r ∷ rs) = elim (Bool-cases (any (λ e. same e r) l)) [
    | inl f ↦
        subst (λ t. AllPresent t.1 (r ∷ rs)) (sym (step_found m l r rs f))
          (present-add_missing m l rs r f, add_missing-AllPresent m l rs)
    | inr f ↦
        let l' = l ++ r ∷ [] in
        subst (λ t. AllPresent t.1 (r ∷ rs)) (sym (step_absent m l r rs f))
          (present-add_missing true l' rs r (present-snoc l r), add_missing-AllPresent true l' rs)
  ]

  add_missing_idle : (m : Bool) (l rs : List A) → AllPresent l rs → add_missing same m l rs ≡ (m, l)
  unfolding add_missing
  add_missing_idle m l [] h = refl
  add_missing_idle m l (r ∷ rs) h = rw h.0 (add_missing_idle m l rs h.1)

  AllPresent-cons : (a : A) (l rs : List A) → AllPresent l rs → AllPresent (a ∷ l) rs
  AllPresent-cons a l [] h = tt
  AllPresent-cons a l (r ∷ rs) h = (ground arith, AllPresent-cons a l rs h.1)

  AllPresent-self : (l : List A) → AllPresent l l
  AllPresent-self [] = tt
  AllPresent-self (a ∷ l) = (ground (arith, same_refl a), AllPresent-cons a l l (AllPresent-self l))

  add_missing-IsHonest : IsHonest (add_missing same)
  unfolding add_missing
  add_missing-IsHonest m l [] h = (h, refl)
  add_missing-IsHonest m l (r ∷ rs) h = elim (Bool-cases (any (λ e. same e r) l)) [
    | inl f ↦
        rw (step_found m l r rs f) (add_missing-IsHonest m l rs (rw (step_found m l r rs f) at h))
    | inr f ↦ cc ((add_missing-IsHonest true (l ++ r ∷ []) rs (rw (step_absent m l r rs f) at h)).0)
  ]

  -- The loop that appends what is missing is a merge, and after it everything required is there.
  pub add_missing-IsMerge : IsMerge (add_missing same)
  add_missing-IsMerge = record {
    honest = add_missing-IsHonest;
    settles = λ m l rs.
        add_missing_idle false (add_missing same m l rs).1 rs (add_missing-AllPresent m l rs);
    stable = λ l. add_missing_idle false l l (AllPresent-self l);
  }

module _ (k : Machinery) (law : Lawful k) where
  ensure_se_linux_options-IsMerge : IsMerge (ensure_se_linux_options k)
  unfolding ensure_se_linux_options
  ensure_se_linux_options-IsMerge = record {
    honest = λ m e r h.
        let m1 = (k.set_string_if_set m e.user r.user).0 in
        let m2 = (k.set_string_if_set m1 e.role r.role).0 in
        let m3 = (k.set_string_if_set m2 e.type r.type).0 in
        let (h3, d) = law.strings.honest m3 e.level r.level h in
        let (h2, c) = law.strings.honest m2 e.type r.type h3 in
        let (h1, b) = law.strings.honest m1 e.role r.role h2 in
        let (h0, a) = law.strings.honest m e.user r.user h1 in (h0, cc);
    settles = λ m e r. simp (law.strings.settles);
    stable = λ r. simp (law.strings.stable);
  }

  ensure_affinity-IsMerge : IsMerge (ensure_affinity k)
  unfolding ensure_affinity replace_different
  ensure_affinity-IsMerge = record {
    honest = λ m e r h. ground arith;
    settles = λ m e r. ground (
      arith,
      law.deep_equal_refl r.node_affinity,
      law.deep_equal_refl r.pod_affinity,
      law.deep_equal_refl r.pod_anti_affinity,
    );
    stable = λ r. ground (
      arith,
      law.deep_equal_refl r.node_affinity,
      law.deep_equal_refl r.pod_affinity,
      law.deep_equal_refl r.pod_anti_affinity,
    );
  }

  ensure_probe-IsMerge : IsMerge (ensure_probe k)
  unfolding ensure_probe
  ensure_probe-IsMerge =
      let d = set_int32-IsMerge in
      let p = ensure_probe_handler-IsMerge k law in
      record {
        honest = λ m e r h.
            let m1 = (set_int32 m e.initial_delay_seconds r.initial_delay_seconds).0 in
            let (h1, b) = p.honest m1 e.handler r.handler h in
            let (h0, a) = d.honest m e.initial_delay_seconds r.initial_delay_seconds h1 in (h0, cc);
        settles = λ m e r. simp (d.settles, p.settles);
        stable = λ r. simp (d.stable, p.stable);
      }

  ensure_capabilities-IsMerge : IsMerge (ensure_capabilities k)
  unfolding ensure_capabilities
  ensure_capabilities-IsMerge =
      let a = add_missing-IsMerge k.deep_equal law.deep_equal_refl in
      record {
        honest = λ m e r h.
            let m1 = (add_missing k.deep_equal m e.add r.add).0 in
            let (h1, d) = a.honest m1 e.drop r.drop h in
            let (h0, c) = a.honest m e.add r.add h1 in (h0, cc);
        settles = λ m e r. simp (a.settles);
        stable = λ r. simp (a.stable);
      }

  -- The merge of a container's security context reports every change that it makes, leaves a context
  -- that is as required alone, and after one call changes and reports nothing more, where the functions
  -- of library-go do so too and the semantic equality is reflexive.
  pub ensure_security_context-IsMerge : IsMerge (ensure_security_context k)
  unfolding ensure_security_context ensure_capabilities_ptr ensure_se_linux_options_ptr
  ensure_security_context-IsMerge =
      let c = at_pointer-IsMerge (ensure_capabilities k) ensure_capabilities-IsMerge in
      let l = at_pointer-IsMerge (ensure_se_linux_options k) ensure_se_linux_options-IsMerge in
      let b = set_bool_ptr-IsMerge in
      let i = set_int64_ptr-IsMerge in
      record {
        honest = λ m e r h.
            let m1 = (at_pointer (ensure_capabilities k) m e.capabilities r.capabilities).0 in
            let m2 =
              (at_pointer (ensure_se_linux_options k) m1 e.se_linux_options r.se_linux_options).0 in
            let m3 = (set_bool_ptr m2 e.privileged r.privileged).0 in
            let m4 = (set_int64_ptr m3 e.run_as_user r.run_as_user).0 in
            let m5 = (set_bool_ptr m4 e.run_as_non_root r.run_as_non_root).0 in
            let m6 = (set_bool_ptr m5 e.read_only_root_filesystem r.read_only_root_filesystem).0 in
            let (h6, p7) =
              b.honest m6 e.allow_privilege_escalation r.allow_privilege_escalation h in
            let (h5, p6) = b.honest m5 e.read_only_root_filesystem r.read_only_root_filesystem h6 in
            let (h4, p5) = b.honest m4 e.run_as_non_root r.run_as_non_root h5 in
            let (h3, p4) = i.honest m3 e.run_as_user r.run_as_user h4 in
            let (h2, p3) = b.honest m2 e.privileged r.privileged h3 in
            let (h1, p2) = l.honest m1 e.se_linux_options r.se_linux_options h2 in
            let (h0, p1) = c.honest m e.capabilities r.capabilities h1 in (h0, cc);
        settles = λ m e r. simp (c.settles, l.settles, b.settles, i.settles);
        stable = λ r. simp (c.stable, l.stable, b.stable, i.stable);
      }
