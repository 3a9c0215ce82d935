-- ===== src/ResourceMerge/Configs/Laws.antt =====
-- What the merge of machine configs promises.
use openshift_machine_config.Common.{arith}
use openshift_machine_config.ResourceMerge.Values.{Machinery}
use openshift_machine_config.ResourceMerge.Values.Laws.{IsMerge, Lawful}
use openshift_machine_config.ResourceMerge.Configs.{
  set_field, set_fips, ensure_machine_config_spec, ensure_machine_config,
}

set_fips-IsMerge : (k : Machinery) → IsMerge (set_fips k)
unfolding set_fips
set_fips-IsMerge k = record {
  honest = λ m e r. ground arith;
  settles = λ m e r. ground arith;
  stable = λ r. ground arith;
}

module _ (k : Machinery) (law : Lawful k) where
  set_field-IsMerge : IsMerge (set_field k)
  unfolding set_field
  set_field-IsMerge = record {
    honest = λ m e r. ground arith;
    settles = λ m e r. ground (arith, law.deep_equal_refl r);
    stable = λ r. ground (arith, law.deep_equal_refl r);
  }

  ensure_machine_config_spec-IsMerge : IsMerge (ensure_machine_config_spec k)
  unfolding ensure_machine_config_spec
  ensure_machine_config_spec-IsMerge =
      let s = law.strings in
      let f = set_field-IsMerge in
      let b = set_fips-IsMerge k in
      record {
        honest = λ m e r h.
            let m1 = (k.set_string_if_set m e.os_image_url r.os_image_url).0 in
            let m2 = (k.set_string_if_set m1 e.kernel_type r.kernel_type).0 in
            let m3 = (k.set_string_if_set m2 e.extensions_image r.extensions_image).0 in
            let m4 = (set_field k m3 e.kernel_arguments r.kernel_arguments).0 in
            let m5 = (set_field k m4 e.config r.config).0 in
            let m6 = (set_fips k m5 e.fips r.fips).0 in
            let (h6, p7) = f.honest m6 e.extensions r.extensions h in
            let (h5, p6) = b.honest m5 e.fips r.fips h6 in
            let (h4, p5) = f.honest m4 e.config r.config h5 in
            let (h3, p4) = f.honest m3 e.kernel_arguments r.kernel_arguments h4 in
            let (h2, p3) = s.honest m2 e.extensions_image r.extensions_image h3 in
            let (h1, p2) = s.honest m1 e.kernel_type r.kernel_type h2 in
            let (h0, p1) = s.honest m e.os_image_url r.os_image_url h1 in (h0, cc);
        settles = λ m e r. simp (s.settles, f.settles, b.settles);
        stable = λ r. simp (s.stable, f.stable, b.stable);
      }

  -- EnsureMachineConfig reports every change that it makes, leaves a machine config that is as required
  -- alone, and after one call changes and reports nothing more, where the functions of library-go do so
  -- too and the semantic equality is reflexive.
  pub ensure_machine_config-IsMerge : IsMerge (ensure_machine_config k)
  unfolding ensure_machine_config
  ensure_machine_config-IsMerge =
      let o = law.metas in
      let s = ensure_machine_config_spec-IsMerge in
      record {
        honest = λ m e r h.
            let m1 = (k.ensure_object_meta m e.meta r.meta).0 in
            let (h1, q) = s.honest m1 e.spec r.spec h in
            let (h0, p) = o.honest m e.meta r.meta h1 in (h0, cc);
        settles = λ m e r. simp (o.settles, s.settles);
        stable = λ r. simp (o.stable, s.stable);
      }
