-- ===== src/ResourceMerge/Pods/Workloads/Priority.antt =====
-- What becomes of a priority that is not required.
use openshift_machine_config.Common.{
  ℤ, ◌≡◌, ◌⊎◌, inl, inr, refl, String, Bool, true, false, Option, none, some, List,
}
use openshift_machine_config.ResourceMerge.Values.{Machinery, set_int32_ptr}
use openshift_machine_config.ResourceMerge.Pods.{
  Container, PodSpec, PodTemplate, ensure_init_containers, ensure_pod_rest, ensure_pod_spec,
  ensure_pod_template_spec,
}
use openshift_machine_config.ResourceMerge.Pods.Workloads.{
  Workload, ensure_deployment, ensure_daemon_set,
}

none_required :
    (m : Bool) (e : Option ℤ)
    → ((set_int32_ptr m e none).1 ≡ none) × (e ≡ none → (set_int32_ptr m e none).0 ≡ true)
unfolding set_int32_ptr
none_required m none = (refl, λ _. refl)
none_required m (some e) = (refl, λ p. cc)

-- What was merged has no priority, and the merge reports a change if the priority `p` was none.
abbrev NoPriority : {A : Type 0} → (A → Option ℤ) → Option (Bool × A) → Option ℤ → Type 0
NoPriority f none p = Unit
NoPriority f (some (m, s)) p = (f s ≡ none) × (p ≡ none → m ≡ true)

-- What is built around a merged part.
NoPriority-wrap :
    {A B : Type 0} (f : B → Option ℤ) (wrap : A → B) (o : Option (Bool × A)) (p : Option ℤ)
    → NoPriority (λ a. f (wrap a)) o p
    → NoPriority f (elim o [ none ↦ none | some (m, a) ↦ some (m, wrap a) ]) p
NoPriority-wrap f wrap none p h = tt
NoPriority-wrap f wrap (some (m, a)) p h = h

module _ (k : Machinery) (toleration_key : k.Value → String)
    (same_containers : List (Container k.Value) → List (Container k.Value) → Bool) where
  rest-NoPriority :
      (m : Bool) (e r : PodSpec k.Value)
      → r.priority ≡ none
      → NoPriority
          (λ s. s.priority)
          (some (ensure_pod_rest k toleration_key same_containers m e r))
          e.priority
  unfolding ensure_pod_rest
  rest-NoPriority m e r h = rw h (none_required _ e.priority)

  pod_spec-NoPriority :
      (m : Bool) (e r : PodSpec k.Value)
      → r.priority ≡ none
      → NoPriority
          (λ s. s.priority)
          (ensure_pod_spec k toleration_key same_containers m e r)
          e.priority
  unfolding ensure_pod_spec
  pod_spec-NoPriority m e r h = go (
      ensure_init_containers k toleration_key same_containers m e.init_containers e.containers
        r.init_containers)
    where
      go :
          (o : Option (Bool × List (Container k.Value) × List (Container k.Value)))
          → NoPriority
              (λ (s : PodSpec k.Value). s.priority)
              (elim o [
                | none ↦ none
                | some (m1, init, containers) ↦ some (
                    ensure_pod_rest k toleration_key same_containers m1
                      (record e { init_containers = init; containers = containers })
                      r)
              ])
              e.priority
      go none = tt
      go (some (m1, init, containers)) =
          rest-NoPriority m1 (record e { init_containers = init; containers = containers }) r h

  template-NoPriority :
      (m : Bool) (e r : PodTemplate k.Value)
      → r.spec.priority ≡ none
      → NoPriority
          (λ t. t.spec.priority)
          (ensure_pod_template_spec k toleration_key same_containers m e r)
          e.spec.priority
  unfolding ensure_pod_template_spec
  template-NoPriority m e r h =
      let (m1, meta) = k.ensure_object_meta m e.meta r.meta in
      NoPriority-wrap (λ t. t.spec.priority) (λ spec. record { meta = meta; spec = spec })
        (ensure_pod_spec k toleration_key same_containers m1 e.spec r.spec) e.spec.priority
        (pod_spec-NoPriority m1 e.spec r.spec h)

  workload_priority : Workload k.Value → Option ℤ
  workload_priority w = w.template.spec.priority

  deployment-NoPriority :
      (m : Bool) (e r : Workload k.Value)
      → workload_priority r ≡ none
      → NoPriority workload_priority
          (ensure_deployment k toleration_key same_containers m e r)
          (workload_priority e)
  unfolding ensure_deployment workload_priority
  deployment-NoPriority m e r h =
      NoPriority-wrap workload_priority _ _ _ (template-NoPriority _ e.template r.template h)

  daemon_set-NoPriority :
      (m : Bool) (e r : Workload k.Value)
      → workload_priority r ≡ none
      → NoPriority workload_priority
          (ensure_daemon_set k toleration_key same_containers m e r)
          (workload_priority e)
  unfolding ensure_daemon_set workload_priority
  daemon_set-NoPriority m e r h =
      NoPriority-wrap workload_priority _ _ _ (template-NoPriority _ e.template r.template h)

  second_reports :
      (o o' : Option (Bool × Workload k.Value)) (p : Option ℤ) {m m' : Bool}
      {s t : Workload k.Value}
      → NoPriority workload_priority o p
      → o ≡ some (m, s)
      → NoPriority workload_priority o' (workload_priority s)
      → o' ≡ some (m', t)
      → m' ≡ true
  second_reports o o' p h e h' e' =
      let (none_now, _) = rw e at h in let (_, reports) = rw e' at h' in reports none_now

  -- Where the required workload sets no priority, EnsureDeployment and EnsureDaemonSet never settle:
  -- called again on what they made, with the same requirement, each reports a change.
  pub workload_never_settles :
      (m : Bool) (e s t r : Workload k.Value) {m1 m2 : Bool}
      → r.template.spec.priority ≡ none
      → ((ensure_deployment k toleration_key same_containers m e r ≡ some (m1, s))
          × (ensure_deployment k toleration_key same_containers false s r ≡ some (m2, t)))
        ⊎ ((ensure_daemon_set k toleration_key same_containers m e r ≡ some (m1, s))
            × (ensure_daemon_set k toleration_key same_containers false s r ≡ some (m2, t)))
      → m2 ≡ true
  unfolding workload_priority
  workload_never_settles m e s t r h (inl (a, b)) =
      second_reports _ _ _ (deployment-NoPriority m e r h) a (deployment-NoPriority false s r h) b
  workload_never_settles m e s t r h (inr (a, b)) =
      second_reports _ _ _ (daemon_set-NoPriority m e r h) a (daemon_set-NoPriority false s r h) b
