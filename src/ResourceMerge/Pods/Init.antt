-- ===== src/ResourceMerge/Pods/Init.antt =====
-- What becomes of init containers.
use openshift_machine_config.Common.{◌≡◌, refl, String, Bool, none, List, [], ◌∷◌}
use openshift_machine_config.ResourceMerge.Values.{Machinery}
use openshift_machine_config.ResourceMerge.Pods.{
  Container, PodSpec, merge_found, merge_last, ensure_init_containers, ensure_pod_spec,
}

module _ (k : Machinery) (toleration_key : k.Value → String)
    (same_containers : List (Container k.Value) → List (Container k.Value) → Bool) where
  -- Where a pod has no init container and one is required, the merge of the pod panics, whatever else
  -- the two pods hold.
  pub first_init_container_panics :
      (m : Bool) (e r : PodSpec k.Value) (c : Container k.Value) (cs : List (Container k.Value))
      → e.init_containers ≡ []
      → r.init_containers ≡ c ∷ cs
      → ensure_pod_spec k toleration_key same_containers m e r ≡ none
  unfolding ensure_pod_spec ensure_init_containers merge_found merge_last
  first_init_container_panics m e r c cs he hr = rw (he, hr) refl
