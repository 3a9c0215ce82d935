-- ===== src/Daemon/Prepare/Settled.antt =====
-- A node that was brought to its pool has nothing more to do.
use openshift_machine_config.Common.{
  ◌≡◌, refl, ap, ◌∙◌, String, ◌==◌, ==_iff, Bool, true, Option, none, some, Bool-cases, inl, inr,
}
use openshift_machine_config.Common.StringMap.{get, value}
use openshift_machine_config.Kube.{Node, Pool}
use openshift_machine_config.Layered.{
  state_key, state_done, current_config_key, desired_config_key, desired_image_key,
}
use openshift_machine_config.Daemon.Writer.Annotations.{pool_image}
use openshift_machine_config.Daemon.Writer.Done.{
  done_node, at_state, at_current, at_desired, at_wanted,
}
use openshift_machine_config.Daemon.Prepare.{
  on_disk, with_state, or_empty, no_update, get_node_annotation_ext, get_node_annotation,
  compare_with_disk, prep_update_from_cluster,
}

settled_on_disk :
    (name image : String)
    → compare_with_disk name name state_done image (on_disk name image) ≡ no_update
unfolding compare_with_disk
settled_on_disk name image =
    let named = (==_iff name name).1 refl in
    let imaged = (==_iff image image).1 refl in
    elim (Bool-cases (image == "")) [
      | inl e ↦ rw (named, e) refl
      | inr e ↦ rw (named, e, imaged) refl
    ]

settled :
    (has_config : String → Bool) (n : Node) (name image : String)
    → has_config name ≡ true
    → get n.annotations state_key ≡ some state_done
    → get n.annotations current_config_key ≡ some name
    → get n.annotations desired_config_key ≡ some name
    → value (get n.annotations desired_image_key) ≡ image
    → prep_update_from_cluster has_config (on_disk name image) n ≡ no_update
unfolding prep_update_from_cluster get_node_annotation_ext get_node_annotation
settled has_config n name image has state current desired wanted =
    rw (desired, has, current, has, state) (go (get n.annotations desired_image_key) wanted)
  where
    go :
        (o : Option String)
        → value o ≡ image
        → with_state has_config (on_disk name image) name name (some state_done) (or_empty true o)
          ≡ no_update
    go none e =
        ap (λ w. compare_with_disk name name state_done w (on_disk name image)) e
        ∙ settled_on_disk name image
    go (some v) e =
        ap (λ w. compare_with_disk name name state_done w (on_disk name image)) e
        ∙ settled_on_disk name image

-- A node that its pool targets, whose daemon reports the configuration and the image of the pool as
-- done, and that has them on its disk, has no update to do; the lister of configurations has that of
-- the pool.
pub prep_update_from_cluster-done_node :
    (has_config : String → Bool) (node : Node) (pool : Pool)
    → has_config pool.configuration.name ≡ true
    → prep_update_from_cluster has_config
        (on_disk pool.configuration.name (pool_image pool))
        (done_node node pool)
      ≡ no_update
prep_update_from_cluster-done_node has_config node pool has =
    settled has_config (done_node node pool) pool.configuration.name (pool_image pool) has
      (at_state node pool) (at_current node pool) (at_desired node pool) (at_wanted node pool)
