-- ===== src/Daemon/Writer/Done.antt =====
-- A node that its pool has targeted and its daemon has reported done.
use openshift_machine_config.Common.{
  ◌≡◌, ◌≢◌, refl, ap, ◌∙◌, String, ◌==◌, ==_iff, Bool, true, false, ◌&&◌, none, some, List, [], ◌∷◌,
  ◌++◌, if◌then◌else◌, arith,
}
use openshift_machine_config.Common.StringMap.{StringMap, get, put, is_nil, value}
use openshift_machine_config.Kube.{Node, Pool}
use openshift_machine_config.Layered.{
  state_key, current_config_key, desired_config_key, current_image_key, desired_image_key,
  state_done, is_layered, has_os_image, get_os_image, is_done_at, set_desired_state_from_pool,
}
use openshift_machine_config.Layered.Facts.{annotations_made}
use openshift_machine_config.Layered.Targeting.{get-set_desired_state_from_pool}
use openshift_machine_config.Daemon.Writer.{
  StateAndConfigs, reason_key, put_all, remove_all, impl_set_node_annotations, done_annotations,
  done_deletions, set_done,
}
use openshift_machine_config.Daemon.Writer.Annotations.{
  written, deleted, get-put_all, get-remove_all, pool_image, done_by, image_by, value_running,
  value_wanted,
}

-- What the daemon has running once it is at the pool.
abbrev pub at_pool : Pool → StateAndConfigs
at_pool pool = record {
  current_config = pool.configuration.name;
  current_image = pool_image pool;
  desired_image = pool_image pool;
}

module _ (node : Node) (pool : Pool) where
  abbrev targeted : Node
  targeted = set_desired_state_from_pool node pool

  abbrev pub done_node : Node
  done_node = record targeted {
    annotations =
        put_all (done_annotations (at_pool pool))
          (remove_all (done_deletions (at_pool pool)) targeted.annotations);
  }

  abbrev annos : Bool → List (String × String)
  annos empty =
      (state_key, state_done)
      ∷ (current_config_key, pool.configuration.name)
      ∷ (reason_key, "")
      ∷ (if empty then [] else (current_image_key, pool_image pool) ∷ [])

  abbrev deletions : Bool → List String
  deletions empty =
      (if empty then current_image_key ∷ [] else [])
      ++ (if empty then desired_image_key ∷ [] else [])

  at_key :
      (k : String)
      → let empty = pool_image pool == "" in
        get done_node.annotations k
        ≡ written (annos empty) k (deleted (deletions empty) k (get targeted.annotations k))
  at_key k =
      let empty = pool_image pool == "" in
      get-put_all (annos empty) (remove_all (deletions empty) targeted.annotations) k
      ∙ ap (written (annos empty) k) (get-remove_all (deletions empty) targeted.annotations k)

  pub at_state : get done_node.annotations state_key ≡ some state_done
  at_state = at_key state_key ∙ go (pool_image pool == "")
    where
      go :
          (b : Bool)
          → written
              (annos b)
              state_key
              (deleted (deletions b) state_key (get targeted.annotations state_key))
            ≡ some state_done
      go true = refl
      go false = refl

  pub at_current : get done_node.annotations current_config_key ≡ some pool.configuration.name
  at_current = at_key current_config_key ∙ go (pool_image pool == "")
    where
      go :
          (b : Bool)
          → written (annos b) current_config_key (
              deleted
                (deletions b)
                current_config_key
                (get targeted.annotations current_config_key))
            ≡ some pool.configuration.name
      go true = refl
      go false = refl

  pub at_desired : get done_node.annotations desired_config_key ≡ some pool.configuration.name
  at_desired =
      at_key desired_config_key
      ∙ go (pool_image pool == "")
      ∙ get-set_desired_state_from_pool node pool desired_config_key
    where
      go :
          (b : Bool)
          → written (annos b) desired_config_key (
              deleted
                (deletions b)
                desired_config_key
                (get targeted.annotations desired_config_key))
            ≡ get targeted.annotations desired_config_key
      go true = refl
      go false = refl

  at_current_image :
      get done_node.annotations current_image_key
      ≡ (if pool_image pool == "" then none else some (pool_image pool))
  at_current_image = at_key current_image_key ∙ go (pool_image pool == "")
    where
      go :
          (b : Bool)
          → written
              (annos b)
              current_image_key
              (deleted (deletions b) current_image_key (get targeted.annotations current_image_key))
            ≡ (if b then none else some (pool_image pool))
      go true = refl
      go false = refl

  at_desired_image : get done_node.annotations desired_image_key ≡ (
      if pool_image pool == ""
      then none
      else if is_layered pool && has_os_image pool
      then some (get_os_image pool)
      else none)
  at_desired_image = at_key desired_image_key ∙ go (pool_image pool == "")
    where
      go :
          (b : Bool)
          → written
              (annos b)
              desired_image_key
              (deleted (deletions b) desired_image_key (get targeted.annotations desired_image_key))
            ≡ (if b
                then none
                else if is_layered pool && has_os_image pool
                then some (get_os_image pool)
                else none)
      go true = refl
      go false = get-set_desired_state_from_pool node pool desired_image_key

  pub at_wanted : value (get done_node.annotations desired_image_key) ≡ pool_image pool
  at_wanted =
      ap value at_desired_image
      ∙ value_wanted (is_layered pool && has_os_image pool) (get_os_image pool)

  written_nil :
      (xs : List (String × String)) (m : StringMap)
      → is_nil m ≡ false
      → is_nil (put_all xs m) ≡ false
  unfolding put_all put
  written_nil [] m e = e
  written_nil ((k, v) ∷ xs) m e = written_nil xs _ refl

  made : is_nil done_node.annotations ≡ false
  unfolding put_all put
  made =
      written_nil (if pool_image pool == "" then [] else (current_image_key, pool_image pool) ∷ [])
        _ refl

  -- A node that its pool targets and whose daemon then reports the configuration and the image of the
  -- pool as done is done at the pool by the test of the controller, and the report finds annotations
  -- to write to; the configuration has a name.
  pub is_done_at-set_done :
      pool.configuration.name ≢ ""
      → (set_done (at_pool pool) targeted ≡ some done_node) × (is_done_at done_node pool ≡ true)
  unfolding set_done impl_set_node_annotations
  is_done_at-set_done named = (
    rw (annotations_made node pool) refl,
    done_by done_node pool made (ground (arith, named, ==_iff pool.configuration.name "")) at_state
        at_current at_desired
        (image_by done_node pool desired_image_key _ at_desired_image
          (value_wanted (is_layered pool && has_os_image pool) (get_os_image pool)))
        (image_by done_node pool current_image_key _ at_current_image
          (value_running (pool_image pool))),
  )
