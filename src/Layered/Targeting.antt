-- ===== src/Layered/Targeting.antt =====
-- What SetDesiredStateFromPool promises: the node is targeted by its pool, and nothing else moves.
use openshift_machine_config.Common.{
  ◌≡◌, ◌≢◌, refl, String, ◌==◌, ==_iff, true, false, ◌&&◌, none, some, arith, if◌then◌else◌,
}
use openshift_machine_config.Common.StringMap.{get, get_str, put, get-put, get-remove}
use openshift_machine_config.Kube.{Node, Pool}
use openshift_machine_config.Layered.{
  desired_config_key, desired_image_key, is_layered, has_os_image, get_os_image,
  is_image_annotation_equal_to_pool, is_desired_equal_to_pool, set_desired_state_from_pool,
  is_desired_machine_config_equal_to_pool, is_desired_image_equal_to_pool,
}

-- The annotation of every key after the node was targeted.
pub get-set_desired_state_from_pool :
    (node : Node) (pool : Pool) (k : String)
    → get (set_desired_state_from_pool node pool).annotations k ≡ (
        if desired_image_key == k
        then (if is_layered pool && has_os_image pool then some (get_os_image pool) else none)
        else if desired_config_key == k
        then some pool.configuration.name
        else get node.annotations k)
unfolding set_desired_state_from_pool
get-set_desired_state_from_pool node pool k =
    let a = node.annotations in
    let made = put a desired_config_key pool.configuration.name in
    ground (
      arith,
      get-put made desired_image_key (get_os_image pool) k,
      get-remove made desired_image_key k,
      get-put a desired_config_key pool.configuration.name k,
    )

keys_differ : (desired_image_key == desired_config_key) ≡ false
keys_differ = refl

targeted_config :
    (node : Node) (pool : Pool)
    → is_desired_machine_config_equal_to_pool (set_desired_state_from_pool node pool) pool ≡ true
unfolding is_desired_machine_config_equal_to_pool get_str
targeted_config node pool = ground (
  arith,
  get-set_desired_state_from_pool node pool desired_config_key,
  keys_differ,
  ==_iff pool.configuration.name pool.configuration.name,
)

pub targeted_image :
    (node : Node) (pool : Pool)
    → is_desired_image_equal_to_pool (set_desired_state_from_pool node pool) pool ≡ true
unfolding is_desired_image_equal_to_pool is_image_annotation_equal_to_pool
targeted_image node pool = ground (
  arith,
  get-set_desired_state_from_pool node pool desired_image_key,
  ==_iff (get_os_image pool) (get_os_image pool),
)

rest_unchanged :
    (node : Node) (pool : Pool)
    → record (set_desired_state_from_pool node pool) { annotations = node.annotations } ≡ node
unfolding set_desired_state_from_pool
rest_unchanged node pool = refl

targeted_equal :
    (node : Node) (pool : Pool)
    → is_desired_equal_to_pool (set_desired_state_from_pool node pool) pool ≡ true
unfolding is_desired_equal_to_pool
targeted_equal node pool = ground (arith, targeted_config node pool, targeted_image node pool)

-- A node that was targeted has the configuration and the image of its pool as the desired ones;
-- its other annotations and all else about it stay as they were.
pub set_desired_state_from_pool-targets :
    (node : Node) (pool : Pool)
    → (is_desired_equal_to_pool (set_desired_state_from_pool node pool) pool ≡ true)
      × ((k : String)
          → k ≢ desired_config_key
          → k ≢ desired_image_key
          → get (set_desired_state_from_pool node pool).annotations k ≡ get node.annotations k)
      × (record (set_desired_state_from_pool node pool) { annotations = node.annotations } ≡ node)
set_desired_state_from_pool-targets node pool = (
  targeted_equal node pool,
  λ k not_config not_image. ground (
    arith,
    get-set_desired_state_from_pool node pool k,
    ==_iff desired_image_key k,
    ==_iff desired_config_key k,
    not_config,
    not_image,
  ),
  rest_unchanged node pool,
)
