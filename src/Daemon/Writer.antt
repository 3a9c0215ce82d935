-- ===== src/Daemon/Writer.antt =====
-- pkg/daemon/writer.go: the annotations by which the daemon reports the state of its node.
pub mod Annotations
pub mod Done
use openshift_machine_config.Common.{
  String, ◌==◌, Bool, true, false, ◌&&◌, not, Option, none, some, List, [], ◌∷◌, ◌++◌,
  if◌then◌else◌, is_empty,
}
use openshift_machine_config.Common.StringMap.{StringMap, put, remove, is_nil}
use openshift_machine_config.Kube.{Node}
use openshift_machine_config.Layered.{
  state_key, current_config_key, current_image_key, desired_image_key, state_done, state_degraded,
  state_unreconcilable,
}

abbrev pub reason_key : String
reason_key = "machineconfiguration.openshift.io/reason"

abbrev pub state_working : String
state_working = "Working"

pub record StateAndConfigs : Type 0 where
  pub current_config : String
  pub current_image : String
  pub desired_image : String

unfoldable pub put_all : List (String × String) → StringMap → StringMap
put_all [] m = m
put_all ((k, v) ∷ annos) m = put_all annos (put m k v)

unfoldable pub remove_all : List String → StringMap → StringMap
remove_all [] m = m
remove_all (k ∷ ks) m = remove_all ks (remove m k)

-- What is done to the node that UpdateNodeRetry reads: none is the panic on a nil map.
unfoldable pub impl_set_node_annotations : List (String × String) → List String → Node → Option Node
impl_set_node_annotations annos to_delete node =
    if is_nil node.annotations && not (is_empty annos)
    then none
    else some (record node { annotations = put_all annos (remove_all to_delete node.annotations) })

abbrev pub done_annotations : StateAndConfigs → List (String × String)
done_annotations s =
    (state_key, state_done)
    ∷ (current_config_key, s.current_config)
    ∷ (reason_key, "")
    ∷ (if s.current_image == "" then [] else (current_image_key, s.current_image) ∷ [])

abbrev pub done_deletions : StateAndConfigs → List String
done_deletions s =
    (if s.current_image == "" then current_image_key ∷ [] else [])
    ++ (if s.desired_image == "" then desired_image_key ∷ [] else [])

unfoldable pub set_done : StateAndConfigs → Node → Option Node
set_done s node = impl_set_node_annotations (done_annotations s) (done_deletions s) node

unfoldable pub set_working : Node → Option Node
set_working node = impl_set_node_annotations ((state_key, state_working) ∷ []) [] node

-- `reason` is the error, cut to 2000 characters.
unfoldable pub set_unreconcilable : String → Node → Option Node
set_unreconcilable reason node =
    impl_set_node_annotations ((state_key, state_unreconcilable) ∷ (reason_key, reason) ∷ []) []
      node

unfoldable pub set_degraded : String → Node → Option Node
set_degraded reason node =
    impl_set_node_annotations ((state_key, state_degraded) ∷ (reason_key, reason) ∷ []) [] node
