-- ===== src/Daemon/Prepare.antt =====
-- pkg/daemon/daemon.go and node.go: what the daemon finds to do when it looks at its node.
pub mod Settled
use openshift_machine_config.Common.{
  String, ◌==◌, Bool, true, false, ◌&&◌, not, Option, none, some, if◌then◌else◌,
}
use openshift_machine_config.Common.StringMap.{get}
use openshift_machine_config.Kube.{Node}
use openshift_machine_config.Layered.{
  state_key, state_done, current_config_key, desired_config_key, desired_image_key,
}

-- The configuration and the image that are written to the disk, if the files exist and can be read.
pub data OnDisk : Type 0 where
  not_on_disk unreadable : OnDisk
  on_disk : String → String → OnDisk

-- The update that prepUpdateFromCluster finds: the configurations by their names, and the images.
pub record UpdateFromCluster : Type 0 where
  pub current_config : String
  pub desired_config : String
  pub current_image : String
  pub desired_image : String

-- `panicked` is the use of the configuration on the disk where there is none.
pub data Prepared : Type 0 where
  failed panicked no_update : Prepared
  update_found : UpdateFromCluster → Prepared

abbrev pub or_empty : Bool → Option String → Option String
or_empty allowed none = if allowed then some "" else none
or_empty allowed (some v) = some v

-- None is the error for an annotation that is missing and must be there.
unfoldable pub get_node_annotation_ext : Node → String → Bool → Option String
get_node_annotation_ext node k allow_noent = or_empty allow_noent (get node.annotations k)

unfoldable pub get_node_annotation : Node → String → Option String
get_node_annotation node k = get_node_annotation_ext node k false

-- The configuration of the node and the one on the disk, with the state and the image that is wanted.
unfoldable pub compare_with_disk : String → String → String → String → OnDisk → Prepared
compare_with_disk desired current state desired_image unreadable = failed
compare_with_disk desired current state desired_image not_on_disk = panicked
compare_with_disk desired current state desired_image (on_disk config image) =
    let found = update_found (record {
      current_config = config;
      desired_config = desired;
      current_image = image;
      desired_image = desired_image;
    }) in
    if not (config == current)
    then found
    else if (desired_image == "") && (image == "")
    then (if (desired == current) && (state == state_done) then no_update else found)
    else (if (desired_image == image) && (desired == current) && (state == state_done)
        then no_update
        else found)

-- `has_config` tells whether the lister of machine configs has one of the name.
module _ (has_config : String → Bool) (disk : OnDisk) where
  abbrev pub with_state : String → String → Option String → Option String → Prepared
  with_state desired current none wanted = failed
  with_state desired current (some state) none = failed
  with_state desired current (some state) (some wanted) =
      compare_with_disk desired current state wanted disk

  abbrev pub with_current : Node → String → Option String → Prepared
  with_current node desired none = failed
  with_current node desired (some current) =
      if not (has_config current)
      then failed
      else with_state desired current (get_node_annotation node state_key)
          (get_node_annotation_ext node desired_image_key true)

  abbrev pub with_desired : Node → Option String → Prepared
  with_desired node none = failed
  with_desired node (some desired) =
      if not (has_config desired)
      then failed
      else with_current node desired (get_node_annotation node current_config_key)

  unfoldable pub prep_update_from_cluster : Node → Prepared
  prep_update_from_cluster node =
      with_desired node (get_node_annotation_ext node desired_config_key true)
