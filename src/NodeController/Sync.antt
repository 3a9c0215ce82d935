-- ===== src/NodeController/Sync.antt =====
-- syncMachineConfigPool and syncStatusOnly of pkg/controller/node: one sync of a pool, from the listers
-- to the last call on the API server.
pub mod Held
pub mod Members
pub mod Maximum
use openshift_machine_config.Common.{
  ℕ, ℤ, String, ◌==◌, Bool, true, false, ◌&&◌, not, Option, none, some, List, [], ◌∷◌, ◌++◌,
  if◌then◌else◌, is_empty,
}
use openshift_machine_config.Kube.{Node, Pool, PoolStatus, IntOrString}
use openshift_machine_config.Layered.{
  is_layered_pool, has_os_image, is_build_success, is_build_pending, is_building, is_build_failure,
}
use openshift_machine_config.NodeController.Status.{
  Library, ControllerCertificate, calculate_status,
}
use openshift_machine_config.NodeController.Pools.{Selector, get_nodes_for_pool}
use openshift_machine_config.NodeController.Candidates.{
  max_unavailable, get_all_candidate_machines, chosen_candidates,
}
use openshift_machine_config.NodeController.Server.{
  Answers, write_status, read_config, Written, written, failed, panicked, and_then,
  set_cluster_config_annotation, sync_taints, set_desired_annotations,
}

-- The end of canLayeredPoolContinue: go on, wait, or an error.
pub data Gate : Type 0 where
  continue wait build_failed : Gate

unfoldable pub can_layered_pool_continue : Pool → Gate
can_layered_pool_continue pool =
    if not (has_os_image pool)
    then wait
    else if is_build_success pool && has_os_image pool
    then continue
    else if is_build_pending pool
    then wait
    else if is_building pool
    then wait
    else if is_build_failure pool
    then build_failed
    else wait

-- The controller config, with the topology of the control plane and the certificates.
pub record ControllerConfig : Type 0 where
  pub control_plane_topology : Option String
  pub controller_certificates : List ControllerCertificate

-- What a sync finds. `nodes` is what the lister has while the sync runs and `relisted` what it has
-- when the status is computed; `selects_all` compares the node selector with the empty one,
-- `sort_nodes` is sortNodeList, and `status_eq` the semantic equality.
pub record Env : Type 0 where
  pub pools : Option (List Pool)
  pub nodes : List Node
  pub relisted : List Node
  pub config : Option ControllerConfig
  pub pods : Option (List String)
  pub now : ℕ → ℕ
  pub lib : Library
  pub selector : Pool → Option Selector
  pub selects_all : Pool → Bool
  pub scaled : IntOrString → ℕ → Option ℤ
  pub sort_nodes : List Node → List Node
  pub status_eq : PoolStatus → PoolStatus → Bool
  pub answers : Answers

pub data Failure : Type 0 where
  no_config no_nodes no_maximum layered_build_failed not_annotated not_targeted : Failure
  status_not_written not_read : Failure

pub data End : Type 0 where
  done panic : End
  error : List Failure → End

-- The nodes and the status of the pool on the API server, and how the sync has ended.
pub record Synced : Type 0 where
  pub nodes : List Node
  pub status : PoolStatus
  pub end : End

-- What the lister has of the pool.
pub data Lookup : Type 0 where
  found : Pool → Lookup
  not_found lookup_failed : Lookup

-- `syncErr` before the error of the sync itself.
abbrev pub after_error : Failure → Synced → Synced
after_error e s = elim s.end [
  | done ↦ record s { end = error (e ∷ []) }
  | panic ↦ s
  | error es ↦ record s { end = error (es ++ e ∷ []) }
]

abbrev pub topology_of : Option ControllerConfig → Option (Option String)
topology_of none = none
topology_of (some c) = some c.control_plane_topology

module _ (env : Env) where
  abbrev pub write_new_status : PoolStatus → List Node → PoolStatus → Synced
  write_new_status new nodes old =
      if env.status_eq old new
      then record { nodes = nodes; status = old; end = done }
      else if env.answers write_status
      then record { nodes = nodes; status = new; end = done }
      else record { nodes = nodes; status = old; end = error (status_not_written ∷ []) }

  abbrev pub status_from : Pool → List Node → Option ControllerConfig → Option (List Node) → Synced
  status_from pool nodes none listed = record {
    nodes = nodes;
    status = pool.status;
    end = error (no_config ∷ []);
  }
  status_from pool nodes (some c) none = record {
    nodes = nodes;
    status = pool.status;
    end = error (no_nodes ∷ []);
  }
  status_from pool nodes (some c) (some listed) =
      write_new_status
        (calculate_status env.lib env.now (some c.controller_certificates) pool listed) nodes
        pool.status

  -- The status is compared with the one that the pool was listed with.
  unfoldable pub sync_status_only : Pool → List Node → Synced
  sync_status_only pool nodes =
      status_from pool nodes env.config
        (get_nodes_for_pool env.selector env.pools pool env.relisted)

  -- The status follows in every case; a failure to write annotations is reported after it.
  abbrev pub then_status : Pool → Written → Synced
  then_status pool (written nodes) = sync_status_only pool nodes
  then_status pool (failed nodes) = after_error not_targeted (sync_status_only pool nodes)
  then_status pool (panicked nodes) = record { nodes = nodes; status = pool.status; end = panic }

  -- updateCandidateMachines, where there are candidates.
  unfoldable pub update_candidate_machines : Pool → List Node → ℕ → List Node → Written
  update_candidate_machines pool candidates capacity nodes =
      set_desired_annotations env.answers pool
        (chosen_candidates env.sort_nodes env.pods pool candidates capacity) nodes

  abbrev pub update_candidates : Pool → List Node → ℕ → List Node → Written
  update_candidates pool candidates capacity nodes =
      if is_empty candidates
      then written nodes
      else update_candidate_machines pool candidates capacity nodes

  abbrev pub roll_out : Pool → List Node → ℤ → List Node → Written
  roll_out pool listed most nodes =
      let (candidates, capacity) = get_all_candidate_machines pool listed most in
      and_then (sync_taints env.answers pool listed nodes)
        (update_candidates pool candidates capacity)

  -- After the annotations of the cluster; an error there ends the sync without a status.
  abbrev pub after_annotations : Pool → List Node → ℤ → Written → Synced
  after_annotations pool listed most (written nodes) =
      then_status pool (roll_out pool listed most nodes)
  after_annotations pool listed most (failed nodes) = record {
    nodes = nodes;
    status = pool.status;
    end = error (not_annotated ∷ []);
  }
  after_annotations pool listed most (panicked nodes) = record {
    nodes = nodes;
    status = pool.status;
    end = panic;
  }

  abbrev pub with_maximum : Pool → List Node → Option ℤ → List Node → Synced
  with_maximum pool listed none nodes = after_error no_maximum (sync_status_only pool nodes)
  with_maximum pool listed (some most) nodes =
      after_annotations pool listed most
        (set_cluster_config_annotation env.answers (topology_of env.config) listed nodes)

  abbrev pub with_nodes : Pool → Option (List Node) → List Node → Synced
  with_nodes pool none nodes = after_error no_nodes (sync_status_only pool nodes)
  with_nodes pool (some listed) nodes =
      with_maximum pool listed (max_unavailable env.scaled pool listed) nodes

  -- The part that may change nodes.
  unfoldable pub update_pool : Pool → List Node → Synced
  update_pool pool nodes =
      with_nodes pool (get_nodes_for_pool env.selector env.pools pool env.nodes) nodes

  abbrev pub through_gate : Gate → Pool → List Node → Synced
  through_gate continue pool nodes = update_pool pool nodes
  through_gate wait pool nodes = sync_status_only pool nodes
  through_gate build_failed pool nodes = record {
    nodes = nodes;
    status = pool.status;
    end = error (layered_build_failed ∷ []);
  }

  unfoldable pub sync_found_pool : Pool → List Node → Synced
  sync_found_pool pool nodes =
      if pool.configuration.name == ""
      then record { nodes = nodes; status = pool.status; end = done }
      else if env.selects_all pool
      then record { nodes = nodes; status = pool.status; end = done }
      else if pool.is_deleted
      then sync_status_only pool nodes
      else if pool.paused
      then sync_status_only pool nodes
      else if is_layered_pool pool
      then through_gate (can_layered_pool_continue pool) pool nodes
      else update_pool pool nodes

  -- `status` is that of a pool that the lister does not have.
  unfoldable pub sync_machine_config_pool : Lookup → PoolStatus → List Node → Synced
  sync_machine_config_pool (found pool) status nodes = sync_found_pool pool nodes
  sync_machine_config_pool not_found status nodes = record {
    nodes = nodes;
    status = status;
    end = done;
  }
  sync_machine_config_pool lookup_failed status nodes = record {
    nodes = nodes;
    status = status;
    end = error (not_read ∷ []);
  }
