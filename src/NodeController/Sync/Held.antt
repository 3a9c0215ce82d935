-- ===== src/NodeController/Sync/Held.antt =====
-- What holds a sync back from the nodes of a pool: a pause, a deletion, and a build that is not done.
use openshift_machine_config.Common.{
  ◌≡◌, ◌≢◌, refl, ◌⊎◌, Bool, true, false, Option, none, some, List, arith, inl, inr,
}
use openshift_machine_config.Kube.{Node, Pool, PoolStatus}
use openshift_machine_config.Layered.{
  is_layered_pool, has_os_image, is_build_success, is_build_pending, is_building, is_build_failure,
}
use openshift_machine_config.Build.Marks.{
  IsAt, BuildState, idle, pending, building, succeeded, failed,
}
use openshift_machine_config.NodeController.Pools.{get_nodes_for_pool}
use openshift_machine_config.NodeController.Sync.{
  Gate, continue, wait, build_failed, can_layered_pool_continue, Env, found, ControllerConfig,
  sync_status_only, sync_found_pool, sync_machine_config_pool, through_gate, status_from,
}

-- What a layered pool does, by its image and the state of its build.
abbrev pub gate_of : Bool → BuildState → Gate
gate_of false s = wait
gate_of true succeeded = continue
gate_of true failed = build_failed
gate_of true idle = wait
gate_of true pending = wait
gate_of true building = wait

pub can_layered_pool_continue_lem :
    (pool : Pool) (s : BuildState)
    → IsAt pool.status.conditions s
    → can_layered_pool_continue pool ≡ gate_of (has_os_image pool) s
unfolding can_layered_pool_continue is_build_success is_build_pending is_building is_build_failure
can_layered_pool_continue_lem pool idle h = ground (arith, h.1)
can_layered_pool_continue_lem pool pending h = ground (arith, h.1)
can_layered_pool_continue_lem pool building h = ground (arith, h.1)
can_layered_pool_continue_lem pool succeeded h = ground (arith, h.1)
can_layered_pool_continue_lem pool failed h = ground (arith, h.1)

pub sync_status_only-nodes :
    (env : Env) (pool : Pool) (nodes : List Node) → (sync_status_only env pool nodes).nodes ≡ nodes
unfolding sync_status_only
sync_status_only-nodes env pool nodes =
    go env.config (get_nodes_for_pool env.selector env.pools pool env.relisted)
  where
    go :
        (c : Option ControllerConfig) (l : Option (List Node))
        → (status_from env pool nodes c l).nodes ≡ nodes
    go none l = refl
    go (some c) none = refl
    go (some c) (some l) = ground arith

pub through_gate-nodes :
    (env : Env) (g : Gate) (pool : Pool) (nodes : List Node)
    → g ≢ continue
    → (through_gate env g pool nodes).nodes ≡ nodes
through_gate-nodes env continue pool nodes h = absurd (h refl)
through_gate-nodes env wait pool nodes h = sync_status_only-nodes env pool nodes
through_gate-nodes env build_failed pool nodes h = refl

-- A pool that is paused or being deleted, or that is layered and has no image or no build that has
-- succeeded.
abbrev pub IsHeldBack : Pool → Type 0
IsHeldBack pool =
    (pool.paused ≡ true)
    ⊎ (pool.is_deleted ≡ true)
    ⊎ ((is_layered_pool pool ≡ true)
        × ((has_os_image pool ≡ false)
            ⊎ ((s : BuildState) × IsAt pool.status.conditions s × (s ≢ succeeded))))

gate_of_closed :
    (has_image : Bool) (s : BuildState) → s ≢ succeeded → gate_of has_image s ≢ continue
gate_of_closed false s h e = absurd (cc e)
gate_of_closed true idle h e = absurd (cc e)
gate_of_closed true pending h e = absurd (cc e)
gate_of_closed true building h e = absurd (cc e)
gate_of_closed true succeeded h e = h refl
gate_of_closed true failed h e = absurd (cc e)

gate_closed :
    (pool : Pool)
    → (has_os_image pool ≡ false)
      ⊎ ((s : BuildState) × IsAt pool.status.conditions s × (s ≢ succeeded))
    → can_layered_pool_continue pool ≢ continue
unfolding can_layered_pool_continue
gate_closed pool (inl h) = λ e. ground (arith, h, e)
gate_closed pool (inr (s, at, h)) =
    rw (can_layered_pool_continue_lem pool s at) (gate_of_closed (has_os_image pool) s h)

-- The sync of a pool writes no node where the pool is paused or being deleted, or where it is layered
-- and has no image or has build conditions that say one state of a build other than success.
pub sync_machine_config_pool-spares :
    (env : Env) (pool : Pool) (status : PoolStatus) (nodes : List Node)
    → IsHeldBack pool
    → (sync_machine_config_pool env (found pool) status nodes).nodes ≡ nodes
unfolding sync_machine_config_pool sync_found_pool
sync_machine_config_pool-spares env pool status nodes h = ground (
  arith,
  h,
  sync_status_only-nodes env pool nodes,
  through_gate-nodes env (can_layered_pool_continue pool) pool nodes,
  gate_closed pool,
)
