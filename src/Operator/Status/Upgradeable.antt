-- ===== src/Operator/Status/Upgradeable.antt =====
-- What the Upgradeable condition says of the pools.
use openshift_machine_config.Common.{
  ◌≡◌, refl, Bool, true, false, ◌||◌, List, [], ◌∷◌, any, arith, if◌then◌else◌,
}
use openshift_machine_config.Kube.{Pool}
use openshift_machine_config.Operator.Pools.{is_pool_status_condition_true}
use openshift_machine_config.Operator.Skew.{Skew}
use openshift_machine_config.Operator.Status.{scan_pools, upgradeable_condition, skew_reason}

abbrev pub is_updating : Pool → Bool
is_updating p = is_pool_status_condition_true p "Updating"

abbrev pub is_degraded_pool : Pool → Bool
is_degraded_pool p = is_pool_status_condition_true p "Degraded"

scan_pools-degraded :
    (pools : List Pool) (updating : Bool)
    → (scan_pools updating pools).1 ≡ any is_degraded_pool pools
unfolding scan_pools
scan_pools-degraded [] updating = refl
scan_pools-degraded (p ∷ pools) updating =
    ground (arith, scan_pools-degraded pools (if is_updating p then true else updating))

-- Where no pool ends the loop.
scan_pools-updating :
    (pools : List Pool) (updating : Bool)
    → any is_degraded_pool pools ≡ false
    → (scan_pools updating pools).0 ≡ (updating || any is_updating pools)
unfolding scan_pools
scan_pools-updating [] updating h = ground arith
scan_pools-updating (p ∷ pools) updating h =
    ground (arith, h, scan_pools-updating pools (if is_updating p then true else updating))

-- The operator says that it cannot be upgraded exactly while a pool is updating or degraded. A
-- degraded pool is the reason that it gives, wherever it stands among the pools, and otherwise one
-- that updates; where there is neither, the reason is what the skew of the kubelets is, which never
-- keeps the cluster from an upgrade.
pub upgradeable_condition_lem :
    (skew : Skew) (pools : List Pool)
    → upgradeable_condition skew pools ≡ record {
      type = "Upgradeable";
      status = if any is_degraded_pool pools || any is_updating pools then "False" else "True";
      reason =
          if any is_degraded_pool pools
          then "DegradedPool"
          else if any is_updating pools
          then "PoolUpdating"
          else skew_reason skew;
    }
unfolding upgradeable_condition
upgradeable_condition_lem skew pools =
    ground (arith, scan_pools-degraded pools false, scan_pools-updating pools false)
