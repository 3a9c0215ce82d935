-- ===== src/NodeController/Status/Report.antt =====
-- The conditions that calculateStatus reports.
use Prim.Native.String.{◌++◌ as append}
use openshift_machine_config.Common.{
  ℕ, ◌≡◌, refl, ap, ◌∙◌, ◌≤◌, ◌<◌, ◌^◌, String, ◌==◌, Bool, true, false, ◌&&◌, ◌||◌, not, Option,
  List, arith, ◌↔◌, if◌then◌else◌, length, All,
}
use openshift_machine_config.Kube.{Node, Pool, PoolStatus, Condition, int32}
use openshift_machine_config.Conditions.{is_condition_true, set_pool_condition, new_condition}
use openshift_machine_config.Conditions.Unique.{
  IsUnique, set_pool_condition-IsUnique, is_condition_true-set_pool_condition,
}
use openshift_machine_config.NodeController.Status.{
  Library, ControllerCertificate, get_degraded_machines, initial_status, all_updated,
  update_conditions, degraded_conditions, calculate_status, positive, get_pool_update_line, join,
  degraded_reasons,
}
use openshift_machine_config.NodeController.Status.Counts.{
  IsSettled, all_updated_iff, degraded-le-all,
}

-- `t` is reported as true.
abbrev pub says : PoolStatus → String → Bool
says s t = is_condition_true s.conditions t

-- The first two steps set `Updated` and `Updating`, and no other type.
record UpdateReport (pool : Pool) (s u : PoolStatus) : Type 0 where
  updated : says u "Updated" ≡ all_updated s
  updating : says u "Updating" ≡ (not (all_updated s) && not pool.paused)
  render : says u "RenderDegraded" ≡ says s "RenderDegraded"
  is_unique : IsUnique u.conditions
  degraded_count : u.degraded_machine_count ≡ s.degraded_machine_count

-- Two conditions set in turn, given their types and whether they are true.
two-sets :
    (cs : List Condition) (c d : Condition) (tc td : String) (sc sd : Bool)
    → (c.type ≡ tc) × ((c.status == "True") ≡ sc)
    → (d.type ≡ td) × ((d.status == "True") ≡ sd)
    → IsUnique cs
    → IsUnique (set_pool_condition (set_pool_condition cs c) d)
      × ((t : String)
          → is_condition_true (set_pool_condition (set_pool_condition cs c) d) t
            ≡ (if td == t then sd else if tc == t then sc else is_condition_true cs t))
two-sets cs c d tc td sc sd hc hd u =
    let v = set_pool_condition-IsUnique cs c u in
    (
      set_pool_condition-IsUnique (set_pool_condition cs c) d v,
      λ t.
          rw (← hd.0, ← hd.1, ← hc.0, ← hc.1)
            (is_condition_true-set_pool_condition (set_pool_condition cs c) d t v
              ∙ ap (λ (b : Bool). if d.type == t then d.status == "True" else b)
                  (is_condition_true-set_pool_condition cs c t u)),
    )

-- The two conditions that depend on the test for all machines updated.
updated_condition : ℕ → Pool → Bool → Condition
updated_condition t pool all =
    if all
    then new_condition t "Updated" "True" ""
        (append "All nodes are updated with " (get_pool_update_line pool))
    else new_condition t "Updated" "False" "" ""

updating_condition : ℕ → Pool → Bool → Bool → Condition
updating_condition u pool all paused =
    if all
    then new_condition u "Updating" "False" "" ""
    else if paused
    then new_condition u "Updating" "False" ""
        (append "Pool is paused; will not update to " (get_pool_update_line pool))
    else new_condition u "Updating" "True" ""
        (append "All nodes are updating to " (get_pool_update_line pool))

updated_condition_lem :
    (t : ℕ) (pool : Pool) (all : Bool)
    → ((updated_condition t pool all).type ≡ "Updated")
      × (((updated_condition t pool all).status == "True") ≡ all)
unfolding updated_condition new_condition
updated_condition_lem t pool true = (refl, refl)
updated_condition_lem t pool false = (refl, refl)

updating_condition_lem :
    (u : ℕ) (pool : Pool) (all paused : Bool)
    → ((updating_condition u pool all paused).type ≡ "Updating")
      × (((updating_condition u pool all paused).status == "True") ≡ (not all && not paused))
unfolding updating_condition new_condition
updating_condition_lem u pool true paused = (refl, refl)
updating_condition_lem u pool false true = (refl, refl)
updating_condition_lem u pool false false = (refl, refl)

module _ (lib : Library) (pool : Pool) where
  conditions-update :
      (t u : ℕ) (s : PoolStatus)
      → let v = update_conditions lib t u pool s in
        (v.conditions
          ≡ set_pool_condition
              (set_pool_condition s.conditions (updated_condition t pool (all_updated s)))
              (updating_condition u pool (all_updated s) pool.paused))
        × (v.degraded_machine_count ≡ s.degraded_machine_count)
  unfolding update_conditions updated_condition updating_condition
  conditions-update t u s = ground arith

  update-reports :
      (t u : ℕ) (s : PoolStatus)
      → IsUnique s.conditions
      → UpdateReport pool s (update_conditions lib t u pool s)
  update-reports t u s un =
      let (e, n) = conditions-update t u s in
      let a = all_updated s in
      let (un', is_true) =
        two-sets s.conditions (updated_condition t pool a) (updating_condition u pool a pool.paused)
          "Updated" "Updating" a (not a && not pool.paused) (updated_condition_lem t pool a)
          (updating_condition_lem u pool a pool.paused) un in
      record {
        updated = rw e (is_true "Updated");
        updating = rw e (is_true "Updating");
        render = rw e (is_true "RenderDegraded");
        is_unique = rw e un';
        degraded_count = n;
      }

-- The condition that degraded_conditions sets first.
node_degraded_condition : Library → ℕ → List Node → Bool → Condition
node_degraded_condition lib t degraded bad =
    if bad
    then new_condition t "NodeDegraded" "True"
        (append (lib.decimal (length degraded)) " nodes are reporting degraded status on sync")
        (join (degraded_reasons lib degraded))
    else new_condition t "NodeDegraded" "False" "" ""

node_degraded_condition_lem :
    (lib : Library) (t : ℕ) (degraded : List Node) (bad : Bool)
    → ((node_degraded_condition lib t degraded bad).type ≡ "NodeDegraded")
      × (((node_degraded_condition lib t degraded bad).status == "True") ≡ bad)
unfolding node_degraded_condition new_condition
node_degraded_condition_lem lib t degraded true = (refl, refl)
node_degraded_condition_lem lib t degraded false = (refl, refl)

degraded_condition_lem :
    (u : ℕ) (bad : Bool)
    → let c = new_condition u "Degraded" (if bad then "True" else "False") "" "" in
      (c.type ≡ "Degraded") × ((c.status == "True") ≡ bad)
unfolding new_condition
degraded_condition_lem u true = (refl, refl)
degraded_condition_lem u false = (refl, refl)

positive_iff : (n k : ℕ) {m : ℕ} → m < 2 ^ 31 → k ≤ m → n ≡ int32 k → (positive n ≡ true) ↔ (0 < k)
positive_iff n k small few e = ground arith

module _ (lib : Library) (pool : Pool) where
  degraded-reports :
      (t u : ℕ) (degraded : List Node) (s : PoolStatus)
      → IsUnique s.conditions
      → let v = degraded_conditions lib t u pool degraded s in
        let bad = positive s.degraded_machine_count in
        IsUnique v.conditions
        × ((x : String)
            → says v x ≡ (
                if "Degraded" == x
                then bad || says pool.status "RenderDegraded"
                else if "NodeDegraded" == x
                then bad
                else says s x))
  unfolding degraded_conditions node_degraded_condition
  degraded-reports t u degraded s un =
      let bad = positive s.degraded_machine_count in
      let worse = bad || says pool.status "RenderDegraded" in
      two-sets s.conditions (node_degraded_condition lib t degraded bad)
        (new_condition u "Degraded" (if worse then "True" else "False") "" "") "NodeDegraded"
        "Degraded" bad worse (node_degraded_condition_lem lib t degraded bad)
        (degraded_condition_lem u worse) un

  -- From a status in which each condition type stands at most once, and with fewer nodes than an
  -- int32 can count, the new status keeps each type at most once and says: `Updated` exactly when
  -- every node is settled; `Updating` when not all are and the pool is not paused; `NodeDegraded`
  -- exactly when a node is degraded; `Degraded` when a node is or the rendering was; and about
  -- `RenderDegraded` what was said before.
  pub calculate_status-reports :
      (now : ℕ → ℕ) (certs : Option (List ControllerCertificate)) (nodes : List Node)
      → length nodes < 2 ^ 31
      → IsUnique pool.status.conditions
      → let s = calculate_status lib now certs pool nodes in
        IsUnique s.conditions
        × ((says s "Updated" ≡ true) ↔ All (IsSettled pool) nodes)
        × (says s "Updating" ≡ (not (says s "Updated") && not pool.paused))
        × ((says s "NodeDegraded" ≡ true) ↔ (0 < length (get_degraded_machines nodes)))
        × (says s "Degraded" ≡ (says s "NodeDegraded" || says pool.status "RenderDegraded"))
        × (says s "RenderDegraded" ≡ says pool.status "RenderDegraded")
  unfolding calculate_status initial_status
  calculate_status-reports now certs nodes small un =
      let i = initial_status certs pool nodes in
      let r = update-reports lib pool (now 0) (now 1) i un in
      let u = update_conditions lib (now 0) (now 1) pool i in
      let (un', at) =
        degraded-reports (now 2) (now 3) (get_degraded_machines nodes) u r.is_unique in
      let few = degraded-le-all nodes in
      let count : u.degraded_machine_count ≡ int32 (length (get_degraded_machines nodes)) =
        r.degraded_count in
      let sound =
        positive_iff u.degraded_machine_count (length (get_degraded_machines nodes)) small few
          count in
      let settled = all_updated_iff certs pool nodes small in
      let all_same : says u "Updated" ≡ all_updated i = r.updated in
      (
        un',
        rw (at "Updated", all_same) settled,
        rw (at "Updating", at "Updated", all_same) r.updating,
        rw (at "NodeDegraded") sound,
        rw (at "Degraded", at "NodeDegraded") refl,
        rw (at "RenderDegraded") r.render,
      )
