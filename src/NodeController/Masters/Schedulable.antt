-- ===== src/NodeController/Masters/Schedulable.antt =====
-- What the two settings of the scheduler config make of a master.
use openshift_machine_config.Common.{
  ◌≡◌, ◌≢◌, refl, ap, sym, String, ==_iff, Bool, true, false, ◌&&◌, not, Option, some, is_some,
  List, [], ◌∷◌, ◌++◌, arith, if◌then◌else◌, select, any,
}
use mathlib.Core.Path.{subst}
use openshift_machine_config.Common.StringMap.{get, put, get-put, get-remove}
use openshift_machine_config.Kube.{Node, Taint}
use openshift_machine_config.NodeController.Masters.{
  worker_label, is_master_taint, master_taint, unschedulable_master, schedulable_master,
}

abbrev pub other_taints : Node → List Taint
other_taints node = select (λ t. not (is_master_taint t)) node.taints

-- Workloads are scheduled on the master: it is labelled a worker and has no master taint.
abbrev pub is_schedulable : Node → Bool
is_schedulable node =
    is_some (get node.labels worker_label) && not (any is_master_taint node.taints)

-- They are not: it has no such label, and the taint.
abbrev pub is_barred : Node → Bool
is_barred node = not (is_some (get node.labels worker_label)) && any is_master_taint node.taints

-- What the setting makes of the node, and what it asks for.
abbrev pub reconciled : Bool → Node → Option Node
reconciled true node = schedulable_master node
reconciled false node = some (unschedulable_master node)

abbrev pub follows : Bool → Node → Bool
follows true node = is_schedulable node
follows false node = is_barred node

select_none :
    (ts : List Taint) → any is_master_taint (select (λ t. not (is_master_taint t)) ts) ≡ false
select_none [] = refl
select_none (t ∷ ts) = ground (arith, select_none ts)

select_again :
    (ts : List Taint)
    → select (λ t. not (is_master_taint t)) (select (λ t. not (is_master_taint t)) ts)
      ≡ select (λ t. not (is_master_taint t)) ts
select_again [] = refl
select_again (t ∷ ts) = ground (arith, select_again ts)

any-append : (ts : List Taint) → any is_master_taint (ts ++ master_taint ∷ []) ≡ true
unfolding is_master_taint
any-append [] = refl
any-append (t ∷ ts) = ground (arith, any-append ts)

select-append :
    (ts : List Taint)
    → select (λ t. not (is_master_taint t)) (ts ++ master_taint ∷ [])
      ≡ select (λ t. not (is_master_taint t)) ts
unfolding is_master_taint
select-append [] = refl
select-append (t ∷ ts) = ground (arith, select-append ts)

-- The node follows the setting `b`, what the setting is not about is kept from `n`, and to apply the
-- setting again changes nothing.
pub record IsSettled (b : Bool) (n m : Node) : Type 0 where
  pub follows : follows b m ≡ true
  pub taints_kept : other_taints m ≡ other_taints n
  pub labels_kept : (k : String) → k ≢ worker_label → get m.labels k ≡ get n.labels k
  pub rest_kept : record m { labels = n.labels; taints = n.taints } ≡ n
  pub again : reconciled b m ≡ some m

select_all :
    (ts : List Taint)
    → any is_master_taint ts ≡ false
    → select (λ t. not (is_master_taint t)) ts ≡ ts
select_all [] h = refl
select_all (t ∷ ts) h = ground (arith, h, select_all ts)

barred_again : (n : Node) → is_barred n ≡ true → unschedulable_master n ≡ n
unfolding unschedulable_master
barred_again n h =
    let label : is_some (get n.labels worker_label) ≡ false = ground (arith, h) in
    let taint : any is_master_taint n.taints ≡ true = ground (arith, h) in rw (label, taint) refl

schedulable_again : (n : Node) → is_schedulable n ≡ true → schedulable_master n ≡ some n
unfolding schedulable_master
schedulable_again n h =
    let label : is_some (get n.labels worker_label) ≡ true = ground (arith, h) in
    rw (label, select_all n.taints (ground (arith, h))) refl

unschedulable_master-barred : (n : Node) → is_barred (unschedulable_master n) ≡ true
unfolding unschedulable_master
unschedulable_master-barred n = ground (
  arith,
  get-remove n.labels worker_label worker_label,
  any-append n.taints,
  ==_iff worker_label worker_label,
)

unschedulable_master-IsSettled : (n : Node) → IsSettled false n (unschedulable_master n)
unfolding unschedulable_master
unschedulable_master-IsSettled n = record {
  follows = unschedulable_master-barred n;
  taints_kept = ground (arith, select-append n.taints);
  labels_kept = λ k h. ground (arith, h, get-remove n.labels worker_label k, ==_iff worker_label k);
  rest_kept = refl;
  again = ap some (barred_again (unschedulable_master n) (unschedulable_master-barred n));
}

-- A map that takes the label.
labelled : Node → Node
labelled n = record n {
  labels = if is_some (get n.labels worker_label) then n.labels else put n.labels worker_label "";
  taints = other_taints n;
}

labelled_lem : (n m : Node) → schedulable_master n ≡ some m → m ≡ labelled n
unfolding labelled schedulable_master
labelled_lem n m e = ground (arith, e)

labelled-schedulable : (n : Node) → is_schedulable (labelled n) ≡ true
unfolding labelled
labelled-schedulable n = ground (
  arith,
  get-put n.labels worker_label "" worker_label,
  select_none n.taints,
  ==_iff worker_label worker_label,
)

labelled-IsSettled : (n : Node) → IsSettled true n (labelled n)
unfolding labelled
labelled-IsSettled n = record {
  follows = labelled-schedulable n;
  taints_kept = select_again n.taints;
  labels_kept = λ k h. ground (arith, h, get-put n.labels worker_label "" k, ==_iff worker_label k);
  rest_kept = refl;
  again = schedulable_again (labelled n) (labelled-schedulable n);
}

schedulable_master-IsSettled : (n m : Node) → schedulable_master n ≡ some m → IsSettled true n m
schedulable_master-IsSettled n m e =
    subst (λ (x : Node). IsSettled true n x) (sym (labelled_lem n m e)) (labelled-IsSettled n)

-- A master that was brought to a setting of the scheduler config follows it: schedulable, it has the
-- label of a worker and no master taint; otherwise it has no such label, and the taint. Its other
-- taints in their order, its other labels and all else stay, and to apply the setting once more
-- changes nothing.
pub reconciled-IsSettled : (b : Bool) (n m : Node) → reconciled b n ≡ some m → IsSettled b n m
reconciled-IsSettled true n m e = schedulable_master-IsSettled n m e
reconciled-IsSettled false n m e =
    subst (λ (x : Node). IsSettled false n x) (ground (arith, e)) (unschedulable_master-IsSettled n)
