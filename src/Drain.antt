-- ===== src/Drain.antt =====
-- pkg/controller/drain/drain_controller.go: the drain controller, which cordons, drains and uncordons
-- nodes as their daemons ask by an annotation. What the API server and the drain helper of kubectl do is
-- an `Api`, whose state is passed on from call to call.
pub mod Ongoing
pub mod Cordoned
use Prim.Native.Char.{code}
use openshift_machine_config.Common.{
  ℕ, zero, suc, ◌-◌, String, ◌==◌, Bool, true, false, not, ltb, nat_eq, bool_eq, Option, none, some,
  List, [], ◌∷◌, select, if◌then◌else◌,
}
use openshift_machine_config.Common.StringMap.{get_str, put}
use openshift_machine_config.Kube.{Node}

-- `cordon` is RunCordonOrUncordon, `run_drain` RunNodeDrain and `update` a read, a change and a patch of
-- a node under RetryOnConflict; the Boolean of each is false where it returns an error.
pub record Api : Type 1 where
  pub State : Type 0
  pub cordon : State → Node → Bool → State × Bool
  pub get_node : State → String → State × Option Node
  pub run_drain : State → String → State × Bool
  pub update : State → String → (Node → Node) → State × Bool

-- Durations and times in nanoseconds.
pub record Config : Type 0 where
  pub max_retries : ℕ
  pub drain_timeout : ℕ
  pub requeue_delay : ℕ
  pub failing_threshold : ℕ
  pub failing_delay : ℕ
  pub cordon_steps : ℕ

-- The calls on the work queue.
pub data QueueCall : Type 0 where
  add_after : String → ℕ → QueueCall
  add_rate_limited forget : String → QueueCall

-- `ongoing` has the start of every ongoing drain, `alerts` the nodes of the metric for failed drains, and
-- `queue` the calls on the queue, the last one first.
pub record Controller : Type 0 where
  pub ongoing : List (String × ℕ)
  pub alerts : List String
  pub queue : List QueueCall

pub data SyncError : Type 0 where
  invalid_key lister_failed uncordon_failed unknown_verb annotation_failed : SyncError

-- What the lister has.
pub data Listed : Type 0 where
  found : Node → Listed
  not_found list_failed : Listed

abbrev pub desired_drain_key : String
desired_drain_key = "machineconfiguration.openshift.io/desiredDrain"

abbrev pub last_drain_key : String
last_drain_key = "machineconfiguration.openshift.io/lastAppliedDrain"

-- `strings.Split(s, "-")[0]`
unfoldable pub verb_of : String → String
verb_of String.[] = String.[]
verb_of (String.◌∷◌ c s) =
    let rest = verb_of s in if nat_eq (code c) 45 then String.[] else String.◌∷◌ c rest

unfoldable pub started : List (String × ℕ) → String → Option ℕ
started [] name = none
started ((k, t) ∷ l) name = let rest = started l name in if k == name then some t else rest

unfoldable pub finish : List (String × ℕ) → String → List (String × ℕ)
finish [] name = []
finish ((k, t) ∷ l) name = let rest = finish l name in if k == name then rest else (k, t) ∷ rest

abbrev pub enqueue_after : Controller → String → ℕ → Controller
enqueue_after ctrl name delay = record ctrl { queue = add_after name delay ∷ ctrl.queue }

-- The metric is set where a drain has exceeded its timeout.
abbrev pub alert_late : Config → ℕ → Controller → String → Controller
alert_late cfg duration ctrl name =
    if ltb cfg.drain_timeout duration then record ctrl { alerts = name ∷ ctrl.alerts } else ctrl

abbrev pub begin : ℕ → Controller → String → Controller
begin now ctrl name = record ctrl { ongoing = (name, now) ∷ ctrl.ongoing }

-- `requeues` is NumRequeues of the rate limiter, after the calls on the queue.
unfoldable pub handle_err :
    Config → (List QueueCall → String → ℕ) → Option SyncError → String → Controller → Controller
handle_err cfg requeues none key ctrl = record ctrl { queue = forget key ∷ ctrl.queue }
handle_err cfg requeues (some e) key ctrl =
    if ltb (requeues ctrl.queue key) cfg.max_retries
    then record ctrl { queue = add_rate_limited key ∷ ctrl.queue }
    else enqueue_after (record ctrl { queue = forget key ∷ ctrl.queue }) key 60000000000

module _ (api : Api) where
  open api use {State, cordon, get_node, run_drain, update}

  -- The condition of the backoff: the cordon, and a look at the node that it left.
  unfoldable pub cordon_once : Bool → Node → State → State × Bool
  cordon_once desired node s =
      let (s1, ok) = cordon s node desired in
      let (s2, updated) = get_node s1 node.name in
      if not ok
      then (s1, false)
      else elim updated [ none ↦ (s2, false) | some n ↦ (s2, bool_eq n.unschedulable desired) ]

  -- cordonOrUncordonNode; the first number is the steps that are left of the backoff.
  unfoldable pub cordon_or_uncordon_node : ℕ → Bool → Node → State → State × Bool
  cordon_or_uncordon_node zero desired node s = (s, false)
  cordon_or_uncordon_node (suc n) desired node s =
      let (s1, done) = cordon_once desired node s in
      let rest = cordon_or_uncordon_node n desired node s1 in if done then (s1, true) else rest

  unfoldable pub set_node_annotation : String → String → String → State → State × Bool
  set_node_annotation name k v s =
      update s name (λ n. record n { annotations = put n.annotations k v })

  -- drainNode from `drain.RunNodeDrain` on; `duration` is that of the drain so far.
  unfoldable pub attempt_drain : Config → ℕ → Controller → Node → State → Controller × State × Bool
  attempt_drain cfg duration ctrl node s =
      let (s1, ok) = run_drain s node.name in
      if ok
      then (
        record ctrl {
          ongoing = finish ctrl.ongoing node.name;
          alerts = select (λ a. not (a == node.name)) ctrl.alerts;
        },
        s1,
        true,
      )
      else (
        enqueue_after ctrl node.name
            (if ltb cfg.failing_threshold duration then cfg.failing_delay else cfg.requeue_delay),
        s1,
        false,
      )

  unfoldable pub drain_node : Config → ℕ → Controller → Node → State → Controller × State × Bool
  drain_node cfg now ctrl node s = elim (started ctrl.ongoing node.name) [
    | some start ↦
        let duration = now - start in
        attempt_drain cfg duration (alert_late cfg duration ctrl node.name) node s
    | none ↦
        let (s1, ok) = cordon_or_uncordon_node cfg.cordon_steps true node s in
        if ok then attempt_drain cfg 0 (begin now ctrl node.name) node s1 else (ctrl, s1, false)
  ]

  -- The completion annotation that ends a sync.
  unfoldable pub complete :
      Controller → Node → String → State → Controller × State × Option SyncError
  complete ctrl node desired s =
      let (s1, ok) = set_node_annotation node.name last_drain_key desired s in
      (ctrl, s1, if ok then none else some annotation_failed)

  -- syncNode on a node that the lister has.
  unfoldable pub sync_found :
      Config → ℕ → Controller → Node → State → Controller × State × Option SyncError
  sync_found cfg now ctrl node s =
      let desired = get_str node.annotations desired_drain_key in
      let (s1, uncordoned) = cordon_or_uncordon_node cfg.cordon_steps false node s in
      let (ctrl2, s2, drained) = drain_node cfg now ctrl node s in
      if desired == get_str node.annotations last_drain_key
      then (ctrl, s, none)
      else if verb_of desired == "uncordon"
      then (if uncordoned then complete ctrl node desired s1 else (ctrl, s1, some uncordon_failed))
      else if verb_of desired == "drain"
      then (if drained then complete ctrl2 node desired s2 else (ctrl2, s2, none))
      else (ctrl, s, some unknown_verb)

  -- `split` is SplitMetaNamespaceKey, none where it returns an error.
  unfoldable pub sync_node :
      Config
      → ℕ
      → (String → Option String)
      → (String → Listed)
      → Controller
      → String
      → State
      → Controller × State × Option SyncError
  sync_node cfg now split lister ctrl key s = elim (split key) [
    | none ↦ (ctrl, s, some invalid_key)
    | some name ↦ elim (lister name) [
      | not_found ↦ (ctrl, s, none)
      | list_failed ↦ (ctrl, s, some lister_failed)
      | found node ↦ sync_found cfg now ctrl node s
    ]
  ]

  unfoldable pub process_next_work_item :
      Config
      → (List QueueCall → String → ℕ)
      → ℕ
      → (String → Option String)
      → (String → Listed)
      → Controller
      → String
      → State
      → Controller × State
  process_next_work_item cfg requeues now split lister ctrl key s =
      let (ctrl1, s1, err) = sync_node cfg now split lister ctrl key s in
      (handle_err cfg requeues err key ctrl1, s1)
