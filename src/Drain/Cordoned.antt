-- ===== src/Drain/Cordoned.antt =====
-- When a node was cordoned before it is drained, and what the queue holds of a node that was not.
use mathlib.Core.Path.{subst}
use openshift_machine_config.Common.{
  ℕ, zero, suc, ◌-◌, ◌≡◌, ◌⊎◌, inl, inr, refl, sym, ◌∙◌, String, ==_iff, Bool, true, false, Option,
  none, some, List, ◌∷◌, if◌then◌else◌, arith, Bool-cases, bool_eq, not,
}
use openshift_machine_config.Common.StringMap.{get_str}
use openshift_machine_config.Kube.{Node}
use openshift_machine_config.Drain.{
  Api, Config, Controller, SyncError, QueueCall, forget, Listed, found, desired_drain_key, verb_of,
  started, alert_late, begin, cordon_once, cordon_or_uncordon_node, attempt_drain, drain_node,
  complete, sync_found, sync_node, handle_err, process_next_work_item,
}
use openshift_machine_config.Drain.Ongoing.{drain_node-going, drain_node-fresh, drain_node_begins}

module _ (api : Api) (desired : Bool) (node : Node) where
  -- The API server was left in `s` by a read that found the node cordoned, or uncordoned, as desired.
  abbrev pub SeenAs : api.State → Type 0
  SeenAs s =
      (s0 : api.State) × (n : Node) × (api.get_node s0 node.name ≡ (s, some n))
      × (n.unschedulable ≡ desired)

  cordon_once-SeenAs :
      (s : api.State)
      → (cordon_once api desired node s).1 ≡ true
      → SeenAs (cordon_once api desired node s).0
  unfolding cordon_once
  cordon_once-SeenAs s = go (api.cordon s node desired).0 (api.cordon s node desired).1
    where
      seen :
          (s1 s2 : api.State) (o : Option Node)
          → api.get_node s1 node.name ≡ (s2, o)
          → let r : api.State × Bool = elim o [
            | none ↦ (s2, false)
            | some n ↦ (s2, bool_eq n.unschedulable desired)
          ] in
            r.1 ≡ true → SeenAs r.0
      seen s1 s2 none e h = cc
      seen s1 s2 (some n) e h = (s1, n, e, ground arith)

      go :
          (s1 : api.State) (ok : Bool)
          → let (s2, updated) = api.get_node s1 node.name in
            let r : api.State × Bool = if not ok then (s1, false) else elim updated [
              | none ↦ (s2, false)
              | some n ↦ (s2, bool_eq n.unschedulable desired)
            ] in
            r.1 ≡ true → SeenAs r.0
      go s1 false = λ h. cc
      go s1 true = seen s1 _ _ refl

  -- Where cordonOrUncordonNode succeeds, the last thing that it did was a read that found the node
  -- as desired.
  pub cordon_or_uncordon_node-SeenAs :
      (steps : ℕ) (s : api.State)
      → (cordon_or_uncordon_node api steps desired node s).1 ≡ true
      → SeenAs (cordon_or_uncordon_node api steps desired node s).0
  unfolding cordon_or_uncordon_node
  cordon_or_uncordon_node-SeenAs zero s = λ h. cc
  cordon_or_uncordon_node-SeenAs (suc n) s =
      go (cordon_once api desired node s) (cordon_once-SeenAs s)
        (cordon_or_uncordon_node-SeenAs n (cordon_once api desired node s).0)
    where
      go :
          (c : api.State × Bool)
          → (c.1 ≡ true → SeenAs c.0)
          → (let rest = cordon_or_uncordon_node api n desired node c.0 in
              rest.1 ≡ true → SeenAs rest.0)
          → let rest = cordon_or_uncordon_node api n desired node c.0 in
            let r : api.State × Bool = if c.1 then (c.0, true) else rest in r.1 ≡ true → SeenAs r.0
      go (s1, true) h k = h
      go (s1, false) h k = k

-- What cordons and reads of a node keep of the API server.
pub record Steady (api : Api) (P : api.State → Type 0) : Type 0 where
  pub cordons : (s : api.State) (n : Node) (desired : Bool) → P s → P (api.cordon s n desired).0
  pub reads : (s : api.State) (name : String) → P s → P (api.get_node s name).0

module _ (api : Api) (P : api.State → Type 0) (steady : Steady api P) (desired : Bool)
    (node : Node) where
  cordon_once-keeps : (s : api.State) → P s → P (cordon_once api desired node s).0
  unfolding cordon_once
  cordon_once-keeps s h = go (api.cordon s node desired).1 (steady.cordons s node desired h)
    where
      seen :
          (s2 : api.State) (o : Option Node)
          → P s2
          → let r : api.State × Bool = elim o [
            | none ↦ (s2, false)
            | some n ↦ (s2, bool_eq n.unschedulable desired)
          ] in
            P r.0
      seen s2 none k = k
      seen s2 (some n) k = k

      go :
          (ok : Bool)
          → let s1 = (api.cordon s node desired).0 in
            let (s2, updated) = api.get_node s1 node.name in
            let r : api.State × Bool = if not ok then (s1, false) else elim updated [
              | none ↦ (s2, false)
              | some n ↦ (s2, bool_eq n.unschedulable desired)
            ] in
            P s1 → P r.0
      go false = λ k. k
      go true = λ k. seen _ _ (steady.reads _ node.name k)

  pub cordon_or_uncordon_node-keeps :
      (steps : ℕ) (s : api.State) → P s → P (cordon_or_uncordon_node api steps desired node s).0
  unfolding cordon_or_uncordon_node
  cordon_or_uncordon_node-keeps zero s h = h
  cordon_or_uncordon_node-keeps (suc n) s h =
      go (cordon_once api desired node s) (cordon_once-keeps s h)
        (cordon_or_uncordon_node-keeps n (cordon_once api desired node s).0)
    where
      go :
          (c : api.State × Bool)
          → P c.0
          → (P c.0 → P (cordon_or_uncordon_node api n desired node c.0).0)
          → let rest = cordon_or_uncordon_node api n desired node c.0 in
            let r : api.State × Bool = if c.1 then (c.0, true) else rest in P r.0
      go (s1, true) h k = h
      go (s1, false) h k = k h

module _ (api : Api) (cfg : Config) (now : ℕ) (ctrl : Controller) (node : Node)
    (s : api.State) where
  -- A node of which no drain is remembered is drained only where a read has found it cordoned, and
  -- right after that read; or else it cannot be cordoned, drainNode fails, and the controller stays as
  -- it is. Up to the drain, or to the failure, what cordons and reads of a node keep of the API server
  -- holds as before, such as how many drains it has seen.
  pub drain_node-SeenAs :
      (P : api.State → Type 0)
      → Steady api P
      → P s
      → started ctrl.ongoing node.name ≡ none
      → ((s1 : api.State) × SeenAs api true node s1
          × P s1
          × (drain_node api cfg now ctrl node s
              ≡ attempt_drain api cfg 0 (begin now ctrl node.name) node s1))
        ⊎ (((cordon_or_uncordon_node api cfg.cordon_steps true node s).1 ≡ false)
            × ((s1 : api.State) × P s1 × (drain_node api cfg now ctrl node s ≡ (ctrl, s1, false))))
  drain_node-SeenAs P steady p e =
      let c = cordon_or_uncordon_node api cfg.cordon_steps true node s in
      let same = drain_node-fresh api cfg now node ctrl s e in
      let kept = cordon_or_uncordon_node-keeps api P steady true node cfg.cordon_steps s p in
      elim (Bool-cases c.1) [
        | inl ok ↦ inl (
          c.0,
          cordon_or_uncordon_node-SeenAs api true node cfg.cordon_steps s ok,
          kept,
          same ∙ (rw ok refl),
        )
        | inr fails ↦ inr (fails, (c.0, kept, same ∙ (rw fails refl)))
      ]

  uncordon_unchanged :
      verb_of (get_str node.annotations desired_drain_key) ≡ "uncordon"
      → (sync_found api cfg now ctrl node s).0 ≡ ctrl
  unfolding sync_found complete
  uncordon_unchanged v =
      ground (arith, ==_iff (verb_of (get_str node.annotations desired_drain_key)) "uncordon")

  -- Where a drain is remembered, an uncordon forgets nothing; the drain that is asked for after it
  -- starts from the state that it left, and no cordon comes between.
  pub uncordoned_drain :
      (start later : ℕ) (again : Node)
      → started ctrl.ongoing node.name ≡ some start
      → verb_of (get_str node.annotations desired_drain_key) ≡ "uncordon"
      → again.name ≡ node.name
      → let r : Controller × api.State × Option SyncError = sync_found api cfg now ctrl node s in
        drain_node api cfg later r.0 again r.1
        ≡ attempt_drain api cfg
            (later - start)
            (alert_late cfg (later - start) ctrl again.name)
            again
            r.1
  uncordoned_drain start later again e v same =
      let s1 = (sync_found api cfg now ctrl node s).1 in
      subst
        (λ c.
          drain_node api cfg later c again s1
          ≡ attempt_drain api cfg (later - start) (alert_late cfg (later - start) ctrl again.name)
              again s1)
        (sym (uncordon_unchanged v))
        (drain_node-going api cfg later again ctrl s1 start (rw same e))

  uncordonable_unchanged :
      started ctrl.ongoing node.name ≡ none
      → verb_of (get_str node.annotations desired_drain_key) ≡ "drain"
      → (cordon_or_uncordon_node api cfg.cordon_steps true node s).1 ≡ false
      → ((sync_found api cfg now ctrl node s).0 ≡ ctrl)
        × ((sync_found api cfg now ctrl node s).2 ≡ none)
  unfolding sync_found
  uncordonable_unchanged e v c =
      let verb = verb_of (get_str node.annotations desired_drain_key) in
      let (same, fails) = rw c at (drain_node_begins api cfg now node ctrl s e) in
      ground (arith, ==_iff verb "uncordon", ==_iff verb "drain", ==_iff "drain" "uncordon")

  sync_node-found :
      (split : String → Option String) (lister : String → Listed) (key : String)
      → split key ≡ some node.name
      → lister node.name ≡ found node
      → sync_node api cfg now split lister ctrl key s ≡ sync_found api cfg now ctrl node s
  unfolding sync_node
  sync_node-found split lister key k l = rw (k, sync_node, l, sync_node) refl

  -- A drain request on a node that cannot be cordoned is forgotten: the sync reports no error, and the
  -- queue does not hold the node again.
  pub uncordonable_is_forgotten :
      (requeues : List QueueCall → String → ℕ) (split : String → Option String)
      (lister : String → Listed) (key : String)
      → split key ≡ some node.name
      → lister node.name ≡ found node
      → started ctrl.ongoing node.name ≡ none
      → verb_of (get_str node.annotations desired_drain_key) ≡ "drain"
      → (cordon_or_uncordon_node api cfg.cordon_steps true node s).1 ≡ false
      → (process_next_work_item api cfg requeues now split lister ctrl key s).0
        ≡ record ctrl { queue = forget key ∷ ctrl.queue }
  unfolding process_next_work_item sync_node handle_err
  uncordonable_is_forgotten requeues split lister key k l e v c =
      let (same, quiet) = uncordonable_unchanged e v c in
      let found_so = sync_node-found split lister key k l in
      subst
        (λ (r : Controller × api.State × Option SyncError).
          handle_err cfg requeues r.2 key r.0 ≡ record ctrl { queue = forget key ∷ ctrl.queue })
        (sym found_so) (rw (quiet, same) refl)
