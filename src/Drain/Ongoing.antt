-- ===== src/Drain/Ongoing.antt =====
-- What the controller remembers of the drains, and which nodes it takes up again.
use mathlib.Core.Path.{subst}
use openshift_machine_config.Common.{
  ℕ, ◌-◌, ◌≡◌, ◌≢◌, inl, inr, refl, String, ◌==◌, ==_iff, Bool, true, false, none, some, List, [],
  ◌∷◌, ltb, if◌then◌else◌, arith, Bool-cases, sym, ◌∙◌,
}
use openshift_machine_config.Kube.{Node}
use openshift_machine_config.Drain.{
  Api, Config, Controller, QueueCall, add_after, started, finish, alert_late, begin,
  cordon_or_uncordon_node, attempt_drain, drain_node,
}

started-finish :
    (l : List (String × ℕ)) (j name : String)
    → started (finish l name) j ≡ (if name == j then none else started l j)
unfolding started finish
started-finish [] j name = ground arith
started-finish ((k, t) ∷ l) j name =
    ground (arith, started-finish l j name, ==_iff k name, ==_iff k j, ==_iff name j)

-- What the controller remembers after a drain that began at `start`, and its calls on the queue: where
-- the drain succeeded nothing, and where it failed the start, and the node is queued again.
module _ (cfg : Config) (now start : ℕ) (name : String) (queue : List QueueCall) where
  abbrev pub Remembers : Controller → Bool → Type 0
  Remembers c true = (started c.ongoing name ≡ none) × (c.queue ≡ queue)
  Remembers c false =
      (started c.ongoing name ≡ some start)
      × (c.queue
          ≡ add_after name (
              if ltb cfg.failing_threshold (now - start)
              then cfg.failing_delay
              else cfg.requeue_delay)
            ∷ queue)

-- The other nodes' drains.
abbrev pub SameElsewhere : String → Controller → Controller → Type 0
SameElsewhere name c d = (j : String) → j ≢ name → started c.ongoing j ≡ started d.ongoing j

module _ (api : Api) (cfg : Config) (now : ℕ) (node : Node) where
  attempt_drain-Remembers :
      (start duration : ℕ) (c : Controller) (s : api.State)
      → duration ≡ now - start
      → started c.ongoing node.name ≡ some start
      → let r : Controller × api.State × Bool = attempt_drain api cfg duration c node s in
        Remembers cfg now start node.name c.queue r.0 r.2 × SameElsewhere node.name r.0 c
  unfolding attempt_drain
  attempt_drain-Remembers start duration c s p e = elim (Bool-cases (api.run_drain s node.name).1) [
    | inl ok ↦ rw ok (
      (
        rw (started-finish c.ongoing node.name node.name) ground
            (arith, ==_iff node.name node.name),
        refl,
      ),
      λ j ne. rw (started-finish c.ongoing j node.name) ground (arith, ==_iff node.name j),
    )
    | inr fails ↦ rw (fails, p) ((e, refl), λ j ne. refl)
  ]

  pub drain_node-going :
      (ctrl : Controller) (s : api.State) (start : ℕ)
      → started ctrl.ongoing node.name ≡ some start
      → drain_node api cfg now ctrl node s
        ≡ attempt_drain api cfg (now - start) (alert_late cfg (now - start) ctrl node.name) node s
  unfolding drain_node
  drain_node-going ctrl s start e = rw (e, drain_node) refl

  pub drain_node-fresh :
      (ctrl : Controller) (s : api.State)
      → started ctrl.ongoing node.name ≡ none
      → drain_node api cfg now ctrl node s ≡ (
          let (s1, ok) = cordon_or_uncordon_node api cfg.cordon_steps true node s in
          if ok
          then attempt_drain api cfg 0 (begin now ctrl node.name) node s1
          else (ctrl, s1, false))
  unfolding drain_node
  drain_node-fresh ctrl s e = rw (e, drain_node) refl

  begin-started :
      (l : List (String × ℕ)) (name : String) → started ((name, now) ∷ l) name ≡ some now
  unfolding started
  begin-started l name = ground (arith, ==_iff name name)

  begin-SameElsewhere :
      (ctrl : Controller) → SameElsewhere node.name (begin now ctrl node.name) ctrl
  unfolding started
  begin-SameElsewhere ctrl j ne = ground (arith, ==_iff node.name j)

  -- A drain is remembered by its start until it succeeds. One that fails is queued again, after the
  -- longer delay where it has gone on for more than the threshold. No other drain is touched.
  pub drain_node-Remembers :
      (ctrl : Controller) (s : api.State) (start : ℕ)
      → started ctrl.ongoing node.name ≡ some start
      → let r : Controller × api.State × Bool = drain_node api cfg now ctrl node s in
        Remembers cfg now start node.name ctrl.queue r.0 r.2 × SameElsewhere node.name r.0 ctrl
  drain_node-Remembers ctrl s start e =
      subst
        (λ (r : Controller × api.State × Bool).
          Remembers cfg now start node.name ctrl.queue r.0 r.2 × SameElsewhere node.name r.0 ctrl)
        (sym (drain_node-going ctrl s start e)) (late (ltb cfg.drain_timeout (now - start)))
    where
      late :
          (b : Bool)
          → let r : Controller × api.State × Bool =
              attempt_drain api cfg
                (now - start)
                (if b then record ctrl { alerts = node.name ∷ ctrl.alerts } else ctrl)
                node
                s in
            Remembers cfg now start node.name ctrl.queue r.0 r.2 × SameElsewhere node.name r.0 ctrl
      late true =
          attempt_drain-Remembers start _ (record ctrl { alerts = node.name ∷ ctrl.alerts }) s refl
            e
      late false = attempt_drain-Remembers start _ ctrl s refl e

  -- A node of which no drain is remembered is cordoned first. Where that succeeds its drain begins now;
  -- where it does not, nothing changes, and the node is not queued again.
  pub drain_node_begins :
      (ctrl : Controller) (s : api.State)
      → started ctrl.ongoing node.name ≡ none
      → let r : Controller × api.State × Bool = drain_node api cfg now ctrl node s in
        if (cordon_or_uncordon_node api cfg.cordon_steps true node s).1
        then Remembers cfg now now node.name ctrl.queue r.0 r.2 × SameElsewhere node.name r.0 ctrl
        else (r.0 ≡ ctrl) × (r.2 ≡ false)
  drain_node_begins ctrl s e =
      subst
        (λ (r : Controller × api.State × Bool).
          if (cordon_or_uncordon_node api cfg.cordon_steps true node s).1
          then Remembers cfg now now node.name ctrl.queue r.0 r.2 × SameElsewhere node.name r.0 ctrl
          else (r.0 ≡ ctrl) × (r.2 ≡ false))
        (sym (drain_node-fresh ctrl s e))
        (by_cordon (cordon_or_uncordon_node api cfg.cordon_steps true node s))
    where
      fresh :
          (s1 : api.State)
          → let r : Controller × api.State × Bool =
              attempt_drain api cfg 0 (begin now ctrl node.name) node s1 in
            Remembers cfg now now node.name ctrl.queue r.0 r.2 × SameElsewhere node.name r.0 ctrl
      fresh s1 =
          let (kept, same) =
            attempt_drain-Remembers now 0 (begin now ctrl node.name) s1 (omega arith)
              (begin-started ctrl.ongoing node.name) in
          (kept, λ j ne. same j ne ∙ begin-SameElsewhere ctrl j ne)

      by_cordon :
          (c : api.State × Bool)
          → let r : Controller × api.State × Bool =
              if c.1
              then attempt_drain api cfg 0 (begin now ctrl node.name) node c.0
              else (ctrl, c.0, false) in
            if c.1
            then Remembers cfg now now node.name ctrl.queue r.0 r.2
              × SameElsewhere node.name r.0 ctrl
            else (r.0 ≡ ctrl) × (r.2 ≡ false)
      by_cordon (s1, true) = fresh s1
      by_cordon (s1, false) = (refl, refl)
