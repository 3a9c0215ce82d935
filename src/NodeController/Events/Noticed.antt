-- ===== src/NodeController/Events/Noticed.antt =====
-- Which changes of a node reach its pools.
use openshift_machine_config.Common.{
  ◌≡◌, ◌≢◌, refl, ap, String, ◌==◌, ==_iff, Bool, true, false, not, Option, none, some, is_some,
  List, [], ◌∷◌, ◌++◌, arith, if◌then◌else◌, any, bool_eq, Bool-cases, inl, inr,
}
use openshift_machine_config.Common.StringMap.{get, value}
use openshift_machine_config.Kube.{Node, Pool}
use openshift_machine_config.NodeController.Pools.{
  Selector, Pools, pools, failed, get_pools_for_node,
}
use openshift_machine_config.NodeController.Masters.{is_master}
use openshift_machine_config.NodeController.Events.{
  Equality, annos, is_node_managed, has_node_annotation_changed, has_changed, with_old_pool,
  update_node,
}

-- The text is among the ones listed.
abbrev pub lists : List String → String → Bool
lists ks k = any (λ j. j == k) ks

any_listed :
    (p : String → Bool) (ks : List String) (k : String)
    → lists ks k ≡ true
    → p k ≡ true
    → any p ks ≡ true
any_listed p [] k h g = absurd (cc h)
any_listed p (j ∷ ks) k h g = elim (Bool-cases (j == k)) [
  | inl e ↦ rw ((==_iff j k).0 e, g) refl
  | inr e ↦ ground (arith, e, h, any_listed p ks k)
]

-- A test of annotations by key is that of the values they have.
annotation_changed :
    (old cur : Node) (k : String)
    → get old.annotations k ≢ get cur.annotations k
    → has_node_annotation_changed old cur k ≡ true
unfolding has_node_annotation_changed
annotation_changed old cur k h = go (get old.annotations k) (get cur.annotations k) h
  where
    go :
        (o c : Option String)
        → o ≢ c
        → (if not (bool_eq (is_some o) (is_some c)) then true else not (value o == value c)) ≡ true
    go none none g = absurd (g refl)
    go none (some c) g = refl
    go (some o) none g = refl
    go (some o) (some c) g = elim (Bool-cases (o == c)) [
      | inl e ↦ absurd (g (ap some ((==_iff o c).0 e)))
      | inr e ↦ rw e refl
    ]

changed_by_annotation :
    (eq : Equality) (old cur : Node) (k : String)
    → lists annos k ≡ true
    → get old.annotations k ≢ get cur.annotations k
    → has_changed eq old cur ≡ true
unfolding has_changed
changed_by_annotation eq old cur k h g =
    let some_changed : any (λ j. has_node_annotation_changed old cur j) annos ≡ true =
      any_listed (λ j. has_node_annotation_changed old cur j) annos k h
        (annotation_changed old cur k g) in
    ground (arith, some_changed)

-- The node had no pool.
abbrev pub has_no_pool : Pools → Bool
has_no_pool (failed e) = false
has_no_pool (pools []) = true
has_no_pool (pools (none ∷ ps)) = true
has_no_pool (pools (some p ∷ ps)) = false

with_old_pool-panics :
    (reconciles : Bool) (p : Pool) (old : Pools) (changed : Bool) (now : List (Option Pool))
    → (with_old_pool reconciles p old changed (pools now)).panics ≡ has_no_pool old
with_old_pool-panics reconciles p (failed e) changed now = ground arith
with_old_pool-panics reconciles p (pools []) changed now = refl
with_old_pool-panics reconciles p (pools (none ∷ ps)) changed now = refl
with_old_pool-panics reconciles p (pools (some q ∷ ps)) changed now = ground arith

module _ (selector : Pool → Option Selector) (listed : Option (List Pool)) where
  -- Where an annotation that the controller watches has changed on a managed node, in its value or in
  -- whether it is there, all pools of the node are enqueued, and before them the pool that it belonged
  -- to where that has another name; the node has a pool before and after, and there is no panic.
  pub update_node-notices :
      (eq : Equality) (old cur : Node) (p q : Pool) (ps qs : List (Option Pool)) (k : String)
      → is_node_managed cur ≡ true
      → get_pools_for_node selector listed cur ≡ pools (some p ∷ ps)
      → get_pools_for_node selector listed old ≡ pools (some q ∷ qs)
      → lists annos k ≡ true
      → get old.annotations k ≢ get cur.annotations k
      → update_node selector listed eq old cur ≡ record {
        reconciles = is_master cur;
        enqueues = (if q.name == p.name then [] else some q ∷ []) ++ some p ∷ ps;
        panics = false;
      }
  unfolding update_node
  update_node-notices eq old cur p q ps qs k m now before watched differs =
      rw (m, now, before, changed_by_annotation eq old cur k watched differs) (ground arith)

  -- An update of a managed node that has a pool panics exactly where the node had no pool before.
  pub update_node_panics :
      (eq : Equality) (old cur : Node) (p : Pool) (ps : List (Option Pool))
      → is_node_managed cur ≡ true
      → get_pools_for_node selector listed cur ≡ pools (some p ∷ ps)
      → (update_node selector listed eq old cur).panics
        ≡ has_no_pool (get_pools_for_node selector listed old)
  unfolding update_node
  update_node_panics eq old cur p ps m now =
      rw (m, now)
        (with_old_pool-panics (is_master cur) p (get_pools_for_node selector listed old)
          (has_changed eq old cur) (some p ∷ ps))
