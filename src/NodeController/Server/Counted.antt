-- ===== src/NodeController/Server/Counted.antt =====
-- How many nodes satisfy a test, after the calls that write single nodes.
use openshift_machine_config.Common.{
  ℕ, ◌≡◌, refl, sym, ap, ◌∙◌, ◌≤◌, ◌+◌, String, ◌==◌, ==_iff, Bool, true, false, Option, none, some,
  List, [], ◌∷◌, arith, if◌then◌else◌, select, any, length, inl, inr, Bool-cases,
}
use openshift_machine_config.Kube.{Node}
use openshift_machine_config.NodeController.Candidates.Rollout.{named, UniqueNames}
use openshift_machine_config.NodeController.Server.{
  find_node, write_node, Written, written, failed, panicked, nodes_of, and_then, logged,
  update_node_retry,
}
use mathlib.Core.Path.{subst}

abbrev pub bit : Bool → ℕ
bit b = if b then 1 else 0

write_node-absent :
    (n : Node) (nodes : List Node) → any (named n.name) nodes ≡ false → write_node n nodes ≡ nodes
unfolding write_node
write_node-absent n [] h = refl
write_node-absent n (m ∷ nodes) h = ground (arith, write_node-absent n nodes)

any-write_node :
    (s : String) (n : Node) (nodes : List Node)
    → any (named s) (write_node n nodes) ≡ any (named s) nodes
unfolding write_node
any-write_node s n [] = refl
any-write_node s n (m ∷ nodes) = ground (arith, any-write_node s n nodes, ==_iff m.name n.name)

UniqueNames-write_node :
    (n : Node) (nodes : List Node) → UniqueNames nodes → UniqueNames (write_node n nodes)
unfolding write_node
UniqueNames-write_node n [] u = tt
UniqueNames-write_node n (m ∷ nodes) u = ground (
  arith,
  UniqueNames-write_node n nodes u.1,
  any-write_node n.name n nodes,
  any-write_node m.name n nodes,
  ==_iff m.name n.name,
)

found_first :
    (s : String) (nodes : List Node) (m a : Node)
    → (a.name == s) ≡ true
    → find_node s (a ∷ nodes) ≡ some m
    → m ≡ a
unfolding find_node
found_first s nodes m a h e = ground (arith, h, e)

-- A node that is written takes the place of the one that was found.
count-write_node :
    (p : Node → Bool) (n m : Node) (nodes : List Node)
    → UniqueNames nodes
    → find_node n.name nodes ≡ some m
    → length (select p (write_node n nodes)) + bit (p m) ≡ length (select p nodes) + bit (p n)
unfolding write_node find_node
count-write_node p n m [] u e = absurd (cc e)
count-write_node p n m (a ∷ nodes) u e = elim (Bool-cases (a.name == n.name)) [
  | inl h ↦
      let same : a.name ≡ n.name = (==_iff a.name n.name).0 h in
      ground (
        arith,
        h,
        write_node-absent n nodes (subst (λ s. any (named s) nodes ≡ false) same u.0),
        ap p (found_first n.name nodes m a h e),
      )
  | inr h ↦ ground (arith, h, count-write_node p n m nodes u.1)
]

found_name : (s : String) (m : Node) (nodes : List Node) → find_node s nodes ≡ some m → m.name ≡ s
unfolding find_node
found_name s m [] e = absurd (cc e)
found_name s m (a ∷ nodes) e = elim (Bool-cases (a.name == s)) [
  | inl h ↦ ap (λ (n : Node). n.name) (found_first s nodes m a h e) ∙ (==_iff a.name s).0 h
  | inr h ↦ found_name s m nodes (ground (arith, h, e))
]

-- Node names are distinct, and at most `k` nodes satisfy the test.
abbrev pub Fits : (Node → Bool) → ℕ → List Node → Type 0
Fits p k nodes = UniqueNames nodes × (length (select p nodes) ≤ k)

pub Fits-write_node :
    (p : Node → Bool) (k j : ℕ) (n m : Node) (nodes : List Node)
    → find_node m.name nodes ≡ some m
    → n.name ≡ m.name
    → k + bit (p n) ≤ j + bit (p m)
    → Fits p k nodes
    → Fits p j (write_node n nodes)
Fits-write_node p k j n m nodes e same le (u, c) = (
  UniqueNames-write_node n nodes u,
  ground (
    arith,
    le,
    c,
    count-write_node p n m nodes u (subst (λ s. find_node s nodes ≡ some m) (sym same) e),
  ),
)

pub found_again :
    (s : String) (m : Node) (nodes : List Node)
    → find_node s nodes ≡ some m
    → find_node m.name nodes ≡ some m
found_again s m nodes e = subst (λ t. find_node t nodes ≡ some m) (sym (found_name s m nodes e)) e

-- A change that keeps the name and the test.
abbrev pub Keeps : (Node → Bool) → (Node → Node) → Type 0
Keeps p f = (n : Node) → ((f n).name ≡ n.name) × (p (f n) ≡ p n)

pub Fits-update_node_retry :
    (p : Node → Bool) (k : ℕ) (f : Node → Node) (reads patches : Bool) (s : String)
    (nodes : List Node)
    → Keeps p f
    → Fits p k nodes
    → Fits p k (nodes_of (update_node_retry reads patches (find_node s nodes) f nodes))
Fits-update_node_retry p k f reads patches s nodes keeps h =
    go reads patches (find_node s nodes) refl
  where
    go :
        (r w : Bool) (o : Option Node)
        → find_node s nodes ≡ o
        → Fits p k (nodes_of (update_node_retry r w o f nodes))
    go r w none e = h
    go false w (some m) e = h
    go true false (some m) e = h
    go true true (some m) e =
        Fits-write_node p k k (f m) m nodes (found_again s m nodes e) (keeps m).0
          (ground (arith, (keeps m).1)) h

pub Fits-and_then :
    (p : Node → Bool) (k j : ℕ) (w : Written) (f : List Node → Written)
    → k ≤ j
    → Fits p k (nodes_of w)
    → ((nodes : List Node) → Fits p k nodes → Fits p j (nodes_of (f nodes)))
    → Fits p j (nodes_of (and_then w f))
Fits-and_then p k j (written nodes) f le h g = g nodes h
Fits-and_then p k j (failed nodes) f le h g = (h.0, ground (arith, le, h.1))
Fits-and_then p k j (panicked nodes) f le h g = (h.0, ground (arith, le, h.1))

pub logged_nodes : (w : Written) → nodes_of (logged w) ≡ nodes_of w
logged_nodes (written nodes) = refl
logged_nodes (failed nodes) = refl
logged_nodes (panicked nodes) = refl
