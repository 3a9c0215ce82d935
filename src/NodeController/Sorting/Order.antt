-- ===== src/NodeController/Sorting/Order.antt =====
-- The comparison of sortNodeList is a strict weak order.
use Prim.Native.Char.{code}
use text.Mathlib.TextEquality.{Char-path}
use mathlib.Core.Path.{ap₂}
use openshift_machine_config.Common.{
  ℕ, ◌≡◌, refl, String, ◌==◌, ==_iff, true, false, ◌||◌, Option, none, some, arith,
}
use openshift_machine_config.Common.StringMap.{get}
use openshift_machine_config.Kube.{Node}
use openshift_machine_config.NodeController.Sorting.{text_lt, zone_less, node_less}

text_lt_irrefl : (s : String) → text_lt s s ≡ false
unfolding text_lt
text_lt_irrefl String.[] = refl
text_lt_irrefl (String.◌∷◌ c s) = ground (arith, text_lt_irrefl s)

text_lt_trans : (s t u : String) → text_lt s t ≡ true → text_lt t u ≡ true → text_lt s u ≡ true
unfolding text_lt
text_lt_trans String.[] String.[] u h k = cc
text_lt_trans String.[] (String.◌∷◌ d t) String.[] h k = cc
text_lt_trans String.[] (String.◌∷◌ d t) (String.◌∷◌ e u) h k = refl
text_lt_trans (String.◌∷◌ c s) String.[] u h k = cc
text_lt_trans (String.◌∷◌ c s) (String.◌∷◌ d t) String.[] h k = cc
text_lt_trans (String.◌∷◌ c s) (String.◌∷◌ d t) (String.◌∷◌ e u) h k =
    ground (arith, text_lt_trans s t u)

-- Between two texts the order holds one way, or they are one text.
text_lt_total : (s t : String) → text_lt s t ≡ false → text_lt t s ≡ false → (s == t) ≡ true
unfolding text_lt
text_lt_total String.[] String.[] h k = refl
text_lt_total String.[] (String.◌∷◌ d t) h k = cc
text_lt_total (String.◌∷◌ c s) String.[] h k = cc
text_lt_total (String.◌∷◌ c s) (String.◌∷◌ d t) h k =
    let e : code c ≡ code d = ground arith in
    let same : s ≡ t = (==_iff s t).0 (text_lt_total s t (ground arith) (ground arith)) in
    (==_iff (String.◌∷◌ c s) (String.◌∷◌ d t)).1 (ap₂ String.◌∷◌ (Char-path c d e) same)

zone_less_irrefl : (x : Option String) (s : ℕ) → zone_less x x s s ≡ false
unfolding zone_less
zone_less_irrefl none s = ground arith
zone_less_irrefl (some x) s = ground (arith, text_lt_irrefl x)

zone_less_trans :
    (x y z : Option String) (s t u : ℕ)
    → zone_less x y s t ≡ true
    → zone_less y z t u ≡ true
    → zone_less x z s u ≡ true
unfolding zone_less
zone_less_trans none none none s t u h k = ground arith
zone_less_trans none none (some z) s t u h k = cc
zone_less_trans none (some y) z s t u h k = cc
zone_less_trans (some x) none none s t u h k = ground arith
zone_less_trans (some x) none (some z) s t u h k = ground arith
zone_less_trans (some x) (some y) none s t u h k = ground arith
zone_less_trans (some x) (some y) (some z) s t u h k =
    ground (arith, text_lt_trans x y z, ==_iff x y, ==_iff y z, ==_iff x z, text_lt_irrefl x)

-- An order that holds between two zones holds on one side of any third.
zone_less_split :
    (x y z : Option String) (s t u : ℕ)
    → zone_less x z s u ≡ true
    → (zone_less x y s t || zone_less y z t u) ≡ true
unfolding zone_less
zone_less_split none none none s t u h = ground arith
zone_less_split none (some y) none s t u h = ground arith
zone_less_split none y (some z) s t u h = cc
zone_less_split (some x) none none s t u h = ground arith
zone_less_split (some x) (some y) none s t u h = ground arith
zone_less_split (some x) none (some z) s t u h = ground arith
zone_less_split (some x) (some y) (some z) s t u h = ground (
  arith,
  ==_iff x y,
  ==_iff y z,
  ==_iff x z,
  text_lt_total x y,
  text_lt_total y z,
  text_lt_trans y x z,
  text_lt_trans x z y,
  text_lt_irrefl x,
)

-- The comparison of sortNodeList is what sort.Slice needs, a strict weak order: no node is before
-- itself, it is transitive, and where one node is before another, any third is after the one or
-- before the other.
pub node_less-weak_order :
    ((a : Node) → node_less a a ≡ false)
    × ((a b c : Node) → node_less a b ≡ true → node_less b c ≡ true → node_less a c ≡ true)
    × ((a b c : Node) → node_less a c ≡ true → (node_less a b || node_less b c) ≡ true)
unfolding node_less
node_less-weak_order =
    let zone = λ (n : Node). get n.labels "topology.kubernetes.io/zone" in
    (
      λ a. zone_less_irrefl (zone a) a.creation_timestamp,
      λ a b c.
          zone_less_trans (zone a) (zone b) (zone c) a.creation_timestamp b.creation_timestamp
            c.creation_timestamp,
      λ a b c.
          zone_less_split (zone a) (zone b) (zone c) a.creation_timestamp b.creation_timestamp
            c.creation_timestamp,
    )
