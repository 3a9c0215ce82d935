-- ===== src/NodeController/Sorting.antt =====
-- The order in which pkg/controller/node/node_controller.go rolls out: sortNodeList sorts by it with
-- sort.Slice, which needs a strict weak order.
pub mod Order
use Prim.Native.Char.{code}
use openshift_machine_config.Common.{
  ℕ, String, ◌==◌, Bool, true, false, Option, none, some, ltb, nat_eq, if◌then◌else◌,
}
use openshift_machine_config.Common.StringMap.{get}
use openshift_machine_config.Kube.{Node}

-- `s < t` on texts. Go compares bytes, and UTF-8 keeps the order of the code points.
unfoldable pub text_lt : String → String → Bool
text_lt String.[] String.[] = false
text_lt String.[] (String.◌∷◌ d t) = true
text_lt (String.◌∷◌ c s) String.[] = false
text_lt (String.◌∷◌ c s) (String.◌∷◌ d t) =
    if ltb (code c) (code d) then true else if nat_eq (code c) (code d) then text_lt s t else false

-- The comparison, over the zones and the creation times of the two nodes.
unfoldable pub zone_less : Option String → Option String → ℕ → ℕ → Bool
zone_less (some x) (some y) s t = if x == y then ltb s t else text_lt x y
zone_less none (some y) s t = false
zone_less none none s t = ltb s t
zone_less (some x) none s t = true

unfoldable pub node_less : Node → Node → Bool
node_less a b =
    zone_less (get a.labels "topology.kubernetes.io/zone")
      (get b.labels "topology.kubernetes.io/zone") a.creation_timestamp b.creation_timestamp
