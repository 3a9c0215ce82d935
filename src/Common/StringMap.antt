-- ===== src/Common/StringMap.antt =====
-- Go's `map[string]string`, as Kubernetes objects use it for labels and annotations. `none` is the
-- nil map. The order of iteration is never used, so an association list stands for the table.
use mathlib.Core.Path.{◌≡◌}
use mathlib.Core.Bool.{Bool, true, false}
use mathlib.Core.Option.{Option, none, some}
use mathlib.Core.List.{List, [], ◌∷◌}
use Prim.Native.String.{String}
use native.Mathlib.Omega.{arith}
use openshift_machine_config.Common.Tests.{◌==◌, if◌then◌else◌, ==_iff}

abbrev pub StringMap : Type 0
StringMap = Option (List (String × String))

unfoldable pub find : String → List (String × String) → Option String
find k [] = none
find k ((j, v) ∷ m) = if j == k then some v else find k m

unfoldable pub without : String → List (String × String) → List (String × String)
without k [] = []
without k ((j, v) ∷ m) = let rest = without k m in if j == k then rest else (j, v) ∷ rest

-- `v, ok := m[k]`; reading a nil map finds nothing.
unfoldable pub get : StringMap → String → Option String
unfolding find
get none k = none
get (some m) k = find k m

-- `m[k]`, the empty text on a missing key.
abbrev pub value : Option String → String
value none = ""
value (some v) = v

unfoldable pub get_str : StringMap → String → String
unfolding get
get_str m k = value (get m k)

abbrev pub is_nil : StringMap → Bool
is_nil none = true
is_nil (some m) = false

-- `if m == nil { m = map[string]string{} }`
abbrev pub entries : StringMap → List (String × String)
entries none = []
entries (some m) = m

-- `m[k] = v` on a map that has been made.
unfoldable pub put : StringMap → String → String → StringMap
unfolding without
put m k v = some ((k, v) ∷ without k (entries m))

-- `delete(m, k)`; it does nothing to a nil map.
unfoldable pub remove : StringMap → String → StringMap
unfolding without
remove none k = none
remove (some m) k = some (without k m)

find-without :
    (k j : String) (m : List (String × String))
    → find j (without k m) ≡ (if k == j then none else find j m)
unfolding find without
find-without k j [] = ground arith
find-without k j ((i, v) ∷ m) =
    ground (arith, find-without k j m, ==_iff i k, ==_iff i j, ==_iff k j)

pub get-put :
    (m : StringMap) (k v j : String) → get (put m k v) j ≡ (if k == j then some v else get m j)
unfolding get put find
get-put none k v j = ground (arith, find-without k j [])
get-put (some m) k v j = ground (arith, find-without k j m)

pub get-remove :
    (m : StringMap) (k j : String) → get (remove m k) j ≡ (if k == j then none else get m j)
unfolding get remove
get-remove none k j = ground arith
get-remove (some m) k j = find-without k j m

pub get_str-put :
    (m : StringMap) (k v j : String) → get_str (put m k v) j ≡ (if k == j then v else get_str m j)
unfolding get_str
get_str-put m k v j = ground (arith, get-put m k v j)
