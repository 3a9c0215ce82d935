-- ===== src/Common/Texts.antt =====
-- Texts split and searched as the strings package of Go does it.
use Prim.Native.Char.{code}
use Prim.Native.Nat.{ℕ}
use Prim.Native.String.{String, ◌++◌ as append}
use mathlib.Core.Bool.{Bool, true}
use mathlib.Core.List.{List, [], ◌∷◌}
use text.Mathlib.Text.{starts_with}
use openshift_machine_config.Common.Tests.{◌==◌, if◌then◌else◌, nat_eq}

-- strings.Split on a text of one character; there is always a first part.
split_first : ℕ → String → String × List String
split_first d String.[] = (String.[], [])
split_first d (String.◌∷◌ c s) =
    let (part, rest) = split_first d s in
    if nat_eq (code c) d then (String.[], part ∷ rest) else (String.◌∷◌ c part, rest)

unfoldable pub split_on : ℕ → String → List String
unfolding split_first
split_on d s = let (part, rest) = split_first d s in part ∷ rest

-- strings.Join
unfoldable pub join_with : String → List String → String
join_with sep [] = ""
join_with sep (s ∷ []) = s
join_with sep (s ∷ t ∷ l) = append s (append sep (join_with sep (t ∷ l)))

-- The last part, and the parts before it.
unfoldable pub last_part : List String → String
last_part [] = ""
last_part (s ∷ []) = s
last_part (s ∷ t ∷ l) = last_part (t ∷ l)

unfoldable pub but_last : List String → List String
but_last [] = []
but_last (s ∷ []) = []
but_last (s ∷ t ∷ l) = s ∷ but_last (t ∷ l)

-- strings.HasSuffix
unfoldable pub ends_with : String → String → Bool
ends_with String.[] t = String.[] == t
ends_with (String.◌∷◌ c s) t =
    let rest = ends_with s t in if String.◌∷◌ c s == t then true else rest

-- strings.Contains
unfoldable pub contains_text : String → String → Bool
contains_text String.[] t = String.[] == t
contains_text (String.◌∷◌ c s) t =
    let rest = contains_text s t in if starts_with (String.◌∷◌ c s) t then true else rest
