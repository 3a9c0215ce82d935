-- ===== src/Daemon/Kargs.antt =====
-- pkg/daemon/update.go: kernel arguments, split as the kernel splits its command line, and the arguments
-- for rpm-ostree that replace the old ones by the new ones. A pair of indexes is the text before the
-- second one and the text after it.
pub mod Split
use Prim.Native.Char.{Char, code}
use Prim.Native.String.{◌++◌ as append}
use openshift_machine_config.Common.{
  ℕ, zero, suc, ◌+◌, String, Bool, true, false, ◌&&◌, ◌||◌, not, Option, none, some, List, [], ◌∷◌,
  ◌++◌, map, nat_eq, if◌then◌else◌,
}

unfoldable pub is_space : Char → Bool
is_space b =
    nat_eq (code b) 32
    || nat_eq (code b) 12
    || nat_eq (code b) 10
    || nat_eq (code b) 13
    || nat_eq (code b) 9
    || nat_eq (code b) 11

-- The state of `inQuote` after a character.
abbrev pub quoted : Bool → Char → Bool
quoted in_quote c = if nat_eq (code c) 34 then not in_quote else in_quote

unfoldable pub skip_spaces : String → String
skip_spaces String.[] = String.[]
skip_spaces (String.◌∷◌ c s) =
    let rest = skip_spaces s in if is_space c then rest else String.◌∷◌ c s

-- The second loop of nextArg, from its start.
unfoldable pub take_arg : Bool → String → String × String
take_arg in_quote String.[] = (String.[], String.[])
take_arg in_quote (String.◌∷◌ c s) =
    let (arg, rest) = take_arg (quoted in_quote c) s in
    if is_space c && not in_quote then (String.[], String.◌∷◌ c s) else (String.◌∷◌ c arg, rest)

unfoldable pub next_arg : String → String × String
next_arg s = take_arg false (skip_spaces s)

abbrev pub add_arg : String → List String → List String
add_arg String.[] l = l
add_arg (String.◌∷◌ c s) l = String.◌∷◌ c s ∷ l

abbrev pub and_arg : String → Option (List String) → Option (List String)
and_arg arg none = none
and_arg arg (some l) = some (add_arg arg l)

-- The loop of splitKernelArguments, with the number of rounds that it may take; none where it has not
-- come to the end of the text after them.
unfoldable pub split_rounds : ℕ → String → Option (List String)
split_rounds n String.[] = some []
split_rounds zero (String.◌∷◌ c s) = none
split_rounds (suc n) (String.◌∷◌ c s) =
    let (arg, rest) = next_arg (String.◌∷◌ c s) in and_arg arg (split_rounds n rest)

unfoldable pub size : String → ℕ
size String.[] = 0
size (String.◌∷◌ c s) = size s + 1

-- As many rounds as the text has characters; nil where these were too few.
unfoldable pub split_kernel_arguments : String → List String
split_kernel_arguments args = elim (split_rounds (size args) args) [ none ↦ [] | some l ↦ l ]

-- `trim` is strings.TrimSpace.
unfoldable pub parse_kernel_arguments : (String → String) → List String → List String
parse_kernel_arguments trim [] = []
parse_kernel_arguments trim (k ∷ kargs) =
    map trim (split_kernel_arguments k) ++ parse_kernel_arguments trim kargs

unfoldable pub generate_kargs : (String → String) → List String → List String → List String
generate_kargs trim old new =
    map (λ arg. append "--delete=" arg) (parse_kernel_arguments trim old)
    ++ map (λ arg. append "--append=" arg) (parse_kernel_arguments trim new)
