-- ===== src/Daemon/Kargs/Split.antt =====
-- The rounds that suffice to split kernel arguments, and the texts that are split as they were joined.
use Prim.Native.Char.{Char}
use openshift_machine_config.Common.{
  ℕ, zero, suc, ◌≤◌, ◌≡◌, refl, sym, ap, ◌∙◌, String, ◌==◌, Bool, true, false, ◌&&◌, not, Option,
  none, some, List, [], ◌∷◌, map, Bool-cases, inl, inr, if◌then◌else◌, arith,
}
use openshift_machine_config.Daemon.Kargs.{
  is_space, quoted, skip_spaces, take_arg, next_arg, add_arg, and_arg, split_rounds, size,
  split_kernel_arguments,
}

size-take_arg : (q : Bool) (s : String) → size (take_arg q s).1 ≤ size s
unfolding size take_arg
size-take_arg q String.[] = omega arith
size-take_arg q (String.◌∷◌ c s) = ground (arith, size-take_arg (quoted q c) s)

size-skip_spaces : (s : String) → size (skip_spaces s) ≤ size s
unfolding size skip_spaces
size-skip_spaces String.[] = omega arith
size-skip_spaces (String.◌∷◌ c s) = ground (arith, size-skip_spaces s)

size-next_arg : (c : Char) (s : String) → size (next_arg (String.◌∷◌ c s)).1 ≤ size s
unfolding size next_arg skip_spaces take_arg
size-next_arg c s = go (is_space c) refl
  where
    go :
        (b : Bool)
        → is_space c ≡ b
        → size (take_arg false (if b then skip_spaces s else String.◌∷◌ c s)).1 ≤ size s
    go true e = ground (arith, size-take_arg false (skip_spaces s), size-skip_spaces s)
    go false e = ground (arith, e, size-take_arg (quoted false c) s)

-- What every sufficient number of rounds gives.
rounds_end :
    (n m : ℕ) (s : String)
    → size s ≤ n
    → size s ≤ m
    → (l : List String) × (split_rounds n s ≡ some l) × (split_rounds m s ≡ some l)
unfolding split_rounds size
rounds_end n m String.[] h k = ([], refl, refl)
rounds_end zero m (String.◌∷◌ c s) h k = absurd (omega arith)
rounds_end (suc n) zero (String.◌∷◌ c s) h k = absurd (omega arith)
rounds_end (suc n) (suc m) (String.◌∷◌ c s) h k =
    let (arg, rest) = next_arg (String.◌∷◌ c s) in
    let shorter = size-next_arg c s in
    let (l, x, y) = rounds_end n m rest (omega arith) (omega arith) in
    (add_arg arg l, ap (and_arg arg) x, ap (and_arg arg) y)

-- Where as many rounds are allowed as the text has characters, or more, the loop that splits kernel
-- arguments comes to the end of the text, and its arguments are those of splitKernelArguments.
pub split_rounds_enough :
    (n : ℕ) (s : String) → size s ≤ n → split_rounds n s ≡ some (split_kernel_arguments s)
unfolding split_kernel_arguments
split_rounds_enough n s h =
    let (l, x, y) = rounds_end n (size s) s h (omega arith) in
    x ∙ ap (λ (o : Option (List String)). some (elim o [ none ↦ [] | some k ↦ k ])) (sym y)

-- `s`, then `t`.
abbrev pub glue : String → String → String
glue String.[] t = t
glue (String.◌∷◌ c s) t = String.◌∷◌ c (glue s t)

-- Read from a position inside or outside of quotes, the text has no space outside of them and ends
-- outside of them.
abbrev pub is_quoted_well : Bool → String → Bool
is_quoted_well in_quote String.[] = not in_quote
is_quoted_well in_quote (String.◌∷◌ c s) =
    not (is_space c && not in_quote) && is_quoted_well (quoted in_quote c) s

-- One argument: not empty, and quoted well.
abbrev pub is_arg : String → Bool
is_arg String.[] = false
is_arg (String.◌∷◌ c s) = is_quoted_well false (String.◌∷◌ c s)

abbrev pub is_blank : String → Bool
is_blank String.[] = true
is_blank (String.◌∷◌ c s) = is_space c && is_blank s

-- A text that does not go on with an argument.
abbrev pub is_apart : String → Bool
is_apart String.[] = true
is_apart (String.◌∷◌ c s) = is_space c

-- The arguments, each after the text that separates it from the one before, and then `last`.
abbrev pub join_args : List (String × String) → String → String
join_args [] last = last
join_args ((gap, arg) ∷ args) last = glue gap (glue arg (join_args args last))

-- What separates the arguments is spaces, and there is at least one of them.
abbrev pub are_separated : List (String × String) → Bool
are_separated [] = true
are_separated ((gap, arg) ∷ args) =
    is_blank gap && not (gap == "") && is_arg arg && are_separated args

-- Before the first argument there may be spaces.
abbrev pub is_line : List (String × String) → Bool
is_line [] = true
is_line ((gap, arg) ∷ args) = is_blank gap && is_arg arg && are_separated args

take_arg-glue :
    (q : Bool) (a t : String)
    → is_quoted_well q a ≡ true
    → is_apart t ≡ true
    → take_arg q (glue a t) ≡ (a, t)
unfolding take_arg
take_arg-glue q String.[] String.[] h g = refl
take_arg-glue q String.[] (String.◌∷◌ c t) h g = ground (arith, g)
take_arg-glue q (String.◌∷◌ c s) t h g =
    let ih = take_arg-glue (quoted q c) s t (ground arith) g in
    elim (Bool-cases (is_space c && not q)) [ inl e ↦ ground (arith, e) | inr e ↦ rw (e, ih) refl ]

skip_spaces-blank :
    (gap t : String) → is_blank gap ≡ true → skip_spaces (glue gap t) ≡ skip_spaces t
unfolding skip_spaces
skip_spaces-blank String.[] t h = refl
skip_spaces-blank (String.◌∷◌ c gap) t h =
    let ih = skip_spaces-blank gap t (ground arith) in
    elim (Bool-cases (is_space c)) [ inl e ↦ rw (e, ih) refl | inr e ↦ ground (arith, e) ]

next_arg-glue :
    (gap a t : String)
    → is_blank gap ≡ true
    → is_arg a ≡ true
    → is_apart t ≡ true
    → next_arg (glue gap (glue a t)) ≡ (a, t)
unfolding next_arg skip_spaces
next_arg-glue gap String.[] t b h g = cc
next_arg-glue gap (String.◌∷◌ c s) t b h g = elim (Bool-cases (is_space c)) [
  | inl e ↦ ground (arith, e)
  | inr e ↦
      rw (skip_spaces-blank gap (String.◌∷◌ c (glue s t)) b, e)
        (take_arg-glue false (String.◌∷◌ c s) t h g)
]

add_arg-is_arg : (a : String) (l : List String) → is_arg a ≡ true → add_arg a l ≡ a ∷ l
add_arg-is_arg String.[] l h = cc
add_arg-is_arg (String.◌∷◌ c s) l h = refl

some_injective : {A : Type 0} {x y : A} → some x ≡ some y → x ≡ y
some_injective {A} {x} e = ap (λ (o : Option A). elim o [ none ↦ x | some z ↦ z ]) e

split-nothing : split_kernel_arguments "" ≡ []
unfolding split_kernel_arguments split_rounds size
split-nothing = refl

-- One round.
split_step :
    (c : Char) (s a t : String)
    → next_arg (String.◌∷◌ c s) ≡ (a, t)
    → split_kernel_arguments (String.◌∷◌ c s) ≡ add_arg a (split_kernel_arguments t)
unfolding split_rounds size
split_step c s a t e =
    let (arg, rest) = next_arg (String.◌∷◌ c s) in
    some_injective (
      sym (split_rounds_enough (suc (size s)) (String.◌∷◌ c s) (omega arith))
      ∙ ap (and_arg arg) (split_rounds_enough (size s) rest (size-next_arg c s)))
    ∙ ap (λ (p : String × String). add_arg p.0 (split_kernel_arguments p.1)) e

split_first :
    (gap a t : String)
    → is_blank gap ≡ true
    → is_arg a ≡ true
    → is_apart t ≡ true
    → split_kernel_arguments (glue gap (glue a t)) ≡ a ∷ split_kernel_arguments t
split_first gap String.[] t b h g = cc
split_first String.[] (String.◌∷◌ c s) t b h g =
    split_step c (glue s t) (String.◌∷◌ c s) t (next_arg-glue "" (String.◌∷◌ c s) t b h g)
split_first (String.◌∷◌ d gap) (String.◌∷◌ c s) t b h g =
    split_step d (glue gap (String.◌∷◌ c (glue s t))) (String.◌∷◌ c s) t
      (next_arg-glue (String.◌∷◌ d gap) (String.◌∷◌ c s) t b h g)

skip_spaces-all : (s : String) → is_blank s ≡ true → skip_spaces s ≡ ""
unfolding skip_spaces
skip_spaces-all String.[] h = refl
skip_spaces-all (String.◌∷◌ c s) h = ground (arith, skip_spaces-all s)

split-blank : (s : String) → is_blank s ≡ true → split_kernel_arguments s ≡ []
unfolding next_arg take_arg
split-blank String.[] h = split-nothing
split-blank (String.◌∷◌ c s) h =
    split_step c s "" "" (ap (take_arg false) (skip_spaces-all (String.◌∷◌ c s) h)) ∙ split-nothing

apart_glue :
    (gap t : String) → is_blank gap ≡ true → not (gap == "") ≡ true → is_apart (glue gap t) ≡ true
apart_glue String.[] t b h = ground (arith, h)
apart_glue (String.◌∷◌ c gap) t b h = ground (arith, b)

apart_join :
    (args : List (String × String)) (last : String)
    → are_separated args ≡ true
    → is_blank last ≡ true
    → is_apart (join_args args last) ≡ true
apart_join [] String.[] h b = refl
apart_join [] (String.◌∷◌ c s) h b = ground (arith, b)
apart_join ((gap, a) ∷ args) last h b =
    apart_glue gap (glue a (join_args args last)) (ground (arith, h)) (ground (arith, h))

split-separated :
    (args : List (String × String)) (last : String)
    → are_separated args ≡ true
    → is_blank last ≡ true
    → split_kernel_arguments (join_args args last) ≡ map (λ (p : String × String). p.1) args
split-separated [] last h b = split-blank last b
split-separated ((gap, a) ∷ args) last h b =
    split_first gap a (join_args args last) (ground (arith, h)) (ground (arith, h))
      (apart_join args last (ground (arith, h)) b)
    ∙ ap (λ l. a ∷ l) (split-separated args last (ground (arith, h)) b)

-- A line of kernel arguments is split into these arguments, whatever spaces stand before the first
-- one, one or more of them between two, and after the last one; each argument is not empty, has spaces
-- only in quotes, and closes its quotes.
pub split-join_args :
    (args : List (String × String)) (last : String)
    → is_line args ≡ true
    → is_blank last ≡ true
    → split_kernel_arguments (join_args args last) ≡ map (λ (p : String × String). p.1) args
split-join_args [] last h b = split-blank last b
split-join_args ((gap, a) ∷ args) last h b =
    split_first gap a (join_args args last) (ground (arith, h)) (ground (arith, h))
      (apart_join args last (ground (arith, h)) b)
    ∙ ap (λ l. a ∷ l) (split-separated args last (ground (arith, h)) b)
