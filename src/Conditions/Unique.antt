-- ===== src/Conditions/Unique.antt =====
-- Where each type stands at most once, the first match, which IsMachineConfigPoolConditionTrue
-- reads, is the last match, which GetMachineConfigPoolCondition returns.
use openshift_machine_config.Common.{
  ◌≡◌, refl, String, ◌==◌, ==_iff, Bool, true, false, Option, none, some, List, [], ◌∷◌, ◌++◌,
  arith, if◌then◌else◌, any, Bool-cases, inl, inr,
}
use openshift_machine_config.Kube.{Condition, status_true}
use openshift_machine_config.Conditions.{
  get_from, get_pool_condition, filter_out_condition, set_over, set_pool_condition,
  is_condition_present_and_equal, same_pool_condition, keep_time, is_condition_true,
}
use openshift_machine_config.Conditions.Lookup.{
  written-Reports, get_pool_condition-set_pool_condition,
}

abbrev pub has_type : String → List Condition → Bool
has_type t cs = any (λ c. c.type == t) cs

-- No two conditions of the list have one type.
abbrev pub IsUnique : List Condition → Type 0
IsUnique [] = Unit
IsUnique (c ∷ cs) = (has_type c.type cs ≡ false) × IsUnique cs

abbrev pub has_status : String → Option Condition → Bool
has_status s none = false
has_status s (some c) = c.status == s

get_from-absent :
    (t : String) (o : Option Condition) (cs : List Condition)
    → has_type t cs ≡ false
    → get_from t o cs ≡ o
unfolding get_from
get_from-absent t o [] h = refl
get_from-absent t o (c ∷ cs) h = ground (arith, get_from-absent t o cs)

first-eq-last :
    (cs : List Condition) (t s : String)
    → IsUnique cs
    → is_condition_present_and_equal cs t s ≡ has_status s (get_from t none cs)
unfolding is_condition_present_and_equal get_from
first-eq-last [] t s u = refl
first-eq-last (c ∷ cs) t s u =
    ground (arith, first-eq-last cs t s u.1, get_from-absent t (some c) cs, ==_iff c.type t)

-- In a list where each type stands at most once, IsMachineConfigPoolConditionPresentAndEqual says
-- whether the condition that GetMachineConfigPoolCondition finds has the status.
pub is_condition_present_and_equal-get_pool_condition :
    (cs : List Condition) (t s : String)
    → IsUnique cs
    → is_condition_present_and_equal cs t s ≡ has_status s (get_pool_condition cs t)
unfolding get_pool_condition
is_condition_present_and_equal-get_pool_condition cs t s u = first-eq-last cs t s u

has_type-filter_out :
    (t u : String) (cs : List Condition)
    → has_type t cs ≡ false
    → has_type t (filter_out_condition cs u) ≡ false
unfolding filter_out_condition
has_type-filter_out t u [] h = refl
has_type-filter_out t u (c ∷ cs) h = ground (arith, has_type-filter_out t u cs)

has_type-filter_out_self :
    (t : String) (cs : List Condition) → has_type t (filter_out_condition cs t) ≡ false
unfolding filter_out_condition
has_type-filter_out_self t [] = refl
has_type-filter_out_self t (c ∷ cs) = ground (arith, has_type-filter_out_self t cs)

filter_out-IsUnique :
    (cs : List Condition) (t : String) → IsUnique cs → IsUnique (filter_out_condition cs t)
unfolding filter_out_condition
filter_out-IsUnique [] t u = u
filter_out-IsUnique (c ∷ cs) t u =
    ground (arith, filter_out-IsUnique cs t, has_type-filter_out c.type t cs)

has_type-append :
    (t : String) (cs : List Condition) (c : Condition)
    → has_type t cs ≡ false
    → (c.type == t) ≡ false
    → has_type t (cs ++ c ∷ []) ≡ false
has_type-append t [] c h e = ground arith
has_type-append t (d ∷ cs) c h e = ground (arith, has_type-append t cs c)

append-IsUnique :
    (cs : List Condition) (c : Condition)
    → IsUnique cs
    → has_type c.type cs ≡ false
    → IsUnique (cs ++ c ∷ [])
append-IsUnique [] c u h = (refl, tt)
append-IsUnique (d ∷ cs) c u h = (
  has_type-append d.type cs c u.0 (ground (arith, ==_iff d.type c.type, ==_iff c.type d.type)),
  append-IsUnique cs c u.1 (ground arith),
)

replace-IsUnique :
    (cs : List Condition) (t : String) (c : Condition)
    → c.type ≡ t
    → IsUnique cs
    → IsUnique (filter_out_condition cs t ++ c ∷ [])
replace-IsUnique cs t c e u =
    append-IsUnique (filter_out_condition cs t) c (filter_out-IsUnique cs t u)
      (rw e (has_type-filter_out_self t cs))

keep_time_type : (b c : Condition) → (keep_time b c).type ≡ c.type
keep_time_type b c = ground arith

set_over-IsUnique :
    (o : Option Condition) (cs : List Condition) (c : Condition)
    → IsUnique cs
    → IsUnique (set_over o cs c)
unfolding set_over
set_over-IsUnique none cs c u = replace-IsUnique cs c.type c refl u
set_over-IsUnique (some b) cs c u = elim (Bool-cases (same_pool_condition b c)) [
  | inl e ↦ rw e u
  | inr e ↦ rw e (replace-IsUnique cs c.type (keep_time b c) (keep_time_type b c) u)
]

-- Setting a condition keeps each type at most once.
pub set_pool_condition-IsUnique :
    (cs : List Condition) (c : Condition) → IsUnique cs → IsUnique (set_pool_condition cs c)
unfolding set_pool_condition
set_pool_condition-IsUnique cs c u = set_over-IsUnique (get_from c.type none cs) cs c u

-- In a list with each type at most once, after a condition was set IsMachineConfigPoolConditionTrue
-- answers by that condition for its type, and as before for every other type.
pub is_condition_true-set_pool_condition :
    (cs : List Condition) (c : Condition) (t : String)
    → IsUnique cs
    → is_condition_true (set_pool_condition cs c) t
      ≡ (if c.type == t then c.status == status_true else is_condition_true cs t)
unfolding is_condition_true
is_condition_true-set_pool_condition cs c t u =
    let o = get_pool_condition cs c.type in
    ground (
      arith,
      is_condition_present_and_equal-get_pool_condition cs t status_true u,
      is_condition_present_and_equal-get_pool_condition (set_pool_condition cs c) t status_true
          (set_pool_condition-IsUnique cs c u),
      get_pool_condition-set_pool_condition cs c t,
      written-Reports o c,
    )

-- A condition that says what the one found says already is not set.
pub set_pool_condition_unchanged :
    (cs : List Condition) (b c : Condition)
    → get_pool_condition cs c.type ≡ some b
    → same_pool_condition b c ≡ true
    → set_pool_condition cs c ≡ cs
unfolding set_pool_condition set_over get_pool_condition
set_pool_condition_unchanged cs b c e s = rw e (rw s refl)
