-- ===== src/Conditions/Lookup.antt =====
-- What a lookup finds after a condition was set.
use openshift_machine_config.Common.{
  ◌≡◌, refl, String, ◌==◌, ◌≢◌, ==_iff, Option, none, some, List, [], ◌∷◌, ◌++◌, arith,
  if◌then◌else◌,
}
use openshift_machine_config.Kube.{Condition}
use openshift_machine_config.Conditions.{
  get_from, get_pool_condition, filter_out_condition, same_pool_condition, keep_time, set_over,
  set_pool_condition,
}

-- What the list holds for the type of `c` once `c` was set over the current condition.
abbrev pub written : Option Condition → Condition → Condition
written none c = c
written (some current) c = if same_pool_condition current c then current else keep_time current c

pub get_from-append :
    (t : String) (o : Option Condition) (cs : List Condition) (c : Condition)
    → get_from t o (cs ++ c ∷ []) ≡ (if c.type == t then some c else get_from t o cs)
unfolding get_from
get_from-append t o [] c = refl
get_from-append t o (d ∷ cs) c = get_from-append t (if d.type == t then some d else o) cs c

pub get_from-filter_out :
    (t u : String) (o : Option Condition) (cs : List Condition)
    → get_from t o (filter_out_condition cs u) ≡ (if u == t then o else get_from t o cs)
unfolding get_from filter_out_condition
get_from-filter_out t u o [] = ground arith
get_from-filter_out t u o (d ∷ cs) = ground (
  arith,
  get_from-filter_out t u o cs,
  get_from-filter_out t u (some d) cs,
  ==_iff d.type u,
  ==_iff d.type t,
  ==_iff u t,
)

get_from-set_over :
    (o : Option Condition) (cs : List Condition) (c : Condition) (t : String)
    → get_from c.type none cs ≡ o
    → get_from t none (set_over o cs c)
      ≡ (if c.type == t then some (written o c) else get_from t none cs)
unfolding set_over
get_from-set_over none cs c t e = ground (
  arith,
  get_from-append t none (filter_out_condition cs c.type) c,
  get_from-filter_out t c.type none cs,
)
get_from-set_over (some b) cs c t e = ground (
  arith,
  get_from-append t none (filter_out_condition cs c.type) (keep_time b c),
  get_from-filter_out t c.type none cs,
  ==_iff c.type t,
)

-- Setting a condition decides what is found for its own type and leaves every other type alone.
pub get_pool_condition-set_pool_condition :
    (cs : List Condition) (c : Condition) (t : String)
    → get_pool_condition (set_pool_condition cs c) t ≡ (
        if c.type == t
        then some (written (get_pool_condition cs c.type) c)
        else get_pool_condition cs t)
unfolding get_pool_condition set_pool_condition
get_pool_condition-set_pool_condition cs c t =
    get_from-set_over (get_from c.type none cs) cs c t refl

-- The fields of what is written, and the time that it carries.
abbrev pub Reports : Option Condition → Condition → Condition → Type 0
Reports o c d =
    (d.status ≡ c.status)
    × (d.reason ≡ c.reason)
    × (d.message ≡ c.message)
    × (d.last_transition_time ≡ elim o [
      | none ↦ c.last_transition_time
      | some b ↦ if b.status == c.status then b.last_transition_time else c.last_transition_time
    ])

pub written-Reports : (o : Option Condition) (c : Condition) → Reports o c (written o c)
written-Reports none c = (refl, refl, refl, refl)
written-Reports (some b) c =
    ground (arith, ==_iff b.status c.status, ==_iff b.reason c.reason, ==_iff b.message c.message)

-- After a condition is set, the lookup of its type finds its status, reason and message. The time
-- of the transition is the earlier one where the condition found before had the same status, and
-- the new one otherwise. What is found for any other type does not change.
pub set_pool_condition-Reports :
    (cs : List Condition) (c : Condition)
    → ((d : Condition) × (get_pool_condition (set_pool_condition cs c) c.type ≡ some d)
        × Reports (get_pool_condition cs c.type) c d)
      × ((t : String)
          → t ≢ c.type
          → get_pool_condition (set_pool_condition cs c) t ≡ get_pool_condition cs t)
set_pool_condition-Reports cs c =
    let o = get_pool_condition cs c.type in
    (
      (
        written o c,
        ground (arith, get_pool_condition-set_pool_condition cs c c.type, ==_iff c.type c.type),
        written-Reports o c,
      ),
      λ t other.
          ground (arith, get_pool_condition-set_pool_condition cs c t, ==_iff c.type t, other),
    )
