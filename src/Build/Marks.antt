-- ===== src/Build/Marks.antt =====
-- What the build conditions of a pool say after an update.
use openshift_machine_config.Common.{
  ◌≡◌, refl, sym, ap, ◌∙◌, String, ◌==◌, Bool, true, false, Option, none, some, List, [], ◌∷◌,
  arith, if◌then◌else◌, Bool-cases, inl, inr,
}
use openshift_machine_config.Kube.{Condition, status_true}
use openshift_machine_config.Conditions.{
  get_pool_condition, set_pool_condition, is_condition_true, new_condition,
}
use openshift_machine_config.Conditions.Unique.{
  IsUnique, set_pool_condition-IsUnique, set_pool_condition_unchanged,
  is_condition_true-set_pool_condition,
}
use openshift_machine_config.Build.{
  is_current, is_condition_equal, set_build_condition, set_build_conditions,
}

-- The guard of SetBuildConditions only spares the call: setting the condition would not change the list.
set_build_condition_lem :
    (cs : List Condition) (c : Condition) → set_build_condition cs c ≡ set_pool_condition cs c
unfolding set_build_condition new_condition
set_build_condition_lem cs c = go (get_pool_condition cs c.type) refl
  where
    go :
        (o : Option Condition)
        → get_pool_condition cs c.type ≡ o
        → (if is_current o c then cs else set_pool_condition cs c) ≡ set_pool_condition cs c
    go none e = refl
    go (some b) e = elim (Bool-cases (is_condition_equal b c)) [
      | inl h ↦ rw h (sym (set_pool_condition_unchanged cs b c e (ground (arith, h))))
      | inr h ↦ rw h refl
    ]

-- What a list of new conditions says of a type: the last of that type, or else what was said before.
abbrev pub says : List Condition → Bool → String → Bool
says [] before t = before
says (c ∷ news) before t = says news (if c.type == t then c.status == status_true else before) t

set_build_conditions-IsUnique :
    (cs news : List Condition) → IsUnique cs → IsUnique (set_build_conditions cs news)
unfolding set_build_conditions
set_build_conditions-IsUnique cs [] u = u
set_build_conditions-IsUnique cs (c ∷ news) u =
    set_build_conditions-IsUnique (set_build_condition cs c) news
      (rw (set_build_condition_lem cs c) (set_pool_condition-IsUnique cs c u))

is_condition_true-set_build_conditions :
    (cs news : List Condition) (t : String)
    → IsUnique cs
    → is_condition_true (set_build_conditions cs news) t ≡ says news (is_condition_true cs t) t
unfolding set_build_conditions
is_condition_true-set_build_conditions cs [] t u = refl
is_condition_true-set_build_conditions cs (c ∷ news) t u =
    is_condition_true-set_build_conditions (set_build_condition cs c) news t
      (rw (set_build_condition_lem cs c) (set_pool_condition-IsUnique cs c u))
    ∙ ap (λ b. says news b t)
        (rw (set_build_condition_lem cs c) (is_condition_true-set_pool_condition cs c t u))

-- What is said of failed, pending, succeeded and running builds.
abbrev pub Truths : Type 0
Truths = Bool × Bool × Bool × Bool

abbrev pub truths : List Condition → Truths
truths cs = (
  is_condition_true cs "BuildFailed",
  is_condition_true cs "BuildPending",
  is_condition_true cs "BuildSuccess",
  is_condition_true cs "Building",
)

-- The states of a build, without the conditions that stand for them.
pub data BuildState : Type 0 where
  idle pending building succeeded failed : BuildState

abbrev pub flags : BuildState → Truths
flags idle = (false, false, false, false)
flags pending = (false, true, false, false)
flags building = (false, false, false, true)
flags succeeded = (false, false, true, false)
flags failed = (true, false, false, false)

-- Each condition type stands at most once, and the build conditions say `t`.
abbrev pub Says : List Condition → Truths → Type 0
Says cs t = IsUnique cs × (truths cs ≡ t)

-- The build conditions say that the build is in `s`, and in no other state.
abbrev pub IsAt : List Condition → BuildState → Type 0
IsAt cs s = Says cs (flags s)

abbrev pub say : List Condition → Truths → Truths
say news (f, p, s, b) = (
  says news f "BuildFailed",
  says news p "BuildPending",
  says news s "BuildSuccess",
  says news b "Building",
)

truths-set_build_conditions :
    (cs news : List Condition)
    → IsUnique cs
    → truths (set_build_conditions cs news) ≡ say news (truths cs)
truths-set_build_conditions cs news u =
    let t = λ (x : String). is_condition_true-set_build_conditions cs news x u in
    rw (t "BuildFailed", t "BuildPending", t "BuildSuccess", t "Building") refl

-- `RenderDegraded` is no build condition.
render_degraded-truths :
    (cs : List Condition) (c : Condition)
    → IsUnique cs
    → c.type ≡ "RenderDegraded"
    → truths (set_pool_condition cs c) ≡ truths cs
render_degraded-truths cs c u e =
    let t = λ (x : String). is_condition_true-set_pool_condition cs c x u in
    rw (t "BuildFailed", t "BuildPending", t "BuildSuccess", t "Building", e) refl

-- What an update writes: the build conditions, and then the one of the render controller.
pub set_build_conditions-Says :
    (cs news : List Condition) (c : Condition) (t : Truths)
    → c.type ≡ "RenderDegraded"
    → IsUnique cs
    → say news (truths cs) ≡ t
    → Says (set_pool_condition (set_build_conditions cs news) c) t
set_build_conditions-Says cs news c t e u h =
    let u' = set_build_conditions-IsUnique cs news u in
    (
      set_pool_condition-IsUnique (set_build_conditions cs news) c u',
      render_degraded-truths (set_build_conditions cs news) c u' e
          ∙ truths-set_build_conditions cs news u
          ∙ h,
    )
