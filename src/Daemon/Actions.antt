-- ===== src/Daemon/Actions.antt =====
-- The action after an update, described by the set of changed files, and the drain before it.
use mathlib.Core.Path.{subst}
use openshift_machine_config.Common.{
  ◌≡◌, ◌↔◌, inl, inr, sym, refl, String, ◌==◌, ==_iff, Bool, true, false, ◌&&◌, not, Option, none,
  some, List, [], ◌∷◌, any, arith, if◌then◌else◌, Bool-cases,
}
use openshift_machine_config.Daemon.{
  action_none, action_reload_crio, action_reboot, registries_path, in_slice, files_none,
  files_reload_crio, file_actions, calculate_action_from_file_diffs, is_drain_required,
}

abbrev pub is_quiet : String → Bool
is_quiet path = in_slice path files_none

abbrev pub reloads_crio : String → Bool
reloads_crio path = not (is_quiet path) && in_slice path files_reload_crio

abbrev pub needs_reboot : String → Bool
needs_reboot path = not (is_quiet path) && not (in_slice path files_reload_crio)

file_actions_lem :
    (actions paths : List String)
    → file_actions actions paths ≡ (
        if any needs_reboot paths
        then action_reboot ∷ []
        else if any reloads_crio paths
        then action_reload_crio ∷ []
        else actions)
unfolding file_actions
file_actions_lem actions [] = refl
file_actions_lem actions (path ∷ paths) =
    ground (arith, file_actions_lem actions paths, file_actions_lem (action_reload_crio ∷ []) paths)

-- In whatever order the changed files come, the action is a reboot where some file is in neither list,
-- or else a reload of crio where some file is in its list, or else nothing.
pub calculate_action_from_file_diffs_lem :
    (paths : List String)
    → calculate_action_from_file_diffs paths ≡ (
        if any needs_reboot paths
        then action_reboot ∷ []
        else if any reloads_crio paths
        then action_reload_crio ∷ []
        else action_none ∷ [])
unfolding calculate_action_from_file_diffs
calculate_action_from_file_diffs_lem paths = file_actions_lem (action_none ∷ []) paths

-- The actions that calculatePostConfigChangeAction chooses from: exactly one of the three.
drain_by_action :
    (paths : List String) (safe : Option Bool)
    → (is_drain_required (action_reboot ∷ []) paths safe ≡ some true)
      × (is_drain_required (action_none ∷ []) paths safe ≡ some false)
      × (is_drain_required (action_reload_crio ∷ []) paths safe ≡ (
          if in_slice registries_path paths
          then elim safe [ none ↦ none | some s ↦ some (not s) ]
          else some false))
unfolding is_drain_required in_slice
drain_by_action paths safe = (refl, refl, refl)

registries-reload :
    (paths : List String) → in_slice registries_path paths ≡ true → any reloads_crio paths ≡ true
unfolding in_slice
registries-reload [] h = cc
registries-reload (path ∷ paths) h = elim (Bool-cases (path == registries_path)) [
  | inl e ↦
      subst (λ p. any reloads_crio (p ∷ paths) ≡ true) (sym ((==_iff path registries_path).0 e))
        refl
  | inr e ↦ ground (arith, e, registries-reload paths)
]

-- A node is left undrained exactly where no file asks for a reboot, and where the registries changed, the
-- change is a safe one.
pub undrained_lem :
    (paths : List String) (safe : Option Bool)
    → (is_drain_required (calculate_action_from_file_diffs paths) paths safe ≡ some false) ↔ (
        (any needs_reboot paths ≡ false)
        × (in_slice registries_path paths ≡ true → safe ≡ some true))
undrained_lem paths safe =
    rw (calculate_action_from_file_diffs_lem paths)
      (decided (any needs_reboot paths) (any reloads_crio paths) (registries-reload paths))
  where
    by_registries :
        (changed : Bool) (answer : Option Bool)
        → ((if changed then elim answer [ none ↦ none | some s ↦ some (not s) ] else some false)
            ≡ some false)
          ↔ ((false ≡ false) × (changed ≡ true → answer ≡ some true))
    by_registries true none = (λ h. cc, λ h. ground (arith, h.1 refl))
    by_registries true (some true) = (λ h. (refl, λ _. refl), λ h. refl)
    by_registries true (some false) = (λ h. cc, λ h. ground (arith, h.1 refl))
    by_registries false answer = (λ h. (refl, λ e. cc), λ h. refl)

    decided :
        (reboot crio : Bool)
        → (in_slice registries_path paths ≡ true → crio ≡ true)
        → (is_drain_required
              (if reboot
                then action_reboot ∷ []
                else if crio
                then action_reload_crio ∷ []
                else action_none ∷ [])
              paths
              safe
            ≡ some false)
          ↔ ((reboot ≡ false) × (in_slice registries_path paths ≡ true → safe ≡ some true))
    decided true crio h = let (r, _, _) = drain_by_action paths safe in rw r (λ e. cc, λ e. cc)
    decided false true h =
        let (_, _, c) = drain_by_action paths safe in
        rw c (by_registries (in_slice registries_path paths) safe)
    decided false false h =
        let (_, n, _) = drain_by_action paths safe in
        rw n (λ e. (refl, λ r. ground (arith, h r)), λ e. refl)
