-- ===== src/Build/Refs.antt =====
-- The references of a pool to the objects that build for it.
use openshift_machine_config.Common.{
  ℕ, ◌≤◌, ◌≡◌, ◌⊎◌, refl, String, ◌==◌, Bool, true, false, ◌&&◌, not, Option, none, some, List, [],
  ◌∷◌, ◌++◌, arith, if◌then◌else◌, length, select, any, is_empty, Bool-cases, inl, inr,
}
use openshift_machine_config.Kube.{ObjectReference, Pool}
use openshift_machine_config.Layered.{
  is_build_success, is_build_pending, is_building, is_build_failure,
}
use openshift_machine_config.Build.{
  machine_config_pool, build_name, set_image_pullspec, delete_build_ref_for_current_machine_config,
  delete_build_ref_by_name, has_build_object_ref, get_build_object_refs, with_sources, sources,
  add_build_object_ref, is_build_object_ref, clear_image_pullspec,
}
use openshift_machine_config.Build.Updates.{
  Answers, BuildError, Report, PodPhase, pending_pod, running_pod, succeeded_pod, failed_pod,
  unknown_pod, sync_available_status, sync_failing_status, update_pool_and_sync_available_status,
  mark_build_failed, mark_build_in_progress, mark_build_succeeded,
  mark_build_pending_with_object_ref, custom_build_pod_updater, add_ref_and_update,
  finalize_opt_out, succeeded_pool, unless, not_read, build_failed, set_all, pending_conditions,
}

abbrev pub builds : List ObjectReference → ℕ
builds refs = length (select is_build_object_ref refs)

-- A pool refers to one build at most.
abbrev pub HasOneBuild : Pool → Type 0
HasOneBuild pool = length (get_build_object_refs pool) ≤ 1

-- Of what `p` keeps nothing is left that `p` excludes.
select-excluded :
    {A : Type 0} (p q : A → Bool) (xs : List A)
    → ((x : A) → p x ≡ true → q x ≡ false)
    → (select q (select p xs) ≡ []) × (any q (select p xs) ≡ false)
select-excluded p q [] h = (refl, refl)
select-excluded p q (x ∷ xs) h = elim (Bool-cases (p x)) [
  | inl e ↦ rw (e, h x e) (select-excluded p q xs h)
  | inr e ↦ rw e (select-excluded p q xs h)
]

-- Whatever the name, every reference to a build goes, and so does every reference of the name.
pub delete_build_ref_by_name_lem :
    (name : String) (pool : Pool)
    → (get_build_object_refs (delete_build_ref_by_name name pool) ≡ [])
      × (any (λ r. r.name == name) (sources (delete_build_ref_by_name name pool)) ≡ false)
unfolding delete_build_ref_by_name get_build_object_refs
delete_build_ref_by_name_lem name pool =
    let keep = λ (r : ObjectReference). not (r.name == name) && not (is_build_object_ref r) in
    (
      (select-excluded keep is_build_object_ref (sources pool) (λ r h. ground (arith, h))).0,
      (select-excluded keep (λ r. r.name == name) (sources pool) (λ r h. ground (arith, h))).1,
    )

builds-append :
    (refs : List ObjectReference) (ref : ObjectReference)
    → is_empty (select is_build_object_ref refs) ≡ true
    → length (select is_build_object_ref (refs ++ ref ∷ [])) ≤ 1
builds-append [] ref e = elim (Bool-cases (is_build_object_ref ref)) [
  | inl h ↦ rw h (omega arith)
  | inr h ↦ rw h (omega arith)
]
builds-append (r ∷ refs) ref e = elim (Bool-cases (is_build_object_ref r)) [
  | inl h ↦ absurd (ground (arith, h, e))
  | inr h ↦ rw h (builds-append refs ref (ground (arith, h, e)))
]

if-HasOneBuild :
    (b : Bool) (x y : Pool × Option BuildError)
    → HasOneBuild x.0
    → HasOneBuild y.0
    → HasOneBuild (if b then x else y).0
if-HasOneBuild true x y h k = h
if-HasOneBuild false x y h k = k

module _ (a : Answers) (stored : Pool) (one : HasOneBuild stored) where
  sync_available_status-HasOneBuild :
      (before pool : Pool)
      → HasOneBuild before
      → HasOneBuild (sync_available_status a before pool).0
  unfolding sync_available_status get_build_object_refs
  sync_available_status-HasOneBuild before pool h = if-HasOneBuild a.status_updated _ _ h h

  update_pool-HasOneBuild :
      (pool : Pool)
      → HasOneBuild pool
      → HasOneBuild (update_pool_and_sync_available_status a stored pool).0
  unfolding update_pool_and_sync_available_status get_build_object_refs
  update_pool-HasOneBuild pool h =
      if-HasOneBuild a.updated _ _ (sync_available_status-HasOneBuild _ _ h) one

  add_ref-HasOneBuild :
      (ref : ObjectReference) (pool : Pool)
      → HasOneBuild (add_ref_and_update a stored (add_build_object_ref ref pool)).0
  unfolding add_build_object_ref machine_config_pool get_build_object_refs
  add_ref-HasOneBuild ref pool =
      go (is_build_object_ref ref)
        (Bool-cases (is_empty (select is_build_object_ref (sources pool))))
    where
      added : Pool
      added = with_sources pool (sources pool ++ ref ∷ [])

      free : Bool
      free = is_empty (select is_build_object_ref (sources pool))

      go :
          (right : Bool)
          → (free ≡ true) ⊎ (free ≡ false)
          → HasOneBuild
              (add_ref_and_update a stored
                (if not right then none else if not free then none else some added)).0
      go false c = one
      go true (inl e) =
          rw e (
            update_pool-HasOneBuild (machine_config_pool added)
              (builds-append (sources pool) ref e))
      go true (inr e) = rw e one

  pub mark_build_pending-HasOneBuild :
      (ref : ObjectReference) → HasOneBuild (mark_build_pending_with_object_ref a ref stored).0
  unfolding mark_build_pending_with_object_ref
  mark_build_pending-HasOneBuild ref = if-HasOneBuild (not a.read) _ _ one (
      if-HasOneBuild (has_build_object_ref ref (set_all (pending_conditions a) stored)) _ _
        (sync_available_status-HasOneBuild stored _ one)
        (add_ref-HasOneBuild ref (set_all (pending_conditions a) stored)))

  mark_build_in_progress-HasOneBuild : HasOneBuild (mark_build_in_progress a stored).0
  unfolding mark_build_in_progress
  mark_build_in_progress-HasOneBuild =
      if-HasOneBuild (not a.read) _ _ one (sync_available_status-HasOneBuild stored _ one)

  mark_build_failed-HasOneBuild :
      (message : String) → HasOneBuild (mark_build_failed a message stored).0
  unfolding mark_build_failed sync_failing_status get_build_object_refs
  mark_build_failed-HasOneBuild message = go a.read a.status_updated _ one
    where
      go :
          (read updated : Bool) (after : Pool)
          → HasOneBuild after
          → let r : Pool × Option BuildError =
              if not read
              then (stored, some not_read)
              else (if updated then after else stored, some build_failed) in
            HasOneBuild r.0
      go false updated after h = one
      go true true after h = h
      go true false after h = one

  deleted-HasOneBuild :
      (name : String) (pool : Pool) → HasOneBuild (delete_build_ref_by_name name pool)
  deleted-HasOneBuild name pool = rw (delete_build_ref_by_name_lem name pool).0 (omega arith)

  succeeded_pool-HasOneBuild : (pullspec : String) → HasOneBuild (succeeded_pool a pullspec stored)
  unfolding succeeded_pool machine_config_pool get_build_object_refs
      delete_build_ref_for_current_machine_config set_image_pullspec
  succeeded_pool-HasOneBuild pullspec =
      deleted-HasOneBuild (build_name stored) (set_image_pullspec pullspec stored)

  mark_build_succeeded-HasOneBuild :
      (pullspec : Option String) (cleaned : Bool)
      → HasOneBuild (mark_build_succeeded a pullspec cleaned stored).0
  unfolding mark_build_succeeded
  mark_build_succeeded-HasOneBuild none cleaned = one
  mark_build_succeeded-HasOneBuild (some pullspec) cleaned =
      if-HasOneBuild (pullspec == "") _ _ one (
        if-HasOneBuild (not cleaned) _ _ one (
          if-HasOneBuild (not a.read) _
            (update_pool_and_sync_available_status a stored (succeeded_pool a pullspec stored)) one
            (update_pool-HasOneBuild (succeeded_pool a pullspec stored)
              (succeeded_pool-HasOneBuild pullspec))))

  unless-HasOneBuild :
      (r : Report) (seen : Pool) (test : Bool) (result : Pool × Option BuildError)
      → HasOneBuild result.0
      → HasOneBuild (unless a r seen stored test result).0
  unless-HasOneBuild r seen true result h = one
  unless-HasOneBuild r seen false result h = h

  pub custom_build_pod_updater-HasOneBuild :
      (r : Report) (seen : Pool) (phase : PodPhase)
      → HasOneBuild (custom_build_pod_updater a r seen stored phase).0
  unfolding custom_build_pod_updater
  custom_build_pod_updater-HasOneBuild r seen pending_pod =
      unless-HasOneBuild r seen (is_build_pending seen) _ (mark_build_pending-HasOneBuild r.ref)
  custom_build_pod_updater-HasOneBuild r seen running_pod =
      unless-HasOneBuild r seen (is_building seen) _ mark_build_in_progress-HasOneBuild
  custom_build_pod_updater-HasOneBuild r seen succeeded_pod =
      unless-HasOneBuild r seen (is_build_success seen) _
        (mark_build_succeeded-HasOneBuild r.pullspec r.cleaned)
  custom_build_pod_updater-HasOneBuild r seen failed_pod =
      unless-HasOneBuild r seen (is_build_failure seen) _ (mark_build_failed-HasOneBuild r.message)
  custom_build_pod_updater-HasOneBuild r seen unknown_pod = one

  pub finalize_opt_out-HasOneBuild :
      (cleaned : Bool) → HasOneBuild (finalize_opt_out a cleaned stored).0
  unfolding finalize_opt_out machine_config_pool get_build_object_refs clear_image_pullspec
      delete_build_ref_for_current_machine_config
  finalize_opt_out-HasOneBuild cleaned = if-HasOneBuild (not cleaned) _ _ one (
      if-HasOneBuild (not a.read) _ _ one
        (update_pool-HasOneBuild _ (deleted-HasOneBuild (build_name stored) stored)))
