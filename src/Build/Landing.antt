-- ===== src/Build/Landing.antt =====
-- The state that each update leaves the build of a pool in.
use openshift_machine_config.Common.{
  ◌≡◌, ◌⊎◌, inl, inr, refl, String, ◌==◌, Bool, true, false, not, Option, none, some, List, [], ◌∷◌,
  if◌then◌else◌, is_empty, ◌++◌,
}
use openshift_machine_config.Kube.{Condition, ObjectReference, Pool}
use openshift_machine_config.Layered.{is_build_pending}
use openshift_machine_config.Conditions.{new_condition, set_pool_condition}
use openshift_machine_config.Conditions.Unique.{IsUnique}
use openshift_machine_config.Build.{
  machine_config_pool, set_image_pullspec, delete_build_ref_for_current_machine_config,
  delete_build_ref_by_name, has_build_object_ref, get_build_object_refs, with_sources, sources,
  add_build_object_ref, is_build_object_ref,
}
use openshift_machine_config.Build.Updates.{
  Answers, BuildError, not_read, build_failed, no_pullspec, not_cleaned_up, sync_available_status,
  succeeded_pool, sync_failing_status, update_pool_and_sync_available_status, mark_build_failed,
  mark_build_in_progress, mark_build_succeeded, mark_build_pending_with_object_ref,
  add_ref_and_update, failed_conditions, in_progress_conditions, succeeded_conditions,
  pending_conditions, set_all,
}
use openshift_machine_config.Build.Marks.{
  Truths, pending, building, failed, truths, flags, Says, say, set_build_conditions-Says,
}

abbrev pub conditions : Pool → List Condition
conditions pool = pool.status.conditions

-- The stored conditions are as they were, or they say `t`; without an error they do.
abbrev pub Lands : Pool → Truths → Pool × Option BuildError → Type 0
Lands stored t (after, err) =
    ((conditions after ≡ conditions stored) ⊎ Says (conditions after) t)
    × (err ≡ none → Says (conditions after) t)

-- After a success: of the four conditions this update leaves BuildPending as it was.
abbrev pub finished : Pool → Truths
finished stored = (false, is_build_pending stored, true, false)

module _ (stored : Pool) (t : Truths) where
  -- An error that leaves the pool as it is stored.
  pub error-Lands : (x : BuildError) → Lands stored t (stored, some x)
  error-Lands x = (inl refl, λ h. cc)

  if-Lands :
      (b : Bool) (x y : Pool × Option BuildError)
      → Lands stored t x
      → Lands stored t y
      → Lands stored t (if b then x else y)
  if-Lands true x y h k = h
  if-Lands false x y h k = k

  pub unread-Lands :
      (b : Bool) (x : BuildError) (y : Pool × Option BuildError)
      → Lands stored t y
      → Lands stored t (if not b then (stored, some x) else y)
  unread-Lands true x y h = h
  unread-Lands false x y h = error-Lands x

module _ (a : Answers) (stored : Pool) (t : Truths) where
  -- The pool that is written says `t` once the condition of the render controller is set.
  abbrev pub Ready : Pool → Type 0
  Ready pool =
      (c : Condition) → c.type ≡ "RenderDegraded" → Says (set_pool_condition (conditions pool) c) t

  sync_available_status-Lands :
      (before pool : Pool)
      → conditions before ≡ conditions stored
      → Ready pool
      → Lands stored t (sync_available_status a before pool)
  unfolding sync_available_status new_condition
  sync_available_status-Lands before pool e h =
      if-Lands stored t a.status_updated _ _ (inr (h _ refl), λ _. h _ refl) (inl e, λ x. cc)

  pub update_pool-Lands :
      (pool : Pool)
      → Ready pool
      → Lands stored t (update_pool_and_sync_available_status a stored pool)
  unfolding update_pool_and_sync_available_status
  update_pool-Lands pool h =
      if-Lands stored t a.updated _ _ (sync_available_status-Lands _ pool refl h)
        (error-Lands stored t _)

  set_all-Ready :
      (news : List Condition)
      → IsUnique (conditions stored)
      → say news (truths (conditions stored)) ≡ t
      → Ready (machine_config_pool (set_all news stored))
  unfolding machine_config_pool
  set_all-Ready news u h c e = set_build_conditions-Says (conditions stored) news c t e u h

module _ (a : Answers) (stored : Pool) (u : IsUnique (conditions stored)) where
  pub mark_build_in_progress-Lands : Lands stored (flags building) (mark_build_in_progress a stored)
  unfolding mark_build_in_progress new_condition
  mark_build_in_progress-Lands = unread-Lands stored (flags building) a.read _ _ (
      sync_available_status-Lands a stored (flags building) stored _ refl
        (set_all-Ready a stored (flags building) (in_progress_conditions a) u refl))

  add_ref-Lands :
      (ref : ObjectReference) (pool : Pool)
      → Ready a stored (flags pending) (machine_config_pool pool)
      → Lands stored (flags pending) (add_ref_and_update a stored (add_build_object_ref ref pool))
  unfolding add_build_object_ref machine_config_pool
  add_ref-Lands ref pool ready =
      go (is_build_object_ref ref) (is_empty (get_build_object_refs pool))
    where
      added : Pool
      added = with_sources pool (sources pool ++ ref ∷ [])

      go :
          (right free : Bool)
          → Lands stored (flags pending) (
              add_ref_and_update a stored
                (if not right then none else if not free then none else some added))
      go false free = error-Lands stored (flags pending) _
      go true false = error-Lands stored (flags pending) _
      go true true = update_pool-Lands a stored (flags pending) (machine_config_pool added) ready

  pub mark_build_pending-Lands :
      (ref : ObjectReference)
      → Lands stored (flags pending) (mark_build_pending_with_object_ref a ref stored)
  unfolding mark_build_pending_with_object_ref new_condition
  mark_build_pending-Lands ref =
      let pool = set_all (pending_conditions a) stored in
      let ready = set_all-Ready a stored (flags pending) (pending_conditions a) u refl in
      unread-Lands stored (flags pending) a.read _ _ (
        if-Lands stored (flags pending) (has_build_object_ref ref pool) _ _
          (sync_available_status-Lands a stored (flags pending) stored _ refl ready)
          (add_ref-Lands ref pool ready))

  -- The checks before the update: of the pullspec, of the cleaning up and of the read.
  checked-Lands :
      (missing cleaned read : Bool) (y : Pool × Option BuildError)
      → Lands stored (finished stored) y
      → Lands stored (finished stored) (
          if missing
          then (stored, some no_pullspec)
          else if not cleaned
          then (stored, some not_cleaned_up)
          else if not read
          then (stored, some not_read)
          else y)
  checked-Lands true cleaned read y h = error-Lands stored (finished stored) _
  checked-Lands false false read y h = error-Lands stored (finished stored) _
  checked-Lands false true false y h = error-Lands stored (finished stored) _
  checked-Lands false true true y h = h

  succeeded_pool-Ready :
      (pullspec : String) → Ready a stored (finished stored) (succeeded_pool a pullspec stored)
  unfolding is_build_pending new_condition succeeded_pool machine_config_pool set_image_pullspec
      delete_build_ref_for_current_machine_config delete_build_ref_by_name
  succeeded_pool-Ready pullspec c e =
      set_build_conditions-Says (conditions stored) (succeeded_conditions a) c (finished stored) e u
        refl

  -- With each condition type at most once, a success leaves the conditions as they are stored, or no
  -- build failed or running, one succeeded, and BuildPending as it was; where no error is returned,
  -- the latter.
  pub mark_build_succeeded-Lands :
      (pullspec : Option String) (cleaned : Bool)
      → Lands stored (finished stored) (mark_build_succeeded a pullspec cleaned stored)
  unfolding mark_build_succeeded succeeded_pool
  mark_build_succeeded-Lands none cleaned = error-Lands stored (finished stored) _
  mark_build_succeeded-Lands (some pullspec) cleaned =
      checked-Lands (pullspec == "") cleaned a.read
        (update_pool_and_sync_available_status a stored (succeeded_pool a pullspec stored))
        (update_pool-Lands a stored (finished stored) (succeeded_pool a pullspec stored)
          (succeeded_pool-Ready pullspec))

  pub mark_build_failed-Lands :
      (message : String)
      → Lands stored (flags failed) (mark_build_failed a message stored)
        × (a.read ≡ true
            → a.status_updated ≡ true
            → Says (conditions (mark_build_failed a message stored).0) (flags failed))
  unfolding mark_build_failed sync_failing_status new_condition
  mark_build_failed-Lands message =
      let ready = set_all-Ready a stored (flags failed) (failed_conditions a) u refl in
      go a.read a.status_updated _ (ready _ refl)
    where
      go :
          (read updated : Bool) (after : Pool)
          → Says (conditions after) (flags failed)
          → let r : Pool × Option BuildError =
              if not read
              then (stored, some not_read)
              else (if updated then after else stored, some build_failed) in
            Lands stored (flags failed) r
            × (read ≡ true → updated ≡ true → Says (conditions r.0) (flags failed))
      go false updated after h = (error-Lands stored (flags failed) _, λ x y. cc)
      go true true after h = ((inr h, λ x. cc), λ x y. h)
      go true false after h = (error-Lands stored (flags failed) _, λ x y. cc)
