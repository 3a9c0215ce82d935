-- ===== src/Update/Reconcile/Accepted.antt =====
-- What an update that is reconcilable may change.
use mathlib.Core.Path.{subst}
use openshift_machine_config.Common.{
  ◌≡◌, refl, ◌==◌, ==_iff, Bool, true, false, not, Option, none, some, List, [], ◌∷◌, if◌then◌else◌,
  All, arith, bool_eq,
}
use openshift_machine_config.Daemon.{ConfigSpec, MachineConfigDiff}
use openshift_machine_config.Update.{User}
use openshift_machine_config.Update.Reconcile.{
  File, FipsFile, fips_file, Judge, IgnitionConfig, force_file, check_fips, are_core, are_writable,
  is_passwd_reconcilable, is_storage_reconcilable, is_ignition_reconcilable, with_fips,
  with_configs, reconcilable,
}

-- A file that the daemon can write.
abbrev pub IsWritable : {W : Type 0} → File W → Type 0
IsWritable f = (f.has_append ≡ false) × ((f.path == force_file) ≡ false)

writable : {W : Type 0} (files : List (File W)) → are_writable files ≡ true → All IsWritable files
unfolding are_writable
writable [] h = tt
writable (f ∷ files) h = (ground (arith, h), writable files (ground (arith, h)))

core : (users : List User) → are_core users ≡ true → All (λ u. u.name ≡ "core") users
unfolding are_core
core [] h = tt
core (u ∷ users) h = ((==_iff u.name "core").0 (ground (arith, h)), core users (ground (arith, h)))

module _ {V W : Type 0} (judge : Judge V W) where
  -- What holds of the new configuration `j` where the old one was `i`.
  abbrev pub Accepted : ConfigSpec V → IgnitionConfig W → IgnitionConfig W → Type 0
  Accepted new i j =
      All IsWritable j.storage_files
      × (judge.same i.sections.passwd j.sections.passwd ≡ false
          → judge.same_users i.users j.users ≡ false
          → All (λ u. u.name ≡ "core") j.users)
      × ((b : Bool) → judge.fips ≡ fips_file b → new.fips ≡ b)

  ignition_accepted :
      (i j : IgnitionConfig W)
      → is_ignition_reconcilable judge i j ≡ true
      → All IsWritable j.storage_files
        × (judge.same i.sections.passwd j.sections.passwd ≡ false
            → judge.same_users i.users j.users ≡ false
            → All (λ u. u.name ≡ "core") j.users)
  unfolding is_ignition_reconcilable is_passwd_reconcilable is_storage_reconcilable
  ignition_accepted i j h =
      (writable j.storage_files (ground (arith, h)), λ p u. core j.users (ground (arith, h, p, u)))

  -- The setting of the node is the one that is wanted.
  fips_accepted :
      (f : FipsFile) (current desired fips b : Bool)
      → check_fips f current desired ≡ some fips
      → f ≡ fips_file b
      → desired ≡ b
  unfolding check_fips
  fips_accepted f current desired fips b h e =
      go desired b (subst (λ g. check_fips g current desired ≡ some fips) e h)
    where
      go : (x y : Bool) → (if bool_eq x y then some y else none) ≡ some fips → x ≡ y
      go true true h = refl
      go false false h = refl
      go true false h = absurd cc
      go false true h = absurd cc

  -- Where two configurations that can be parsed are reconcilable, no file of the new one appends or is
  -- the force file, its users are all named core unless the users or the section of them are the same,
  -- and its FIPS setting is the one that the node has a file for.
  pub reconcilable-Accepted :
      (old new : ConfigSpec V) (i j : IgnitionConfig W) (d : MachineConfigDiff)
      → judge.parse old.raw ≡ some i
      → judge.parse new.raw ≡ some j
      → reconcilable judge old new ≡ some d
      → Accepted new i j
  unfolding reconcilable
  reconcilable-Accepted old new i j d e k h =
      accepted (is_ignition_reconcilable judge i j) (check_fips judge.fips old.fips new.fips) refl
        refl
        (subst (λ x. with_configs judge old new x (some j) ≡ some d) e
          (subst (λ y. with_configs judge old new (judge.parse old.raw) y ≡ some d) k h))
    where
      accepted :
          (b : Bool) (o : Option Bool)
          → is_ignition_reconcilable judge i j ≡ b
          → check_fips judge.fips old.fips new.fips ≡ o
          → (if not b then none else with_fips judge old new o) ≡ some d
          → Accepted new i j
      accepted true (some f) b o h = (
        (ignition_accepted i j b).0,
        (ignition_accepted i j b).1,
        λ x e'. fips_accepted judge.fips old.fips new.fips f x o e',
      )
      accepted true none b o h = absurd cc
      accepted false o b o' h = absurd cc
