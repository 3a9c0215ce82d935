-- ===== src/Update/Reconcile/Diffs.antt =====
-- The files that change between two configurations.
use openshift_machine_config.Common.{
  ◌≡◌, refl, ap, ◌∙◌, String, ◌==◌, ==_iff, Bool, true, false, ◌&&◌, ◌||◌, not, Option, none, some,
  List, [], ◌∷◌, ◌++◌, if◌then◌else◌, select, map, arith, Bool-cases, inl, inr,
}
use openshift_machine_config.Daemon.{in_slice}
use openshift_machine_config.Update.Reconcile.{
  File, Judge, file_at, is_removed, is_changed, calculate_config_file_diffs,
}

in_slice-append :
    (p : String) (xs ys : List String) → in_slice p (xs ++ ys) ≡ (in_slice p xs || in_slice p ys)
unfolding in_slice
in_slice-append p [] ys = refl
in_slice-append p (x ∷ xs) ys = ground (arith, in_slice-append p xs ys)

in_slice-select :
    (q : String → Bool) (p : String) (xs : List String)
    → in_slice p (select q xs) ≡ (in_slice p xs && q p)
unfolding in_slice
in_slice-select q p [] = refl
in_slice-select q p (x ∷ xs) = elim (Bool-cases (x == p)) [
  | inl e ↦
      let h = ap q ((==_iff x p).0 e) in
      elim (Bool-cases (q p)) [
        | inl k ↦ rw (e, h ∙ k, k) (rw e refl)
        | inr k ↦ rw (e, h ∙ k, k) (in_slice-select q p xs ∙ rw k (ground arith))
      ]
  | inr e ↦ ground (arith, e, in_slice-select q p xs)
]

module _ {V W : Type 0} (judge : Judge V W) where
  abbrev is_some : Option (File W) → Bool
  is_some none = false
  is_some (some f) = true

  in_slice-paths :
      (p : String) (fs : List (File W))
      → in_slice p (map (λ f. f.path) fs) ≡ is_some (file_at judge p fs)
  unfolding in_slice file_at
  in_slice-paths p [] = refl
  in_slice-paths p (f ∷ fs) = go (file_at judge p fs) (f.path == p) (in_slice-paths p fs)
    where
      go :
          (o : Option (File W)) (b : Bool)
          → in_slice p (map (λ f. f.path) fs) ≡ is_some o
          → (if b then true else in_slice p (map (λ f. f.path) fs))
            ≡ is_some (elim o [ none ↦ if b then some f else none | some g ↦ some g ])
      go none true e = refl
      go none false e = e
      go (some g) true e = refl
      go (some g) false e = e

  -- Whether two maps hold different files at a path, or only one holds a file.
  abbrev pub differs : Option (File W) → Option (File W) → Bool
  differs none none = false
  differs none (some g) = true
  differs (some f) none = true
  differs (some f) (some g) = not (judge.same_file f g)

  -- A path is among the changed files exactly where one of the configurations has a file at it and the
  -- other has none, or both have and the last of each differ; ranging over a map loses and adds no
  -- key.
  pub calculate_config_file_diffs_lem :
      (order : List String → List String) (old new : List (File W)) (p : String)
      → ((ks : List String) → in_slice p (order ks) ≡ in_slice p ks)
      → in_slice p (calculate_config_file_diffs judge order old new)
        ≡ differs (file_at judge p old) (file_at judge p new)
  unfolding calculate_config_file_diffs
  calculate_config_file_diffs_lem order old new p same =
      let gone = order (map (λ f. f.path) old) in
      let there = order (map (λ f. f.path) new) in
      let changed = λ (q : String). is_changed judge (file_at judge q old) (file_at judge q new) in
      in_slice-append p (select (is_removed judge new) gone) (select changed there)
      ∙ rw
          (
            in_slice-select (is_removed judge new) p gone,
            in_slice-select changed p there,
            same (map (λ f. f.path) old),
            same (map (λ f. f.path) new),
            in_slice-paths p old,
            in_slice-paths p new,
          )
          (go (file_at judge p old) (file_at judge p new))
    where
      go :
          (a b : Option (File W))
          → ((is_some a && elim b [ none ↦ true | some f ↦ false ])
              || (is_some b && is_changed judge a b))
            ≡ differs a b
      go none none = refl
      go none (some g) = refl
      go (some f) none = refl
      go (some f) (some g) = refl
