-- ===== src/ResourceMerge/Values/Laws.antt =====
-- What each setter promises: to say so when it changes a value, and to settle after one call.
use openshift_machine_config.Common.{
  ℤ, pos, negsuc, ◌≡◌, refl, ==_iff, Bool, true, false, Option, none, some, arith,
}
use openshift_machine_config.ResourceMerge.Values.{
  Machinery, int_eq, set_bool, set_bool_ptr, set_int32, set_int32_ptr, set_int64, set_int64_ptr,
  set_bytes_if_set, set_ip_families_if_set, set_string_slice_if_set, set_resource_list_if_set,
  ensure_probe_handler,
}

module _ {A : Type 0} (f : Bool → A → A → Bool × A) where
  -- Where `modified` comes out false, it was false and the value is what it was.
  abbrev pub IsHonest : Type 0
  IsHonest = (m : Bool) (e r : A) → (f m e r).0 ≡ false → (m ≡ false) × ((f m e r).1 ≡ e)

  -- A second call with the same requirement changes nothing and reports nothing.
  abbrev pub Settles : Type 0
  Settles = (m : Bool) (e r : A) → f false (f m e r).1 r ≡ (false, (f m e r).1)

  -- What is required already is left alone.
  abbrev pub IsStable : Type 0
  IsStable = (r : A) → f false r r ≡ (false, r)

-- All three.
pub record IsMerge {A : Type 0} (f : Bool → A → A → Bool × A) : Type 0 where
  pub honest : IsHonest f
  pub settles : Settles f
  pub stable : IsStable f

-- What the code relies on of the functions that it calls.
pub record Lawful (k : Machinery) : Type 0 where
  pub deep_equal_refl : (v : k.Value) → k.deep_equal v v ≡ true
  pub strings : IsMerge k.set_string_if_set
  pub maps : IsMerge k.merge_map
  pub metas : IsMerge k.ensure_object_meta

int_eq_refl : (a : ℤ) → int_eq a a ≡ true
int_eq_refl (pos n) = ground arith
int_eq_refl (negsuc n) = ground arith

int_eq→≡ : (a b : ℤ) → int_eq a b ≡ true → a ≡ b
int_eq→≡ (pos m) (pos n) h = ground arith
int_eq→≡ (pos m) (negsuc n) h = cc
int_eq→≡ (negsuc m) (pos n) h = cc
int_eq→≡ (negsuc m) (negsuc n) h = ground arith

pub set_bool-IsMerge : IsMerge set_bool
unfolding set_bool
set_bool-IsMerge = record {
  honest = λ m e r. ground arith;
  settles = λ m e r. ground arith;
  stable = λ r. ground arith;
}

pub set_bool_ptr-IsMerge : IsMerge set_bool_ptr
unfolding set_bool_ptr set_bool
set_bool_ptr-IsMerge = record { honest = go; settles = again; stable = still }
  where
    go : IsHonest set_bool_ptr
    go m e none = ground arith
    go m none (some r) = ground arith
    go m (some e) (some r) = ground arith

    again : Settles set_bool_ptr
    again m e none = ground arith
    again m none (some r) = ground arith
    again m (some e) (some r) = ground arith

    still : IsStable set_bool_ptr
    still none = refl
    still (some r) = ground arith

pub set_int64-IsMerge : IsMerge set_int64
unfolding set_int64
set_int64-IsMerge = record {
  honest = λ m e r. ground arith;
  settles = λ m e r. ground (arith, int_eq_refl r);
  stable = λ r. ground (arith, int_eq_refl r);
}

pub set_int64_ptr-IsMerge : IsMerge set_int64_ptr
unfolding set_int64_ptr set_int64
set_int64_ptr-IsMerge = record { honest = go; settles = again; stable = still }
  where
    go : IsHonest set_int64_ptr
    go m e none = ground arith
    go m none (some r) = ground arith
    go m (some e) (some r) = ground arith

    again : Settles set_int64_ptr
    again m e none = ground arith
    again m none (some r) = ground (arith, int_eq_refl r)
    again m (some e) (some r) = ground (arith, int_eq_refl r)

    still : IsStable set_int64_ptr
    still none = refl
    still (some r) = ground (arith, int_eq_refl r)

pub set_int32-IsMerge : IsMerge set_int32
unfolding set_int32
set_int32-IsMerge = record {
  honest = λ m e r. ground arith;
  settles = λ m e r. ground (arith, int_eq_refl r);
  stable = λ r. ground (arith, int_eq_refl r);
}

-- Where a number is required, setInt32Ptr settles; where none is and none exists it reports a change
-- on every call.
pub set_int32_ptr-some :
    (m : Bool) (e : Option ℤ) (r : ℤ)
    → (set_int32_ptr false (set_int32_ptr m e (some r)).1 (some r)
        ≡ (false, (set_int32_ptr m e (some r)).1))
      × ((set_int32_ptr m e (some r)).1 ≡ some r)
      × (set_int32_ptr m none none ≡ (true, none))
unfolding set_int32_ptr set_int32
set_int32_ptr-some m none r = ground (arith, int_eq_refl r)
set_int32_ptr-some m (some e) r = ground (arith, int_eq_refl r, int_eq→≡ r e)

pub set_bytes_if_set-IsMerge : IsMerge set_bytes_if_set
unfolding set_bytes_if_set
set_bytes_if_set-IsMerge = record {
  honest = λ m e r. ground arith;
  settles = λ m e r. ground (arith, ==_iff r r);
  stable = λ r. ground (arith, ==_iff r r);
}

pub set_ip_families_if_set-IsMerge : IsMerge set_ip_families_if_set
unfolding set_ip_families_if_set
set_ip_families_if_set-IsMerge = record {
  honest = λ m e r. ground arith;
  settles = λ m e r. ground (arith, ==_iff r r);
  stable = λ r. ground (arith, ==_iff r r);
}

module _ (k : Machinery) (law : Lawful k) where
  pub set_string_slice_if_set-IsMerge : IsMerge (set_string_slice_if_set k)
  unfolding set_string_slice_if_set
  set_string_slice_if_set-IsMerge = record {
    honest = λ m e r. ground arith;
    settles = λ m e r. ground (arith, law.deep_equal_refl r);
    stable = λ r. ground (arith, law.deep_equal_refl r);
  }

  pub set_resource_list_if_set-IsMerge : IsMerge (set_resource_list_if_set k)
  unfolding set_resource_list_if_set
  set_resource_list_if_set-IsMerge = record {
    honest = λ m e r. ground arith;
    settles = λ m e r. ground (arith, law.deep_equal_refl r);
    stable = λ r. ground (arith, law.deep_equal_refl r);
  }

  pub ensure_probe_handler-IsMerge : IsMerge (ensure_probe_handler k)
  unfolding ensure_probe_handler
  ensure_probe_handler-IsMerge = record {
    honest = λ m e r. ground arith;
    settles = λ m e r. ground (arith, law.deep_equal_refl r);
    stable = λ r. ground (arith, law.deep_equal_refl r);
  }
