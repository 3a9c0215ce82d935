-- ===== src/ResourceMerge/Values.antt =====
-- The setters of lib/resourcemerge/core.go and meta.go for single values. A function takes `modified`
-- and the existing value and returns both; a pointer is an `Option`.
pub mod Laws
use openshift_machine_config.Common.{
  ℕ, ℤ, pos, negsuc, String, ◌==◌, Bool, true, false, not, Option, none, some, List, [], ◌∷◌,
  nat_eq, bool_eq, if◌then◌else◌, is_empty,
}
use openshift_machine_config.Common.StringMap.{StringMap}

-- What the code takes from the API machinery: values of the API that it compares, copies and tells
-- apart by name or key, the zero value of such a type, the semantic equality, and the merge
-- functions of library-go.
pub record Machinery : Type 1 where
  pub Value : Type 0
  pub zero_value : Value
  pub is_nil : Value → Bool
  pub name : Value → String
  pub deep_equal : Value → Value → Bool
  pub set_string_if_set : Bool → String → String → Bool × String
  pub merge_map : Bool → StringMap → StringMap → Bool × StringMap
  pub ensure_object_meta : Bool → Value → Value → Bool × Value

abbrev pub int_eq : ℤ → ℤ → Bool
int_eq (pos m) (pos n) = nat_eq m n
int_eq (pos m) (negsuc n) = false
int_eq (negsuc m) (pos n) = false
int_eq (negsuc m) (negsuc n) = nat_eq m n

unfoldable pub set_bool : Bool → Bool → Bool → Bool × Bool
set_bool modified existing required =
    if not (bool_eq required existing) then (true, required) else (modified, existing)

unfoldable pub set_bool_ptr : Bool → Option Bool → Option Bool → Bool × Option Bool
set_bool_ptr modified existing none = (modified, existing)
set_bool_ptr modified none (some r) = (true, some r)
set_bool_ptr modified (some e) (some r) = let (m, v) = set_bool modified e r in (m, some v)

unfoldable pub set_int32 : Bool → ℤ → ℤ → Bool × ℤ
set_int32 modified existing required =
    if not (int_eq required existing) then (true, required) else (modified, existing)

-- Unlike its neighbours it writes a nil that is required.
unfoldable pub set_int32_ptr : Bool → Option ℤ → Option ℤ → Bool × Option ℤ
set_int32_ptr modified none required = (true, required)
set_int32_ptr modified (some e) none = (true, none)
set_int32_ptr modified (some e) (some r) = let (m, v) = set_int32 modified e r in (m, some v)

unfoldable pub set_int64 : Bool → ℤ → ℤ → Bool × ℤ
set_int64 modified existing required =
    if not (int_eq required existing) then (true, required) else (modified, existing)

unfoldable pub set_int64_ptr : Bool → Option ℤ → Option ℤ → Bool × Option ℤ
set_int64_ptr modified existing none = (modified, existing)
set_int64_ptr modified none (some r) = (true, some r)
set_int64_ptr modified (some e) (some r) = let (m, v) = set_int64 modified e r in (m, some v)

-- Bytes and address families as texts.
unfoldable pub set_bytes_if_set : Bool → String → String → Bool × String
set_bytes_if_set modified existing required =
    if required == ""
    then (modified, existing)
    else if not (required == existing)
    then (true, required)
    else (modified, existing)

unfoldable pub set_ip_families_if_set : Bool → String → String → Bool × String
set_ip_families_if_set modified existing required =
    if required == ""
    then (modified, existing)
    else if not (required == existing)
    then (true, required)
    else (modified, existing)

module _ (k : Machinery) where
  open k use {Value, is_nil, deep_equal}

  -- A slice of texts; nil leaves the existing one.
  unfoldable pub set_string_slice_if_set : Bool → Value → Value → Bool × Value
  set_string_slice_if_set modified existing required =
      if is_nil required
      then (modified, existing)
      else if not (deep_equal required existing)
      then (true, required)
      else (modified, existing)

  unfoldable pub set_resource_list_if_set : Bool → Value → Value → Bool × Value
  set_resource_list_if_set modified existing required =
      if is_nil required
      then (modified, existing)
      else if not (deep_equal required existing)
      then (true, required)
      else (modified, existing)

  unfoldable pub ensure_probe_handler : Bool → Value → Value → Bool × Value
  ensure_probe_handler modified existing required =
      if not (deep_equal required existing) then (true, required) else (modified, existing)

  unfoldable pub ensure_container_port : Bool → Value → Value → Bool × Value
  ensure_container_port modified existing required =
      if not (deep_equal required existing) then (true, required) else (modified, existing)

  unfoldable pub ensure_env_var : Bool → Value → Value → Bool × Value
  ensure_env_var modified existing required =
      if not (deep_equal required existing) then (true, required) else (modified, existing)

  unfoldable pub ensure_volume_mount : Bool → Value → Value → Bool × Value
  ensure_volume_mount modified existing required =
      if not (deep_equal required existing) then (true, required) else (modified, existing)

  unfoldable pub ensure_volume : Bool → Value → Value → Bool × Value
  ensure_volume modified existing required =
      if not (deep_equal required existing) then (true, required) else (modified, existing)
