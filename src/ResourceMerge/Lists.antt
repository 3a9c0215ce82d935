-- ===== src/ResourceMerge/Lists.antt =====
-- The loops of lib/resourcemerge/core.go over values that are told apart by name or key.
use openshift_machine_config.Common.{
  String, ◌==◌, Bool, true, false, not, List, [], ◌∷◌, ◌++◌, if◌then◌else◌, any,
}
use openshift_machine_config.ResourceMerge.Values.{Machinery}

module _ (k : Machinery) where
  open k use {Value, zero_value, name, deep_equal}

  -- One required value: the first existing one of its name is merged with it, or else the zero value
  -- is appended and merged.
  unfoldable pub place :
      (Bool → Value → Value → Bool × Value) → Bool → List Value → Value → Bool × List Value
  place ensure modified [] r = let (m, v) = ensure true zero_value r in (m, v ∷ [])
  place ensure modified (e ∷ es) r =
      let (m, v) = ensure modified e r in
      let (m', rest) = place ensure modified es r in
      if name e == name r then (m, v ∷ es) else (m', e ∷ rest)

  unfoldable pub place_all :
      (Bool → Value → Value → Bool × Value) → Bool → List Value → List Value → Bool × List Value
  place_all ensure modified existing [] = (modified, existing)
  place_all ensure modified existing (r ∷ rs) =
      let (m, es) = place ensure modified existing r in place_all ensure m es rs

  -- `requiredVars[name]`
  abbrev pub is_required : List Value → Value → Bool
  is_required required e = any (λ r. name r == name e) required

  -- The loop, from the end, that removes the environment variables that are not required.
  unfoldable pub remove_extra : Bool → List Value → List Value → Bool × List Value
  remove_extra modified required [] = (modified, [])
  remove_extra modified required (e ∷ es) =
      let (m, rest) = remove_extra modified required es in
      if is_required required e then (m, e ∷ rest) else (true, rest)

  -- The inner loop of ensureTolerations; the first component says whether the key was found.
  unfoldable pub set_toleration :
      (Value → String) → Bool → List Value → Value → Bool × Bool × List Value
  set_toleration key modified [] r = (false, modified, [])
  set_toleration key modified (e ∷ es) r =
      let (found, m, rest) = set_toleration key modified es r in
      if key r == key e
      then if not (deep_equal e r) then (true, true, r ∷ es) else (true, modified, e ∷ es)
      else (found, m, e ∷ rest)

  unfoldable pub ensure_tolerations :
      (Value → String) → Bool → List Value → List Value → Bool × List Value
  ensure_tolerations key modified existing [] = (modified, existing)
  ensure_tolerations key modified existing (r ∷ rs) =
      let (found, m, es) = set_toleration key modified existing r in
      ensure_tolerations key (if found then m else true) (if found then es else existing ++ r ∷ [])
        rs
