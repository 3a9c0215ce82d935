-- ===== src/Operator/Skew/Behind.antt =====
-- Which node decides on the skew of the kubelets.
use openshift_machine_config.Common.{
  ℤ, ◌≡◌, String, Bool, true, false, not, ◌&&◌, ◌||◌, any, is_some, Option, none, some, List, [],
  ◌∷◌, arith, if◌then◌else◌,
}
use openshift_machine_config.Operator.Skew.{
  Skew, unsupported, present, get_minor_kubelet_version, plus_two, int_lt, int_eq, is_no_text,
  after_nodes, skew_of, check_kubelets,
}

-- What one version says on its own, if it is two or more minor versions behind.
abbrev pub behind_by : ℤ → Option ℤ → Option Skew
behind_by api none = none
behind_by api (some m) =
    if int_lt (plus_two m) api
    then some unsupported
    else if int_eq (plus_two m) api
    then some present
    else none

abbrev pub verdict : ℤ → String → Option Skew
verdict api v = if is_no_text v then none else behind_by api (get_minor_kubelet_version v)

abbrev pub or_skew : Option Skew → Option Skew → Option Skew
or_skew none rest = rest
or_skew (some s) rest = some s

abbrev pub first_verdict : ℤ → List String → Option Skew
first_verdict api [] = none
first_verdict api (v ∷ versions) = or_skew (verdict api v) (first_verdict api versions)

-- A version that is given and cannot be parsed.
abbrev pub is_unparsed : String → Bool
is_unparsed v = not (is_no_text v) && not (is_some (get_minor_kubelet_version v))

abbrev pub last_of : String → List String → String
last_of last [] = last
last_of last (v ∷ versions) = last_of v versions

abbrev pub or_end : Option Skew → Skew → Skew
or_end none rest = rest
or_end (some s) rest = s

-- The first node that is two or more minor versions behind the API server decides, whatever the nodes
-- after it run. Where there is none, the skew is supported exactly if the last node gives a version
-- and every version that is given can be parsed, and unchecked otherwise.
pub check_kubelets_lem :
    (api : ℤ) (versions : List String) (last : String) (failed : Bool)
    → check_kubelets api versions last failed
      ≡ or_end
          (first_verdict api versions)
          (after_nodes (last_of last versions) (failed || any is_unparsed versions))
unfolding check_kubelets
check_kubelets_lem api [] last failed = ground arith
check_kubelets_lem api (v ∷ versions) last failed =
    go (is_no_text v) (get_minor_kubelet_version v) (check_kubelets_lem api versions v)
  where
    go :
        (b : Bool) (o : Option ℤ)
        → ((f : Bool)
            → check_kubelets api versions v f
              ≡ or_end
                  (first_verdict api versions)
                  (after_nodes (last_of v versions) (f || any is_unparsed versions)))
        → (if b
            then check_kubelets api versions v failed
            else skew_of api o
                (check_kubelets api versions v true)
                (check_kubelets api versions v failed))
          ≡ or_end (or_skew (if b then none else behind_by api o) (first_verdict api versions)) (
              after_nodes
                (last_of v versions)
                (failed || ((not b && not (is_some o)) || any is_unparsed versions)))
    go true o ih = ground (arith, ih failed)
    go false none ih = ground (arith, ih true)
    go false (some m) ih = ground (arith, ih failed)
