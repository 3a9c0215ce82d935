-- ===== src/Operator/Skew.antt =====
-- isKubeletSkewSupported of pkg/operator/status.go, with the parsing of versions and the nodes that the
-- operator manages.
pub mod Behind
use Prim.Native.Char.{Char, code}
use openshift_machine_config.Common.{
  ℕ, ℤ, pos, negsuc, ◌+◌, ◌-◌, ◌*◌, ◌^◌, zero, suc, String, ◌==◌, Bool, true, false, ◌&&◌, not,
  Option, none, some, List, [], ◌∷◌, ◌++◌, map, select, ltb, leb, nat_eq, if◌then◌else◌,
}
use openshift_machine_config.Common.StringMap.{StringMap}
use openshift_machine_config.Common.Texts.{split_on}
use openshift_machine_config.Kube.{Pool}

is_digit : Char → Bool
is_digit c = leb 48 (code c) && leb (code c) 57

parse_digits : ℕ → String → Option ℕ
unfolding is_digit
parse_digits n String.[] = some n
parse_digits n (String.◌∷◌ c s) =
    let rest = parse_digits (n * 10 + (code c - 48)) s in if is_digit c then rest else none

abbrev in_range : ℕ → Option ℕ → Option ℕ
in_range most none = none
in_range most (some n) = if leb n most then some n else none

abbrev minus : Option ℕ → Option ℤ
minus none = none
minus (some zero) = some (pos 0)
minus (some (suc n)) = some (negsuc n)

abbrev plus : Option ℕ → Option ℤ
plus none = none
plus (some n) = some (pos n)

-- At least one digit.
parse_some : String → Option ℕ
unfolding parse_digits
parse_some String.[] = none
parse_some (String.◌∷◌ c s) = parse_digits 0 (String.◌∷◌ c s)

-- strconv.ParseInt(s, 10, 32)
unfoldable pub parse_int : String → Option ℤ
unfolding parse_some
parse_int String.[] = none
parse_int (String.◌∷◌ c s) =
    if nat_eq (code c) 45
    then minus (in_range (2 ^ 31) (parse_some s))
    else if nat_eq (code c) 43
    then plus (in_range (2 ^ 31 - 1) (parse_some s))
    else plus (in_range (2 ^ 31 - 1) (parse_some (String.◌∷◌ c s)))

abbrev second_int : List String → Option ℤ
second_int [] = none
second_int (a ∷ []) = none
second_int (a ∷ b ∷ rest) = parse_int b

unfoldable pub get_minor_kubelet_version : String → Option ℤ
unfolding split_on
get_minor_kubelet_version version = second_int (split_on 46 version)

abbrev pub plus_two : ℤ → ℤ
plus_two (pos n) = pos (n + 2)
plus_two (negsuc zero) = pos 1
plus_two (negsuc (suc zero)) = pos 0
plus_two (negsuc (suc (suc n))) = negsuc n

abbrev pub int_lt : ℤ → ℤ → Bool
int_lt (pos a) (pos b) = ltb a b
int_lt (pos a) (negsuc b) = false
int_lt (negsuc a) (pos b) = true
int_lt (negsuc a) (negsuc b) = ltb b a

abbrev pub int_eq : ℤ → ℤ → Bool
int_eq (pos a) (pos b) = nat_eq a b
int_eq (pos a) (negsuc b) = false
int_eq (negsuc a) (pos b) = false
int_eq (negsuc a) (negsuc b) = nat_eq a b

pub data Skew : Type 0 where
  unchecked supported unsupported present : Skew

abbrev pub is_no_text : String → Bool
is_no_text s = s == ""

-- After the loop: the version of the last node, and whether one could not be parsed.
abbrev pub after_nodes : String → Bool → Skew
after_nodes version failed =
    if is_no_text version then unchecked else if failed then unchecked else supported

-- A version that was parsed, or not.
abbrev pub skew_of : ℤ → Option ℤ → Skew → Skew → Skew
skew_of api none on_error rest = on_error
skew_of api (some m) on_error rest =
    if int_lt (plus_two m) api
    then unsupported
    else if int_eq (plus_two m) api
    then present
    else rest

-- The loop over the versions of the kubelets, with the version of the last node and the last error.
unfoldable pub check_kubelets : ℤ → List String → String → Bool → Skew
check_kubelets api [] version failed = after_nodes version failed
check_kubelets api (v ∷ versions) version failed =
    let on_error = check_kubelets api versions v true in
    let rest = check_kubelets api versions v failed in
    if is_no_text v then rest else skew_of api (get_minor_kubelet_version v) on_error rest

-- The version that the operator of the API server reports: the first one of its name, or none.
unfoldable pub api_server_version : List (String × String) → String
api_server_version [] = ""
api_server_version ((n, v) ∷ versions) =
    if n == "kube-apiserver" then v else api_server_version versions

-- A node, with its labels and the version of its kubelet.
pub record KubeletNode : Type 0 where
  pub labels : StringMap
  pub kubelet_version : String

-- `selector` is metav1.LabelSelectorAsSelector for a pool, none on its error, and `nodes` what the
-- lister has, none where it fails.
abbrev pub select_nodes :
    Option (StringMap → Bool)
    → Option (List KubeletNode)
    → Option (List KubeletNode)
    → Option (List KubeletNode)
select_nodes none nodes rest = none
select_nodes (some s) none rest = none
select_nodes (some s) (some nodes) none = none
select_nodes (some s) (some nodes) (some rest) = some (select (λ n. s n.labels) nodes ++ rest)

unfoldable pub get_all_managed_nodes :
    (Pool → Option (StringMap → Bool))
    → Option (List KubeletNode)
    → List Pool
    → Option (List KubeletNode)
get_all_managed_nodes selector nodes [] = some []
get_all_managed_nodes selector nodes (p ∷ pools) =
    select_nodes (selector p) nodes (get_all_managed_nodes selector nodes pools)

-- An error of the nodes is kept in a variable that the end overwrites.
abbrev pub kubelet_versions : Option (List KubeletNode) → List String
kubelet_versions none = []
kubelet_versions (some nodes) = map (λ n. n.kubelet_version) nodes

abbrev pub skew_at : Option ℤ → List String → Skew
skew_at none versions = unchecked
skew_at (some api) versions = check_kubelets api versions "" false

abbrev pub skew_against : Option (List (String × String)) → List String → Skew
skew_against none versions = unchecked
skew_against (some vs) versions =
    if is_no_text (api_server_version vs)
    then unchecked
    else skew_at (get_minor_kubelet_version (api_server_version vs)) versions

-- `api_server` has the versions of the operator of the API server, none where it cannot be read.
unfoldable pub is_kubelet_skew_supported :
    Option (List (String × String)) → Option (List KubeletNode) → Skew
is_kubelet_skew_supported api_server managed = skew_against api_server (kubelet_versions managed)
