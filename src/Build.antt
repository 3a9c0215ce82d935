-- ===== src/Build.antt =====
-- pkg/controller/build/pool_state.go, and what build_controller.go does to a pool: the conditions and the
-- object references by which the build controller keeps track of the image that it builds.
pub mod Updates
pub mod Decisions
pub mod Marks
pub mod Landing
pub mod Machine
pub mod Refs
pub mod Runs
use Prim.Native.String.{◌++◌ as append}
use openshift_machine_config.Common.{
  ℕ, String, ◌==◌, Bool, true, false, ◌&&◌, ◌||◌, not, Option, none, some, List, [], ◌∷◌, ◌++◌,
  if◌then◌else◌, select, any, is_empty,
}
use openshift_machine_config.Common.StringMap.{put, remove}
use openshift_machine_config.Kube.{Condition, ObjectReference, Pool}
use openshift_machine_config.Conditions.{new_condition, get_pool_condition, set_pool_condition}
use openshift_machine_config.Layered.{newest_layered_image_key}

-- getMachineConfigPoolBuildConditions
abbrev pub build_conditions : List String
build_conditions = "BuildFailed" ∷ "BuildPending" ∷ "BuildSuccess" ∷ "Building" ∷ []

abbrev pub is_build_type : String → Bool
is_build_type t = any (λ b. t == b) build_conditions

unfoldable pub is_build_object_ref : ObjectReference → Bool
is_build_object_ref r = if r.kind == "Pod" then true else r.kind == "Build"

abbrev pub same_ref : ObjectReference → ObjectReference → Bool
same_ref r s =
    (r.kind == s.kind)
    && (r.api_version == s.api_version)
    && (r.uid == s.uid)
    && (r.namespace == s.namespace)
    && (r.name == s.name)

abbrev pub sources : Pool → List ObjectReference
sources pool = pool.configuration.source

abbrev pub with_sources : Pool → List ObjectReference → Pool
with_sources pool refs = record pool {
  configuration = record (pool.configuration) { source = refs };
}

-- poolState.MachineConfigPool: the configuration goes into the status.
unfoldable pub machine_config_pool : Pool → Pool
machine_config_pool pool = record pool {
  status = record (pool.status) { configuration = pool.configuration };
}

unfoldable pub set_image_pullspec : String → Pool → Pool
set_image_pullspec pullspec pool = record pool {
  annotations = put pool.annotations newest_layered_image_key pullspec;
}

unfoldable pub clear_image_pullspec : Pool → Pool
clear_image_pullspec pool = record pool {
  annotations = remove pool.annotations newest_layered_image_key;
}

unfoldable pub delete_build_ref_by_name : String → Pool → Pool
delete_build_ref_by_name name pool =
    with_sources pool
      (select (λ r. not (r.name == name) && not (is_build_object_ref r)) (sources pool))

unfoldable pub has_build_object_ref_name : String → Pool → Bool
has_build_object_ref_name name pool =
    any (λ r. (r.name == name) && is_build_object_ref r) (sources pool)

unfoldable pub has_object_ref : ObjectReference → Pool → Bool
has_object_ref ref pool = any (λ r. same_ref r ref) (sources pool)

unfoldable pub has_build_object_ref : ObjectReference → Pool → Bool
has_build_object_ref ref pool = any (λ r. same_ref r ref && is_build_object_ref r) (sources pool)

unfoldable pub delete_all_build_refs : Pool → Pool
delete_all_build_refs pool =
    with_sources pool (select (λ r. r.kind == "MachineConfig") (sources pool))

unfoldable pub delete_object_ref : ObjectReference → Pool → Pool
delete_object_ref ref pool = with_sources pool (select (λ r. not (same_ref r ref)) (sources pool))

unfoldable pub get_build_object_refs : Pool → List ObjectReference
get_build_object_refs pool = select is_build_object_ref (sources pool)

-- ImageBuildRequest.getBuildName
abbrev pub build_name : Pool → String
build_name pool = append "build-" pool.configuration.name

unfoldable pub has_build_object_for_current_machine_config : Pool → Bool
has_build_object_for_current_machine_config pool = has_build_object_ref_name (build_name pool) pool

unfoldable pub delete_build_ref_for_current_machine_config : Pool → Pool
delete_build_ref_for_current_machine_config pool = delete_build_ref_by_name (build_name pool) pool

-- None where the code returns an error: a kind that is not of a build, or a build already there.
unfoldable pub add_build_object_ref : ObjectReference → Pool → Option Pool
add_build_object_ref ref pool =
    if not (is_build_object_ref ref)
    then none
    else if not (is_empty (get_build_object_refs pool))
    then none
    else some (with_sources pool (sources pool ++ ref ∷ []))

-- Two conditions that agree but for the time.
abbrev pub is_condition_equal : Condition → Condition → Bool
is_condition_equal c d =
    (c.type == d.type)
    && (c.status == d.status)
    && (c.message == d.message)
    && (c.reason == d.reason)

abbrev pub with_conditions : Pool → List Condition → Pool
with_conditions pool cs = record pool { status = record (pool.status) { conditions = cs } }

abbrev pub is_current : Option Condition → Condition → Bool
is_current none c = false
is_current (some current) c = is_condition_equal current c

-- One round of SetBuildConditions; `c.last_transition_time` is the time of the new condition.
unfoldable pub set_build_condition : List Condition → Condition → List Condition
set_build_condition cs c =
    if is_current (get_pool_condition cs c.type) c
    then cs
    else set_pool_condition cs
        (new_condition c.last_transition_time c.type c.status c.reason c.message)

unfoldable pub set_build_conditions : List Condition → List Condition → List Condition
set_build_conditions cs [] = cs
set_build_conditions cs (c ∷ news) = set_build_conditions (set_build_condition cs c) news

unfoldable pub clear_all_build_conditions : List Condition → List Condition
clear_all_build_conditions cs = select (λ c. not (is_build_type c.type)) cs

unfoldable pub get_all_build_conditions : Pool → List Condition
get_all_build_conditions pool = select (λ c. is_build_type c.type) pool.status.conditions
