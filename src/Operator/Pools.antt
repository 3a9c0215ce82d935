-- ===== src/Operator/Pools.antt =====
-- The pools as pkg/operator reads them: isPoolStatusConditionTrue and one round of the poll of
-- syncRequiredMachineConfigPools of sync.go, and isMachineConfigPoolConfigurationValid and
-- machineConfigPoolStatus of status.go.
pub mod Valid
pub mod Rounds
use openshift_machine_config.Common.{
  ℕ, String, ◌==◌, Bool, true, false, ◌&&◌, ◌||◌, not, Option, none, some, is_some, List, [], ◌∷◌,
  map, leb, if◌then◌else◌, is_empty,
}
use openshift_machine_config.Common.StringMap.{StringMap, get}
use openshift_machine_config.Kube.{Pool, Condition, ObjectReference, status_true}
use openshift_machine_config.Conditions.{is_condition_true, get_pool_condition}

-- The texts that machineConfigPoolStatus prints, with what they quote.
pub data PoolReport : Type 0 where
  render_degraded node_degraded : Option Condition → PoolReport
  all_at : ℕ → String → PoolReport
  updating_to : ℕ → ℕ → ℕ → String → PoolReport
  unknown : PoolReport

unfoldable pub machine_config_pool_status : Pool → PoolReport
machine_config_pool_status pool =
    let s = pool.status in
    if is_condition_true s.conditions "RenderDegraded"
    then render_degraded (get_pool_condition s.conditions "RenderDegraded")
    else if is_condition_true s.conditions "NodeDegraded"
    then node_degraded (get_pool_condition s.conditions "NodeDegraded")
    else if is_condition_true s.conditions "Updated"
    then all_at s.machine_count s.configuration.name
    else if is_condition_true s.conditions "Updating"
    then updating_to s.updated_machine_count s.ready_machine_count s.machine_count
        pool.configuration.name
    else unknown

-- The first condition of the type decides.
abbrev pub first_is_true : String → List Condition → Bool
first_is_true t [] = false
first_is_true t (c ∷ cs) = if c.type == t then c.status == status_true else first_is_true t cs

unfoldable pub is_pool_status_condition_true : Pool → String → Bool
is_pool_status_condition_true pool t = first_is_true t pool.status.conditions

abbrev pub generated_by_controller_version_key : String
generated_by_controller_version_key =
    "machineconfiguration.openshift.io/generated-by-controller-version"

abbrev pub release_image_version_key : String
release_image_version_key = "machineconfiguration.openshift.io/release-image-version"

abbrev pub os_image_url_overridden_key : String
os_image_url_overridden_key = "machineconfiguration.openshift.io/os-image-url-overridden"

pub record RenderedConfig : Type 0 where
  pub annotations : StringMap
  pub os_image_url : String

-- Why a configuration is not valid; none where it is.
pub data Invalid : Type 0 where
  empty_spec empty_status empty_source not_got no_version version_mismatch : Invalid
  os_image_mismatch release_mismatch no_release : Invalid

abbrev pub or_next : Option Invalid → Option Invalid → Option Invalid
or_next none rest = rest
or_next (some e) rest = some e

-- The versions that are looked for; `mcs` is the getter of machine configs, none on its error.
pub record Wanted : Type 0 where
  pub version : String
  pub release_version : String
  pub os_url : String
  pub mcs : String → Option RenderedConfig

-- The round of the loop for one machine config, which is the rendered one or a source.
abbrev pub check_version : String → Bool → Option String → Option Invalid
check_version version is_rendered none = if is_rendered then some no_version else none
check_version version is_rendered (some v) =
    if not (v == version) then some version_mismatch else none

abbrev pub check_config : String → Bool → Option RenderedConfig → Option Invalid
check_config version is_rendered none = some not_got
check_config version is_rendered (some mc) =
    check_version version is_rendered (get mc.annotations generated_by_controller_version_key)

unfoldable pub check_versions : Wanted → String → List String → Option Invalid
check_versions w rendered [] = none
check_versions w rendered (name ∷ names) =
    or_next (check_config w.version (rendered == name) (w.mcs name))
      (check_versions w rendered names)

abbrev pub check_release : String → Option String → Option Invalid
check_release release none = some no_release
check_release release (some v) = if not (v == release) then some release_mismatch else none

abbrev pub check_rendered : Wanted → Option RenderedConfig → Option Invalid
check_rendered w none = some not_got
check_rendered w (some mc) =
    or_next
      (if not (mc.os_image_url == w.os_url)
          && not (is_some (get mc.annotations os_image_url_overridden_key))
        then some os_image_mismatch
        else none)
      (check_release w.release_version (get mc.annotations release_image_version_key))

unfoldable pub is_machine_config_pool_configuration_valid : Wanted → Pool → Option Invalid
is_machine_config_pool_configuration_valid w pool =
    let current = pool.status.configuration in
    if pool.configuration.name == ""
    then some empty_spec
    else if current.name == ""
    then some empty_status
    else if is_empty current.source
    then some empty_source
    else or_next (check_versions w current.name (current.name ∷ map (λ s. s.name) current.source))
        (check_rendered w (w.mcs current.name))

abbrev pub required_for_upgrade_label : String
required_for_upgrade_label = "operator.machineconfiguration.openshift.io/required-for-upgrade"

abbrev pub is_required : Pool → Bool
is_required pool = is_some (get pool.labels required_for_upgrade_label)

-- How a round of the poll ends: done, to be tried again, or with an error that ends the poll.
pub data Poll : Type 0 where
  ready again paused_error metrics_error : Poll

abbrev pub is_ready : Pool → Bool
is_ready pool =
    leb pool.generation pool.status.observed_generation
    && is_pool_status_condition_true pool "Updated"

-- A required pool in the loop: none is `continue`.
abbrev pub poll_required : Option Wanted → Pool → Option Poll
poll_required none pool = some again
poll_required (some w) pool =
    if is_some (is_machine_config_pool_configuration_valid w pool)
    then some again
    else if is_ready pool
    then none
    else some (if pool.paused then paused_error else again)

abbrev pub or_poll : Option Poll → Poll → Poll
or_poll none rest = rest
or_poll (some p) rest = p

-- `wanted` is none where the image URLs cannot be read.
unfoldable pub poll_pools : Option Wanted → List Pool → Poll
poll_pools wanted [] = ready
poll_pools wanted (p ∷ pools) =
    let rest = poll_pools wanted pools in
    if is_pool_status_condition_true p "Degraded"
    then again
    else if is_required p
    then or_poll (poll_required wanted p) rest
    else rest

-- How the report of the last error to the cluster operator ends.
pub data ErrorReport : Type 0 where
  fetch_failed no_operator update_failed reported : ErrorReport

abbrev pub is_reported : ErrorReport → Bool
is_reported reported = true
is_reported _ = false

-- What a round finds: whether the metrics are synced, whether an error is left of an earlier round, how
-- its report ends, and the pools, none where the lister fails.
pub record Round : Type 0 where
  pub metrics_synced : Bool
  pub has_last_error : Bool
  pub error_report : ErrorReport
  pub listed : Option (List Pool)

abbrev pub poll_listed : Option Wanted → Option (List Pool) → Poll
poll_listed wanted none = again
poll_listed wanted (some pools) = poll_pools wanted pools

-- A round of the poll of syncRequiredMachineConfigPools.
unfoldable pub poll_round : Option Wanted → Round → Poll
poll_round wanted r =
    if not r.metrics_synced
    then metrics_error
    else if r.has_last_error && not (is_reported r.error_report)
    then again
    else poll_listed wanted r.listed
