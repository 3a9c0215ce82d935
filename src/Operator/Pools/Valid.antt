-- ===== src/Operator/Pools/Valid.antt =====
-- What a pool is that the operator accepts, and what a round of the poll has seen that ends it.
use openshift_machine_config.Common.{
  ◌≡◌, ◌≢◌, refl, ◌↔◌, ◌≤◌, String, ◌==◌, ==_iff, Bool, true, false, Option, none, some, is_some,
  List, [], ◌∷◌, map, arith, All, ◌⊎◌, is_empty, if◌then◌else◌,
}
use openshift_machine_config.Common.StringMap.{get}
use openshift_machine_config.Kube.{Pool}
use openshift_machine_config.Operator.Pools.{
  Wanted, RenderedConfig, Invalid, empty_spec, empty_status, empty_source, Poll, ready, again,
  paused_error, or_poll, check_config, or_next, check_version, check_versions, check_rendered,
  check_release, is_machine_config_pool_configuration_valid, poll_pools, is_required,
  is_pool_status_condition_true, is_ready, generated_by_controller_version_key,
  release_image_version_key, os_image_url_overridden_key,
}

-- A config says that the controller of the version has made it, or it says nothing and is a source.
abbrev pub VersionSuits : String → Bool → Option String → Type 0
VersionSuits version is_rendered none = is_rendered ≡ false
VersionSuits version is_rendered (some v) = v ≡ version

abbrev pub ConfigSuits : String → Bool → Option RenderedConfig → Type 0
ConfigSuits version is_rendered none = ⊥
ConfigSuits version is_rendered (some mc) =
    VersionSuits version is_rendered (get mc.annotations generated_by_controller_version_key)

-- The rendered config has the image of the release, or one that overrides it, and names the release.
abbrev pub RenderedSuits : Wanted → Option RenderedConfig → Type 0
RenderedSuits w none = ⊥
RenderedSuits w (some mc) =
    ((mc.os_image_url ≡ w.os_url)
      ⊎ (is_some (get mc.annotations os_image_url_overridden_key) ≡ true))
    × (get mc.annotations release_image_version_key ≡ some w.release_version)

check_version_iff :
    (version : String) (b : Bool) (o : Option String)
    → (check_version version b o ≡ none) ↔ VersionSuits version b o
check_version_iff version b none = ground arith
check_version_iff version b (some v) = ground (arith, ==_iff v version)

check_config_iff :
    (version : String) (b : Bool) (o : Option RenderedConfig)
    → (check_config version b o ≡ none) ↔ ConfigSuits version b o
check_config_iff version b none = ((λ e. absurd (cc e)), (λ e. absurd e))
check_config_iff version b (some mc) =
    check_version_iff version b (get mc.annotations generated_by_controller_version_key)

or_next_iff : (a b : Option Invalid) → (or_next a b ≡ none) ↔ ((a ≡ none) × (b ≡ none))
or_next_iff none b = ((λ e. (refl, e)), (λ h. h.1))
or_next_iff (some x) b = ((λ e. absurd (cc e)), (λ h. absurd (cc h.0)))

check_versions_iff :
    (w : Wanted) (rendered : String) (names : List String)
    → (check_versions w rendered names ≡ none)
      ↔ All (λ name. ConfigSuits w.version (rendered == name) (w.mcs name)) names
unfolding check_versions
check_versions_iff w rendered [] = ((λ e. tt), (λ e. refl))
check_versions_iff w rendered (name ∷ names) =
    let (to, from) = check_config_iff w.version (rendered == name) (w.mcs name) in
    let (rest_to, rest_from) = check_versions_iff w rendered names in
    let (both, join) =
      or_next_iff (check_config w.version (rendered == name) (w.mcs name))
        (check_versions w rendered names) in
    ((λ e. (to (both e).0, rest_to (both e).1)), (λ h. join (from h.0, rest_from h.1)))

check_release_iff :
    (release : String) (o : Option String) → (check_release release o ≡ none) ↔ (o ≡ some release)
check_release_iff release none = ((λ e. absurd (cc e)), (λ e. absurd (cc e)))
check_release_iff release (some v) = ground (arith, ==_iff v release)

check_rendered_iff :
    (w : Wanted) (o : Option RenderedConfig) → (check_rendered w o ≡ none) ↔ RenderedSuits w o
check_rendered_iff w none = ((λ e. absurd (cc e)), (λ e. absurd e))
check_rendered_iff w (some mc) = ground (
  arith,
  check_release_iff w.release_version (get mc.annotations release_image_version_key),
  ==_iff mc.os_image_url w.os_url,
)

differs : (s t : String) → (s == t) ≡ false → s ≢ t
differs s t h = ground (arith, h, ==_iff s t)

-- The names of the configuration that the nodes of the pool are at: the rendered one and its sources.
abbrev pub config_names : Pool → List String
config_names pool =
    pool.status.configuration.name ∷ map (λ s. s.name) pool.status.configuration.source

-- What the operator asks of a pool.
abbrev pub IsAcceptable : Wanted → Pool → Type 0
IsAcceptable w pool =
    (pool.configuration.name ≢ "")
    × (pool.status.configuration.name ≢ "")
    × (is_empty pool.status.configuration.source ≡ false)
    × All (λ name. ConfigSuits w.version (pool.status.configuration.name == name) (w.mcs name))
        (config_names pool)
    × RenderedSuits w (w.mcs pool.status.configuration.name)

-- The checks of the configuration of a pool, each by whether it is passed.
checks_iff :
    (a b c : Bool) (rest : Option Invalid)
    → ((if a
          then some empty_spec
          else if b
          then some empty_status
          else if c
          then some empty_source
          else rest)
        ≡ none)
      ↔ ((a ≡ false) × (b ≡ false) × (c ≡ false) × (rest ≡ none))
checks_iff a b c rest = ground arith

-- The configuration of a pool is valid exactly where it is.
pub is_machine_config_pool_configuration_valid_iff :
    (w : Wanted) (pool : Pool)
    → (is_machine_config_pool_configuration_valid w pool ≡ none) ↔ IsAcceptable w pool
unfolding is_machine_config_pool_configuration_valid
is_machine_config_pool_configuration_valid_iff w pool =
    let name = pool.status.configuration.name in
    let versions = check_versions w name (config_names pool) in
    let rendered = check_rendered w (w.mcs name) in
    let (out, back) =
      checks_iff (pool.configuration.name == "") (name == "")
        (is_empty pool.status.configuration.source) (or_next versions rendered) in
    let (both, join) = or_next_iff versions rendered in
    let (to, from) = check_versions_iff w name (config_names pool) in
    let (to_rendered, from_rendered) = check_rendered_iff w (w.mcs name) in
    (
      (λ e.
          let (a, b, c, r) = out e in
          (
            differs pool.configuration.name "" a,
            differs name "" b,
            c,
            to (both r).0,
            to_rendered (both r).1,
          )),
      (λ h.
          let (a, b, c, v, r) = h in
          back (
            ground (arith, a, ==_iff pool.configuration.name ""),
            ground (arith, b, ==_iff name ""),
            c,
            join (from v, from_rendered r),
          )),
    )

-- A pool that does not stop the poll: it is not degraded, and if it is required it is accepted, its
-- generation has been seen, and its nodes are updated.
abbrev pub HasArrived : Wanted → Pool → Type 0
HasArrived w pool =
    (is_pool_status_condition_true pool "Degraded" ≡ false)
    × (is_required pool ≡ true
        → IsAcceptable w pool
          × (pool.generation ≤ pool.status.observed_generation)
          × (is_pool_status_condition_true pool "Updated" ≡ true))

poll_one_iff :
    (degraded required suits paused : Bool) (o : Option Invalid) (rest : Poll)
    → ((if degraded
          then again
          else if required
          then or_poll
              (if is_some o
                then some again
                else if suits
                then none
                else some (if paused then paused_error else again))
              rest
          else rest)
        ≡ ready)
      ↔ ((degraded ≡ false) × (required ≡ true → (o ≡ none) × (suits ≡ true)) × (rest ≡ ready))
poll_one_iff true required suits paused o rest = ((λ e. absurd (cc e)), (λ h. absurd (cc h.0)))
poll_one_iff false false suits paused o rest = ((λ e. (refl, (λ h. absurd (cc h)), e)), (λ h. h.2))
poll_one_iff false true suits paused (some x) rest =
    ((λ e. absurd (cc e)), (λ h. absurd (cc (h.1 refl).0)))
poll_one_iff false true true paused none rest = ((λ e. (refl, (λ h. (refl, refl)), e)), (λ h. h.2))
poll_one_iff false true false true none rest =
    ((λ e. absurd (cc e)), (λ h. absurd (cc (h.1 refl).1)))
poll_one_iff false true false false none rest =
    ((λ e. absurd (cc e)), (λ h. absurd (cc (h.1 refl).1)))

is_ready_iff :
    (p : Pool)
    → (is_ready p ≡ true) ↔ (
        (p.generation ≤ p.status.observed_generation)
        × (is_pool_status_condition_true p "Updated" ≡ true))
is_ready_iff p = ground arith

-- With the image URLs read, a round of the poll ends the wait for the required pools exactly where no
-- pool is degraded and every required pool has a valid configuration, a generation that was seen, and
-- updated nodes. A configuration is valid exactly where the pool names one and its nodes are at one
-- with sources, each config of these is of the version of the controller (a source may name none), and
-- the rendered one has the image of the release, or one that overrides it, and names the release.
pub poll_pools-ready_iff :
    (w : Wanted) (pools : List Pool)
    → (poll_pools (some w) pools ≡ ready) ↔ All (HasArrived w) pools
unfolding poll_pools
poll_pools-ready_iff w [] = ((λ e. tt), (λ e. refl))
poll_pools-ready_iff w (p ∷ pools) =
    let (out, back) =
      poll_one_iff (is_pool_status_condition_true p "Degraded") (is_required p) (is_ready p)
        p.paused (is_machine_config_pool_configuration_valid w p) (poll_pools (some w) pools) in
    let (to, from) = is_machine_config_pool_configuration_valid_iff w p in
    let (seen, unseen) = is_ready_iff p in
    let (rest, rest_back) = poll_pools-ready_iff w pools in
    (
      (λ e.
          let (a, b, c) = out e in
          ((a, λ h. let (v, r) = b h in let (g, u) = seen r in (to v, g, u)), rest c)),
      (λ h.
          let ((a, b), c) = h in
          back (a, λ q. let (v, g, u) = b q in (from v, unseen (g, u)), rest_back c)),
    )
