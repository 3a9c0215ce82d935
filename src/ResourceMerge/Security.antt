-- ===== src/ResourceMerge/Security.antt =====
-- The security contexts, capabilities, probes and affinities of lib/resourcemerge/core.go.
pub mod Laws
use openshift_machine_config.Common.{
  ℤ, String, ◌==◌, Bool, true, false, ◌||◌, not, Option, none, some, List, [], ◌∷◌, ◌++◌,
  if◌then◌else◌, any,
}
use openshift_machine_config.ResourceMerge.Values.{
  Machinery, int_eq, set_bool_ptr, set_int32, set_int64_ptr, ensure_probe_handler,
}

-- The three steps that every `…Ptr` function of the file takes around its own merge.
abbrev pub at_pointer :
    {A : Type 0} → (Bool → A → A → Bool × A) → Bool → Option A → Option A → Bool × Option A
at_pointer ensure modified existing none = (modified, existing)
at_pointer ensure modified none (some r) = (true, some r)
at_pointer ensure modified (some e) (some r) = let (m, v) = ensure modified e r in (m, some v)

-- The loop `for required … found … append`, for values that are compared by a test.
unfoldable pub add_missing : {A : Type 0} → (A → A → Bool) → Bool → List A → List A → Bool × List A
add_missing same modified existing [] = (modified, existing)
add_missing same modified existing (r ∷ rs) =
    let found = any (λ e. same e r) existing in
    add_missing same (if found then modified else true)
      (if found then existing else existing ++ r ∷ []) rs

unfoldable pub merge_string_slice : Bool → List String → List String → Bool × List String
merge_string_slice = add_missing (λ e r. r == e)

pub record SeLinuxOptions : Type 0 where
  pub user : String
  pub role : String
  pub type : String
  pub level : String

pub record Capabilities (V : Type 0) : Type 0 where
  pub add : List V
  pub drop : List V

pub record SecurityContext (V : Type 0) : Type 0 where
  pub capabilities : Option (Capabilities V)
  pub se_linux_options : Option SeLinuxOptions
  pub privileged : Option Bool
  pub run_as_user : Option ℤ
  pub run_as_non_root : Option Bool
  pub read_only_root_filesystem : Option Bool
  pub allow_privilege_escalation : Option Bool

pub record Sysctl : Type 0 where
  pub name : String
  pub sysctl_value : String

pub record PodSecurityContext : Type 0 where
  pub se_linux_options : Option SeLinuxOptions
  pub run_as_user : Option ℤ
  pub run_as_group : Option ℤ
  pub run_as_non_root : Option Bool
  pub supplemental_groups : List ℤ
  pub fs_group : Option ℤ
  pub sysctls : List Sysctl

pub record Probe (V : Type 0) : Type 0 where
  pub initial_delay_seconds : ℤ
  pub handler : V

pub record Affinity (V : Type 0) : Type 0 where
  pub node_affinity : V
  pub pod_affinity : V
  pub pod_anti_affinity : V

-- The inner loop over the existing sysctls: whether the name was found, and what it makes of them.
unfoldable pub set_sysctl : Bool → List Sysctl → Sysctl → Bool × Bool × List Sysctl
set_sysctl modified [] r = (false, modified, [])
set_sysctl modified (e ∷ es) r =
    let (found, m, rest) = set_sysctl modified es r in
    if e.name == r.name
    then (
      true,
      if not (e.sysctl_value == r.sysctl_value) then true else modified,
      (if not (e.sysctl_value == r.sysctl_value) then r else e) ∷ es,
    )
    else (found, m, e ∷ rest)

unfoldable pub ensure_sysctls : Bool → List Sysctl → List Sysctl → Bool × List Sysctl
ensure_sysctls modified existing [] = (modified, existing)
ensure_sysctls modified existing (r ∷ rs) =
    let (found, m, es) = set_sysctl modified existing r in
    ensure_sysctls (if found then m else true) (if found then es else existing ++ r ∷ []) rs

module _ (k : Machinery) where
  open k use {Value, deep_equal, set_string_if_set}

  unfoldable pub ensure_se_linux_options :
      Bool → SeLinuxOptions → SeLinuxOptions → Bool × SeLinuxOptions
  ensure_se_linux_options modified e r =
      let (m1, user) = set_string_if_set modified e.user r.user in
      let (m2, role) = set_string_if_set m1 e.role r.role in
      let (m3, type) = set_string_if_set m2 e.type r.type in
      let (m4, level) = set_string_if_set m3 e.level r.level in
      (m4, record { user = user; role = role; type = type; level = level })

  unfoldable pub ensure_se_linux_options_ptr :
      Bool → Option SeLinuxOptions → Option SeLinuxOptions → Bool × Option SeLinuxOptions
  ensure_se_linux_options_ptr = at_pointer ensure_se_linux_options

  unfoldable pub ensure_capabilities :
      Bool → Capabilities Value → Capabilities Value → Bool × Capabilities Value
  ensure_capabilities modified e r =
      let (m1, add) = add_missing deep_equal modified e.add r.add in
      let (m2, drop) = add_missing deep_equal m1 e.drop r.drop in
      (m2, record { add = add; drop = drop })

  unfoldable pub ensure_capabilities_ptr :
      Bool
      → Option (Capabilities Value)
      → Option (Capabilities Value)
      → Bool × Option (Capabilities Value)
  ensure_capabilities_ptr = at_pointer ensure_capabilities

  unfoldable pub ensure_security_context :
      Bool → SecurityContext Value → SecurityContext Value → Bool × SecurityContext Value
  ensure_security_context modified e r =
      let (m1, capabilities) = ensure_capabilities_ptr modified e.capabilities r.capabilities in
      let (m2, linux) = ensure_se_linux_options_ptr m1 e.se_linux_options r.se_linux_options in
      let (m3, privileged) = set_bool_ptr m2 e.privileged r.privileged in
      let (m4, user) = set_int64_ptr m3 e.run_as_user r.run_as_user in
      let (m5, non_root) = set_bool_ptr m4 e.run_as_non_root r.run_as_non_root in
      let (m6, read_only) =
        set_bool_ptr m5 e.read_only_root_filesystem r.read_only_root_filesystem in
      let (m7, escalation) =
        set_bool_ptr m6 e.allow_privilege_escalation r.allow_privilege_escalation in
      (
        m7,
        record {
          capabilities = capabilities;
          se_linux_options = linux;
          privileged = privileged;
          run_as_user = user;
          run_as_non_root = non_root;
          read_only_root_filesystem = read_only;
          allow_privilege_escalation = escalation;
        },
      )

  unfoldable pub ensure_security_context_ptr :
      Bool
      → Option (SecurityContext Value)
      → Option (SecurityContext Value)
      → Bool × Option (SecurityContext Value)
  ensure_security_context_ptr = at_pointer ensure_security_context

  unfoldable pub ensure_pod_security_context :
      Bool → PodSecurityContext → PodSecurityContext → Bool × PodSecurityContext
  ensure_pod_security_context modified e r =
      let (m1, linux) =
        ensure_se_linux_options_ptr modified e.se_linux_options r.se_linux_options in
      let (m2, user) = set_int64_ptr m1 e.run_as_user r.run_as_user in
      let (m3, group) = set_int64_ptr m2 e.run_as_group r.run_as_group in
      let (m4, non_root) = set_bool_ptr m3 e.run_as_non_root r.run_as_non_root in
      let (m5, groups) = add_missing int_eq m4 e.supplemental_groups r.supplemental_groups in
      let (m6, fs_group) = set_int64_ptr m5 e.fs_group r.fs_group in
      let (m7, sysctls) = ensure_sysctls m6 e.sysctls r.sysctls in
      (
        m7,
        record {
          se_linux_options = linux;
          run_as_user = user;
          run_as_group = group;
          run_as_non_root = non_root;
          supplemental_groups = groups;
          fs_group = fs_group;
          sysctls = sysctls;
        },
      )

  unfoldable pub ensure_pod_security_context_ptr :
      Bool
      → Option PodSecurityContext
      → Option PodSecurityContext
      → Bool × Option PodSecurityContext
  ensure_pod_security_context_ptr = at_pointer ensure_pod_security_context

  unfoldable pub ensure_probe : Bool → Probe Value → Probe Value → Bool × Probe Value
  ensure_probe modified e r =
      let (m1, delay) = set_int32 modified e.initial_delay_seconds r.initial_delay_seconds in
      let (m2, handler) = ensure_probe_handler k m1 e.handler r.handler in
      (m2, record { initial_delay_seconds = delay; handler = handler })

  unfoldable pub ensure_probe_ptr :
      Bool → Option (Probe Value) → Option (Probe Value) → Bool × Option (Probe Value)
  ensure_probe_ptr = at_pointer ensure_probe

  -- A field of the affinity; a nil that is required is written too.
  unfoldable pub replace_different : Bool → Value → Value → Bool × Value
  replace_different modified e r = if not (deep_equal e r) then (true, r) else (modified, e)

  unfoldable pub ensure_affinity : Bool → Affinity Value → Affinity Value → Bool × Affinity Value
  ensure_affinity modified e r =
      let (m1, node) = replace_different modified e.node_affinity r.node_affinity in
      let (m2, pod) = replace_different m1 e.pod_affinity r.pod_affinity in
      let (m3, anti) = replace_different m2 e.pod_anti_affinity r.pod_anti_affinity in
      (m3, record { node_affinity = node; pod_affinity = pod; pod_anti_affinity = anti })

  unfoldable pub ensure_affinity_ptr :
      Bool → Option (Affinity Value) → Option (Affinity Value) → Bool × Option (Affinity Value)
  ensure_affinity_ptr = at_pointer ensure_affinity
