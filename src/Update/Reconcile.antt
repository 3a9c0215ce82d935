-- ===== src/Update/Reconcile.antt =====
-- reconcilable, verifyUserFields and checkFIPS of pkg/daemon/update.go, and CalculateConfigFileDiffs of
-- pkg/controller/common/helpers.go: what changes between two configurations, and what may change.
pub mod Diffs
pub mod Accepted
use openshift_machine_config.Common.{
  String, ◌==◌, Bool, true, false, ◌&&◌, ◌||◌, not, Option, none, some, List, [], ◌∷◌, ◌++◌,
  if◌then◌else◌, any, is_empty, select, bool_eq, map,
}
use openshift_machine_config.Daemon.{
  ConfigSpec, MachineConfigDiff, Ignition, new_machine_config_diff,
}
use openshift_machine_config.Update.{User, MachineConfig}

pub record File (W : Type 0) : Type 0 where
  pub path : String
  pub has_append : Bool
  pub body : W

-- An Ignition config: the sections that are compared as a whole, and what is looked at in them.
pub record IgnitionConfig (W : Type 0) : Type 0 where
  pub sections : Ignition W
  pub users : List User
  pub storage_files : List (File W)
  pub groups : W
  pub kernel_arguments : W
  pub disks : W
  pub filesystems : W
  pub raid : W
  pub directories : W
  pub links : List W

-- The file that says whether FIPS is enabled.
pub data FipsFile : Type 0 where
  no_fips_file unreadable_fips_file : FipsFile
  fips_file : Bool → FipsFile

-- What the two configurations are compared by: reflect.DeepEqual at the types that it is used at,
-- ParseAndConvertConfig, ValidateIgnition, whether the force file exists, and the FIPS file.
pub record Judge (V W : Type 0) : Type 0 where
  pub same : W → W → Bool
  pub same_users : List User → List User → Bool
  pub same_links : List W → List W → Bool
  pub same_file : File W → File W → Bool
  pub parse : V → Option (IgnitionConfig W)
  pub is_valid : IgnitionConfig W → Bool
  pub is_forced : Bool
  pub fips : FipsFile

abbrev pub force_file : String
force_file = "/run/machine-config-daemon-force"

-- The current FIPS setting after the check, none where it is refused.
unfoldable pub check_fips : FipsFile → Bool → Bool → Option Bool
check_fips no_fips_file current desired = some current
check_fips unreadable_fips_file current desired = none
check_fips (fips_file node) current desired = if bool_eq desired node then some node else none

unfoldable pub verify_user_fields : User → Bool
verify_user_fields user =
    (user.name == "core")
    && (elim user.password_hash [ none ↦ false | some hash ↦ true ]
        || not (is_empty user.ssh_authorized_keys))
    && user.is_plain

-- The last user of the list, if there is one, is verified.
unfoldable pub verify_last : List User → Bool
verify_last [] = true
verify_last (u ∷ []) = verify_user_fields u
verify_last (u ∷ v ∷ users) = verify_last (v ∷ users)

unfoldable pub are_core : List User → Bool
are_core [] = true
are_core (u ∷ users) = (u.name == "core") && are_core users

unfoldable pub are_writable : {W : Type 0} → List (File W) → Bool
are_writable [] = true
are_writable (f ∷ files) = not f.has_append && not (f.path == force_file) && are_writable files

module _ {V W : Type 0} (judge : Judge V W) where
  unfoldable pub is_passwd_reconcilable : IgnitionConfig W → IgnitionConfig W → Bool
  is_passwd_reconcilable i j =
      if judge.same i.sections.passwd j.sections.passwd
      then true
      else if not (judge.same i.groups j.groups)
      then false
      else if judge.same_users i.users j.users
      then true
      else are_core j.users && verify_last j.users

  unfoldable pub is_storage_reconcilable : IgnitionConfig W → IgnitionConfig W → Bool
  is_storage_reconcilable i j =
      judge.same i.disks j.disks
      && judge.same i.filesystems j.filesystems
      && judge.same i.raid j.raid
      && judge.same i.directories j.directories
      && (judge.same_links i.links j.links || is_empty j.links)
      && are_writable j.storage_files

  unfoldable pub is_ignition_reconcilable : IgnitionConfig W → IgnitionConfig W → Bool
  is_ignition_reconcilable i j =
      judge.is_valid j
      && is_passwd_reconcilable i j
      && judge.same i.kernel_arguments j.kernel_arguments
      && is_storage_reconcilable i j

  abbrev pub sections_of : V → Option (Ignition W)
  sections_of raw = elim (judge.parse raw) [ none ↦ none | some i ↦ some i.sections ]

  abbrev pub with_fips : ConfigSpec V → ConfigSpec V → Option Bool → Option MachineConfigDiff
  with_fips old new none = none
  with_fips old new (some fips) =
      new_machine_config_diff sections_of judge.same judge.is_forced (record old { fips = fips })
        new

  abbrev pub with_configs :
      ConfigSpec V
      → ConfigSpec V
      → Option (IgnitionConfig W)
      → Option (IgnitionConfig W)
      → Option MachineConfigDiff
  with_configs old new none j = none
  with_configs old new (some i) none = none
  with_configs old new (some i) (some j) =
      if not (is_ignition_reconcilable i j)
      then none
      else with_fips old new (check_fips judge.fips old.fips new.fips)

  -- None where an error is returned. The check of FIPS writes the setting of the node into the old
  -- configuration before the difference is taken.
  unfoldable pub reconcilable : ConfigSpec V → ConfigSpec V → Option MachineConfigDiff
  reconcilable old new = with_configs old new (judge.parse old.raw) (judge.parse new.raw)

  -- `m[path]` of the map that the loop over the files makes: the last file of the path.
  unfoldable pub file_at : String → List (File W) → Option (File W)
  file_at path [] = none
  file_at path (f ∷ files) = elim (file_at path files) [
    | none ↦ if f.path == path then some f else none
    | some g ↦ some g
  ]

  abbrev pub is_removed : List (File W) → String → Bool
  is_removed new path = elim (file_at path new) [ none ↦ true | some f ↦ false ]

  -- Added or changed: `new` is what the loop has at hand, and is there.
  abbrev pub is_changed : Option (File W) → Option (File W) → Bool
  is_changed old none = false
  is_changed none (some new) = true
  is_changed (some old) (some new) = not (judge.same_file old new)

  -- `order` gives the order in which a map with these keys is ranged over.
  unfoldable pub calculate_config_file_diffs :
      (List String → List String) → List (File W) → List (File W) → List String
  calculate_config_file_diffs order old new =
      select (is_removed new) (order (map (λ f. f.path) old))
      ++ select (λ path. is_changed (file_at path old) (file_at path new))
          (order (map (λ f. f.path) new))
