-- ===== src/Disk.antt =====
-- What the daemon writes to the disk and checks on it: pkg/daemon/file_writers.go, and of
-- on_disk_validation.go the checks of Ignition configs of version 3. Directories and the sequence of
-- bytes are left out: a file is its contents and its mode.
pub mod Files
pub mod Units
pub mod Stale
use Prim.Native.String.{◌++◌ as append}
use text.Mathlib.Text.{starts_with}
use openshift_machine_config.Common.{
  ℕ, String, ◌==◌, Bool, true, false, ◌&&◌, ◌||◌, not, Option, none, some, is_some, List, [], ◌∷◌,
  nat_eq, if◌then◌else◌,
}

-- What a path has, without following links.
pub data Entry : Type 0 where
  regular : String → ℕ → Entry
  symlink : String → Entry

-- The paths; the backups that stand in `orig`, by the path that they are of; and for which paths
-- `noorig` has a stamp.
pub record Disk : Type 0 where
  pub at : String → Option Entry
  pub orig : String → Option Entry
  pub stamped : String → Bool

abbrev pub set_at : String → Option Entry → Disk → Disk
set_at p e disk = record disk { at = λ q. if q == p then e else disk.at q }

abbrev pub set_orig : String → Option Entry → Disk → Disk
set_orig p e disk = record disk { orig = λ q. if q == p then e else disk.orig q }

abbrev pub set_stamp : String → Bool → Disk → Disk
set_stamp p b disk = record disk { stamped = λ q. if q == p then b else disk.stamped q }

-- isFileOwnedByRPMPkg: there is no rpm, the path is owned or not, or another error.
pub data Ownership : Type 0 where
  rpm_not_found owned not_owned rpm_error : Ownership

-- The user or the group of a file.
pub record Principal : Type 0 where
  pub id : Option ℕ
  pub name : Option String

pub record File : Type 0 where
  pub path : String
  pub appends : Bool
  pub source : Option String
  pub compression : Option String
  pub mode : Option ℕ
  pub user : Principal
  pub group : Principal

-- A system call on a path that may fail.
pub data Call : Type 0 where
  write stamp remove_stamp backup remove_backup restore delete link : Call

-- What stands among the links of systemctl under the name of a unit.
pub data WantsLink : Type 0 where
  no_link unreadable not_a_link broken_link good_link : WantsLink

-- The system: the decoders of data URLs and gzip, none on an error, the lookups of users and groups,
-- rpm, which calls fail, and whether systemctl enables and disables the units of the names; the Boolean
-- of `enables` tells that broken links were removed before. The links that systemctl keeps are not in
-- the `Disk`.
pub record System : Type 0 where
  pub data_url : String → Option String
  pub gunzip : String → Option String
  pub lookup_uid : String → Option ℕ
  pub lookup_gid : String → Option ℕ
  pub rpm : String → Ownership
  pub fails : Call → String → Bool
  pub is_like_traditional_rhel7 : Bool
  pub wants_link : String → WantsLink
  pub enables : Bool → List String → Disk → Bool
  pub disables : List String → Disk → Bool

abbrev pub ca_bundle_file_path : String
ca_bundle_file_path = "/etc/kubernetes/kubelet-ca.crt"

-- 0644
abbrev pub default_file_permissions : ℕ
default_file_permissions = 420

abbrev pub mode_of : Option ℕ → ℕ
mode_of none = default_file_permissions
mode_of (some m) = m

-- The root, if neither an id nor a name is given.
abbrev pub resolve_name : (String → Option ℕ) → Option String → Option ℕ
resolve_name lookup none = some 0
resolve_name lookup (some n) = if n == "" then some 0 else lookup n

abbrev pub resolve : (String → Option ℕ) → Principal → Option ℕ
resolve lookup p = elim p.id [ none ↦ resolve_name lookup p.name | some i ↦ some i ]

unfoldable pub with_usr_path : String → String
with_usr_path path = append "/usr" path

-- Whether the system ships the file: an rpm owns it, or it is in /usr/etc. none is an error.
abbrev pub is_shipped_by : Ownership → Bool → Option Bool
is_shipped_by owned in_usr = some true
is_shipped_by not_owned in_usr = some in_usr
is_shipped_by rpm_not_found in_usr = some false
is_shipped_by rpm_error in_usr = none

abbrev pub decompress : (String → Option String) → Option String → String → Option String
decompress gunzip none bytes = some bytes
decompress gunzip (some c) bytes =
    if c == "" then some bytes else if c == "gzip" then gunzip bytes else none

abbrev pub decompress_decoded :
    (String → Option String) → Option String → Option String → Option String
decompress_decoded gunzip c none = none
decompress_decoded gunzip c (some bytes) = decompress gunzip c bytes

module _ (system : System) where
  -- DecodeIgnitionFileContents of pkg/controller/common/helpers.go
  unfoldable pub decode_ignition_file_contents : Option String → Option String → Option String
  decode_ignition_file_contents none compression = some ""
  decode_ignition_file_contents (some s) compression =
      decompress_decoded system.gunzip compression (system.data_url s)

  abbrev pub is_shipped : String → Disk → Option Bool
  is_shipped path disk =
      is_shipped_by (system.rpm path)
        (starts_with path "/etc" && is_some (disk.at (with_usr_path path)))

  unfoldable pub get_file_ownership : File → Option (ℕ × ℕ)
  get_file_ownership file = elim (resolve system.lookup_uid file.user) [
    | none ↦ none
    | some uid ↦ elim (resolve system.lookup_gid file.group) [
      | none ↦ none
      | some gid ↦ some (uid, gid)
    ]
  ]

  -- The two ways of createOrigFile: a stamp that there was no file, or a backup of `from`.
  abbrev pub keep_orig : Option Bool → String → String → Disk → Option Disk
  keep_orig none from path disk = none
  keep_orig (some false) from path disk =
      if disk.stamped path
      then some disk
      else if is_some (disk.orig path) && system.fails remove_backup path
      then none
      else if system.fails stamp path
      then none
      else some (set_stamp path true (set_orig path none disk))
  keep_orig (some true) from path disk =
      if is_some (disk.orig path)
      then some disk
      else if system.fails backup path
      then none
      else some (set_orig path (disk.at from) disk)

  unfoldable pub create_orig_file : String → String → Disk → Option Disk
  create_orig_file from path disk =
      keep_orig (if is_some (disk.at path) then is_shipped path disk else some false) from path disk

  unfoldable pub write_file_atomically : String → String → ℕ → Disk → Option Disk
  write_file_atomically path contents mode disk =
      if system.fails write path
      then none
      else some (set_at path (some (regular contents mode)) disk)

  abbrev pub then_write : String → String → ℕ → Option Disk → Option Disk
  then_write path contents mode none = none
  then_write path contents mode (some disk) = write_file_atomically path contents mode disk

  abbrev pub write_decoded : File → Option String → Option (ℕ × ℕ) → Disk → Option Disk
  write_decoded f none owner disk = none
  write_decoded f (some contents) none disk = none
  write_decoded f (some contents) (some owner) disk =
      then_write f.path contents (mode_of f.mode) (create_orig_file f.path f.path disk)

  -- The round of writeFiles for one file.
  unfoldable pub write_file : Bool → File → Disk → Option Disk
  write_file skip_certificate_write f disk =
      if skip_certificate_write && (f.path == ca_bundle_file_path)
      then some disk
      else if f.appends
      then none
      else write_decoded f (decode_ignition_file_contents f.source f.compression)
          (get_file_ownership f) disk

  abbrev pub and_write : Option Disk → (Disk → Option Disk) → Option Disk
  and_write none rest = none
  and_write (some disk) rest = rest disk

  unfoldable pub write_files : Bool → List File → Disk → Option Disk
  write_files skip [] disk = some disk
  write_files skip (f ∷ files) disk = and_write (write_file skip f disk) (write_files skip files)

  abbrev pub same_entry : Option Entry → String → ℕ → Bool
  same_entry none contents mode = false
  same_entry (some (symlink target)) contents mode = false
  same_entry (some (regular c m)) contents mode = nat_eq m mode && (c == contents)

  unfoldable pub check_file_contents_and_mode : String → String → ℕ → Disk → Bool
  check_file_contents_and_mode path contents mode disk = same_entry (disk.at path) contents mode

  abbrev pub check_decoded : File → Option String → Disk → Bool
  check_decoded f none disk = false
  check_decoded f (some contents) disk =
      check_file_contents_and_mode f.path contents (mode_of f.mode) disk

  -- The round of checkV3Files for one file.
  unfoldable pub check_v3_file : File → Disk → Bool
  check_v3_file f disk =
      if f.path == ca_bundle_file_path
      then true
      else if f.appends
      then false
      else check_decoded f (decode_ignition_file_contents f.source f.compression) disk

  unfoldable pub check_v3_files : List File → Disk → Bool
  check_v3_files [] disk = true
  check_v3_files (f ∷ files) disk =
      let rest = check_v3_files files disk in if check_v3_file f disk then rest else false
