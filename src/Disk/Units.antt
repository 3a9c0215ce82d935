-- ===== src/Disk/Units.antt =====
-- The systemd units of a config on the disk: writeDropins and writeUnit of pkg/daemon/file_writers.go,
-- and checkV3Dropin and checkV3Unit of on_disk_validation.go.
pub mod Written
pub mod Served
use Prim.Native.String.{◌++◌ as append}
use openshift_machine_config.Common.{
  String, ◌==◌, Bool, true, false, ◌&&◌, not, Option, none, some, is_some, List, [], ◌∷◌, bool_eq,
  is_empty, if◌then◌else◌,
}
use openshift_machine_config.Disk.{
  Disk, Entry, symlink, System, WantsLink, no_link, unreadable, not_a_link, broken_link, good_link,
  delete, link, set_at, with_usr_path, create_orig_file, then_write, and_write,
  default_file_permissions, check_file_contents_and_mode,
}

pub record Dropin : Type 0 where
  pub name : String
  pub contents : Option String

pub record SystemdUnit : Type 0 where
  pub name : String
  pub contents : Option String
  pub enabled : Option Bool
  pub mask : Option Bool
  pub dropins : List Dropin

-- No contents and empty ones are one.
abbrev pub text_of : Option String → String
text_of none = ""
text_of (some s) = s

abbrev pub is_masked : Option Bool → Bool
is_masked none = false
is_masked (some b) = b

unfoldable pub unit_path : SystemdUnit → String
unit_path u = append "/etc/systemd/system/" u.name

unfoldable pub dropin_path : SystemdUnit → Dropin → String
dropin_path u d = append "/etc/systemd/system/" (append u.name (append ".d/" d.name))

abbrev pub dev_null : String
dev_null = "/dev/null"

-- The units of a config that are to be enabled, or to be disabled.
unfoldable pub units_set_to : Bool → List SystemdUnit → List String
units_set_to b [] = []
units_set_to b (u ∷ units) =
    let rest = units_set_to b units in
    elim u.enabled [ none ↦ rest | some e ↦ if bool_eq e b then u.name ∷ rest else rest ]

abbrev pub if_any : List String → (List String → Disk → Bool) → Disk → Bool
if_any names act disk = if is_empty names then true else act names disk

module _ (system : System) where
  -- os.Remove and os.RemoveAll of a path.
  abbrev pub removed : String → Disk → Option Disk
  removed path disk = if system.fails delete path then none else some (set_at path none disk)

  -- The contents, after a backup of what the system ships at the path.
  abbrev pub write_over : Bool → String → String → Disk → Option Disk
  write_over is_core_os path contents disk =
      then_write system path contents default_file_permissions (
        if is_some (disk.at (with_usr_path path)) && is_core_os
        then create_orig_file system (with_usr_path path) path disk
        else some disk)

  -- The round of writeDropins for one dropin; an empty one is removed.
  abbrev pub write_dropin : Bool → String → String → Disk → Option Disk
  write_dropin is_core_os path contents disk =
      if contents == ""
      then (if is_some (disk.at path) then removed path disk else some disk)
      else write_over is_core_os path contents disk

  unfoldable pub write_dropins : Bool → SystemdUnit → List Dropin → Disk → Option Disk
  write_dropins core u [] disk = some disk
  write_dropins core u (d ∷ dropins) disk =
      and_write system (write_dropin core (dropin_path u d) (text_of d.contents) disk)
        (write_dropins core u dropins)

  abbrev pub masked : String → Disk → Option Disk
  masked path disk =
      if system.fails delete path
      then none
      else if system.fails link path
      then none
      else some (set_at path (some (symlink dev_null)) disk)

  abbrev pub write_unit_file : Bool → String → Option Bool → String → Disk → Option Disk
  write_unit_file core path mask contents disk =
      if is_masked mask
      then masked path disk
      else if not (contents == "")
      then write_over core path contents disk
      else if is_some mask
      then removed path disk
      else some disk

  unfoldable pub write_unit : Bool → SystemdUnit → Disk → Option Disk
  write_unit core u disk =
      and_write system (write_dropins core u u.dropins disk)
        (write_unit_file core (unit_path u) u.mask (text_of u.contents))

  unfoldable pub write_units : Bool → List SystemdUnit → Disk → Option Disk
  write_units core [] disk = some disk
  write_units core (u ∷ units) disk =
      and_write system (write_unit core u disk) (write_units core units)

  -- The round of the fallback of enableUnits for one unit.
  abbrev pub clear_link : WantsLink → String → Bool
  clear_link no_link name = true
  clear_link unreadable name = false
  clear_link not_a_link name = false
  clear_link broken_link name =
      not (system.fails delete (append "/etc/systemd/system/multi-user.target.wants/" name))
  clear_link good_link name = true

  unfoldable pub clear_links : List String → Bool
  clear_links [] = true
  clear_links (name ∷ names) =
      let rest = clear_links names in
      if clear_link (system.wants_link name) name then rest else false

  unfoldable pub enable_units : List String → Disk → Bool
  enable_units names disk =
      if system.enables false names disk
      then true
      else if not system.is_like_traditional_rhel7
      then false
      else if clear_links names
      then system.enables true names disk
      else false

  -- writeUnits of the daemon; the package has a function of that name, which does not enable them.
  unfoldable pub write_daemon_units : Bool → List SystemdUnit → Disk → Option Disk
  write_daemon_units core units disk = and_write system (write_units core units disk) (λ d.
      if not (if_any (units_set_to true units) enable_units d)
      then none
      else if not (if_any (units_set_to false units) system.disables d)
      then none
      else some d)

  unfoldable pub check_v3_dropin : SystemdUnit → Dropin → Disk → Bool
  check_v3_dropin u d disk =
      let path = dropin_path u d in
      if (text_of d.contents == "") && not (is_some (disk.at path))
      then true
      else check_file_contents_and_mode system path (text_of d.contents) default_file_permissions
          disk

  unfoldable pub check_v3_dropins : SystemdUnit → List Dropin → Disk → Bool
  check_v3_dropins u [] disk = true
  check_v3_dropins u (d ∷ dropins) disk =
      let rest = check_v3_dropins u dropins disk in if check_v3_dropin u d disk then rest else false

  -- What a path leads to, where that is a link.
  abbrev pub leads_to : Option Entry → String → Bool
  leads_to (some (symlink target)) t = target == t
  leads_to _ t = false

  unfoldable pub check_v3_unit : SystemdUnit → Disk → Bool
  check_v3_unit u disk =
      let path = unit_path u in
      if not (check_v3_dropins u u.dropins disk)
      then false
      else if text_of u.contents == ""
      then true
      else if is_masked u.mask
      then leads_to (disk.at path) dev_null
      else check_file_contents_and_mode system path (text_of u.contents) default_file_permissions
          disk

  unfoldable pub check_v3_units : List SystemdUnit → Disk → Bool
  check_v3_units [] disk = true
  check_v3_units (u ∷ units) disk =
      let rest = check_v3_units units disk in if check_v3_unit u disk then rest else false
