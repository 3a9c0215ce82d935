-- ===== src/Disk/Files.antt =====
-- What the daemon has written passes its own check.
use openshift_machine_config.Common.{
  ℕ, ◌≡◌, refl, ◌∙◌, String, ◌==◌, ==_iff, Bool, true, false, ◌&&◌, Option, none, some, is_some,
  List, [], ◌∷◌, any, arith, if◌then◌else◌,
}
use openshift_machine_config.Disk.{
  decode_ignition_file_contents, Disk, File, System, regular, set_at, keep_orig, is_shipped,
  create_orig_file, write_file_atomically, then_write, write_decoded, write_file, write_files,
  and_write, check_file_contents_and_mode, check_decoded, ca_bundle_file_path, write, stamp, backup,
  remove_backup, check_v3_file, check_v3_files, mode_of, get_file_ownership,
}

-- A file of the list has the path.
abbrev pub has_path : String → List File → Bool
has_path p files = any (λ f. f.path == p) files

abbrev pub DistinctPaths : List File → Type 0
DistinctPaths [] = Unit
DistinctPaths (f ∷ files) = (has_path f.path files ≡ false) × DistinctPaths files

-- A step that ends well changes at most the path `p`.
abbrev pub OnlyAt : String → Disk → Option Disk → Type 0
OnlyAt p disk none = Unit
OnlyAt p disk (some new) = (q : String) → (q == p) ≡ false → new.at q ≡ disk.at q

-- Nothing that is on a path is changed.
abbrev pub Untouched : Disk → Option Disk → Type 0
Untouched disk none = Unit
Untouched disk (some new) = (q : String) → new.at q ≡ disk.at q

if-Untouched :
    (b : Bool) (disk : Disk) (x y : Option Disk)
    → Untouched disk x
    → Untouched disk y
    → Untouched disk (if b then x else y)
if-Untouched true disk x y h g = h
if-Untouched false disk x y h g = g

-- A step for the file `f` that ends well leaves it as the check wants it, and changes no other path.
abbrev pub Wrote : System → File → Disk → Option Disk → Type 0
Wrote system f disk none = Unit
Wrote system f disk (some new) =
    (check_v3_file system f new ≡ true)
    × ((q : String) → (q == f.path) ≡ false → new.at q ≡ disk.at q)

module _ (system : System) where
  pub keep_orig-Untouched :
      (o : Option Bool) (from path : String) (disk : Disk)
      → Untouched disk (keep_orig system o from path disk)
  keep_orig-Untouched none from path disk = tt
  keep_orig-Untouched (some false) from path disk =
      if-Untouched (disk.stamped path) disk _ _ (λ q. refl)
        (if-Untouched (is_some (disk.orig path) && system.fails remove_backup path) disk none _ tt
          (if-Untouched (system.fails stamp path) disk none _ tt (λ q. refl)))
  keep_orig-Untouched (some true) from path disk =
      if-Untouched (is_some (disk.orig path)) disk _ _ (λ q. refl)
        (if-Untouched (system.fails backup path) disk none _ tt (λ q. refl))

  checked_entry :
      (f : File) (contents : String) (disk : Disk)
      → decode_ignition_file_contents system f.source f.compression ≡ some contents
      → f.appends ≡ false
      → disk.at f.path ≡ some (regular contents (mode_of f.mode))
      → check_v3_file system f disk ≡ true
  unfolding check_v3_file check_file_contents_and_mode
  checked_entry f contents disk d a e = rw (d, a, e) (ground (arith, ==_iff contents contents))

  then_write-Wrote :
      (f : File) (contents : String) (disk : Disk) (kept : Option Disk)
      → decode_ignition_file_contents system f.source f.compression ≡ some contents
      → f.appends ≡ false
      → Untouched disk kept
      → Wrote system f disk (then_write system f.path contents (mode_of f.mode) kept)
  unfolding write_file_atomically
  then_write-Wrote f contents disk none d a h = tt
  then_write-Wrote f contents disk (some k) d a h = go (system.fails write f.path)
    where
      go :
          (b : Bool)
          → Wrote system f disk (
              if b then none else some (set_at f.path (some (regular contents (mode_of f.mode))) k))
      go true = tt
      go false = (
        checked_entry f contents (set_at f.path (some (regular contents (mode_of f.mode))) k) d a
            (rw ((==_iff f.path f.path).1 refl) refl),
        λ q n. rw n (h q),
      )

  write_decoded-Wrote :
      (f : File) (disk : Disk)
      → f.appends ≡ false
      → Wrote system f disk (
          write_decoded system f
            (decode_ignition_file_contents system f.source f.compression)
            (get_file_ownership system f)
            disk)
  unfolding create_orig_file
  write_decoded-Wrote f disk a =
      go (decode_ignition_file_contents system f.source f.compression) (get_file_ownership system f)
        refl
    where
      go :
          (o : Option String) (w : Option (ℕ × ℕ))
          → decode_ignition_file_contents system f.source f.compression ≡ o
          → Wrote system f disk (write_decoded system f o w disk)
      go none w e = tt
      go (some c) none e = tt
      go (some c) (some w) e =
          then_write-Wrote f c disk (create_orig_file system f.path f.path disk) e a (
            keep_orig-Untouched
              (if is_some (disk.at f.path) then is_shipped system f.path disk else some false)
              f.path f.path disk)

  write_file-Wrote :
      (skip : Bool) (f : File) (disk : Disk) → Wrote system f disk (write_file system skip f disk)
  unfolding write_file check_v3_file
  write_file-Wrote skip f disk = go (skip && (f.path == ca_bundle_file_path)) f.appends refl refl
    where
      go :
          (s a : Bool)
          → (skip && (f.path == ca_bundle_file_path)) ≡ s
          → f.appends ≡ a
          → Wrote system f disk (
              if s
              then some disk
              else if a
              then none
              else write_decoded system f
                  (decode_ignition_file_contents system f.source f.compression)
                  (get_file_ownership system f)
                  disk)
      go true a e g = (ground (arith, e), λ q n. refl)
      go false true e g = tt
      go false false e g = write_decoded-Wrote f disk g

  -- A check reads nothing but the path of its file.
  pub check_v3_file-cong :
      (f : File) (disk new : Disk)
      → new.at f.path ≡ disk.at f.path
      → check_v3_file system f new ≡ check_v3_file system f disk
  unfolding check_v3_file check_file_contents_and_mode
  check_v3_file-cong f disk new e = go (decode_ignition_file_contents system f.source f.compression)
    where
      go :
          (o : Option String)
          → (if f.path == ca_bundle_file_path
              then true
              else if f.appends
              then false
              else check_decoded system f o new)
            ≡ (if f.path == ca_bundle_file_path
                then true
                else if f.appends
                then false
                else check_decoded system f o disk)
      go none = refl
      go (some c) = rw e refl

  -- After all files: the checks pass, and the other paths are as they were.
  abbrev pub AllWrote : List File → Disk → Option Disk → Type 0
  AllWrote files disk none = Unit
  AllWrote files disk (some new) =
      (check_v3_files system files new ≡ true)
      × ((q : String) → has_path q files ≡ false → new.at q ≡ disk.at q)

  -- Where the daemon has written the files of a config, which have distinct paths, its check of these
  -- files passes, and no other path has changed, whatever files were backed up on the way.
  pub write_files-AllWrote :
      (skip : Bool) (files : List File) (disk : Disk)
      → DistinctPaths files
      → AllWrote files disk (write_files system skip files disk)
  unfolding write_files check_v3_files
  write_files-AllWrote skip [] disk u = (refl, λ q h. refl)
  write_files-AllWrote skip (f ∷ files) disk u =
      go (write_file system skip f disk) (write_file-Wrote skip f disk)
        (λ d. write_files-AllWrote skip files d u.1)
    where
      go :
          (o : Option Disk)
          → Wrote system f disk o
          → ((d : Disk) → AllWrote files d (write_files system skip files d))
          → AllWrote (f ∷ files) disk (and_write system o (write_files system skip files))
      go none w ih = tt
      go (some d) w ih = both (write_files system skip files d) (ih d)
        where
          both : (o : Option Disk) → AllWrote files d o → AllWrote (f ∷ files) disk o
          both none h = tt
          both (some new) h = (
            ground (arith, h.0, w.0, check_v3_file-cong f d new (h.1 f.path u.0)),
            λ q g.
                h.1 q (ground (arith, g))
                ∙ w.1 q (ground (arith, g, ==_iff f.path q, ==_iff q f.path)),
          )
