-- ===== src/Disk/Stale/Leaves.antt =====
-- What leaves a path as it is: the units that are written elsewhere.
use openshift_machine_config.Common.{
  ℕ, ◌≡◌, refl, ◌∙◌, String, ◌==◌, ==_iff, Bool, true, false, ◌&&◌, not, Option, none, some,
  is_some, List, [], ◌∷◌, any, arith, if◌then◌else◌,
}
use openshift_machine_config.Disk.{
  Disk, Entry, System, write, delete, link, set_at, is_shipped, and_write, then_write,
  write_file_atomically, with_usr_path, create_orig_file, default_file_permissions, regular,
  symlink,
}
use openshift_machine_config.Disk.Files.{Untouched, keep_orig-Untouched}
use openshift_machine_config.Disk.Units.{
  SystemdUnit, Dropin, unit_path, dropin_path, text_of, is_masked, removed, write_over,
  write_dropin, write_dropins, write_unit_file, write_unit, write_units, write_daemon_units, if_any,
  enable_units, units_set_to, dev_null,
}
use openshift_machine_config.Disk.Stale.{has_unit, has_dropin}

-- A step that ends well leaves the path as it is.
abbrev pub Leaves : String → Disk → Option Disk → Type 0
Leaves q disk none = Unit
Leaves q disk (some new) = new.at q ≡ disk.at q

pub if-Leaves :
    (q : String) (disk : Disk) (b : Bool) (x y : Option Disk)
    → Leaves q disk x
    → Leaves q disk y
    → Leaves q disk (if b then x else y)
if-Leaves q disk true x y h g = h
if-Leaves q disk false x y h g = g

Untouched-Leaves : (q : String) (disk : Disk) (o : Option Disk) → Untouched disk o → Leaves q disk o
Untouched-Leaves q disk none h = tt
Untouched-Leaves q disk (some new) h = h q

-- After a step that leaves the path.
pub Leaves-trans :
    (q : String) (disk new : Disk) (o : Option Disk)
    → new.at q ≡ disk.at q
    → Leaves q new o
    → Leaves q disk o
Leaves-trans q disk new none e h = tt
Leaves-trans q disk new (some d) e h = h ∙ e

module _ (system : System) (q : String) where
  pub and_write-Leaves :
      (disk : Disk) (o : Option Disk) (f : Disk → Option Disk)
      → Leaves q disk o
      → ((d : Disk) → Leaves q d (f d))
      → Leaves q disk (and_write system o f)
  and_write-Leaves disk none f h g = tt
  and_write-Leaves disk (some d) f h g = Leaves-trans q disk d (f d) h (g d)

  pub set_at-Leaves :
      (p : String) (e : Option Entry) (disk : Disk)
      → (q == p) ≡ false
      → Leaves q disk (some (set_at p e disk))
  set_at-Leaves p e disk n = rw n refl

  then_write-Leaves :
      (p contents : String) (mode : ℕ) (disk : Disk) (o : Option Disk)
      → (q == p) ≡ false
      → Leaves q disk o
      → Leaves q disk (then_write system p contents mode o)
  unfolding write_file_atomically
  then_write-Leaves p contents mode disk none n h = tt
  then_write-Leaves p contents mode disk (some d) n h =
      if-Leaves q disk (system.fails write p) none _ tt (
        Leaves-trans q disk d (some (set_at p (some (regular contents mode)) d)) h
          (set_at-Leaves p (some (regular contents mode)) d n))

  removed-Leaves :
      (p : String) (disk : Disk) → (q == p) ≡ false → Leaves q disk (removed system p disk)
  removed-Leaves p disk n =
      if-Leaves q disk (system.fails delete p) none _ tt (set_at-Leaves p none disk n)

  write_over-Leaves :
      (core : Bool) (p contents : String) (disk : Disk)
      → (q == p) ≡ false
      → Leaves q disk (write_over system core p contents disk)
  unfolding create_orig_file
  write_over-Leaves core p contents disk n =
      then_write-Leaves p contents default_file_permissions disk _ n (
        if-Leaves q disk (is_some (disk.at (with_usr_path p)) && core)
          (create_orig_file system (with_usr_path p) p disk) (some disk)
          (Untouched-Leaves q disk _ (
            keep_orig-Untouched system
              (if is_some (disk.at p) then is_shipped system p disk else some false)
              (with_usr_path p) p disk))
          refl)

  write_dropin-Leaves :
      (core : Bool) (p contents : String) (disk : Disk)
      → (q == p) ≡ false
      → Leaves q disk (write_dropin system core p contents disk)
  write_dropin-Leaves core p contents disk n =
      if-Leaves q disk (contents == "") _ _
        (if-Leaves q disk (is_some (disk.at p)) _ (some disk) (removed-Leaves p disk n) refl)
        (write_over-Leaves core p contents disk n)

  write_dropins-Leaves :
      (core : Bool) (u : SystemdUnit) (dropins : List Dropin) (disk : Disk)
      → any (λ d. dropin_path u d == q) dropins ≡ false
      → Leaves q disk (write_dropins system core u dropins disk)
  unfolding write_dropins
  write_dropins-Leaves core u [] disk h = refl
  write_dropins-Leaves core u (d ∷ dropins) disk h =
      and_write-Leaves disk (write_dropin system core (dropin_path u d) (text_of d.contents) disk)
        (write_dropins system core u dropins)
        (write_dropin-Leaves core (dropin_path u d) (text_of d.contents) disk
          (ground (arith, h, ==_iff q (dropin_path u d), ==_iff (dropin_path u d) q)))
        (λ new. write_dropins-Leaves core u dropins new (ground (arith, h)))

  write_unit_file-Leaves :
      (core : Bool) (p : String) (mask : Option Bool) (contents : String) (disk : Disk)
      → (q == p) ≡ false
      → Leaves q disk (write_unit_file system core p mask contents disk)
  write_unit_file-Leaves core p mask contents disk n =
      if-Leaves q disk (is_masked mask) _ _
        (if-Leaves q disk (system.fails delete p) none _ tt (
          if-Leaves q disk (system.fails link p) none _ tt
            (set_at-Leaves p (some (symlink dev_null)) disk n)))
        (if-Leaves q disk (not (contents == "")) _ _ (write_over-Leaves core p contents disk n)
          (if-Leaves q disk (is_some mask) _ (some disk) (removed-Leaves p disk n) refl))

  -- Units and their dropins are elsewhere.
  pub write_units-Leaves :
      (core : Bool) (units : List SystemdUnit) (disk : Disk)
      → has_unit q units ≡ false
      → has_dropin q units ≡ false
      → Leaves q disk (write_units system core units disk)
  unfolding write_units write_unit
  write_units-Leaves core [] disk h g = refl
  write_units-Leaves core (u ∷ units) disk h g =
      and_write-Leaves disk (write_unit system core u disk) (write_units system core units)
        (and_write-Leaves disk (write_dropins system core u u.dropins disk)
          (write_unit_file system core (unit_path u) u.mask (text_of u.contents))
          (write_dropins-Leaves core u u.dropins disk (ground (arith, g)))
          (λ new.
            write_unit_file-Leaves core (unit_path u) u.mask (text_of u.contents) new
              (ground (arith, h, ==_iff q (unit_path u), ==_iff (unit_path u) q))))
        (λ new. write_units-Leaves core units new (ground (arith, h)) (ground (arith, g)))

  pub write_daemon_units-Leaves :
      (core : Bool) (units : List SystemdUnit) (disk : Disk)
      → has_unit q units ≡ false
      → has_dropin q units ≡ false
      → Leaves q disk (write_daemon_units system core units disk)
  unfolding write_daemon_units
  write_daemon_units-Leaves core units disk h g =
      and_write-Leaves disk (write_units system core units disk) _
        (write_units-Leaves core units disk h g)
        (λ d.
          let enabled = if_any (units_set_to true units) (enable_units system) d in
          let disabled = if_any (units_set_to false units) system.disables d in
          if-Leaves q d (not enabled) none _ tt (if-Leaves q d (not disabled) none _ tt refl))
