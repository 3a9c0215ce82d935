-- ===== src/Disk/Units/Served.antt =====
-- Units that systemctl is to enable or to disable once they are written.
use Prim.Native.String.{◌++◌ as append}
use openshift_machine_config.Common.{
  ◌≡◌, refl, String, Bool, true, false, not, Option, none, some, List, [], ◌∷◌, if◌then◌else◌,
}
use openshift_machine_config.Disk.{
  Disk, System, WantsLink, no_link, unreadable, not_a_link, broken_link, good_link, delete,
  and_write,
}
use openshift_machine_config.Disk.Units.{
  SystemdUnit, write_units, clear_link, clear_links, enable_units, units_set_to, if_any,
  write_daemon_units,
}
use openshift_machine_config.Disk.Units.Written.{
  Works, Succeeds, is_clearable, write_units-Succeeds,
}

-- Once the units are written, systemctl enables and disables those that are to be; an old systemd
-- enables them where no broken link is left.
pub record Serves (system : System) (core : Bool) (units : List SystemdUnit) : Type 0 where
  pub enabling :
      (d e : Disk)
      → write_units system core units d ≡ some e
      → if_any (units_set_to true units) (system.enables system.is_like_traditional_rhel7) e ≡ true
  pub disabling :
      (d e : Disk)
      → write_units system core units d ≡ some e
      → if_any (units_set_to false units) system.disables e ≡ true

module _ (system : System) (works : Works system) where
  clear_links-true : (names : List String) → clear_links system names ≡ true
  unfolding clear_links
  clear_links-true [] = refl
  clear_links-true (name ∷ names) =
      let rest = clear_links-true names in go (system.wants_link name) (works.links name) rest
    where
      go :
          (l : WantsLink)
          → is_clearable l ≡ true
          → clear_links system names ≡ true
          → (let rest = clear_links system names in
              if clear_link system l name then rest else false)
            ≡ true
      go no_link h r = r
      go unreadable h r = absurd (cc h)
      go not_a_link h r = absurd (cc h)
      go broken_link h r =
          let path = append "/etc/systemd/system/multi-user.target.wants/" name in
          rw (works.calls delete path) r
      go good_link h r = r

  enable_units-true :
      (names : List String) (d : Disk)
      → system.enables system.is_like_traditional_rhel7 names d ≡ true
      → enable_units system names d ≡ true
  unfolding enable_units
  enable_units-true names d h =
      go system.is_like_traditional_rhel7 (system.enables false names d) refl refl h
    where
      go :
          (old now : Bool)
          → system.is_like_traditional_rhel7 ≡ old
          → system.enables false names d ≡ now
          → system.enables old names d ≡ true
          → (if now
              then true
              else if not old
              then false
              else if clear_links system names
              then system.enables true names d
              else false)
            ≡ true
      go old true o e k = refl
      go false false o e k = absurd (cc (e, k))
      go true false o e k = rw (clear_links-true names) k

  if_any-enables :
      (names : List String) (d : Disk)
      → if_any names (system.enables system.is_like_traditional_rhel7) d ≡ true
      → if_any names (enable_units system) d ≡ true
  if_any-enables [] d h = refl
  if_any-enables (name ∷ names) d h = enable_units-true (name ∷ names) d h

  pub write_daemon_units-Succeeds :
      (core : Bool) (units : List SystemdUnit) (disk : Disk)
      → Serves system core units
      → Succeeds (write_daemon_units system core units disk)
  unfolding write_daemon_units
  write_daemon_units-Succeeds core units disk serves =
      go (write_units system core units disk) refl
        (write_units-Succeeds system works core units disk)
    where
      go :
          (o : Option Disk)
          → write_units system core units disk ≡ o
          → Succeeds o
          → Succeeds (
              and_write system o (λ d.
                if not (if_any (units_set_to true units) (enable_units system) d)
                then none
                else if not (if_any (units_set_to false units) system.disables d)
                then none
                else some d))
      go none e h = absurd (cc h)
      go (some d) e h =
          rw (if_any-enables _ d (serves.enabling disk d e), serves.disabling disk d e) refl
