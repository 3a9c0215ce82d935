-- ===== src/Update/RollBack/Keys.antt =====
-- The keys that an update leaves behind.
use mathlib.Core.Path.{subst}
use openshift_machine_config.Common.{
  ◌≡◌, refl, ap, ◌&&◌, sym, ◌∙◌, String, Bool, true, false, ◌||◌, not, none, some, List,
  if◌then◌else◌,
}
use openshift_machine_config.Daemon.{MachineConfigDiff}
use openshift_machine_config.Update.{
  MachineConfig, Host, World, Step, Result, UpdateError, User, known_user, chain, check, roll_back,
  with_core_user, perform_drain, update_ssh_keys, concat_ssh_keys, deconfigure_absent_users,
  files_stage, keys_stage, kubeconfig_not_set, CoreUser, unknown_user, failed_lookup,
  keys_not_cleaned, keys_not_written, not_drained,
}
use openshift_machine_config.Update.Reconcile.{IgnitionConfig}
use openshift_machine_config.Update.Apply.{
  Setting, change_keys, after_files, update_files_step, update_planned, written,
}
use openshift_machine_config.Update.Keeps.{
  Keeps, Leaves, left, leaves, Keeps-from, roll_back-Leaves, deconfigure_absent_users-Keeps,
}
use openshift_machine_config.Update.RollBack.{
  IsBlind, IsWanted, finish-Keeps, change_passwords-Keeps,
}

module _ {F : Type 0} where
  -- The keys, and whether the directory that they stand in is that of another user.
  abbrev keys : Host F → String × Bool
  keys h = (h.keys, h.is_ssh_dir_foreign)

  keys-IsBlind : IsBlind keys
  keys-IsBlind = record {
    staged = λ h s. refl;
    stored = λ h s. refl;
    image = λ h s. refl;
    state = λ h s. refl;
    rebooting = λ h b. refl;
  }

  -- A failure does not lose keys in a directory of the user itself.
  not_lost :
      (w : World) (x : String) (h : Host F)
      → keys h ≡ (x, false)
      → keys (
          if h.is_ssh_dir_foreign && w.foreign_ssh_dir_removed
          then record h { keys = ""; is_ssh_dir_foreign = false }
          else h)
        ≡ (x, false)
  not_lost w x h e = go h.is_ssh_dir_foreign (ap (λ (p : String × Bool). p.1) e) ∙ e
    where
      go :
          (b : Bool)
          → b ≡ false
          → keys (
              if b && w.foreign_ssh_dir_removed
              then record h { keys = ""; is_ssh_dir_foreign = false }
              else h)
            ≡ keys h
      go true f = absurd cc
      go false f = refl

  -- Writing the keys again, or failing to.
  rewritten :
      (w : World) (new old : List User) (h : Host F)
      → keys h ≡ (concat_ssh_keys new, false)
      → Leaves keys (concat_ssh_keys new, false) (update_ssh_keys w new old h)
  unfolding update_ssh_keys
  rewritten w new old h e =
      go w.core_user (not w.use_new_ssh_key_path || w.keys_cleaned) w.keys_written
    where
      g : Host F
      g = deconfigure_absent_users w new old h

      same : keys g ≡ (concat_ssh_keys new, false)
      same = deconfigure_absent_users-Keeps keys (λ f p. refl) w new old h ∙ e

      write : Bool → Step F
      write b f =
          if b
          then (record f { keys = concat_ssh_keys new; is_ssh_dir_foreign = false }, none)
          else (
            if f.is_ssh_dir_foreign && w.foreign_ssh_dir_removed
                then record f { keys = ""; is_ssh_dir_foreign = false }
                else f,
            some keys_not_written,
          )

      go :
          (core : CoreUser) (c k : Bool)
          → Leaves keys
              (concat_ssh_keys new, false)
              (with_core_user core (λ f. chain (check c keys_not_cleaned f) (write k)) g)
      go known_user true true = leaves keys _ _ _ refl
      go known_user true false = leaves keys _ _ _ (not_lost w (concat_ssh_keys new) g same)
      go known_user false k = leaves keys _ _ _ same
      go unknown_user c k = leaves keys _ _ _ same
      go failed_lookup c k = leaves keys _ _ _ same

-- Whether the keys can be written.
abbrev pub CanWriteKeys : World → Type 0
CanWriteKeys w =
    (w.core_user ≡ known_user)
    × ((not w.use_new_ssh_key_path || w.keys_cleaned) ≡ true)
    × (w.keys_written ≡ true)

module _ {V W F : Type 0} (setting : Setting V W F) (forth back : World) (old new : MachineConfig V)
    (i j : IgnitionConfig W) (diff : MachineConfigDiff) (wanted : IsWanted setting new) where
  change_keys-keys :
      (next : Step F) (h : Host F)
      → CanWriteKeys forth
      → Keeps keys next
      → Leaves keys
          (concat_ssh_keys j.users, false)
          (change_keys setting forth back old new i j diff next h)
  unfolding update_ssh_keys
  change_keys-keys next h (known, clean, write) k =
      go forth.core_user (not forth.use_new_ssh_key_path || forth.keys_cleaned) forth.keys_written
        known clean write
    where
      rest : Step F
      rest g = roll_back keys_stage (update_ssh_keys back j.users i.users) (next g)

      g : Host F
      g = deconfigure_absent_users forth j.users i.users h

      written_keys : Host F
      written_keys = record g { keys = concat_ssh_keys j.users; is_ssh_dir_foreign = false }

      done : Leaves keys (concat_ssh_keys j.users, false) (rest written_keys)
      done =
          roll_back-Leaves keys keys_stage _ _ _ (k written_keys) (rewritten back j.users i.users)

      go :
          (core : CoreUser) (c b : Bool)
          → core ≡ known_user
          → c ≡ true
          → b ≡ true
          → Leaves keys
              (concat_ssh_keys j.users, false)
              (chain
                (with_core_user core
                  (λ f. chain (check c keys_not_cleaned f) (λ e.
                    if b
                    then (
                      record e { keys = concat_ssh_keys j.users; is_ssh_dir_foreign = false },
                      none,
                    )
                    else (
                      if e.is_ssh_dir_foreign && forth.foreign_ssh_dir_removed
                          then record e { keys = ""; is_ssh_dir_foreign = false }
                          else e,
                      some keys_not_written,
                    )))
                  g)
                rest)
      go known_user true true e1 e2 e3 = done
      go known_user true false e1 e2 e3 = absurd cc
      go known_user false b e1 e2 e3 = absurd cc
      go unknown_user c b e1 e2 e3 = absurd cc
      go failed_lookup c b e1 e2 e3 = absurd cc

  abbrev Kept : Result F → Type 0
  Kept = Leaves keys (concat_ssh_keys j.users, false)

  step_true :
      (b : Bool) (s t : Step F) (h : Host F) → b ≡ true → Kept (s h) → Kept ((if b then s else t) h)
  step_true true s t h e k = k
  step_true false s t h e k = absurd cc

  check-true :
      (b : Bool) (y : UpdateError) (next : Step F) (h : Host F)
      → b ≡ true
      → Kept (next h)
      → Kept (chain (check b y h) next)
  check-true true y next h e k = k
  check-true false y next h e k = absurd cc

  written-true :
      (p : F × Bool) (next : Step F) (h : Host F)
      → p.1 ≡ true
      → ((g : Host F) → Kept (next g))
      → Kept (chain (written setting p h) next)
  written-true (fs, true) next h e k = k _
  written-true (fs, false) next h e k = absurd cc

  drained_true :
      (drain can : Bool) (next : Step F) (h : Host F)
      → (not drain || can) ≡ true
      → ((g : Host F) → g.files ≡ h.files → Kept (next g))
      → Kept (
          chain
            (if drain
              then (if can then (record h { is_drained = true }, none) else (h, some not_drained))
              else (h, none))
            next)
  drained_true false can next h e k = k h refl
  drained_true true true next h e k = k _ refl
  drained_true true false next h e k = absurd cc

  after_files-keys :
      (actions : List String) (h : Host F)
      → CanWriteKeys forth
      → forth.kubeconfig_mode_set ≡ true
      → diff.passwd ≡ true
      → Kept (after_files setting forth back old new i j diff actions h)
  after_files-keys actions h can mode changed =
      check-true forth.kubeconfig_mode_set kubeconfig_not_set _ h mode (
        step_true diff.passwd _ _ h changed (
          change_keys-keys _ h can (
            change_passwords-Keeps setting forth back old new i j diff wanted keys keys-IsBlind
              (λ g p. refl) _
              (finish-Keeps setting forth back old new i j diff wanted keys keys-IsBlind actions))))

  update_files-Keeps :
      (w : World) (skip : Bool) (k l : IgnitionConfig W)
      → Keeps keys (update_files_step setting w skip k l)
  unfolding update_files_step
  update_files-Keeps w skip k l h = leaves keys _ _ _ refl

  -- Once the files are written, an update that changes the users and can write their keys leaves the
  -- keys of the new users on the node, whether it returns an error or not and whatever taking back
  -- did; nothing but the new configuration is wanted of the node.
  pub update_planned-keys :
      (actions : List String) (drain : Bool) (h : Host F)
      → CanWriteKeys forth
      → forth.kubeconfig_mode_set ≡ true
      → diff.passwd ≡ true
      → (not drain || forth.can_drain) ≡ true
      → (setting.update_files forth i j setting.skip_certificate_write h.files).1 ≡ true
      → (update_planned setting forth back old new i j diff actions drain h).0.keys
        ≡ concat_ssh_keys j.users
  unfolding update_planned perform_drain update_files_step
  update_planned-keys actions drain h can mode changed drained ok =
      let skip = setting.skip_certificate_write in
      ap (λ (p : String × Bool). p.0)
        (left keys _ _ (
          drained_true drain forth.can_drain _ h drained (λ g e.
            written-true _ _ g
              (subst (λ x. (setting.update_files forth i j skip x).1 ≡ true) (sym e) ok)
              (λ f.
                roll_back-Leaves keys files_stage _ _ _
                  (after_files-keys actions f can mode changed)
                  (λ x y. Keeps-from keys _ _ x y (update_files-Keeps back skip j i))))))
