-- ===== src/Update/RollBack/Files.antt =====
-- The files that an update leaves behind.
use openshift_machine_config.Common.{
  ◌≡◌, refl, ap, String, Bool, true, false, ◌&&◌, not, Option, none, some, List, if◌then◌else◌,
}
use openshift_machine_config.Daemon.{MachineConfigDiff}
use openshift_machine_config.Update.{
  MachineConfig, Host, World, Step, Result, UpdateError, chain, roll_back, perform_drain,
  files_stage, keys_stage, not_drained, undone,
}
use openshift_machine_config.Update.Reconcile.{IgnitionConfig}
use openshift_machine_config.Update.Apply.{
  Setting, store, tune, change_system, change_passwords, change_keys, change_files, after_files,
  update_files_step, update_planned, written,
}
use openshift_machine_config.Update.Keeps.{
  Keeps, left, chain-Keeps, check-Keeps, roll_back-Keeps, update_ssh_keys-Keeps,
}
use openshift_machine_config.Update.RollBack.{
  IsBlind, IsWanted, finish-Keeps, change_passwords-Keeps,
}

abbrev pub is_error : Option UpdateError → Bool
is_error none = false
is_error (some e) = true

-- What an update makes of the files that it has written: where they were written in full and an error
-- came after, they are written back.
abbrev pub settled_files : {F : Type 0} → F × Bool → (F → F) → Bool → F
settled_files (fs, false) undo failed = fs
settled_files (fs, true) undo failed = if failed then undo fs else fs

module _ {V W F : Type 0} (setting : Setting V W F) (forth back : World) (old new : MachineConfig V)
    (i j : IgnitionConfig W) (diff : MachineConfigDiff) (wanted : IsWanted setting new) where
  abbrev files : Host F → F
  files h = h.files

  files-IsBlind : IsBlind files
  files-IsBlind = record {
    staged = λ h s. refl;
    stored = λ h s. refl;
    image = λ h s. refl;
    state = λ h s. refl;
    rebooting = λ h b. refl;
  }

  after_files-Keeps :
      (actions : List String)
      → Keeps files (after_files setting forth back old new i j diff actions)
  after_files-Keeps actions h =
      chain-Keeps files _ _ (files h) (check-Keeps files _ _ h) (go diff.passwd)
    where
      rest : Step F
      rest = change_passwords setting forth back old new i j diff (
          change_system setting forth back old new i j diff (
            tune setting forth back old new i j diff
              (store setting forth back old new i j diff actions)))

      rest-Keeps : Keeps files rest
      rest-Keeps =
          change_passwords-Keeps setting forth back old new i j diff wanted files files-IsBlind
            (λ g p. refl) _
            (finish-Keeps setting forth back old new i j diff wanted files files-IsBlind actions)

      go :
          (b : Bool)
          → Keeps files (if b then change_keys setting forth back old new i j diff rest else rest)
      go false g = rest-Keeps g
      go true g =
          chain-Keeps files _ _ (files g)
            (update_ssh_keys-Keeps files (λ f p. refl) forth (λ f k. refl) j.users i.users g)
            (λ f.
              roll_back-Keeps files keys_stage _ _ (files f) (rest-Keeps f)
                (update_ssh_keys-Keeps files (λ e p. refl) back (λ e k. refl) j.users i.users))

  taken_back :
      (skip : Bool) (r : Result F) (fs : F)
      → files r.0 ≡ fs
      → let after = roll_back files_stage (update_files_step setting back skip j i) r in
        files after.0
        ≡ settled_files
            (fs, true)
            (λ x. (setting.update_files back j i skip x).0)
            (is_error after.1)
  unfolding update_files_step
  taken_back skip (h, none) fs e = e
  taken_back skip (h, some y) fs e =
      go (setting.update_files back j i skip h.files) _
        (ap (λ x. (setting.update_files back j i skip x).0) e)
    where
      go :
          (q : F × Bool) (gs : F)
          → q.0 ≡ gs
          → let after = undone files_stage y (written setting q h) in
            files after.0 ≡ (if is_error after.1 then gs else fs)
      go (ks, true) gs e' = e'
      go (ks, false) gs e' = e'

  change_files_lem :
      (skip : Bool) (next : Step F) (h : Host F)
      → Keeps files next
      → let after = change_files setting forth back old new i j diff skip next h in
        files after.0
        ≡ settled_files
            (setting.update_files forth i j skip h.files)
            (λ x. (setting.update_files back j i skip x).0)
            (is_error after.1)
  unfolding update_files_step
  change_files_lem skip next h k = go (setting.update_files forth i j skip h.files)
    where
      go :
          (p : F × Bool)
          → let after =
              chain
                (written setting p h)
                (λ g. roll_back files_stage (update_files_step setting back skip j i) (next g)) in
            files after.0
            ≡ settled_files p (λ x. (setting.update_files back j i skip x).0) (is_error after.1)
      go (fs, false) = refl
      go (fs, true) =
          taken_back skip (next (record h { files = fs })) fs
            (left files fs _ (k (record h { files = fs })))

  -- Where nothing but the new configuration is wanted of the node, an update leaves the files as they
  -- were if the drain fails, as far as they were written if writing them fails, and if anything after
  -- them fails, as writing the old files back leaves them, whether that succeeds or not; without an
  -- error it leaves the new ones.
  pub update_planned-files :
      (actions : List String) (drain : Bool) (h : Host F)
      → let after = update_planned setting forth back old new i j diff actions drain h in
        let skip = setting.skip_certificate_write in
        files after.0 ≡ (
          if drain && not forth.can_drain
          then h.files
          else settled_files
              (setting.update_files forth i j skip h.files)
              (λ x. (setting.update_files back j i skip x).0)
              (is_error after.1))
  unfolding update_planned perform_drain
  update_planned-files actions drain h = go drain forth.can_drain
    where
      rest : Step F
      rest =
          change_files setting forth back old new i j diff setting.skip_certificate_write
            (after_files setting forth back old new i j diff actions)

      go :
          (d c : Bool)
          → let after =
              chain
                (if d
                  then (if c then (record h { is_drained = true }, none) else (h, some not_drained))
                  else (h, none))
                rest in
            files after.0 ≡ (
              if d && not c
              then h.files
              else settled_files
                  (setting.update_files forth i j setting.skip_certificate_write h.files)
                  (λ x. (setting.update_files back j i setting.skip_certificate_write x).0)
                  (is_error after.1))
      go true false = refl
      go true true = change_files_lem _ _ _ (after_files-Keeps actions)
      go false c = change_files_lem _ _ _ (after_files-Keeps actions)
