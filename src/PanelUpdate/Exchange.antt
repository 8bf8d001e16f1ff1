-- ===== src/PanelUpdate/Exchange.antt =====
-- The exchange of the binary for the new one, and the way back from the backup.
use gameapctl.Base.{true, false, Option, none, some, ◌≡◌, refl, sym, ◌∙◌, ◌⊎◌, inl, inr, Bool-cases}
use gameapctl.PanelUpdate.{
  copied, removed, Copying, complete, spoilt, Machine, World, Step, note, copy_in, copy_out,
  copy_binary, backup_of, make_backup, remove_binary, set_mode, then_do, restore, restore_backup_v4,
  replaced, put_new, backup_and_replace,
}

module _ {Binary : Type 0} (machine : Machine Binary) where
  -- The way back: on success the binary is that of the backup; the backup and the service stay.
  abbrev pub IsRestored : World Binary → Step machine → Type 0
  IsRestored w (true, w') =
      (w'.binary ≡ w.backup) × (w'.backup ≡ w.backup) × (w'.running ≡ w.running)
  IsRestored w (false, w') = (w'.backup ≡ w.backup) × (w'.running ≡ w.running)

  abbrev removed_from : World Binary → World Binary
  removed_from w = record (note machine (removed true) w) { binary = none }

  set_mode-IsRestored :
      (old : Binary) (w u : World Binary)
      → u.binary ≡ some old
      → w.backup ≡ some old
      → u.backup ≡ w.backup
      → u.running ≡ w.running
      → IsRestored w (set_mode machine u)
  unfolding set_mode
  set_mode-IsRestored old w u now was kept running = elim (Bool-cases (machine.chmod u.events)) [
    | inl h ↦ rw h (now ∙ sym was, kept, running)
    | inr h ↦ rw h (kept, running)
  ]

  copied-IsRestored :
      (old : Binary) (w u : World Binary) (c : Copying Binary)
      → w.backup ≡ some old
      → u.backup ≡ w.backup
      → u.running ≡ w.running
      → IsRestored w (then_do machine (set_mode machine) (copy_in machine old u c))
  copied-IsRestored old w u complete was kept running =
      set_mode-IsRestored old w _ refl was kept running
  copied-IsRestored old w u (spoilt left) was kept running = (kept, running)

  restore-IsRestored :
      (w : World Binary) (backup : Option Binary)
      → w.backup ≡ backup
      → IsRestored w (restore machine backup w)
  unfolding restore remove_binary copy_binary
  restore-IsRestored w none h = (refl, refl)
  restore-IsRestored w (some old) h = elim (Bool-cases (machine.remove w.events)) [
    | inl done ↦ rw done (
        copied-IsRestored old w (removed_from w) (machine.copy (removed_from w).events) h refl refl)
    | inr failed ↦ rw failed (refl, refl)
  ]

  pub restore_backup_v4-IsRestored : (w : World Binary) → IsRestored w (restore_backup_v4 machine w)
  unfolding restore_backup_v4
  restore_backup_v4-IsRestored w = restore-IsRestored w w.backup refl

  -- The old binary is in place, or in the backup.
  abbrev pub IsKept : Option Binary → World Binary → Type 0
  IsKept old w = (w.binary ≡ old) ⊎ (w.backup ≡ old)

  -- The exchange: on success the new binary is in place and the old one in the backup; on failure the
  -- old one is in either. The service stays.
  abbrev pub IsReplaced : Binary → World Binary → Step machine → Type 0
  IsReplaced new w (true, w') =
      (w'.binary ≡ some new) × (w'.backup ≡ w.binary) × (w'.running ≡ w.running)
  IsReplaced new w (false, w') = IsKept w.binary w' × (w'.running ≡ w.running)

  restored-keeps :
      (w u : World Binary) (s : Step machine)
      → IsRestored u s
      → u.backup ≡ w.binary
      → u.running ≡ w.running
      → IsKept w.binary s.1 × (s.1.running ≡ w.running)
  restored-keeps w u (true, u') (_, backup, running) kept same =
      (inr (backup ∙ kept), running ∙ same)
  restored-keeps w u (false, u') (backup, running) kept same = (inr (backup ∙ kept), running ∙ same)

  set_mode-IsReplaced :
      (new : Binary) (w u : World Binary)
      → u.binary ≡ some new
      → u.backup ≡ w.binary
      → u.running ≡ w.running
      → IsReplaced new w (set_mode machine u)
  unfolding set_mode
  set_mode-IsReplaced new w u now kept running = elim (Bool-cases (machine.chmod u.events)) [
    | inl h ↦ rw h (now, kept, running)
    | inr h ↦ rw h (inr kept, running)
  ]

  copied-IsReplaced :
      (new : Binary) (w u : World Binary) (c : Copying Binary)
      → u.backup ≡ w.binary
      → u.running ≡ w.running
      → IsReplaced new w (replaced machine (copy_in machine new u c))
  unfolding replaced
  copied-IsReplaced new w u complete kept running = set_mode-IsReplaced new w _ refl kept running
  copied-IsReplaced new w u (spoilt left) kept running =
      let left_in = record (note machine (copied false) u) { binary = left } in
      restored-keeps w left_in (restore_backup_v4 machine left_in)
        (restore_backup_v4-IsRestored left_in) kept running

  removed-IsReplaced :
      (new : Binary) (w u : World Binary)
      → u.backup ≡ w.binary
      → u.running ≡ w.running
      → IsReplaced new w (put_new machine new (remove_binary machine u))
  unfolding put_new remove_binary copy_binary
  removed-IsReplaced new w u kept running = elim (Bool-cases (machine.remove u.events)) [
    | inl h ↦ rw h (
        copied-IsReplaced new w (removed_from u) (machine.copy (removed_from u).events) kept
          running)
    | inr h ↦ rw h (inr kept, running)
  ]

  copied_out-IsReplaced :
      (new old : Binary) (w : World Binary) (c : Copying Binary)
      → w.binary ≡ some old
      → IsReplaced new w
          (put_new machine new (then_do machine (remove_binary machine) (copy_out machine old w c)))
  unfolding put_new
  copied_out-IsReplaced new old w complete h = removed-IsReplaced new w _ (sym h) refl
  copied_out-IsReplaced new old w (spoilt left) h = (inl refl, refl)

  backed_up-IsReplaced :
      (new : Binary) (w : World Binary) (o : Option Binary)
      → w.binary ≡ o
      → IsReplaced new w
          (put_new machine new (then_do machine (remove_binary machine) (backup_of machine o w)))
  unfolding put_new
  backed_up-IsReplaced new w none h = (inl refl, refl)
  backed_up-IsReplaced new w (some old) h =
      copied_out-IsReplaced new old w (machine.copy w.events) h

  pub backup_and_replace-IsReplaced :
      (new : Binary) (w : World Binary) → IsReplaced new w (backup_and_replace machine new w)
  unfolding backup_and_replace make_backup
  backup_and_replace-IsReplaced new w = backed_up-IsReplaced new w w.binary refl
