-- ===== src/PanelUpdate/Outcomes.antt =====
-- What the update of the panel to a release leaves, by its answer.
use gameapctl.Base.{
  Bool, ◌∷◌, true, false, not, Option, none, some, List, Text, ok, err, ◌≡◌, refl, ◌∙◌, inl, inr,
  Bool-cases, if-holds, arith, ℕ, zero, suc, is_empty, text_eq, ◌||◌,
}
use gameapctl.PanelUpdate.{
  Event, started, checked, removed, Machine, World, stop_failed, replace_failed, start_failed,
  restore_failed, restart_failed, rolled_back, Step, Outcome, note, stop_panel, start_panel,
  restore_backup_v4, check_health_from, check_health, update_panel_state_version, remove_backup,
  recorded, finish, restarted, restored, roll_back, judged,
}
use gameapctl.PanelUpdate.Exchange.{IsRestored, restore_backup_v4-IsRestored, IsKept}

module _ {Binary : Type 0} (machine : Machine Binary) where
  -- The last of the events is a start of the panel, but for checks that failed since.
  unfoldable pub JustStarted : List Event → Type 0
  JustStarted (checked false ∷ h) = JustStarted h
  JustStarted (started done ∷ h) = done ≡ true
  JustStarted h = ⊥

  -- The last event is a check that passed, of the panel that was started before it.
  abbrev pub HasPassed : List Event → Type 0
  HasPassed events =
      (h : List Event) × (events ≡ checked true ∷ h)
      × (machine.check_installation h ≡ true)
      × JustStarted h

  -- The checks keep the files and the service, and they pass only if one of them does.
  abbrev pub IsChecked : World Binary → Step machine → Type 0
  IsChecked w s =
      (s.1.binary ≡ w.binary)
      × (s.1.backup ≡ w.backup)
      × (s.1.running ≡ w.running)
      × (s.0 ≡ true → HasPassed s.1.events)

  check_health_from-IsChecked :
      (tries : ℕ) (w : World Binary)
      → JustStarted w.events
      → IsChecked w (check_health_from machine tries w)
  unfolding check_health_from JustStarted
  check_health_from-IsChecked zero w start = (refl, refl, refl, λ h. cc)
  check_health_from-IsChecked (suc tries) w start =
      if-holds (IsChecked w) (machine.check_installation w.events)
        (λ passed. (refl, refl, refl, λ _. (w.events, refl, passed, start)))
        (λ _. check_health_from-IsChecked tries (note machine (checked false) w) start)

  pub check_health-IsChecked :
      (w : World Binary) → JustStarted w.events → IsChecked w (check_health machine w)
  unfolding check_health
  check_health-IsChecked w start = check_health_from-IsChecked 5 w start

  -- By the answer, from the binary `old`: an error names where the old binary is, and success that the
  -- new one is in place, runs, and passed a check, after which only the backup was removed.
  abbrev pub IsJudged : Option Binary → Binary → Outcome machine → Type 0
  IsJudged old new (ok done, w') =
      (w'.binary ≡ some new)
      × (w'.running ≡ true)
      × ((gone : Bool) × (h : List Event) × (w'.events ≡ removed gone ∷ h) × HasPassed h)
  IsJudged old new (err rolled_back, w') = (w'.binary ≡ old) × (w'.running ≡ true)
  IsJudged old new (err restart_failed, w') = w'.binary ≡ old
  IsJudged old new (err restore_failed, w') = w'.backup ≡ old
  IsJudged old new (err e, w') = ⊥

  restarted-IsJudged :
      (old : Option Binary) (new : Binary) (w : World Binary)
      → w.binary ≡ old
      → IsJudged old new (restarted machine (start_panel machine w))
  unfolding start_panel
  restarted-IsJudged old new w h = elim (Bool-cases (machine.start w.events)) [
    | inl done ↦ rw done (h, refl)
    | inr failed ↦ rw failed h
  ]

  restored-IsJudged :
      (old : Option Binary) (new : Binary) (w : World Binary) (s : Step machine)
      → IsRestored machine w s
      → w.backup ≡ old
      → IsJudged old new (restored machine s)
  unfolding restored
  restored-IsJudged old new w (true, u) (same, _, _) h = restarted-IsJudged old new u (same ∙ h)
  restored-IsJudged old new w (false, u) (kept, _) h = kept ∙ h

  stop_panel-backup : (w : World Binary) → (stop_panel machine w).1.backup ≡ w.backup
  unfolding stop_panel
  stop_panel-backup w = ground arith

  pub roll_back-IsJudged :
      (old : Option Binary) (new : Binary) (w : World Binary)
      → w.backup ≡ old
      → IsJudged old new (roll_back machine w)
  unfolding roll_back
  roll_back-IsJudged old new w h =
      let u = (stop_panel machine w).1 in
      restored-IsJudged old new u (restore_backup_v4 machine u)
        (restore_backup_v4-IsRestored machine u) (stop_panel-backup w ∙ h)

  abbrev SameService : World Binary → World Binary → Type 0
  SameService w u = (u.binary ≡ w.binary) × (u.running ≡ w.running)

  remove_backup-events :
      (w : World Binary)
      → (gone : Bool) × ((remove_backup machine w).events ≡ removed gone ∷ w.events)
  unfolding remove_backup
  remove_backup-events w = elim (Bool-cases (machine.remove w.events)) [
    | inl done ↦ (true, rw done refl)
    | inr failed ↦ (false, rw failed refl)
  ]

  recorded-events :
      (tag : Option Text) (w : World Binary) → (recorded machine tag w).events ≡ w.events
  unfolding recorded update_panel_state_version
  recorded-events none w = refl
  recorded-events (some tag) w = ground arith

  remove_backup-SameService : (w : World Binary) → SameService w (remove_backup machine w)
  unfolding remove_backup
  remove_backup-SameService w =
      if-holds (SameService w) (machine.remove w.events) (λ _. (refl, refl)) (λ _. (refl, refl))

  recorded-SameService :
      (tag : Option Text) (w : World Binary) → SameService w (recorded machine tag w)
  unfolding recorded update_panel_state_version
  recorded-SameService none w = (refl, refl)
  recorded-SameService (some tag) w =
      if-holds (SameService w) (is_empty tag) (λ _. (refl, refl))
        (λ _.
          if-holds (SameService w)
            (not machine.load_state || text_eq w.version tag || not machine.save_state)
            (λ _. (refl, refl)) (λ _. (refl, refl)))

  pub judged-IsJudged :
      (tag : Option Text) (old : Option Binary) (new : Binary) (w : World Binary) (s : Step machine)
      → IsChecked w s
      → w.binary ≡ some new
      → w.running ≡ true
      → w.backup ≡ old
      → IsJudged old new (judged machine tag s)
  unfolding judged finish
  judged-IsJudged tag old new w (true, u) (binary, _, running, passed) now runs kept =
      let (gone, events) = remove_backup-events u in
      let cleared = remove_backup machine u in
      let (binary₁, running₁) = remove_backup-SameService u in
      let (binary₂, running₂) = recorded-SameService tag cleared in
      (
        binary₂ ∙ binary₁ ∙ binary ∙ now,
        running₂ ∙ running₁ ∙ running ∙ runs,
        (gone, u.events, recorded-events tag cleared ∙ events, passed refl),
      )
  judged-IsJudged tag old new w (false, u) (_, backup, _, _) now runs kept =
      roll_back-IsJudged old new u (backup ∙ kept)

  -- The answer of the whole update, from the world before it.
  abbrev pub IsUpdate : World Binary → Binary → Outcome machine → Type 0
  IsUpdate w new (err stop_failed, w') = (w'.binary ≡ w.binary) × (w'.running ≡ w.running)
  IsUpdate w new (err replace_failed, w') = IsKept machine w.binary w' × (w'.running ≡ false)
  IsUpdate w new (err start_failed, w') =
      (w'.binary ≡ some new) × (w'.backup ≡ w.binary) × (w'.running ≡ false)
  IsUpdate w new (r, w') = IsJudged w.binary new (r, w')
