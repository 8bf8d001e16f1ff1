-- ===== src/DaemonUpdate/Outcomes.antt =====
-- internal/actions/daemon/update/daemon_update.go: what the update to a release leaves, by its answer.
use gameapctl.Base.{
  Text, Bool, true, false, not, ◌||◌, Option, none, some, List, ◌∷◌, ok, err, is_empty, text_eq,
  ◌≡◌, refl, sym, ◌∙◌, ◌⊎◌, inl, inr, Bool-cases, if-holds,
}
use gameapctl.DaemonUpdate.{
  stop_failed, backup_failed, update_failed, revert_failed, revert_after_failure_failed,
  start_failed, exclusive_flags, bad_version, Event, stopped, started, applied, copied, Apply,
  complete, broken, Machine, World, Step, stop_daemon, start_daemon, read_apply, apply, revert,
  make_backup, finish, restarted, reverted, first_start, undone, first_apply, backed_up, first_stop,
  update_release, update_daemon_state_version,
}

module _ {Binary : Type 0} (machine : Machine Binary) where
  -- What was done up to a backup.
  abbrev pub backed_up_events : List Event → List Event
  backed_up_events h = copied true ∷ stopped true ∷ h

  -- The write of the old binary after these events failed, and left what is there.
  abbrev pub IsLeftBroken : World Binary → List Event → World Binary → Type 0
  IsLeftBroken w h w' =
      (old : Binary) × (left : Option Binary) × (w.binary ≡ some old)
      × (machine.apply h old ≡ broken left)
      × (w'.binary ≡ left)
      × (w'.events ≡ applied false ∷ h)

  -- By the answer: the binary, and all that was done.
  abbrev pub IsUpdate : Text → Binary → World Binary → Step machine → Type 0
  IsUpdate tag binary w (ok done, w') =
      ((w'.binary ≡ some binary)
        × (w'.events ≡ started true ∷ applied true ∷ backed_up_events w.events))
      ⊎ ((w'.binary ≡ w.binary)
          × (w'.events
              ≡ started true
                ∷ applied true
                ∷ started false
                ∷ applied true
                ∷ backed_up_events w.events))
  IsUpdate tag binary w (err stop_failed, w') =
      (w'.binary ≡ w.binary) × (w'.events ≡ stopped false ∷ w.events)
  IsUpdate tag binary w (err backup_failed, w') =
      (w'.binary ≡ w.binary) × (w'.events ≡ copied false ∷ stopped true ∷ w.events)
  IsUpdate tag binary w (err update_failed, w') =
      (w'.binary ≡ w.binary)
      × (w'.events ≡ applied true ∷ applied false ∷ backed_up_events w.events)
  IsUpdate tag binary w (err revert_after_failure_failed, w') =
      IsLeftBroken w (applied false ∷ backed_up_events w.events) w'
  IsUpdate tag binary w (err revert_failed, w') =
      IsLeftBroken w (started false ∷ applied true ∷ backed_up_events w.events) w'
  IsUpdate tag binary w (err start_failed, w') =
      (w'.binary ≡ w.binary)
      × (w'.events
          ≡ started false ∷ applied true ∷ started false ∷ applied true ∷ backed_up_events w.events)
  IsUpdate tag binary w (err exclusive_flags, w') = ⊥
  IsUpdate tag binary w (err (bad_version e), w') = ⊥

  module _ (tag : Text) (binary old : Binary) (w : World Binary) where
    -- The worlds after the backup, in which the events and the binary are these.
    abbrev at_step : Option Binary → List Event → World Binary
    at_step now h = record w { binary = now; backup = some old; events = h }

    finish-binary :
        (u : World Binary) → (update_daemon_state_version machine tag u).binary ≡ u.binary
    unfolding update_daemon_state_version
    finish-binary u =
        if-holds (λ (u' : World Binary). u'.binary ≡ u.binary)
          (is_empty tag
            || not machine.load_state
            || text_eq u.version tag
            || not machine.save_state)
          (λ _. refl) (λ _. refl)

    finish-events :
        (u : World Binary) → (update_daemon_state_version machine tag u).events ≡ u.events
    unfolding update_daemon_state_version
    finish-events u =
        if-holds (λ (u' : World Binary). u'.events ≡ u.events)
          (is_empty tag
            || not machine.load_state
            || text_eq u.version tag
            || not machine.save_state)
          (λ _. refl) (λ _. refl)

    restarted-IsUpdate :
        w.binary ≡ some old
        → (done : Bool)
        → IsUpdate tag binary w (
            restarted machine tag (
              done,
              at_step (some old) (
                  started done
                  ∷ applied true
                  ∷ started false
                  ∷ applied true
                  ∷ backed_up_events w.events),
            ))
    unfolding finish
    restarted-IsUpdate same true = inr (finish-binary _ ∙ sym same, finish-events _)
    restarted-IsUpdate same false = (sym same, refl)

    reverted-IsUpdate :
        w.binary ≡ some old
        → (answer : Apply Binary)
        → machine.apply (started false ∷ applied true ∷ backed_up_events w.events) old ≡ answer
        → IsUpdate tag binary w (
            reverted machine tag (
              read_apply machine old
                (at_step (some binary) (started false ∷ applied true ∷ backed_up_events w.events))
                answer))
    unfolding start_daemon
    reverted-IsUpdate same complete e = restarted-IsUpdate same _
    reverted-IsUpdate same (broken left) e = (old, left, same, e, refl, refl)

    first_start-IsUpdate :
        w.binary ≡ some old
        → (done : Bool)
        → IsUpdate tag binary w (
            first_start machine tag (
              done,
              at_step (some binary) (started done ∷ applied true ∷ backed_up_events w.events),
            ))
    unfolding finish revert apply
    first_start-IsUpdate same true = inl (finish-binary _, finish-events _)
    first_start-IsUpdate same false = reverted-IsUpdate same _ refl

    undone-IsUpdate :
        w.binary ≡ some old
        → (left : Option Binary) (answer : Apply Binary)
        → machine.apply (applied false ∷ backed_up_events w.events) old ≡ answer
        → IsUpdate tag binary w (
            undone machine (
              read_apply machine old
                (at_step left (applied false ∷ backed_up_events w.events))
                answer))
    undone-IsUpdate same left complete e = (sym same, refl)
    undone-IsUpdate same left (broken left') e = (old, left', same, e, refl, refl)

    first_apply-IsUpdate :
        w.binary ≡ some old
        → (answer : Apply Binary)
        → IsUpdate tag binary w (
            first_apply machine tag
              (read_apply machine binary (at_step (some old) (backed_up_events w.events)) answer))
    unfolding start_daemon revert apply
    first_apply-IsUpdate same complete = first_start-IsUpdate same _
    first_apply-IsUpdate same (broken left) = undone-IsUpdate same left _ refl

  backed_up-IsUpdate :
      (tag : Text) (binary : Binary) (w : World Binary) (now : Option Binary)
      → w.binary ≡ now
      → IsUpdate tag binary w (
          backed_up machine tag binary
            (make_backup machine (record w { binary = now; events = stopped true ∷ w.events })))
  unfolding make_backup apply
  backed_up-IsUpdate tag binary w none same = (sym same, refl)
  backed_up-IsUpdate tag binary w (some old) same =
      elim (Bool-cases (machine.copy (stopped true ∷ w.events))) [
        | inl done ↦ rw done (first_apply-IsUpdate tag binary old w same _)
        | inr failed ↦ rw failed (sym same, refl)
      ]

  first_stop-IsUpdate :
      (tag : Text) (binary : Binary) (w : World Binary) (done : Bool)
      → IsUpdate tag binary w
          (first_stop machine tag binary (done, record w { events = stopped done ∷ w.events }))
  first_stop-IsUpdate tag binary w true = backed_up-IsUpdate tag binary w w.binary refl
  first_stop-IsUpdate tag binary w false = (refl, refl)

  -- What an update to a release leaves. If it succeeds, the new binary is installed and started, or it
  -- did not start and the old one is back and was started. If it fails with an error of the stop, the
  -- backup, the update or the second start, the binary is the old one; after a failed update, nothing
  -- starts it again. A failed way back leaves what the failed write left.
  pub update_release-IsUpdate :
      (tag : Text) (binary : Binary) (w : World Binary)
      → IsUpdate tag binary w (update_release machine tag binary w)
  unfolding update_release stop_daemon
  update_release-IsUpdate tag binary w = first_stop-IsUpdate tag binary w _
