-- ===== src/DaemonUpdate/Source/Builds.antt =====
-- internal/actions/daemon/update/daemon_update.go: what an update by a build leaves.
use gameapctl.Base.{
  Bool, true, false, Option, some, List, ◌∷◌, ok, err, ◌≡◌, refl, sym, ap, inl, inr, Bool-cases,
  if-holds, subst,
}
use gameapctl.DaemonUpdate.{
  Event, stopped, started, applied, copied, Apply, complete, broken, Machine, World, stop_daemon,
  start_daemon, make_backup, revert, apply, read_apply,
}
use gameapctl.DaemonUpdate.Source.{
  Build, built, build_broken, backup_error, stop_error, package_manager_error, build_error,
  start_error, no_backup_error, revert_error, restart_error, Outcome, restarted_old, reverted_old,
  revert_from_backup, started_new, install_build, stopped_old, handle_from_github,
}

module _ {Binary : Type 0} (machine : Machine Binary) (can_load : Bool)
    (build : List Event → Build Binary) where
  -- The last event is this one.
  abbrev pub EndsWith : Event → World Binary → Type 0
  EndsWith event w = (h : List Event) × (w.events ≡ event ∷ h)

  -- By the answer, for the binary from before.
  abbrev pub IsBuilt : Binary → Outcome machine can_load build → Type 0
  IsBuilt old (ok done, w) =
      (h : List Event) × (new : Binary) × (build h ≡ built new)
      × (w.binary ≡ some new)
      × (w.events ≡ started true ∷ h)
  IsBuilt old (err start_error, w) = (w.binary ≡ some old) × EndsWith (started true) w
  IsBuilt old (err restart_error, w) = (w.binary ≡ some old) × EndsWith (started false) w
  IsBuilt old (err build_error, w) =
      (h : List Event) × (left : Option Binary) × (build h ≡ build_broken left)
      × ((done : Bool) × EndsWith (started done) w)
  IsBuilt old (err backup_error, w) = w.binary ≡ some old
  IsBuilt old (err stop_error, w) = w.binary ≡ some old
  IsBuilt old (err package_manager_error, w) = w.binary ≡ some old
  IsBuilt old (err revert_error, w) =
      (h : List Event) × (left : Option Binary) × (machine.apply h old ≡ broken left)
      × (w.binary ≡ left)
      × (w.events ≡ applied false ∷ h)
  IsBuilt old (err no_backup_error, w) = ⊥

  restarted_old-IsBuilt :
      (old : Binary) (w : World Binary) (done : Bool) (h : List Event)
      → w.binary ≡ some old
      → w.events ≡ started done ∷ h
      → IsBuilt old (restarted_old machine can_load build (done, w))
  restarted_old-IsBuilt old w true h same ends = (same, (h, ends))
  restarted_old-IsBuilt old w false h same ends = (same, (h, ends))

  reverted_old-IsBuilt :
      (old : Binary) (w : World Binary) (answer : Apply Binary)
      → machine.apply w.events old ≡ answer
      → IsBuilt old (reverted_old machine can_load build (read_apply machine old w answer))
  unfolding start_daemon
  reverted_old-IsBuilt old w complete e = restarted_old-IsBuilt old _ _ _ refl refl
  reverted_old-IsBuilt old w (broken left) e = (w.events, left, e, refl, refl)

  started_new-IsBuilt :
      (old new : Binary) (w : World Binary) (done : Bool)
      → build w.events ≡ built new
      → IsBuilt old (
          started_new machine can_load build (
            done,
            record w { binary = some new; backup = some old; events = started done ∷ w.events },
          ))
  unfolding revert_from_backup revert apply
  started_new-IsBuilt old new w true made = (w.events, new, made, refl, refl)
  started_new-IsBuilt old new w false made =
      reverted_old-IsBuilt old
        (record w { binary = some new; backup = some old; events = started false ∷ w.events }) _
        refl

  install_build-IsBuilt :
      (old : Binary) (w : World Binary) (result : Build Binary)
      → build w.events ≡ result
      → IsBuilt old (install_build machine can_load build (record w { backup = some old }) result)
  unfolding install_build start_daemon
  install_build-IsBuilt old w (built new) made = started_new-IsBuilt old new w _ made
  install_build-IsBuilt old w (build_broken left) made = (w.events, left, made, (_, (_, refl)))

  stopped_old-IsBuilt :
      (old : Binary) (w : World Binary) (done : Bool)
      → IsBuilt old (
          stopped_old machine can_load build
            (done, record w { binary = some old; backup = some old }))
  stopped_old-IsBuilt old w true =
      if-holds (IsBuilt old) can_load
        (λ _. install_build-IsBuilt old (record w { binary = some old; backup = some old }) _ refl)
        (λ _. refl)
  stopped_old-IsBuilt old w false = refl

  backed_up_old-IsBuilt :
      (old : Binary) (w : World Binary)
      → IsBuilt old (handle_from_github machine can_load build (record w { binary = some old }))
  unfolding handle_from_github make_backup stop_daemon
  backed_up_old-IsBuilt old w = elim (Bool-cases (machine.copy w.events)) [
    | inl done ↦
        rw done
          (stopped_old-IsBuilt old (record w { events = stopped _ ∷ copied true ∷ w.events }) _)
    | inr failed ↦ rw failed refl
  ]

  -- The update of an installed daemon by a build. If it succeeds, the binary of the build is installed
  -- and was started last. If the new binary does not start, the update fails: with `start_error` the
  -- old one is back and was started, with `restart_error` it is back and its start failed, and with
  -- `revert_error` the failed write of the old one left what is there. A failed build ends with a try to
  -- start the daemon. If the backup, the stop or the package manager fails, the binary is the old one;
  -- a backup is never missing.
  pub handle_from_github-IsBuilt :
      (old : Binary) (w : World Binary)
      → w.binary ≡ some old
      → IsBuilt old (handle_from_github machine can_load build w)
  handle_from_github-IsBuilt old w same =
      subst (λ u. IsBuilt old (handle_from_github machine can_load build u))
        (ap (λ (b : Option Binary). record w { binary = b }) (sym same))
        (backed_up_old-IsBuilt old w)
