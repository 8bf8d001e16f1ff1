-- ===== src/DaemonUpdate/Source.antt =====
-- internal/actions/daemon/update/daemon_update.go: the update of a daemon by a build of a branch,
-- `handleFromGithub`. The build and the package manager are parameters.
pub mod Builds
use gameapctl.Base.{
  Bool, true, false, Option, none, some, List, ◌∷◌, Result, ok, err, if◌then◌else◌,
}
use gameapctl.DaemonUpdate.{Event, Machine, World, stop_daemon, start_daemon, make_backup, revert}

-- What `SetupDaemonFromGithub` comes to: a new binary, or an error and what it leaves.
pub data Build (Binary : Type 0) : Type 0 where
  built : Binary → Build Binary
  build_broken : Option Binary → Build Binary

pub data BuildError : Type 0 where
  backup_error stop_error package_manager_error build_error start_error : BuildError
  no_backup_error revert_error restart_error : BuildError

module _ {Binary : Type 0} (machine : Machine Binary) (can_load : Bool)
    (build : List Event → Build Binary) where
  abbrev pub Outcome : Type 0
  Outcome = Result BuildError (Unit {0}) × World Binary

  abbrev pub restarted_old : Bool × World Binary → Outcome
  restarted_old (true, w) = (err start_error, w)
  restarted_old (false, w) = (err restart_error, w)

  abbrev pub reverted_old : Bool × World Binary → Outcome
  reverted_old (true, w) = restarted_old (start_daemon machine w)
  reverted_old (false, w) = (err revert_error, w)

  -- `revertFromBackup`; if it succeeds, the update still fails.
  unfoldable pub revert_from_backup : World Binary → Outcome
  revert_from_backup w = elim w.backup [
    | none ↦ (err no_backup_error, w)
    | some binary ↦ reverted_old (revert machine w)
  ]

  abbrev pub started_new : Bool × World Binary → Outcome
  started_new (true, w) = (ok tt, w)
  started_new (false, w) = revert_from_backup w

  -- The results of the way back and of the start are only logged; a missing backup is no way back.
  abbrev pub give_up : World Binary → Outcome
  give_up w = (err build_error, (start_daemon machine (revert machine w).1).1)

  unfoldable pub install_build : World Binary → Build Binary → Outcome
  install_build w (built binary) =
      started_new (start_daemon machine (record w { binary = some binary }))
  install_build w (build_broken left) = give_up (record w { binary = left })

  abbrev pub stopped_old : Bool × World Binary → Outcome
  stopped_old (true, w) =
      if can_load then install_build w (build w.events) else (err package_manager_error, w)
  stopped_old (false, w) = (err stop_error, w)

  abbrev pub backed_up_old : Bool × World Binary → Outcome
  backed_up_old (true, w) = stopped_old (stop_daemon machine w)
  backed_up_old (false, w) = (err backup_error, w)

  -- Without a binary there is nothing to back up. For the scope of a user no package manager is
  -- loaded, and `can_load` is true.
  unfoldable pub handle_from_github : World Binary → Outcome
  handle_from_github w = elim w.binary [
    | none ↦ stopped_old (stop_daemon machine w)
    | some binary ↦ backed_up_old (make_backup machine w)
  ]
