-- ===== src/PanelUpdate.antt =====
-- internal/actions/panel/update/panel_update_v4.go: the update of the panel's binary, by a release or
-- by a build of a branch, with its backup and the way back. The binaries are opaque.
pub mod Exchange
pub mod Outcomes
pub mod Github
pub mod Health
pub mod Routes
use gameapctl.Base.{
  Bool, true, false, not, ◌&&◌, ◌||◌, Option, none, some, List, ◌∷◌, Text, Result, ok, err,
  if◌then◌else◌, is_empty, text_eq, ℕ, zero, suc,
}

pub data Event : Type 0 where
  stopped started copied removed mode_set checked : (done : Bool) → Event

-- A failed `utils.Copy` leaves in the target what it gives.
pub data Copying (Binary : Type 0) : Type 0 where
  complete : Copying Binary
  spoilt : Option Binary → Copying Binary

-- What each call comes to, by all that was done before it. `remove` fails with an error other than
-- that of a missing file.
pub record Machine (Binary : Type 0) : Type 0 where
  pub stop : List Event → Bool
  pub start : List Event → Bool
  pub copy : List Event → Copying Binary
  pub remove : List Event → Bool
  pub chmod : List Event → Bool
  pub check_installation : List Event → Bool
  pub load_state : Bool
  pub save_state : Bool

-- The files at the binary's path and at that of its backup, whether the service was started last, and
-- the version in the state of the installation.
pub record World (Binary : Type 0) : Type 0 where
  pub binary : Option Binary
  pub backup : Option Binary
  pub running : Bool
  pub version : Text
  pub events : List Event

pub data UpdateError : Type 0 where
  stop_failed replace_failed start_failed restore_failed restart_failed rolled_back : UpdateError
  backup_failed build_failed no_package_manager : UpdateError

module _ {Binary : Type 0} (machine : Machine Binary) where
  abbrev pub Step : Type 0
  Step = Bool × World Binary

  abbrev pub Outcome : Type 0
  Outcome = Result UpdateError (Unit {0}) × World Binary

  abbrev pub note : Event → World Binary → World Binary
  note event w = record w { events = event ∷ w.events }

  unfoldable pub stop_panel : World Binary → Step
  stop_panel w =
      if machine.stop w.events
      then (true, record (note (stopped true) w) { running = false })
      else (false, note (stopped false) w)

  unfoldable pub start_panel : World Binary → Step
  start_panel w =
      if machine.start w.events
      then (true, record (note (started true) w) { running = true })
      else (false, note (started false) w)

  -- `utils.Copy` to the binary's path.
  abbrev pub copy_in : Binary → World Binary → Copying Binary → Step
  copy_in new w complete = (true, record (note (copied true) w) { binary = some new })
  copy_in new w (spoilt left) = (false, record (note (copied false) w) { binary = left })

  abbrev pub copy_out : Binary → World Binary → Copying Binary → Step
  copy_out old w complete = (true, record (note (copied true) w) { backup = some old })
  copy_out old w (spoilt left) = (false, record (note (copied false) w) { backup = left })

  unfoldable pub copy_binary : Binary → World Binary → Step
  copy_binary new w = copy_in new w (machine.copy w.events)

  abbrev pub backup_of : Option Binary → World Binary → Step
  backup_of none w = (false, note (copied false) w)
  backup_of (some old) w = copy_out old w (machine.copy w.events)

  -- `utils.Copy` to the backup's path, which needs a binary.
  unfoldable pub make_backup : World Binary → Step
  make_backup w = backup_of w.binary w

  unfoldable pub remove_binary : World Binary → Step
  remove_binary w =
      if machine.remove w.events
      then (true, record (note (removed true) w) { binary = none })
      else (false, note (removed false) w)

  unfoldable pub set_mode : World Binary → Step
  set_mode w = (machine.chmod w.events, note (mode_set (machine.chmod w.events)) w)

  -- The next call, if the one before was without an error.
  abbrev pub then_do : (World Binary → Step) → Step → Step
  then_do next (true, w) = next w
  then_do next (false, w) = (false, w)

  abbrev pub restore : Option Binary → World Binary → Step
  unfolding remove_binary copy_binary set_mode
  restore none w = (false, w)
  restore (some old) w = then_do set_mode (then_do (copy_binary old) (remove_binary w))

  unfoldable pub restore_backup_v4 : World Binary → Step
  unfolding restore
  restore_backup_v4 w = restore w.backup w

  -- The copy of the new binary and what follows; the result of the way back is only logged.
  abbrev pub replaced : Step → Step
  unfolding restore_backup_v4 set_mode
  replaced (true, w) = set_mode w
  replaced (false, w) = (false, (restore_backup_v4 w).1)

  abbrev pub put_new : Binary → Step → Step
  unfolding copy_binary replaced
  put_new new (true, w) = replaced (copy_binary new w)
  put_new new (false, w) = (false, w)

  unfoldable pub backup_and_replace : Binary → World Binary → Step
  unfolding put_new make_backup remove_binary
  backup_and_replace new w = put_new new (then_do remove_binary (make_backup w))

  -- The loop of `checkHealth`, with the tries that are left.
  unfoldable pub check_health_from : ℕ → World Binary → Step
  check_health_from zero w = (false, w)
  check_health_from (suc tries) w =
      let rest = check_health_from tries (note (checked false) w) in
      if machine.check_installation w.events then (true, note (checked true) w) else rest

  unfoldable pub check_health : World Binary → Step
  unfolding check_health_from
  check_health w = check_health_from 5 w

  unfoldable pub update_panel_state_version : Text → World Binary → World Binary
  update_panel_state_version tag w =
      if not machine.load_state || text_eq w.version tag || not machine.save_state
      then w
      else record w { version = tag }

  -- A failed removal of the backup is only logged.
  unfoldable pub remove_backup : World Binary → World Binary
  remove_backup w =
      if machine.remove w.events
      then record (note (removed true) w) { backup = none }
      else note (removed false) w

  -- `none` for a build, which records no version.
  abbrev pub recorded : Option Text → World Binary → World Binary
  unfolding update_panel_state_version
  recorded none w = w
  recorded (some tag) w = if is_empty tag then w else update_panel_state_version tag w

  unfoldable pub finish : Option Text → World Binary → Outcome
  unfolding recorded remove_backup
  finish tag w = (ok tt, recorded tag (remove_backup w))

  abbrev pub restarted : Step → Outcome
  restarted (true, w) = (err rolled_back, w)
  restarted (false, w) = (err restart_failed, w)

  abbrev pub restored : Step → Outcome
  unfolding start_panel
  restored (true, w) = restarted (start_panel w)
  restored (false, w) = (err restore_failed, w)

  -- A failed stop is only logged.
  unfoldable pub roll_back : World Binary → Outcome
  unfolding restored restore_backup_v4 stop_panel
  roll_back w = restored (restore_backup_v4 (stop_panel w).1)

  abbrev pub judged : Option Text → Step → Outcome
  unfolding finish roll_back
  judged tag (true, w) = finish tag w
  judged tag (false, w) = roll_back w

  abbrev pub start_result : Option Text → Step → Outcome
  unfolding judged check_health
  start_result tag (true, w) = judged tag (check_health w)
  start_result tag (false, w) = (err start_failed, w)

  abbrev pub replace_result : Option Text → Step → Outcome
  unfolding start_result start_panel
  replace_result tag (true, w) = start_result tag (start_panel w)
  replace_result tag (false, w) = (err replace_failed, w)

  abbrev pub stop_result : Option Text → Binary → Step → Outcome
  unfolding replace_result backup_and_replace
  stop_result tag new (true, w) = replace_result tag (backup_and_replace new w)
  stop_result tag new (false, w) = (err stop_failed, w)

  -- `handleV4` from the stop of the panel on, with the downloaded binary and its tag.
  unfoldable pub update_to_release : Text → Binary → World Binary → Outcome
  unfolding stop_result stop_panel
  update_to_release tag new w = stop_result (some tag) new (stop_panel w)
