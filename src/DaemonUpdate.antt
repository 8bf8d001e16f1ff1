-- ===== src/DaemonUpdate.antt =====
-- internal/actions/daemon/update/daemon_update.go: the update of an installed daemon to a release, its
-- options, and its way back to the old binary. The service operations of pkg/daemon, the copy and the
-- library `selfupdate` are a `Machine`, which answers by the events before, most recent first.
pub mod Options
pub mod Outcomes
pub mod Recorded
pub mod Source
use gameapctl.Base.{
  Text, codes, Bool, true, false, not, ◌&&◌, ◌||◌, Option, none, some, List, [], ◌∷◌, Result, ok,
  err, is_empty, text_eq, map_err, if◌then◌else◌, ◌>>=◌,
}
use gameapctl.Release.{FindOptions}
use gameapctl.Tag.{NormalizedTag, TagError, normalize_tag, has_prerelease_suffix}

pub record Flags : Type 0 where
  pub from_github : Bool
  pub branch : Text
  pub version : Text

-- The fields of `DaemonInstallState` that choose where the new daemon comes from; its version is the
-- one of `World`.
pub record InstallState : Type 0 where
  pub from_github : Bool
  pub branch : Text

pub data UpdateError : Type 0 where
  exclusive_flags : UpdateError
  bad_version : TagError → UpdateError
  stop_failed backup_failed update_failed revert_failed revert_after_failure_failed start_failed :
      UpdateError

-- Where the new daemon comes from.
pub data Route : Type 0 where
  build_branch : (branch : Text) → Route
  find_by : (tag tag_prefix : Text) → Route

abbrev pub or_master : Text → Text
or_master [] = codes "master"
or_master (c ∷ s) = c ∷ s

abbrev pub or_text : Text → Text → Text
or_text [] t = t
or_text (c ∷ s) t = c ∷ s

abbrev pub by_version : Result TagError NormalizedTag → Result UpdateError Route
by_version (err e) = err (bad_version e)
by_version (ok norm) = ok (find_by norm.full norm.prefix)

abbrev pub stored_github : Option InstallState → Bool
stored_github none = false
stored_github (some state) = state.from_github

abbrev pub stored_branch : Option InstallState → Text
stored_branch none = []
stored_branch (some state) = state.branch

-- The options of `Handle`, with the state of the installation as the default, `none` if it cannot be
-- loaded.
unfoldable pub choose_route : Flags → Option InstallState → Result UpdateError Route
choose_route flags state =
    if not (is_empty flags.version)
    then (if flags.from_github || not (is_empty flags.branch)
        then err exclusive_flags
        else by_version (normalize_tag flags.version))
    else if flags.from_github || stored_github state
    then ok (build_branch (or_master (or_text flags.branch (stored_branch state))))
    else ok (find_by [] [])

abbrev is_prerelease : Result TagError NormalizedTag → Bool
is_prerelease (err e) = false
is_prerelease (ok norm) = has_prerelease_suffix norm

-- The options that `findRelease` passes on.
unfoldable pub release_options : Text → Text → FindOptions
release_options tag tag_prefix = record {
  tag = tag;
  tag_prefix = tag_prefix;
  allow_prerelease = not (is_empty tag) && is_prerelease (normalize_tag tag);
  no_retry = false;
}

pub data Event : Type 0 where
  stopped started applied copied : (done : Bool) → Event

pub data ProcessSearch : Type 0 where
  search_error no_process running : ProcessSearch

-- A failed `Apply` leaves in the target what it gives.
pub data Apply (Binary : Type 0) : Type 0 where
  complete : Apply Binary
  broken : Option Binary → Apply Binary

pub record Machine (Binary : Type 0) : Type 0 where
  pub stop : List Event → Bool
  pub find_process : List Event → ProcessSearch
  pub start : List Event → Bool
  pub wait_for_process : List Event → ProcessSearch
  pub copy : List Event → Bool
  pub apply : List Event → Binary → Apply Binary
  pub load_state : Bool
  pub save_state : Bool

-- The binary and its backup, `none` if there is none, and the version in the state of the
-- installation.
pub record World (Binary : Type 0) : Type 0 where
  pub binary : Option Binary
  pub backup : Option Binary
  pub version : Text
  pub events : List Event

abbrev is_running : ProcessSearch → Bool
is_running running = true
is_running _ = false

abbrev is_gone : ProcessSearch → Bool
is_gone no_process = true
is_gone _ = false

module _ {Binary : Type 0} (machine : Machine Binary) where
  abbrev pub Step : Type 0
  Step = Result UpdateError (Unit {0}) × World Binary

  abbrev pub note : Event → World Binary → World Binary
  note event w = record w { events = event ∷ w.events }

  unfoldable pub stop_daemon : World Binary → Bool × World Binary
  stop_daemon w =
      let done = machine.stop w.events && is_gone (machine.find_process w.events) in
      (done, note (stopped done) w)

  unfoldable pub start_daemon : World Binary → Bool × World Binary
  start_daemon w =
      let done = machine.start w.events && is_running (machine.wait_for_process w.events) in
      (done, note (started done) w)

  abbrev pub read_apply : Binary → World Binary → Apply Binary → Bool × World Binary
  read_apply binary w complete = (true, record (note (applied true) w) { binary = some binary })
  read_apply binary w (broken left) = (false, record (note (applied false) w) { binary = left })

  -- `selfupdate.Apply` to the daemon's path.
  unfoldable pub apply : Binary → World Binary → Bool × World Binary
  apply binary w = read_apply binary w (machine.apply w.events binary)

  -- A missing backup cannot be opened.
  unfoldable pub revert : World Binary → Bool × World Binary
  revert w = elim w.backup [ none ↦ (false, w) | some binary ↦ apply binary w ]

  unfoldable pub update_daemon_state_version : Text → World Binary → World Binary
  update_daemon_state_version tag w =
      if is_empty tag || not machine.load_state || text_eq w.version tag || not machine.save_state
      then w
      else record w { version = tag }

  unfoldable pub finish : Text → World Binary → Step
  unfolding update_daemon_state_version
  finish tag w = (ok tt, update_daemon_state_version tag w)

  abbrev pub restarted : Text → Bool × World Binary → Step
  restarted tag (true, w) = finish tag w
  restarted tag (false, w) = (err start_failed, w)

  abbrev pub reverted : Text → Bool × World Binary → Step
  reverted tag (true, w) = restarted tag (start_daemon w)
  reverted tag (false, w) = (err revert_failed, w)

  abbrev pub first_start : Text → Bool × World Binary → Step
  first_start tag (true, w) = finish tag w
  first_start tag (false, w) = reverted tag (revert w)

  abbrev pub undone : Bool × World Binary → Step
  undone (true, w) = (err update_failed, w)
  undone (false, w) = (err revert_after_failure_failed, w)

  abbrev pub first_apply : Text → Bool × World Binary → Step
  first_apply tag (true, w) = first_start tag (start_daemon w)
  first_apply tag (false, w) = undone (revert w)

  -- `utils.Copy` to the backup's path; a missing binary cannot be copied.
  unfoldable pub make_backup : World Binary → Bool × World Binary
  make_backup w = elim w.binary [
    | none ↦ (false, note (copied false) w)
    | some binary ↦
        if machine.copy w.events
        then (true, record (note (copied true) w) { backup = some binary })
        else (false, note (copied false) w)
  ]

  abbrev pub backed_up : Text → Binary → Bool × World Binary → Step
  backed_up tag binary (true, w) = first_apply tag (apply binary w)
  backed_up tag binary (false, w) = (err backup_failed, w)

  abbrev pub first_stop : Text → Binary → Bool × World Binary → Step
  first_stop tag binary (true, w) = backed_up tag binary (make_backup w)
  first_stop tag binary (false, w) = (err stop_failed, w)

  -- `Handle` from the stop of the daemon on, with the downloaded binary. The backup is removed at the
  -- end whatever comes of it, which is left out.
  unfoldable pub update_release : Text → Binary → World Binary → Step
  update_release tag binary w = first_stop tag binary (stop_daemon w)
