-- ===== src/Service.antt =====
-- pkg/service/service.go: the service manager. The commands are a `Shell`: a function of the command's
-- words and of the commands run before, most recent first, to its outcome. Log output is left out.
pub mod Restarts
use gameapctl.Base.{
  Bool, true, false, not, ◌&&◌, ◌||◌, Option, none, some, List, [], ◌∷◌, String, str_eq, ℕ, Result,
  ok, err, ◌==◌, if◌then◌else◌,
}

-- The outcome of a command's `Run`: no error, an `exec.ExitError` with its code, or another error
-- (such as a missing program).
pub data Outcome : Type 0 where
  success : Outcome
  exit_error : (code : ℕ) → Outcome
  other_error : Outcome

abbrev pub Command : Type 0
Command = List String

abbrev pub History : Type 0
History = List Command

pub data ServiceError : Type 0 where
  command_failed : Outcome → ServiceError
  status_command_failed : (code : ℕ) → ServiceError
  inactive_service : ServiceError
  service_not_found : String → ServiceError
  unsupported_distribution : String → ServiceError
  stop_during_restart : ServiceError → ServiceError

abbrev pub Shell : Type 0
Shell = History → Command → Outcome

abbrev pub Run : Type 0
Run = Result ServiceError (Unit {0}) × History

abbrev read_outcome : Outcome → Result ServiceError (Unit {0})
read_outcome success = ok tt
read_outcome outcome = err (command_failed outcome)

pub data Manager : Type 0 where
  systemd basic windows : Manager

module _ (shell : Shell) where
  abbrev pub run : Command → History → Run
  run command history = (read_outcome (shell history command), command ∷ history)

  abbrev pub reset_failed : String → History → History
  reset_failed name history = ("systemctl" ∷ "reset-failed" ∷ name ∷ []) ∷ history

  -- The switch on the exit code stands behind the return for an `ExitError`: `errors.As` sets
  -- `exitErr` only in the condition of that return.
  abbrev read_status : Outcome → Result ServiceError (Unit {0})
  read_status (exit_error code) = err (status_command_failed code)
  read_status _ = ok tt

  -- The Windows manager, pkg/service/service_windows.go, is a parameter.
  module _ (windows_run : String → String → History → Run) where
    unfoldable pub manager_start : Manager → String → History → Run
    manager_start systemd name history =
        run ("systemctl" ∷ "start" ∷ name ∷ []) (reset_failed name history)
    manager_start basic name history = run ("service" ∷ name ∷ "start" ∷ []) history
    manager_start windows name history = windows_run "start" name history

    unfoldable pub manager_stop : Manager → String → History → Run
    manager_stop systemd name history = run ("systemctl" ∷ "stop" ∷ name ∷ []) history
    manager_stop basic name history = run ("service" ∷ name ∷ "stop" ∷ []) history
    manager_stop windows name history = windows_run "stop" name history

    unfoldable pub manager_restart : Manager → String → History → Run
    manager_restart systemd name history =
        run ("systemctl" ∷ "restart" ∷ name ∷ []) (reset_failed name history)
    manager_restart basic name history = run ("service" ∷ name ∷ "restart" ∷ []) history
    manager_restart windows name history = windows_run "restart" name history

    unfoldable pub manager_status : Manager → String → History → Run
    manager_status systemd name history =
        let command = "systemctl" ∷ "--no-pager" ∷ "status" ∷ name ∷ [] in
        (read_status (shell history command), command ∷ history)
    manager_status basic name history = run ("service" ∷ name ∷ "status" ∷ []) history
    manager_status windows name history = windows_run "status" name history

    abbrev start_after_stop : Manager → String → Run → Run
    start_after_stop m name (ok done, history) = manager_start m name history
    start_after_stop m name (err e, history) = (err (stop_during_restart e), history)

    abbrev restart_fallback : Manager → String → Run → Run
    restart_fallback m name (ok done, history) = (ok tt, history)
    restart_fallback m name (err e, history) = start_after_stop m name (manager_stop m name history)

    -- `Restart` of the package.
    unfoldable pub restart : Manager → String → History → Run
    restart m name history = restart_fallback m name (manager_restart m name history)

-- The choice of `Load`; `has` is `exec.LookPath`.
unfoldable pub choose_manager : (distribution : String) → (has : String → Bool) → Option Manager
choose_manager distribution has =
    if str_eq distribution "windows"
    then some windows
    else if has "systemctl"
    then some systemd
    else if has "service"
    then some basic
    else none

abbrev pub loaded : String → Option Manager → Result ServiceError Manager
loaded distribution none = err (unsupported_distribution distribution)
loaded distribution (some m) = ok m

-- The state is the variable `service` behind its `sync.Once`.
unfoldable pub load :
    String
    → (String → Bool)
    → Option (Option Manager)
    → Result ServiceError Manager × Option (Option Manager)
load distribution has none =
    let chosen = choose_manager distribution has in (loaded distribution chosen, some chosen)
load distribution has (some chosen) = (loaded distribution chosen, some chosen)

-- `Start`, `Stop` and `Status` of the package: a manager's operation, once it is loaded.
abbrev pub with_manager :
    (Manager → String → History → Run) → Result ServiceError Manager → String → History → Run
with_manager operation (err e) name history = (err e, history)
with_manager operation (ok m) name history = operation m name history
