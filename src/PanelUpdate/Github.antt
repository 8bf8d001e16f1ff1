-- ===== src/PanelUpdate/Github.antt =====
-- `handleV4FromGithub`: the update of the panel by a build of a branch, which is a parameter.
pub mod Built
use gameapctl.Base.{
  Bool, true, false, Option, none, some, List, ◌∷◌, Result, ok, err, ◌≡◌, refl, sym, ◌∙◌, ap, ◌⊎◌,
  inl, inr, Bool-cases, if-holds, if◌then◌else◌, arith,
}
use gameapctl.PanelUpdate.{
  Event, stopped, started, copied, Copying, complete, spoilt, Machine, World, UpdateError,
  stop_failed, replace_failed, start_failed, restore_failed, restart_failed, rolled_back,
  backup_failed, build_failed, no_package_manager, Step, Outcome, note, stop_panel, start_panel,
  copy_out, backup_of, make_backup, restore_backup_v4, check_health, start_result, judged,
}
use gameapctl.PanelUpdate.Exchange.{IsRestored, restore_backup_v4-IsRestored, IsKept}
use gameapctl.PanelUpdate.Outcomes.{IsJudged, judged-IsJudged, check_health-IsChecked}

-- What `SetupGameAPFromGithubV4` comes to: a new binary, or an error and what it leaves in its place.
pub data Build (Binary : Type 0) : Type 0 where
  built : Binary → Build Binary
  broken : Option Binary → Build Binary

module _ {Binary : Type 0} (machine : Machine Binary) where
  -- Without a backup there is no way back; its result and that of the start are only logged.
  abbrev pub restore_if_any : Option Binary → World Binary → World Binary
  restore_if_any none w = w
  restore_if_any (some old) w = (restore_backup_v4 machine w).1

  unfoldable pub give_up : World Binary → Outcome machine
  give_up w = (err build_failed, (start_panel machine (restore_if_any w.backup w)).1)

  abbrev pub build_result : World Binary → Build Binary → Outcome machine
  unfolding give_up
  build_result w (built new) =
      start_result machine none (start_panel machine (record w { binary = some new }))
  build_result w (broken left) = give_up (record w { binary = left })

  abbrev pub backup_if_any : Option Binary → World Binary → Step machine
  backup_if_any none w = (true, w)
  backup_if_any (some old) w = make_backup machine w

  module _ (can_load : Bool) (build : List Event → Build Binary) where
    abbrev pub stop_outcome : Step machine → Outcome machine
    unfolding build_result
    stop_outcome (true, w) = build_result w (build w.events)
    stop_outcome (false, w) = (err stop_failed, w)

    abbrev pub backup_result : Step machine → Outcome machine
    unfolding stop_outcome
    backup_result (true, w) = stop_outcome (stop_panel machine w)
    backup_result (false, w) = (err backup_failed, w)

    unfoldable pub handle_v4_from_github : World Binary → Outcome machine
    unfolding backup_result
    handle_v4_from_github w =
        if can_load then backup_result (backup_if_any w.binary w) else (err no_package_manager, w)
