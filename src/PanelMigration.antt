-- ===== src/PanelMigration.antt =====
-- `handleV3toV4` of internal/actions/panel/update/panel_update_v3_to_v4.go: the migration of a panel of
-- v3 to v4, with its rollback. The trees and the configurations are opaque. What each call comes to
-- depends on the number of the calls before it. The installation of v4, which does not touch the tree
-- of v3, the copy of the storage, which only warns, and the save of the state are left to the calls.
pub mod Config
pub mod Restored
pub mod Outcomes
use gameapctl.Base.{
  ℕ, zero, suc, Bool, true, false, not, ◌&&◌, ◌||◌, Option, none, some, Result, ok, err,
  if◌then◌else◌,
}

-- A failed copy leaves in the target what it gives.
pub data Copying (A : Type 0) : Type 0 where
  complete : Copying A
  spoilt : Option A → Copying A

-- `utils.Move`: a copy across devices can fail, or the removal of its source can, of which then
-- something may be left.
pub data Moving (A : Type 0) : Type 0 where
  moved : Moving A
  not_copied not_removed : Option A → Moving A

-- The web server of the installation: none, one that the code knows, or another.
pub data WebServer : Type 0 where
  no_server known_server other_server : WebServer

pub record Machine (Tree Conf : Type 0) : Type 0 where
  pub web_server : WebServer
  -- Whether `ConfigForDistro` gives a path.
  pub site_path : Bool
  pub has_env : Bool
  pub parses_env : Bool
  pub make_temp : Bool
  pub copy_tree : ℕ → Copying Tree
  pub copy_site : ℕ → Copying Conf
  pub builds_config : Bool
  pub migrates_database : Bool
  pub install : ℕ → Bool
  pub start : ℕ → Bool
  pub stop : ℕ → Bool
  -- What the configuration of the proxy is, and whether it is written or what a failure leaves.
  pub proxy : Conf
  pub write_site : ℕ → Copying Conf
  pub check : ℕ → Bool
  pub make_archive : Bool
  pub remove_tree : ℕ → Copying Tree
  pub move_tree : ℕ → Moving Tree

pub record World (Tree Conf : Type 0) : Type 0 where
  pub v3 : Option Tree
  pub copy : Option Tree
  pub archive : Option Tree
  pub site : Option Conf
  pub site_backup : Option Conf
  pub running : Bool
  -- The result of the rollback, which is only logged.
  pub rolled_back : Option Bool
  pub calls : ℕ

pub data MigrationError : Type 0 where
  no_state no_env bad_env no_temp backup_failed bad_config database_failed : MigrationError
  install_failed start_failed site_failed unhealthy : MigrationError

module _ {Tree Conf : Type 0} (machine : Machine Tree Conf) where
  abbrev pub Step : Type 0
  Step = Bool × World Tree Conf

  abbrev pub Outcome : Type 0
  Outcome = Result MigrationError (Unit {0}) × World Tree Conf

  abbrev pub called : World Tree Conf → World Tree Conf
  called w = record w { calls = suc w.calls }

  abbrev pub tree_copied : World Tree Conf → Tree → Copying Tree → Step
  tree_copied w tree complete = (true, record (called w) { copy = some tree })
  tree_copied w tree (spoilt left) = (false, record (called w) { copy = left })

  abbrev pub copy_of : World Tree Conf → Option Tree → Step
  copy_of w none = (false, called w)
  copy_of w (some tree) = tree_copied w tree (machine.copy_tree w.calls)

  abbrev pub site_copied : World Tree Conf → Conf → Copying Conf → Step
  site_copied w conf complete = (true, record (called w) { site_backup = some conf })
  site_copied w conf (spoilt left) = (false, called w)

  abbrev pub site_copy_of : World Tree Conf → Option Conf → Step
  site_copy_of w none = (false, w)
  site_copy_of w (some conf) = site_copied w conf (machine.copy_site w.calls)

  -- `backupWebServerConfig`. Without a result, the code has no path of a backup, so that one that is
  -- spoilt is never read.
  unfoldable pub backup_web_server_config : WebServer → World Tree Conf → Step
  backup_web_server_config no_server w = (false, w)
  backup_web_server_config other_server w = (false, w)
  backup_web_server_config known_server w =
      if machine.site_path then site_copy_of w w.site else (false, w)

  -- What `os.RemoveAll` leaves of the tree, of which a failure is only logged.
  abbrev pub removed : World Tree Conf → Copying Tree → World Tree Conf
  removed w complete = record (called w) { v3 = none }
  removed w (spoilt left) = record (called w) { v3 = left }

  abbrev pub clear_v3 : World Tree Conf → Option Tree → World Tree Conf
  clear_v3 w none = w
  clear_v3 w (some tree) = removed w (machine.remove_tree w.calls)

  -- `utils.Move` of the copy to the path of v3.
  abbrev pub moved_back : World Tree Conf → Tree → Moving Tree → Step
  moved_back w tree moved = (true, record (called w) { v3 = some tree; copy = none })
  moved_back w tree (not_copied left) = (false, record (called w) { v3 = left })
  moved_back w tree (not_removed left) = (false, record (called w) { v3 = some tree; copy = left })

  abbrev pub move_back : World Tree Conf → Option Tree → Step
  move_back w none = (false, called w)
  move_back w (some tree) = moved_back w tree (machine.move_tree w.calls)

  abbrev pub site_restored : World Tree Conf → Conf → Copying Conf → World Tree Conf
  site_restored w conf complete = record (called w) { site = some conf }
  site_restored w conf (spoilt left) = record (called w) { site = left }

  abbrev pub restore_site : World Tree Conf → Option Conf → World Tree Conf
  restore_site w none = w
  restore_site w (some conf) =
      if machine.site_path then site_restored w conf (machine.copy_site w.calls) else w

  abbrev pub rollback_end : Step → World Tree Conf
  rollback_end (true, w) = restore_site (record w { rolled_back = some true }) w.site_backup
  rollback_end (false, w) = record w { rolled_back = some false }

  -- `rollbackV3toV4`; that the web server is restarted after it is left out.
  unfoldable pub rollback_v3_to_v4 : World Tree Conf → World Tree Conf
  rollback_v3_to_v4 w =
      let cleared = clear_v3 w w.v3 in rollback_end (move_back cleared cleared.copy)

  abbrev pub stop_panel : World Tree Conf → World Tree Conf
  stop_panel w = record (called w) { running = if machine.stop w.calls then false else w.running }

  unfoldable pub check_health_v4 : ℕ → World Tree Conf → Step
  check_health_v4 zero w = (false, w)
  check_health_v4 (suc tries) w =
      let rest = check_health_v4 tries (called w) in
      if machine.check w.calls then (true, called w) else rest

  abbrev pub archived : World Tree Conf → Tree → Moving Tree → World Tree Conf
  archived w tree moved = record (called w) { v3 = none; archive = some tree }
  archived w tree (not_copied left) = record (called w) { archive = left }
  archived w tree (not_removed left) = record (called w) { v3 = left; archive = some tree }

  abbrev pub archive_of : World Tree Conf → Option Tree → World Tree Conf
  archive_of w none = called w
  archive_of w (some tree) = archived w tree (machine.move_tree w.calls)

  -- The last steps, whose failures are only logged; the copy is removed.
  unfoldable pub finish : World Tree Conf → Outcome
  finish w =
      let kept = if machine.make_archive then archive_of w w.v3 else w in
      (ok tt, record kept { copy = none })

  unfoldable pub after_check : Step → Outcome
  unfolding finish rollback_v3_to_v4
  after_check (true, w) = finish w
  after_check (false, w) = (err unhealthy, rollback_v3_to_v4 (stop_panel w))

  abbrev pub site_written : World Tree Conf → Copying Conf → Step
  site_written w complete = (true, record (called w) { site = some machine.proxy })
  site_written w (spoilt left) = (false, record (called w) { site = left })

  -- `updateWebServerConfigForV4`.
  unfoldable pub update_web_server_config_for_v4 : WebServer → World Tree Conf → Step
  update_web_server_config_for_v4 no_server w = (false, w)
  update_web_server_config_for_v4 other_server w = (false, w)
  update_web_server_config_for_v4 known_server w =
      if machine.site_path then site_written w (machine.write_site w.calls) else (false, w)

  unfoldable pub update_site : WebServer → World Tree Conf → Step
  unfolding update_web_server_config_for_v4
  update_site no_server w = (true, w)
  update_site known_server w = update_web_server_config_for_v4 known_server w
  update_site other_server w = update_web_server_config_for_v4 other_server w

  unfoldable pub after_site : Step → Outcome
  unfolding rollback_v3_to_v4 after_check check_health_v4
  after_site (true, w) = after_check (check_health_v4 5 w)
  after_site (false, w) = (err site_failed, rollback_v3_to_v4 (stop_panel w))

  unfoldable pub after_start : Bool → World Tree Conf → Outcome
  unfolding rollback_v3_to_v4 after_site update_site
  after_start true w = after_site (update_site machine.web_server (record w { running = true }))
  after_start false w = (err start_failed, rollback_v3_to_v4 w)

  unfoldable pub after_install : Bool → World Tree Conf → Outcome
  unfolding rollback_v3_to_v4 after_start
  after_install true w = after_start (machine.start w.calls) (called w)
  after_install false w = (err install_failed, rollback_v3_to_v4 w)

  unfoldable pub prepared : World Tree Conf → Outcome
  unfolding after_install
  prepared w =
      if not machine.builds_config
      then (err bad_config, w)
      else if not machine.migrates_database
      then (err database_failed, w)
      else after_install (machine.install w.calls) (called w)

  unfoldable pub backup_site : WebServer → World Tree Conf → World Tree Conf
  unfolding backup_web_server_config
  backup_site no_server w = w
  backup_site known_server w = (backup_web_server_config known_server w).1
  backup_site other_server w = (backup_web_server_config other_server w).1

  unfoldable pub after_copy : Step → Outcome
  unfolding prepared backup_site
  after_copy (true, w) = prepared (backup_site machine.web_server w)
  after_copy (false, w) = (err backup_failed, w)

  -- Without a temporary directory, a backup and a rollback.
  abbrev pub fresh : World Tree Conf → World Tree Conf
  fresh w = record w { copy = none; site_backup = none; rolled_back = none }

  -- `loads_state`: whether the state of the installation can be loaded.
  unfoldable pub handle_v3_to_v4 : Bool → World Tree Conf → Outcome
  unfolding after_copy
  handle_v3_to_v4 loads_state w =
      if not loads_state
      then (err no_state, w)
      else if not machine.has_env
      then (err no_env, w)
      else if not machine.parses_env
      then (err bad_env, w)
      else if not machine.make_temp
      then (err no_temp, w)
      else after_copy (copy_of (fresh w) w.v3)
