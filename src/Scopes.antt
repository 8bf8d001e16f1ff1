-- ===== src/Scopes.antt =====
-- pkg/gameap/{scope,panel_paths_unix}.go and internal/pkg/panel/scope.go: the scope of a panel's
-- installation and its paths, on Linux and macOS. The functions of `path/filepath` are parameters.
use gameapctl.Base.{
  Bool, not, ◌&&◌, Option, none, some, List, [], ◌∷◌, Text, codes, if◌then◌else◌, is_empty, text_eq,
}

abbrev pub scope_system : Text
scope_system = codes "system"

abbrev pub scope_user : Text
scope_user = codes "user"

-- The paths that the commands act on, without those that only the installation reads.
pub record PanelPaths : Type 0 where
  pub scope : Text
  pub config_file_path : Text
  pub binary_path : Text
  pub systemd_unit_path : Text

abbrev pub scope_or_default : Text → Text
scope_or_default scope = if is_empty scope then scope_system else scope

unfoldable pub resolve_scope_for_os : Text → Text → Option Text
unfolding text_eq
resolve_scope_for_os scope goos =
    if text_eq (scope_or_default scope) scope_system
    then some scope_system
    else if text_eq (scope_or_default scope) scope_user
    then (if text_eq goos (codes "linux") then some scope_user else none)
    else none

abbrev pub system_panel_paths : PanelPaths
system_panel_paths = record {
  scope = scope_system;
  config_file_path = codes "/etc/gameap/config.env";
  binary_path = codes "/usr/bin/gameap";
  systemd_unit_path = codes "/etc/systemd/system/gameap.service";
}

-- What the commands read of the host: filepath.Join, os.UserHomeDir (`none` is an error), whether a
-- file exists, and the scope of the install state, if it can be loaded.
pub record Host : Type 0 where
  pub join_path : List Text → Text
  pub goos : Text
  pub home : Option Text
  pub exists : Text → Bool
  pub recorded_scope : Option Text

module _ (host : Host) where
  open host use {join_path, goos, home, exists, recorded_scope}

  abbrev pub user_panel_paths_from_home : Text → PanelPaths
  user_panel_paths_from_home dir = record {
    scope = scope_user;
    config_file_path =
        join_path
          (join_path (dir ∷ codes ".config" ∷ codes "gameap" ∷ []) ∷ codes "config.env" ∷ []);
    binary_path = join_path (dir ∷ codes ".local" ∷ codes "bin" ∷ codes "gameap" ∷ []);
    systemd_unit_path = join_path (
        join_path (dir ∷ codes ".config" ∷ codes "systemd" ∷ codes "user" ∷ [])
        ∷ codes "gameap.service"
        ∷ []);
  }

  abbrev from_home : Option Text → Option PanelPaths
  from_home none = none
  from_home (some dir) = if is_empty dir then none else some (user_panel_paths_from_home dir)

  unfoldable pub user_panel_paths : Option PanelPaths
  user_panel_paths = from_home home

  unfoldable pub panel_paths_for_scope : Text → Option PanelPaths
  unfolding text_eq user_panel_paths
  panel_paths_for_scope scope =
      if is_empty scope
      then some system_panel_paths
      else if text_eq scope scope_system
      then some system_panel_paths
      else if text_eq scope scope_user
      then user_panel_paths
      else none

  unfoldable pub detect_scope_from_paths : PanelPaths → PanelPaths → Text
  detect_scope_from_paths system user =
      if exists user.systemd_unit_path
      then scope_user
      else if exists system.systemd_unit_path
      then scope_system
      else if exists user.binary_path && not (exists system.binary_path)
      then scope_user
      else scope_system

  abbrev paths_of : Option Text → Option PanelPaths
  unfolding panel_paths_for_scope
  paths_of none = none
  paths_of (some scope) = panel_paths_for_scope scope

  abbrev pub detected : Option PanelPaths → PanelPaths
  unfolding detect_scope_from_paths text_eq
  detected none = system_panel_paths
  detected (some user) =
      if text_eq (detect_scope_from_paths system_panel_paths user) scope_user
      then user
      else system_panel_paths

  abbrev from_state : Option Text → Option PanelPaths
  unfolding panel_paths_for_scope detected user_panel_paths
  from_state none = some (detected user_panel_paths)
  from_state (some scope) =
      if is_empty scope then some (detected user_panel_paths) else panel_paths_for_scope scope

  -- ResolveScope of internal/pkg/panel.
  unfoldable pub resolve_scope : Text → Option PanelPaths
  unfolding paths_of resolve_scope_for_os from_state
  resolve_scope flag =
      if is_empty flag then from_state recorded_scope else paths_of (resolve_scope_for_os flag goos)

  abbrev pub check_binary_installed : PanelPaths → Bool
  check_binary_installed paths = exists paths.binary_path
