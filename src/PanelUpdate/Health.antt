-- ===== src/PanelUpdate/Health.antt =====
-- `readConfigEnv` of internal/actions/panel/update/panel_update_v4.go and `createHealthURL` of
-- internal/pkg/panel/install.go: where the update looks for the panel.
use gameapctl.Base.{
  Bool, false, not, ◌&&◌, ◌||◌, Option, none, some, List, [], ◌∷◌, ◌++◌, Text, codes, if◌then◌else◌,
  is_empty, text_eq,
}
use gameapctl.EnvFile.{parse_line, scan_lines, is_scannable, File, absent, denied, broken, holds}

pub record Endpoint : Type 0 where
  pub host : Text
  pub port : Text
  pub https_enabled : Bool

abbrev pub default_endpoint : Endpoint
default_endpoint = record { host = codes "127.0.0.1"; port = codes "8025"; https_enabled = false }

abbrev or_old : Text → Text → Text
or_old value old = if is_empty value then old else value

abbrev pub read_entry : Option (Text × Text) → Endpoint → Endpoint
unfolding text_eq
read_entry none e = e
read_entry (some (key, value)) e =
    if text_eq key (codes "HTTP_HOST")
    then record e { host = or_old value e.host }
    else if text_eq key (codes "HTTP_PORT")
    then record e { port = or_old value e.port }
    else if text_eq key (codes "HTTPS_ENABLED")
    then record e { https_enabled = text_eq value (codes "true") || text_eq value (codes "1") }
    else e

-- The loop of `readConfigEnv` over the lines.
unfoldable pub read_endpoint : Endpoint → List Text → Endpoint
unfolding parse_line read_entry
read_endpoint e [] = e
read_endpoint e (line ∷ lines) = read_endpoint (read_entry (parse_line line) e) lines

-- A file that cannot be read leaves the default.
unfoldable pub read_config_env : File → Option Endpoint
unfolding scan_lines read_endpoint is_scannable
read_config_env (holds s) =
    if is_scannable s then some (read_endpoint default_endpoint (scan_lines s)) else none
read_config_env absent = none
read_config_env denied = none
read_config_env broken = none

unfoldable pub endpoint_of : File → Endpoint
unfolding read_config_env
endpoint_of file = elim (read_config_env file) [ none ↦ default_endpoint | some e ↦ e ]

unfoldable pub create_health_url : Text → Text → Bool → Text → Text
unfolding text_eq
create_health_url host port https endpoint =
    let host_port =
      if not (text_eq port (codes "80")) && not (text_eq port (codes "443"))
      then host ++ (b':' ∷ port)
      else host in
    if https
    then codes "https://" ++ (host_port ++ endpoint)
    else codes "http://" ++ (host_port ++ endpoint)
