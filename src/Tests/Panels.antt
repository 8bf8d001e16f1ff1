-- ===== src/Tests/Panels.antt =====
-- The configuration, the certificates and the update of the panel, at concrete inputs.
use gameapctl.Base.{
  Text, codes, true, false, Option, none, some, [], ◌∷◌, ok, text_eq, is_space, trim_space,
  trim_right, contains_char, split, join, ◌≡◌, refl, ℕ, has_prefix,
}
use gameapctl.Tag.{
  NormalizedTag, normalize_tag, strip_v, normalize_stripped, matches_split, is_version_char,
  version_part, has_empty, by_segments, is_major_v3,
}
use gameapctl.EnvFile.{
  Env, get, written, scan_lines, holds, ReadEnv, read_env, is_scannable, line_bytes, sort_keys,
  insert_key,
}
use gameapctl.EnvFile.Rewrites.{updated}
use gameapctl.EnvFile.Checks.{fits, fits-AreUpdates}
use gameapctl.EnvFile.Files.{value_of, read_env-written}
use gameapctl.Scopes.{Host, system_panel_paths}
use gameapctl.LetsEncrypt.Commands.{Tools, SetupFlags, process, setup, disable}
use gameapctl.LetsEncrypt.Disabled.{disabled_value, disable-value_of}
use gameapctl.LetsEncrypt.Setups.{IsKeptOrPlanned, setup-IsKeptOrPlanned}
use gameapctl.PanelUpdate.{Machine, World, complete}
use gameapctl.PanelUpdate.Routes.{
  Flags, InstallState, by_release, choose_update, detect_major_version,
}
use gameapctl.PanelUpdate.Routes.Allowed.{Fits, choose_update-Fits}

abbrev config : Text
config = codes "# panel\nHTTP_PORT=8025\r\nACME_ENABLED = true\nACME_EMAIL=a@b.c\n"

abbrev changes : Env
changes = (codes "ACME_ENABLED", codes "false") ∷ (codes "NEW_KEY", codes "a=b") ∷ []

changes-fits : fits changes ≡ true
unfolding fits get text_eq trim_right is_space contains_char has_prefix
changes-fits = refl

config-is_scannable : is_scannable config ≡ true
unfolding is_scannable line_bytes
config-is_scannable = refl

out-is_scannable : is_scannable (written (scan_lines config) changes) ≡ true
unfolding is_scannable line_bytes written get sort_keys insert_key scan_lines is_space
    gameapctl.EnvFile.entry_of
out-is_scannable = refl

read_env-written_example :
    (before : ReadEnv) × (later : ReadEnv) × (read_env (holds config) ≡ ok before)
    × (read_env (holds (written before.lines changes)) ≡ ok later)
    × ((key : Text) → get key later.values ≡ updated (get key changes) (get key before.values))
read_env-written_example =
    read_env-written config changes (fits-AreUpdates changes changes-fits).0
      (fits-AreUpdates changes changes-fits).1 config-is_scannable out-is_scannable

abbrev host : Host
host = record {
  join_path = join (codes "/");
  goos = codes "linux";
  home = some (codes "/home/u");
  exists = λ path. true;
  recorded_scope = none;
}

abbrev tools : Tools
tools = record {
  host = host;
  parses_address = λ s. contains_char s b'@';
  to_lower = λ s. s;
  restarts = true;
  wait_for_process = process;
  disk = record { opens = true; writes = true; closes = true; renames = true };
}

disable_ok : (disable tools (codes "system") (holds config)).result ≡ ok tt
unfolding disable
disable_ok = refl

disable-value_of_example :
    (out : Text) × ((disable tools (codes "system") (holds config)).file ≡ holds out)
    × ((key : Text) → value_of key out ≡ disabled_value key (value_of key config))
disable-value_of_example = disable-value_of tools (codes "system") config disable_ok

abbrev setup_flags : SetupFlags
setup_flags = record {
  scope = codes "system";
  domains = codes "panel.example.com, ";
  email = codes "a@b.c";
  challenge = codes "http-01";
  dns_provider = [];
  staging = true;
  env = [];
  non_interactive = true;
}

setup-IsKeptOrPlanned_example :
    IsKeptOrPlanned tools setup_flags
      (holds config)
      (setup tools setup_flags (holds config) []).file
setup-IsKeptOrPlanned_example = setup-IsKeptOrPlanned tools setup_flags (holds config) []

-- The new binary, 2, starts and fails its checks; the old one, 1, starts again.
abbrev panel_machine : Machine ℕ
panel_machine = record {
  stop = λ h. true;
  start = λ h. true;
  copy = λ h. complete;
  remove = λ h. true;
  chmod = λ h. true;
  check_installation = λ h. false;
  load_state = true;
  save_state = true;
}

abbrev panel : World ℕ
panel = record {
  binary = some 1;
  backup = none;
  running = true;
  version = codes "v4.1.0";
  events = [];
}

abbrev update_flags : Flags
update_flags = record { from_github = false; branch = [] }

abbrev from_develop : Option InstallState
from_develop =
    some
      (record { version = codes "v4.0.1"; path = []; from_github = true; branch = codes "develop" })

routed :
    choose_update
      (join (codes "/"))
      (λ path. true)
      (codes "4.2")
      update_flags
      from_develop
      system_panel_paths
      (codes "/var/lib/gameap")
    ≡ ok (by_release [] (codes "v4.2."))
unfolding choose_update trim_space is_space normalize_stripped matches_split contains_char strip_v
    is_version_char version_part has_empty split by_segments
routed = refl

choose_update-Fits_example :
    (norm : NormalizedTag) × (normalize_tag (codes "4.2") ≡ ok norm)
    × (is_major_v3 norm ≡ false)
    × Fits norm
        (detect_major_version
          (join (codes "/"))
          (λ path. true)
          from_develop
          system_panel_paths
          (codes "/var/lib/gameap"))
        (by_release [] (codes "v4.2."))
choose_update-Fits_example =
    choose_update-Fits (join (codes "/")) (λ path. true) (codes "4.2") update_flags from_develop
      system_panel_paths (codes "/var/lib/gameap") (by_release [] (codes "v4.2.")) routed
