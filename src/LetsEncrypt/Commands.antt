-- ===== src/LetsEncrypt/Commands.antt =====
-- The commands `letsencrypt setup` and `letsencrypt disable`, on the host's scope, its `config.env` and
-- the panel's service.
use gameapctl.Base.{
  ℕ, Bool, not, ◌&&◌, Option, none, some, List, [], ◌∷◌, Text, codes, Result, ok, err, ◌>>=◌, ◌>>◌,
  if◌then◌else◌, text_eq, trim_space,
}
use gameapctl.EnvFile.{
  Env, remove_marker, File, EnvError, ReadEnv, read_env, Disk, Written, write_env,
}
use gameapctl.LetsEncrypt.{
  SetupParams, SetupError, scope_error, port_80, binary_missing, restart_error, process_error,
  process_missing, env_error, write_error, http_01, split_and_trim, validate_setup_params,
  build_updates, prompt_missing,
}
use gameapctl.Scopes.{PanelPaths, Host, scope_user, resolve_scope, check_binary_installed}

-- What the wait for the process comes to.
pub data Wait : Type 0 where
  wait_failed no_process process : Wait

-- The packages that the commands call: `net/mail`, `strings`, the service and the process list.
pub record Tools : Type 0 where
  pub host : Host
  pub parses_address : Text → Bool
  pub to_lower : Text → Text
  pub restarts : Bool
  pub wait_for_process : Wait
  pub disk : Disk

pub record SetupFlags : Type 0 where
  pub scope : Text
  pub domains : Text
  pub email : Text
  pub challenge : Text
  pub dns_provider : Text
  pub staging : Bool
  pub env : List Text
  pub non_interactive : Bool

unfoldable pub flag_params : SetupFlags → SetupParams
unfolding split_and_trim trim_space
flag_params f = record {
  domains = split_and_trim f.domains;
  email = trim_space f.email;
  challenge_type = trim_space f.challenge;
  dns_provider = trim_space f.dns_provider;
  env_kvs = f.env;
  staging = f.staging;
}

unfoldable pub env_read : File → Result SetupError ReadEnv
unfolding read_env
env_read file = elim (read_env file) [ err e ↦ err (env_error e) | ok r ↦ ok r ]

unfoldable pub collect_setup_params :
    (Text → Text) → SetupFlags → File → List Text → Result SetupError SetupParams
unfolding flag_params env_read prompt_missing
collect_setup_params to_lower f file input =
    if f.non_interactive
    then ok (flag_params f)
    else env_read file >>= λ r. (prompt_missing to_lower r.values (flag_params f) input).0

unfoldable pub check_port : PanelPaths → SetupParams → Result SetupError (Unit {0})
unfolding text_eq
check_port paths p =
    if text_eq paths.scope scope_user && text_eq p.challenge_type http_01
    then err port_80
    else ok tt

-- The result of a command, the config file after it, and the number of restarts it asked for.
pub record Outcome : Type 0 where
  pub result : Result SetupError (Unit {0})
  pub file : File
  pub restarts_asked : ℕ

abbrev pub stopped : SetupError → File → Outcome
stopped e file = record { result = err e; file = file; restarts_asked = 0 }

abbrev found_process : Wait → Result SetupError (Unit {0})
found_process wait_failed = err process_error
found_process no_process = err process_missing
found_process process = ok tt

abbrev pub env_keys_owned : List Text
env_keys_owned =
    codes "ACME_ENABLED"
    ∷ codes "ACME_CHALLENGE_TYPE"
    ∷ codes "ACME_EMAIL"
    ∷ codes "ACME_DOMAINS"
    ∷ codes "ACME_DIRECTORY_URL"
    ∷ codes "ACME_DNS_PROVIDER"
    ∷ codes "ACME_RENEWAL_THRESHOLD"
    ∷ codes "ACME_RENEWAL_CHECK_INTERVAL"
    ∷ codes "ACME_PROPAGATION_TIMEOUT"
    ∷ codes "ACME_STORAGE_PATH"
    ∷ []

-- The loop of `Disable`; its keys are distinct.
unfoldable pub removals : List Text → Env
unfolding text_eq
removals [] = []
removals (k ∷ ks) =
    let rest = removals ks in
    if text_eq k (codes "ACME_ENABLED") then rest else (k, remove_marker) ∷ rest

unfoldable pub disable_updates : Env
unfolding removals
disable_updates = (codes "ACME_ENABLED", codes "false") ∷ removals env_keys_owned

module _ (tools : Tools) where
  open tools use {host, parses_address, to_lower, restarts, wait_for_process, disk}

  -- What follows the writing, of which `after` is what follows the restart.
  abbrev pub restarted : PanelPaths → Result SetupError (Unit {0}) → Written → Outcome
  restarted paths after w = elim w.result [
    | err e ↦ stopped (write_error e) w.file
    | ok done ↦
        if not (check_binary_installed host paths) then stopped binary_missing w.file else record {
          result = if restarts then after else err restart_error;
          file = w.file;
          restarts_asked = 1;
        }
  ]

  unfoldable pub plan_of : PanelPaths → File → SetupParams → Result SetupError (ReadEnv × Env)
  unfolding validate_setup_params check_port env_read build_updates
  plan_of paths file p =
      validate_setup_params parses_address p >> check_port paths p >> env_read file >>= λ r.
      build_updates p >>= λ updates. ok (r, updates)

  -- The part of `Setup` that decides what is written.
  unfoldable pub setup_plan :
      PanelPaths → SetupFlags → File → List Text → Result SetupError (ReadEnv × Env)
  unfolding collect_setup_params plan_of
  setup_plan paths f file input = collect_setup_params to_lower f file input >>= plan_of paths file

  unfoldable pub carried_out : PanelPaths → File → Result SetupError (ReadEnv × Env) → Outcome
  unfolding write_env
  carried_out paths file (err e) = stopped e file
  carried_out paths file (ok (r, updates)) =
      restarted paths (found_process wait_for_process) (write_env disk file r.lines updates)

  unfoldable pub setup_in : SetupFlags → File → List Text → Option PanelPaths → Outcome
  unfolding carried_out setup_plan
  setup_in f file input none = stopped scope_error file
  setup_in f file input (some paths) = carried_out paths file (setup_plan paths f file input)

  unfoldable pub setup : SetupFlags → File → List Text → Outcome
  unfolding resolve_scope setup_in
  setup f file input = setup_in f file input (resolve_scope host f.scope)

  unfoldable pub disabled : PanelPaths → File → Result EnvError ReadEnv → Outcome
  unfolding write_env disable_updates
  disabled paths file (err e) = stopped (env_error e) file
  disabled paths file (ok r) = restarted paths (ok tt) (write_env disk file r.lines disable_updates)

  unfoldable pub disable_in : File → Option PanelPaths → Outcome
  unfolding disabled read_env
  disable_in file none = stopped scope_error file
  disable_in file (some paths) = disabled paths file (read_env file)

  unfoldable pub disable : Text → File → Outcome
  unfolding resolve_scope disable_in
  disable scope file = disable_in file (resolve_scope host scope)
