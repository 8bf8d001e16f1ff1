-- ===== src/GrpcSwitch.antt =====
-- internal/actions/daemon/update/switch_to_grpc.go: the switch of an installed daemon to gRPC mode,
-- with its backup and its rollback. What `switchDeps` injects is a parameter, a `Deps`: the effects on
-- the daemon answer by the events before them, most recent first.
pub mod Rollback
pub mod Stages
pub mod Outcomes
use Prim.Native.String
use gameapctl.Base.{
  Bool, true, false, not, ◌&&◌, ◌||◌, Option, none, some, List, [], ◌∷◌, String, str_eq, ℕ, zero,
  suc, Result, ok, err, ◌==◌, ◌++◌, Text, codes, contains, trim_space, is_empty, if◌then◌else◌,
  ◌>>=◌,
}
use gameapctl.DaemonConfig
use gameapctl.DaemonConfig.{
  Yaml, Search, value, missing, broken, ConfigFile, ConfigError, write_error, load_config,
  config_string, config_uint, ensure_grpc_enabled, delete_key, saved_bytes,
}

pub data Event (Bytes : Type 0) : Type 0 where
  wrote : Bytes → Event Bytes
  restored : Bytes → Event Bytes
  stop_daemon start_daemon : (done : Bool) → Event Bytes
  found_process : (alive : Bool) → Event Bytes
  verified : (revoked : Bool) → Event Bytes
  saved_state : Event Bytes

-- A failed write or restore leaves the bytes that it gives in the file.
pub data Write (Bytes : Type 0) : Type 0 where
  complete : Write Bytes
  damaged : Bytes → Write Bytes

-- The error of the TLS handshake, by the tests of `isCertAuthError`.
pub data TlsError : Type 0 where
  unknown_authority certificate_invalid : TlsError
  other_tls_error : (message : Text) → TlsError

pub record Deps (yaml : Yaml) : Type 0 where
  pub explicit_grpc_addr : String
  pub quote : String → String
  -- `Hostname` of what `url.Parse` gives, `none` if that fails.
  pub url_hostname : Text → Option Text
  pub join_host_port : Text → String → String
  pub is_abs_path : String → Bool
  -- `filepath.Join` with the directory of the configuration.
  pub join_config_dir : String → String
  pub tcp_dial : String → Bool
  pub tls_probe : String → String → String → String → Option TlsError
  pub look_path : String → Bool
  pub copy_backup : yaml.Bytes → Bool
  pub write_file : List (Event yaml.Bytes) → Write yaml.Bytes
  pub restore_file : List (Event yaml.Bytes) → Write yaml.Bytes
  pub stop : List (Event yaml.Bytes) → Bool
  pub start : List (Event yaml.Bytes) → Bool
  -- False is an error, or no process.
  pub find_process : List (Event yaml.Bytes) → Bool
  pub verify_legacy_revoked : String → String → List (Event yaml.Bytes) → Bool
  pub load_state : Bool

pub data Reason : Type 0 where
  load_failed modify_failed key_failed save_failed : ConfigError → Reason
  api_host_unreadable api_host_missing address_underivable api_key_missing ds_id_missing
        cert_paths_missing port_unreachable certificates_incompatible tls_failed binary_missing
        backup_failed stop_failed start_failed process_missing verification_timeout :
      Reason

pub data Answer : Type 0 where
  already_switched switched : Answer
  refused rolled_back rollback_failed restart_failed : Reason → Answer

-- The file is `none` if there is none that can be read.
pub record World (Bytes : Type 0) : Type 0 where
  pub file : Option Bytes
  pub events : List (Event Bytes)

unfoldable pub is_cert_auth_error : TlsError → Bool
is_cert_auth_error unknown_authority = true
is_cert_auth_error certificate_invalid = true
is_cert_auth_error (other_tls_error message) =
    contains message (codes "bad certificate")
    || contains message (codes "certificate signed by unknown authority")
    || contains message (codes "unknown certificate authority")

-- What the checks before the backup find.
pub record Plan (yaml : Yaml) : Type 0 where
  pub config : ConfigFile yaml
  pub grpc_addr : String
  pub api_host : String
  pub api_key : String

module _ (yaml : Yaml) (deps : Deps yaml) where
  abbrev pub or_blank : Search String → String
  or_blank (value s) = s
  or_blank missing = ""
  or_blank broken = ""

  abbrev pub or_zero : Search ℕ → ℕ
  or_zero (value n) = n
  or_zero missing = 0
  or_zero broken = 0

  -- `ReadString` with an error is "" and not found, and an empty text is treated as not found.
  abbrev pub read : ConfigFile yaml → String → String
  read c path = or_blank (config_string yaml c path)

  abbrev with_port : Option Text → Option String
  with_port none = none
  with_port (some hostname) =
      if is_empty hostname then none else some (deps.join_host_port hostname "31718")

  abbrev with_scheme : Text → Text
  with_scheme host = if contains host (codes "://") then host else codes "http://" ++ host

  unfoldable pub derive_grpc_address : String → Option String
  derive_grpc_address api_host =
      let host = trim_space (codes api_host) in
      if is_empty host then none else with_port (deps.url_hostname (with_scheme host))

  abbrev derived : Option String → Result Reason String
  derived none = err address_underivable
  derived (some address) = ok address

  unfoldable pub grpc_address : String → Result Reason String
  unfolding derive_grpc_address
  grpc_address api_host =
      if not (str_eq deps.explicit_grpc_addr "")
      then ok deps.explicit_grpc_addr
      else if str_eq api_host ""
      then err api_host_missing
      else derived (derive_grpc_address api_host)

  abbrev read_api_host : Search String → Result Reason String
  read_api_host (value s) = ok s
  read_api_host missing = ok ""
  read_api_host broken = err api_host_unreadable

  abbrev require : Bool → Reason → Result Reason (Unit {0})
  require true reason = ok tt
  require false reason = err reason

  abbrev check_handshake : Option TlsError → Result Reason (Unit {0})
  check_handshake none = ok tt
  check_handshake (some e) =
      if is_cert_auth_error e then err certificates_incompatible else err tls_failed

  unfoldable pub resolve_cert_path : String → String
  resolve_cert_path path =
      if str_eq path "" || deps.is_abs_path path then path else deps.join_config_dir path

  abbrev cert_path : ConfigFile yaml → String → String
  cert_path c path = resolve_cert_path (read c path)

  abbrev has_cert_paths : ConfigFile yaml → Bool
  has_cert_paths c = not (
      str_eq (read c "$.ca_certificate_file") ""
      || str_eq (read c "$.certificate_chain_file") ""
      || str_eq (read c "$.private_key_file") "")

  -- From the read of the host to the search of the binary.
  unfoldable pub make_plan : ConfigFile yaml → Result Reason (Plan yaml)
  unfolding grpc_address resolve_cert_path
  make_plan c = read_api_host (config_string yaml c "$.api_host") >>= λ api_host.
      grpc_address api_host >>= λ address.
      require (not (str_eq (read c "$.api_key") "")) api_key_missing >>= λ _.
      require (not (or_zero (config_uint yaml c "$.ds_id") == 0)) ds_id_missing >>= λ _.
      require (has_cert_paths c) cert_paths_missing >>= λ _.
      require (deps.tcp_dial address) port_unreachable >>= λ _.
      check_handshake (
        deps.tls_probe (cert_path c "$.ca_certificate_file")
          (cert_path c "$.certificate_chain_file") (cert_path c "$.private_key_file") address)
      >>= λ _. require (deps.look_path "gameap-daemon") binary_missing >>= λ _. ok (record {
        config = c;
        grpc_addr = address;
        api_host = api_host;
        api_key = read c "$.api_key";
      })

  abbrev Bytes : Type 0
  Bytes = yaml.Bytes

  abbrev log : Event Bytes → World Bytes → World Bytes
  log event w = record w { events = event ∷ w.events }

  abbrev pub restarted : Reason → Bool → World Bytes → Answer × World Bytes
  restarted reason true w = (rolled_back reason, w)
  restarted reason false w = (restart_failed reason, w)

  unfoldable pub restore_backup : Bytes → Reason → World Bytes → Write Bytes → Answer × World Bytes
  restore_backup original reason w (damaged bytes) =
      (rollback_failed reason, record w { file = some bytes })
  restore_backup original reason w complete =
      let w' : World Bytes = record w {
        file = some original;
        events = restored original ∷ w.events;
      } in
      restarted reason (deps.start w'.events) (log (start_daemon (deps.start w'.events)) w')

  -- The closure `rollback`: the result of the stop is ignored.
  unfoldable pub rollback : Bytes → Reason → World Bytes → Answer × World Bytes
  unfolding restore_backup
  rollback original reason w =
      let w' : World Bytes = log (stop_daemon (deps.stop w.events)) w in
      restore_backup original reason w' (deps.restore_file w'.events)

  abbrev map_reason : {A : Type 0} → (ConfigError → Reason) → Result ConfigError A → Result Reason A
  map_reason reason (ok a) = ok a
  map_reason reason (err e) = err (reason e)

  -- The edits of the configuration in memory.
  unfoldable pub edit_config : Plan yaml → Result Reason (ConfigFile yaml)
  edit_config plan =
      map_reason modify_failed (ensure_grpc_enabled yaml deps.quote plan.grpc_addr plan.config)
      >>= λ c. map_reason key_failed (delete_key yaml "api_host" c) >>= λ c.
          map_reason key_failed (delete_key yaml "listen_ip" c) >>= λ c.
          map_reason key_failed (delete_key yaml "listen_port" c)

  -- The polling loop, with the attempts that are left.
  unfoldable pub poll_verification : ℕ → Plan yaml → World Bytes → Bool × World Bytes
  poll_verification zero plan w = (false, w)
  poll_verification (suc left) plan w =
      let revoked = deps.verify_legacy_revoked plan.api_host plan.api_key w.events in
      let rest = poll_verification left plan (log (verified false) w) in
      if revoked then (true, log (verified true) w) else rest

  abbrev pub with_state : World Bytes → World Bytes
  with_state w = if deps.load_state then log saved_state w else w

  abbrev pub settled : Bytes → Bool × World Bytes → Answer × World Bytes
  settled original (true, w) = (switched, with_state w)
  settled original (false, w) = rollback original verification_timeout w

  unfoldable pub verify_stage : Bytes → Plan yaml → World Bytes → Answer × World Bytes
  unfolding poll_verification
  verify_stage original plan w = settled original (poll_verification 10 plan w)

  unfoldable pub process_stage : Bytes → Plan yaml → World Bytes → Answer × World Bytes
  process_stage original plan w =
      let alive = deps.find_process w.events in
      let w' : World Bytes = log (found_process alive) w in
      if alive then verify_stage original plan w' else rollback original process_missing w'

  unfoldable pub start_stage : Bytes → Plan yaml → World Bytes → Answer × World Bytes
  start_stage original plan w =
      let done = deps.start w.events in
      let w' : World Bytes = log (start_daemon done) w in
      if done then process_stage original plan w' else rollback original start_failed w'

  unfoldable pub stop_stage : Bytes → Plan yaml → World Bytes → Answer × World Bytes
  stop_stage original plan w =
      let done = deps.stop w.events in
      let w' : World Bytes = log (stop_daemon done) w in
      if done then start_stage original plan w' else rollback original stop_failed w'

  unfoldable pub save_stage :
      Bytes → Plan yaml → ConfigFile yaml → World Bytes → Write Bytes → Answer × World Bytes
  save_stage original plan c w (damaged bytes) =
      rollback original (save_failed write_error) (record w { file = some bytes })
  save_stage original plan c w complete = stop_stage original plan (record w {
    file = some (saved_bytes yaml c);
    events = wrote (saved_bytes yaml c) ∷ w.events;
  })

  abbrev pub edited :
      Bytes → Plan yaml → World Bytes → Result Reason (ConfigFile yaml) → Answer × World Bytes
  edited original plan w (err reason) = rollback original reason w
  edited original plan w (ok c) = save_stage original plan c w (deps.write_file w.events)

  abbrev pub backed_up : Result Reason (Plan yaml) → Bytes → World Bytes → Answer × World Bytes
  backed_up (err reason) original w = (refused reason, w)
  backed_up (ok plan) original w =
      if deps.copy_backup original
      then edited original plan w (edit_config plan)
      else (refused backup_failed, w)

  abbrev pub loaded : Result ConfigError (ConfigFile yaml) → World Bytes → Answer × World Bytes
  loaded (err e) w = (refused (load_failed e), w)
  loaded (ok c) w =
      if str_eq (read c "$.grpc.enabled") "true"
      then (already_switched, w)
      else backed_up (make_plan c) c.content w

  -- `switchToGRPC`; the sleeps and the messages are left out.
  unfoldable pub switch_to_grpc : World Bytes → Answer × World Bytes
  switch_to_grpc w = loaded (load_config yaml w.file) w
