-- ===== src/Tests/Services.antt =====
-- The restart of a service, the edits of the configuration and the switch to gRPC mode, at concrete
-- inputs.
use Prim.Native.String
use gameapctl.Base.{
  true, false, Option, none, some, List, [], ◌∷◌, String, str_eq, ok, ◌≡◌, ◌↔◌, ◌⊎◌, refl,
  if◌then◌else◌, length, ltb,
}
use gameapctl.Service.{other_error, History, Shell, Run, systemd, restart, manager_restart}
use gameapctl.Service.Restarts.{StopsAndStarts, restart-ok_iff}
use gameapctl.DaemonConfig.{
  load_config, ensure_grpc_enabled, Yaml, value, missing, ConfigFile, delete_key,
}
use gameapctl.DaemonConfig.Edits.{SetsValues, without_first, root_values-delete_key}
use gameapctl.GrpcSwitch.{
  make_plan, edit_config, save_stage, stop_stage, start_stage, process_stage, verify_stage,
  rollback, complete, switched, rolled_back, process_missing, Deps, World, Plan, switch_to_grpc,
  poll_verification,
}
use gameapctl.GrpcSwitch.Rollback.{PollEnds, poll_verification-PollEnds}
use gameapctl.GrpcSwitch.Outcomes.{IsExplained, switch_to_grpc-IsExplained}

-- A machine with no systemctl.
abbrev no_systemctl : Shell
no_systemctl history command = other_error

abbrev no_windows : String → String → History → Run
no_windows operation name history = (ok tt, history)

restart-ok_iff_example : ((restart no_systemctl no_windows systemd "gameap" []).0 ≡ ok tt) ↔ (
    ((manager_restart no_systemctl no_windows systemd "gameap" []).0 ≡ ok tt)
    ⊎ StopsAndStarts no_systemctl no_windows systemd "gameap"
        (manager_restart no_systemctl no_windows systemd "gameap" []).1)
restart-ok_iff_example = restart-ok_iff no_systemctl no_windows systemd "gameap" []

-- A document is its root mapping: the keys with their values.
abbrev Lines : Type 0
Lines = List (String × String)

abbrev lookup : String → Lines → Option String
lookup path [] = none
lookup path ((k, v) ∷ lines) =
    if str_eq (String.◌++◌ "$." k) path then some v else lookup path lines

abbrev found_or_missing : Option String → gameapctl.DaemonConfig.Search String
found_or_missing none = missing
found_or_missing (some v) = value v

abbrev flat_yaml : Yaml
flat_yaml = record {
  Bytes = Lines;
  Doc = Lines;
  parse = some;
  print = λ doc. doc;
  ends_line = λ bytes. true;
  add_newline = λ bytes. bytes;
  read_string = λ path bytes. found_or_missing (lookup path bytes);
  read_uint = λ path bytes. value 7;
  filter_file = λ path doc. missing;
  replace = λ path scalar doc. some doc;
  merge = λ path snippet doc. some ((path, snippet) ∷ doc);
  Value = String × String;
  key_of = λ line. some line.0;
  root_values = λ doc. some doc;
  set_values = λ values doc. values;
}

abbrev lines : Lines
lines =
    ("api_host", "http://p")
    ∷ ("api_key", "secret")
    ∷ ("ca_certificate_file", "/ca")
    ∷ ("certificate_chain_file", "/crt")
    ∷ ("private_key_file", "/key")
    ∷ ("listen_ip", "0.0.0.0")
    ∷ []

abbrev file : ConfigFile flat_yaml
file = record { ast = lines; content = lines }

abbrev without_listen_ip : ConfigFile flat_yaml
without_listen_ip = record {
  ast =
      ("api_host", "http://p")
      ∷ ("api_key", "secret")
      ∷ ("ca_certificate_file", "/ca")
      ∷ ("certificate_chain_file", "/crt")
      ∷ ("private_key_file", "/key")
      ∷ [];
  content = lines;
}

sets : SetsValues flat_yaml
sets vs ws doc values = refl

root_values-delete_key_example :
    some without_listen_ip.ast ≡ some (without_first flat_yaml "listen_ip" lines)
unfolding delete_key
root_values-delete_key_example =
    root_values-delete_key flat_yaml sets "listen_ip" file without_listen_ip lines refl refl

-- The panel confirms the third attempt.
abbrev deps : Deps flat_yaml
deps = record {
  explicit_grpc_addr = "panel:31718";
  quote = λ s. s;
  url_hostname = some;
  join_host_port = λ host port. port;
  is_abs_path = λ path. true;
  join_config_dir = λ path. path;
  tcp_dial = λ address. true;
  tls_probe = λ ca crt key address. none;
  look_path = λ name. true;
  copy_backup = λ bytes. true;
  write_file = λ h. complete;
  restore_file = λ h. complete;
  stop = λ h. true;
  start = λ h. true;
  find_process = λ h. true;
  verify_legacy_revoked = λ host key h. ltb 5 (length h);
  load_state = true;
}

abbrev world : World Lines
world = record { file = some lines; events = [] }

-- The daemon does not start again: the switch is rolled back.
abbrev stuck : Deps flat_yaml
stuck = record deps { find_process = λ h. false }

switch_to_grpc-IsExplained_example :
    IsExplained flat_yaml stuck world (switch_to_grpc flat_yaml stuck world)
switch_to_grpc-IsExplained_example = switch_to_grpc-IsExplained flat_yaml stuck world

switch_to_grpc-deps : (switch_to_grpc flat_yaml deps world).0 ≡ switched
unfolding switch_to_grpc load_config make_plan edit_config ensure_grpc_enabled delete_key save_stage
    stop_stage start_stage process_stage verify_stage
switch_to_grpc-deps = refl

switch_to_grpc-stuck : (switch_to_grpc flat_yaml stuck world).0 ≡ rolled_back process_missing
unfolding switch_to_grpc load_config make_plan edit_config ensure_grpc_enabled delete_key save_stage
    stop_stage start_stage process_stage rollback
switch_to_grpc-stuck = refl

abbrev plan : Plan flat_yaml
plan = record {
  config = file;
  grpc_addr = "panel:31718";
  api_host = "http://p";
  api_key = "secret";
}

poll_verification-PollEnds_example :
    PollEnds flat_yaml deps 10 plan world (poll_verification flat_yaml deps 10 plan world)
poll_verification-PollEnds_example = poll_verification-PollEnds flat_yaml deps 10 plan world
