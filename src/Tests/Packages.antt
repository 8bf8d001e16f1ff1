-- ===== src/Tests/Packages.antt =====
-- The package managers, at concrete inputs.

use gameapctl.Base.{
  codes, true, false, Option, none, some, List, [], ◌∷◌, String, str_eq, ok, err, is_empty,
  trim_space, is_space, ◌≡◌, refl, if◌then◌else◌, ℕ,
}
use gameapctl.Packages.{
  install_with_fallback, PackageConfig, Machine, noop_strategy, install_extended,
  exclude_by_lookup_path_found, replace_aliases, execute_steps, execute_install_steps,
  execute_command, install_each, Operation,
}
use gameapctl.Packages.Installs.{Installs, install_extended-handed}

-- The package php stands for two packages, of which composer is installed by a command.
abbrev php : PackageConfig
php = record {
  replace_with = some ("php-cli" ∷ "composer" ∷ []);
  lookup_paths = "php" ∷ [];
  pre_install = record { conditions = []; run_commands = codes "add-repo" ∷ [] } ∷ [];
  install = [];
  post_install = [];
}

abbrev composer : PackageConfig
composer = record {
  replace_with = none;
  lookup_paths = [];
  pre_install = [];
  install = record { conditions = []; run_commands = codes "get-composer" ∷ [] } ∷ [];
  post_install = [];
}

abbrev packages : String → Option PackageConfig
packages pack =
    if str_eq pack "php" then some php else if str_eq pack "composer" then some composer else none

abbrev machine : Machine
machine = record {
  look_path = λ h path. none;
  file_exists = λ h path. false;
  exec_command = λ h command. true;
  render = λ vars text. some text;
  install = λ h pack. true;
}

abbrev first_only : List String → List String
first_only [] = []
first_only (pack ∷ packs) = pack ∷ []

install_extended-php :
    (install_extended machine packages (noop_strategy first_only) "php" []).0 ≡ ok tt
unfolding install_extended exclude_by_lookup_path_found replace_aliases execute_steps
    execute_install_steps execute_command trim_space is_space install_each
install_extended-php = refl

install_extended-handed_example :
    Installs machine packages first_only
      (is_empty (exclude_by_lookup_path_found machine packages ("php" ∷ []) []))
      "php"
      []
      (install_extended machine packages (noop_strategy first_only) "php" [])
install_extended-handed_example =
    install_extended-handed machine packages first_only "php" [] install_extended-php

-- The states count the calls.
abbrev failing : Operation ℕ String
failing pack calls = (err pack, calls)

both_fail : (install_with_fallback failing failing "php" 0).0 ≡ err ("php" ∷ "php" ∷ [])
unfolding install_with_fallback
both_fail = refl
