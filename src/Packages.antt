-- ===== src/Packages.antt =====
-- pkg/package_manager/extended.go and fallback.go: the package managers that wrap another one: the
-- steps that the configuration of a package asks for, and the manager with a fallback. The machine and
-- the wrapped manager answer by the events before, most recent first. Templates are Go's
-- `text/template`, a parameter; the contexts, the log output and the choice of the shell are left out.
pub mod Steps
pub mod Installs
pub mod Fallbacks
use gameapctl.Base.{
  Text, Bool, true, false, not, ◌&&◌, ◌||◌, Option, none, some, List, [], ◌∷◌, ◌++◌, String, str_eq,
  Result, ok, err, is_empty, trim_space, if◌then◌else◌,
}

pub data Event : Type 0 where
  ran : (command : Text) → (done : Bool) → Event
  installed : (pack : String) → (done : Bool) → Event

-- The conditions of a step are its `FileNotExists` texts.
pub record Step : Type 0 where
  pub conditions : List String
  pub run_commands : List Text

-- A nil `ReplaceWith` is `none`.
pub record PackageConfig : Type 0 where
  pub replace_with : Option (List String)
  pub lookup_paths : List String
  pub pre_install : List Step
  pub install : List Step
  pub post_install : List Step

pub data InstallError : Type 0 where
  template_failed command_failed install_failed dependencies_failed transform_failed : InstallError

abbrev pub Vars : Type 0
Vars = List (String × String)

pub record Machine : Type 0 where
  pub look_path : List Event → String → Option String
  pub file_exists : List Event → String → Bool
  pub exec_command : List Event → Text → Bool
  pub render : Vars → Text → Option Text
  pub install : List Event → String → Bool

-- Each operation gives the events after it.
abbrev pub Run : Type 0
Run = Result InstallError (Unit {0}) × List Event

abbrev pub done_or : InstallError → Bool → Result InstallError (Unit {0})
done_or e true = ok tt
done_or e false = err e

-- What follows only after a success.
abbrev pub and_then : Run → Run → Run
and_then (ok done, h) rest = rest
and_then (err e, h) rest = (err e, h)

abbrev pub contains_name : String → List String → Bool
contains_name name [] = false
contains_name name (n ∷ names) = str_eq n name || contains_name name names

abbrev is_blank : String → Bool
is_blank s = str_eq s ""

module _ (machine : Machine) (packages : String → Option PackageConfig) where
  unfoldable pub execute_command : Text → List Event → Run
  execute_command command h =
      let trimmed = trim_space command in
      if is_empty trimmed then (ok tt, h) else (
        done_or command_failed (machine.exec_command h trimmed),
        ran trimmed (machine.exec_command h trimmed) ∷ h,
      )

  -- The loop over the commands of a step.
  unfoldable pub run_all : Vars → List Text → List Event → Run
  unfolding execute_command
  run_all vars [] h = (ok tt, h)
  run_all vars (c ∷ cs) h = elim (machine.render vars c) [
    | none ↦ (err template_failed, h)
    | some processed ↦ let r = execute_command processed h in and_then r (run_all vars cs r.1)
  ]

  unfoldable pub check_conditions : List String → List Event → Bool
  check_conditions [] h = true
  check_conditions (path ∷ paths) h =
      let rest = check_conditions paths h in
      if not (is_blank path) && machine.file_exists h path then false else rest

  abbrev pub lookup_vars : List String → List Event → Vars
  lookup_vars [] h = []
  lookup_vars (path ∷ paths) h = elim (machine.look_path h path) [
    | none ↦ lookup_vars paths h
    | some resolved ↦ (path, resolved) ∷ lookup_vars paths h
  ]

  -- The loop over the steps; the conditions count only before an installation.
  unfoldable pub run_steps : (conditional : Bool) → Vars → List Step → List Event → Run
  unfolding run_all check_conditions
  run_steps conditional vars [] h = (ok tt, h)
  run_steps conditional vars (step ∷ steps) h =
      let skipped = run_steps conditional vars steps h in
      let r = run_all vars step.run_commands h in
      let rest = run_steps conditional vars steps r.1 in
      if conditional && not (check_conditions step.conditions h) then skipped else and_then r rest

  -- The loop over the packages before or after an installation. `steps_of` are the steps of a package,
  -- and `executed` is the map of the packages that were run.
  unfoldable pub execute_steps :
      (conditional : Bool)
      → (PackageConfig → List Step)
      → List String
      → List String
      → List Event
      → Run
  unfolding run_steps
  execute_steps conditional steps_of executed [] h = (ok tt, h)
  execute_steps conditional steps_of executed (pack ∷ packs) h = elim (packages pack) [
    | none ↦ execute_steps conditional steps_of executed packs h
    | some config ↦
        let skipped = execute_steps conditional steps_of executed packs h in
        let r = run_steps conditional (lookup_vars config.lookup_paths h) (steps_of config) h in
        let rest = execute_steps conditional steps_of (pack ∷ executed) packs r.1 in
        if is_empty (steps_of config) || contains_name pack executed
        then skipped
        else and_then r rest
  ]

  abbrev pub execute_pre_installation_steps : List String → List Event → Run
  execute_pre_installation_steps = execute_steps true (λ config. config.pre_install) []

  abbrev pub post_installation_steps : List String → List Event → Run
  post_installation_steps = execute_steps false (λ config. config.post_install) []

  abbrev pub kept :
      String
      → (Result InstallError (List String) × List Event)
      → Result InstallError (List String) × List Event
  kept pack (ok packs, h) = (ok (pack ∷ packs), h)
  kept pack (err e, h) = (err e, h)

  abbrev pub continued :
      Run
      → (Result InstallError (List String) × List Event)
      → Result InstallError (List String) × List Event
  continued (ok done, h) rest = rest
  continued (err e, h) rest = (err e, h)

  -- `executeInstallSteps`: what is left for the wrapped manager.
  unfoldable pub execute_install_steps :
      List String → List String → List Event → Result InstallError (List String) × List Event
  unfolding run_steps
  execute_install_steps executed [] h = (ok [], h)
  execute_install_steps executed (pack ∷ packs) h = elim (packages pack) [
    | none ↦ kept pack (execute_install_steps executed packs h)
    | some config ↦
        let plain = kept pack (execute_install_steps executed packs h) in
        let skipped = execute_install_steps executed packs h in
        let r = run_steps false (lookup_vars config.lookup_paths h) config.install h in
        let rest = execute_install_steps (pack ∷ executed) packs r.1 in
        if is_empty config.install
        then plain
        else if contains_name pack executed
        then skipped
        else continued r rest
  ]

  unfoldable pub replace_aliases : List String → List String
  replace_aliases [] = []
  replace_aliases (pack ∷ packs) = elim (packages pack) [
    | none ↦ pack ∷ replace_aliases packs
    | some config ↦ elim config.replace_with [
      | none ↦ pack ∷ replace_aliases packs
      | some names ↦ names ++ replace_aliases packs
    ]
  ]

  is_found : List String → List Event → Bool
  is_found [] h = false
  is_found (path ∷ paths) h = elim (machine.look_path h path) [
    | none ↦ is_found paths h
    | some resolved ↦ true
  ]

  unfoldable pub exclude_by_lookup_path_found : List String → List Event → List String
  unfolding is_found
  exclude_by_lookup_path_found [] h = []
  exclude_by_lookup_path_found (pack ∷ packs) h = elim (packages pack) [
    | none ↦ pack ∷ exclude_by_lookup_path_found packs h
    | some config ↦
        let rest = exclude_by_lookup_path_found packs h in
        if is_empty config.lookup_paths || not (is_found config.lookup_paths h)
        then pack ∷ rest
        else rest
  ]

  -- The loop over the wrapped manager's `Install`.
  unfoldable pub install_each : List String → List Event → Run
  install_each [] h = (ok tt, h)
  install_each (pack ∷ packs) h =
      let rest = install_each packs (installed pack true ∷ h) in
      if machine.install h pack then rest else (err install_failed, installed pack false ∷ h)

-- `packageInstallStrategy`, without `preRemove`, and `lo.Uniq`.
pub record Strategy : Type 0 where
  pub install_dependencies : List String → List Event → Run
  pub transform : List String → List Event → Result InstallError (List String) × List Event
  pub uniq : List String → List String

abbrev pub noop_strategy : (List String → List String) → Strategy
noop_strategy uniq = record {
  install_dependencies = λ packs h. (ok tt, h);
  transform = λ packs h. (ok packs, h);
  uniq = uniq;
}

module _ (machine : Machine) (packages : String → Option PackageConfig) (strategy : Strategy) where
  abbrev pub finish_install : String → Result InstallError (List String) × List Event → Run
  finish_install pack (err e, h) = (err e, h)
  finish_install pack (ok packs, h) =
      let r = install_each machine packages packs h in
      and_then r (post_installation_steps machine packages (strategy.uniq (packs ++ pack ∷ [])) r.1)

  abbrev pub install_transformed : String → Result InstallError (List String) × List Event → Run
  install_transformed pack (err e, h) = (err e, h)
  install_transformed pack (ok packs, h) =
      finish_install pack
        (execute_install_steps machine packages [] (replace_aliases machine packages packs) h)

  abbrev pub pre_install_and_rest : String → List String → List Event → Run
  pre_install_and_rest pack packs h =
      let all = strategy.uniq (packs ++ pack ∷ []) in
      let r = execute_pre_installation_steps machine packages all h in
      and_then r (install_transformed pack (strategy.transform all r.1))

  -- `Install` of `extended`.
  unfoldable pub install_extended : String → List Event → Run
  install_extended pack h =
      let packs = exclude_by_lookup_path_found machine packages (pack ∷ []) h in
      let r = strategy.install_dependencies packs h in
      if is_empty packs then (ok tt, h) else and_then r (pre_install_and_rest pack packs r.1)

-- A manager with a fallback: each of the two is its operations on a state. An error of the two
-- together is a list, as `multierr` keeps it.
abbrev pub Operation : Type 0 → Type 0 → Type 0
Operation State Error = String → State → Result Error (Unit {0}) × State

module _ {State Error : Type 0} where
  abbrev pub or_both :
      Error → Result Error (Unit {0}) × State → Result (List Error) (Unit {0}) × State
  or_both e (ok done, s) = (ok tt, s)
  or_both e (err e', s) = (err (e ∷ e' ∷ []), s)

  abbrev pub or_fallback :
      Operation State Error
      → String
      → Result Error (Unit {0}) × State
      → Result (List Error) (Unit {0}) × State
  or_fallback fallback pack (ok done, s) = (ok tt, s)
  or_fallback fallback pack (err e, s) = or_both e (fallback pack s)

  -- `Install` of `fallback`, and `CheckForUpdates` with any name.
  unfoldable pub install_with_fallback :
      Operation State Error
      → Operation State Error
      → String
      → State
      → Result (List Error) (Unit {0}) × State
  install_with_fallback base fallback pack s = or_fallback fallback pack (base pack s)

-- `Search` of `fallback`, of what the two searches give.
module _ {Error Package : Type 0} where
  unfoldable pub search_with_fallback :
      Result Error (List Package) → Result Error (List Package) → Result (List Error) (List Package)
  search_with_fallback (ok packs) (ok more) = ok (packs ++ more)
  search_with_fallback (err e) (ok more) = ok more
  search_with_fallback (ok packs) (err e) = err (e ∷ [])
  search_with_fallback (err e) (err e') = err (e ∷ e' ∷ [])
