-- ===== src/Packages/Steps.antt =====
-- pkg/package_manager/extended.go: what the steps of a package's configuration do not do.
use gameapctl.Base.{
  Text, Bool, not, ◌&&◌, ◌||◌, Option, List, [], ◌∷◌, String, ok, err, is_empty, trim_space, ◌≡◌,
  refl, ◌∙◌, inl, inr, Option-cases, if-holds,
}
use gameapctl.Packages.{
  Event, ran, installed, Step, PackageConfig, Machine, Run, Vars, and_then, contains_name,
  execute_command, run_all, check_conditions, lookup_vars, run_steps, execute_steps,
}

-- The packages that the wrapped manager was asked for, most recent first.
abbrev pub handed : List Event → List String
handed [] = []
handed (ran command done ∷ h) = handed h
handed (installed pack done ∷ h) = pack ∷ handed h

module _ (machine : Machine) (packages : String → Option PackageConfig) where
  handed-and_then :
      (h : List Event) (r rest : Run)
      → handed r.1 ≡ handed h
      → handed rest.1 ≡ handed r.1
      → handed (and_then r rest).1 ≡ handed h
  handed-and_then h (ok done, h') rest e e' = e' ∙ e
  handed-and_then h (err x, h') rest e e' = e

  handed-execute_command :
      (command : Text) (h : List Event)
      → handed (execute_command machine packages command h).1 ≡ handed h
  unfolding execute_command
  handed-execute_command command h =
      if-holds (λ (r : Run). handed r.1 ≡ handed h) (is_empty (trim_space command)) (λ _. refl)
        (λ _. refl)

  handed-run_all :
      (vars : Vars) (cs : List Text) (h : List Event)
      → handed (run_all machine packages vars cs h).1 ≡ handed h
  unfolding run_all
  handed-run_all vars [] h = refl
  handed-run_all vars (c ∷ cs) h = elim (Option-cases (machine.render vars c)) [
    | inl broken ↦ rw (run_all, broken) refl
    | inr (processed, rendered) ↦
        rw (run_all, rendered)
          (handed-and_then h (execute_command machine packages processed h) _
            (handed-execute_command processed h)
            (handed-run_all vars cs (execute_command machine packages processed h).1))
  ]

  pub handed-run_steps :
      (conditional : Bool) (vars : Vars) (steps : List Step) (h : List Event)
      → handed (run_steps machine packages conditional vars steps h).1 ≡ handed h
  unfolding run_steps
  handed-run_steps conditional vars [] h = refl
  handed-run_steps conditional vars (step ∷ steps) h =
      if-holds (λ (r : Run). handed r.1 ≡ handed h)
        (conditional && not (check_conditions machine packages step.conditions h))
        (λ _. handed-run_steps conditional vars steps h)
        (λ _.
          handed-and_then h (run_all machine packages vars step.run_commands h) _
            (handed-run_all vars step.run_commands h) (handed-run_steps conditional vars steps _))

  pub handed-execute_steps :
      (conditional : Bool) (steps_of : PackageConfig → List Step) (executed packs : List String)
      (h : List Event)
      → handed (execute_steps machine packages conditional steps_of executed packs h).1 ≡ handed h
  unfolding execute_steps
  handed-execute_steps conditional steps_of executed [] h = refl
  handed-execute_steps conditional steps_of executed (pack ∷ packs) h =
      elim (Option-cases (packages pack)) [
        | inl unknown ↦
            rw (execute_steps, unknown) (handed-execute_steps conditional steps_of executed packs h)
        | inr (config, known) ↦
            rw (execute_steps, known)
              (if-holds (λ (r : Run). handed r.1 ≡ handed h)
                (is_empty (steps_of config) || contains_name pack executed)
                (λ _. handed-execute_steps conditional steps_of executed packs h)
                (λ _.
                  handed-and_then h
                    (run_steps machine packages conditional
                      (lookup_vars machine packages config.lookup_paths h) (steps_of config) h)
                    _ (handed-run_steps conditional _ (steps_of config) h)
                    (handed-execute_steps conditional steps_of (pack ∷ executed) packs _)))
      ]
