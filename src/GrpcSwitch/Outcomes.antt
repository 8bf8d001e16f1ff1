-- ===== src/GrpcSwitch/Outcomes.antt =====
-- internal/actions/daemon/update/switch_to_grpc.go: what the switch to gRPC mode leaves for each of
-- its answers.
use gameapctl.Base.{
  if-holds, Option-cases, Option, none, some, Result, ok, err, ok-injective, ◌≡◌, refl, ap, inl,
  inr, str_eq,
}
use gameapctl.DaemonConfig.{Yaml, ConfigFile, ConfigError, load_config, saved_bytes}
use gameapctl.GrpcSwitch.{
  Deps, Reason, already_switched, switched, refused, rolled_back, rollback_failed, restart_failed,
  World, Plan, rollback, edited, backed_up, loaded, save_stage, edit_config, make_plan,
  switch_to_grpc, read,
}
use gameapctl.GrpcSwitch.Rollback.{Outcome, IsRolledBack, rollback-IsRolledBack}
use gameapctl.GrpcSwitch.Stages.{IsFinished, IsSwitched, save_stage-IsFinished}

module _ (yaml : Yaml) (deps : Deps yaml) where
  -- What each answer means, for the world before and the world after.
  abbrev pub IsExplained : World yaml.Bytes → Outcome yaml deps → Type 0
  IsExplained w (switched, w') =
      (c : ConfigFile yaml) × (plan : Plan yaml) × (edits : ConfigFile yaml) × (load_config yaml
          w.file
        ≡ ok c)
      × (make_plan yaml deps c ≡ ok plan)
      × (edit_config yaml deps plan ≡ ok edits)
      × IsSwitched yaml deps plan (saved_bytes yaml edits) w'
  IsExplained w (rolled_back reason, w') =
      (original : yaml.Bytes) × (w.file ≡ some original)
      × IsRolledBack yaml deps original (rolled_back reason, w')
  IsExplained w (restart_failed reason, w') =
      (original : yaml.Bytes) × (w.file ≡ some original)
      × IsRolledBack yaml deps original (restart_failed reason, w')
  IsExplained w (rollback_failed reason, w') =
      (original : yaml.Bytes) × (w.file ≡ some original)
      × IsRolledBack yaml deps original (rollback_failed reason, w')
  IsExplained w (refused reason, w') = w' ≡ w
  IsExplained w (already_switched, w') = w' ≡ w

  ap_content :
      {c d : ConfigFile yaml}
      → ◌≡◌ {A = Result ConfigError (ConfigFile yaml)} (ok c) (ok d)
      → c.content ≡ d.content
  ap_content e = ap (λ (c : ConfigFile yaml). c.content) (ok-injective e)

  load_config-content :
      (file : Option yaml.Bytes) (c : ConfigFile yaml)
      → load_config yaml file ≡ ok c
      → file ≡ some c.content
  unfolding load_config
  load_config-content none c e = cc
  load_config-content (some bytes) c e = elim (Option-cases (yaml.parse bytes)) [
    | inl unparsed ↦ cc (rw (load_config, unparsed) at e)
    | inr (doc, parsed) ↦ ap some (ap_content (rw (load_config, parsed) at e))
  ]

  explain :
      (w : World yaml.Bytes) (c : ConfigFile yaml) (plan : Plan yaml) (edits : ConfigFile yaml)
      (r : Outcome yaml deps)
      → load_config yaml w.file ≡ ok c
      → make_plan yaml deps c ≡ ok plan
      → edit_config yaml deps plan ≡ ok edits
      → IsFinished yaml deps c.content plan (saved_bytes yaml edits) r
      → IsExplained w r
  explain w c plan edits (switched, w') l m e p = (c, plan, edits, l, m, e, p)
  explain w c plan edits (rolled_back reason, w') l m e p =
      (c.content, load_config-content w.file c l, p)
  explain w c plan edits (restart_failed reason, w') l m e p =
      (c.content, load_config-content w.file c l, p)
  explain w c plan edits (rollback_failed reason, w') l m e p =
      (c.content, load_config-content w.file c l, p)
  explain w c plan edits (refused reason, w') l m e p = elim p [ ]
  explain w c plan edits (already_switched, w') l m e p = elim p [ ]

  explain_rollback :
      (w : World yaml.Bytes) (original : yaml.Bytes) (r : Outcome yaml deps)
      → w.file ≡ some original
      → IsRolledBack yaml deps original r
      → IsExplained w r
  explain_rollback w original (switched, w') e p = elim p [ ]
  explain_rollback w original (rolled_back reason, w') e p = (original, e, p)
  explain_rollback w original (restart_failed reason, w') e p = (original, e, p)
  explain_rollback w original (rollback_failed reason, w') e p = (original, e, p)
  explain_rollback w original (refused reason, w') e p = elim p [ ]
  explain_rollback w original (already_switched, w') e p = elim p [ ]

  edited-IsExplained :
      (w : World yaml.Bytes) (c : ConfigFile yaml) (plan : Plan yaml)
      (edits : Result Reason (ConfigFile yaml))
      → load_config yaml w.file ≡ ok c
      → make_plan yaml deps c ≡ ok plan
      → edit_config yaml deps plan ≡ edits
      → IsExplained w (edited yaml deps c.content plan w edits)
  edited-IsExplained w c plan (err reason) l m e =
      explain_rollback w c.content (rollback yaml deps c.content reason w)
        (load_config-content w.file c l) (rollback-IsRolledBack yaml deps c.content reason w)
  edited-IsExplained w c plan (ok edits) l m e =
      explain w c plan edits
        (save_stage yaml deps c.content plan edits w (deps.write_file w.events)) l m e
        (save_stage-IsFinished yaml deps c.content plan edits w (deps.write_file w.events))

  backed_up-IsExplained :
      (w : World yaml.Bytes) (c : ConfigFile yaml) (plan : Result Reason (Plan yaml))
      → load_config yaml w.file ≡ ok c
      → make_plan yaml deps c ≡ plan
      → IsExplained w (backed_up yaml deps plan c.content w)
  backed_up-IsExplained w c (err reason) l m = refl
  backed_up-IsExplained w c (ok plan) l m =
      if-holds (IsExplained w) (deps.copy_backup c.content)
        (λ _. edited-IsExplained w c plan (edit_config yaml deps plan) l m refl) (λ _. refl)

  loaded-IsExplained :
      (w : World yaml.Bytes) (c : Result ConfigError (ConfigFile yaml))
      → load_config yaml w.file ≡ c
      → IsExplained w (loaded yaml deps c w)
  loaded-IsExplained w (err e) l = refl
  loaded-IsExplained w (ok c) l =
      if-holds (IsExplained w) (str_eq (read yaml deps c "$.grpc.enabled") "true") (λ _. refl)
        (λ _. backed_up-IsExplained w c (make_plan yaml deps c) l refl)

  -- The switch to gRPC mode leaves, by its answer: switched: the configuration with the edits in the
  -- file, and a panel that, asked at most ten times after the restart, confirmed; rolled back, or only
  -- the last start failed: the file from before, restored, with the start of the daemon as the last
  -- step; rollback failed: what the failed restore left in the file; refused or switched already: the
  -- world as it was.
  pub switch_to_grpc-IsExplained :
      (w : World yaml.Bytes) → IsExplained w (switch_to_grpc yaml deps w)
  unfolding switch_to_grpc
  switch_to_grpc-IsExplained w = loaded-IsExplained w (load_config yaml w.file) refl
