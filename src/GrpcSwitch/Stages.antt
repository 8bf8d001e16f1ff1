-- ===== src/GrpcSwitch/Stages.antt =====
-- internal/actions/daemon/update/switch_to_grpc.go: the stages of the switch after the
-- backup, each of which ends in the new mode or in a rollback.
use gameapctl.Base.{
  Bool, true, false, if-holds, Bool-cases, some, List, ◌∷◌, ℕ, ◌≡◌, refl, ap, ◌∙◌, inl, inr, ◌<◌,
  arith, if◌then◌else◌,
}
use gameapctl.DaemonConfig.{Yaml, ConfigFile, saved_bytes, write_error}
use gameapctl.GrpcSwitch.{
  Event, wrote, stop_daemon, start_daemon, found_process, verified, saved_state, Write, complete,
  damaged, Deps, Reason, already_switched, switched, refused, rolled_back, rollback_failed,
  restart_failed, World, Plan, rollback, poll_verification, with_state, settled, verify_stage,
  process_stage, start_stage, stop_stage, save_stage, save_failed, stop_failed, start_failed,
  process_missing, verification_timeout,
}
use gameapctl.GrpcSwitch.Rollback.{
  Outcome, IsRolledBack, attempts, PollEnds, rollback-IsRolledBack, poll_verification-PollEnds,
}

module _ (yaml : Yaml) (deps : Deps yaml) where
  abbrev pub with_saved : Bool → List (Event yaml.Bytes) → List (Event yaml.Bytes)
  with_saved saved h = if saved then saved_state ∷ h else h

  -- The new bytes stand in the file, and one of the ten attempts, the last, found that the panel has
  -- revoked the credentials of the old mode.
  abbrev pub IsSwitched : Plan yaml → yaml.Bytes → World yaml.Bytes → Type 0
  IsSwitched plan bytes w =
      (w.file ≡ some bytes)
      × ((k : ℕ) × (h : List (Event yaml.Bytes)) × (k < 10)
          × (deps.verify_legacy_revoked plan.api_host plan.api_key (
                attempts yaml deps k
                  (found_process true ∷ start_daemon true ∷ stop_daemon true ∷ wrote bytes ∷ h))
              ≡ true)
          × (w.events
              ≡ with_saved deps.load_state (
                  verified true
                  ∷ attempts yaml deps k (
                      found_process true
                      ∷ start_daemon true
                      ∷ stop_daemon true
                      ∷ wrote bytes
                      ∷ h))))

  -- Past the backup: the new configuration is in place, or it is rolled back.
  abbrev pub IsFinished : yaml.Bytes → Plan yaml → yaml.Bytes → Outcome yaml deps → Type 0
  IsFinished original plan bytes (switched, w) = IsSwitched plan bytes w
  IsFinished original plan bytes (rolled_back reason, w) =
      IsRolledBack yaml deps original (rolled_back reason, w)
  IsFinished original plan bytes (restart_failed reason, w) =
      IsRolledBack yaml deps original (restart_failed reason, w)
  IsFinished original plan bytes (rollback_failed reason, w) =
      IsRolledBack yaml deps original (rollback_failed reason, w)
  IsFinished original plan bytes (refused reason, w) = ⊥
  IsFinished original plan bytes (already_switched, w) = ⊥

  IsFinished-by_rollback :
      (original : yaml.Bytes) (plan : Plan yaml) (bytes : yaml.Bytes) (r : Outcome yaml deps)
      → IsRolledBack yaml deps original r
      → IsFinished original plan bytes r
  IsFinished-by_rollback original plan bytes (switched, w) p = elim p [ ]
  IsFinished-by_rollback original plan bytes (rolled_back reason, w) p = p
  IsFinished-by_rollback original plan bytes (restart_failed reason, w) p = p
  IsFinished-by_rollback original plan bytes (rollback_failed reason, w) p = p
  IsFinished-by_rollback original plan bytes (refused reason, w) p = p
  IsFinished-by_rollback original plan bytes (already_switched, w) p = p

  rollback-IsFinished :
      (original : yaml.Bytes) (plan : Plan yaml) (bytes : yaml.Bytes) (reason : Reason)
      (w : World yaml.Bytes)
      → IsFinished original plan bytes (rollback yaml deps original reason w)
  rollback-IsFinished original plan bytes reason w =
      IsFinished-by_rollback original plan bytes (rollback yaml deps original reason w)
        (rollback-IsRolledBack yaml deps original reason w)

  abbrev confirmed_start : yaml.Bytes → List (Event yaml.Bytes) → World yaml.Bytes
  confirmed_start bytes h = record {
    file = some bytes;
    events = found_process true ∷ start_daemon true ∷ stop_daemon true ∷ wrote bytes ∷ h;
  }

  with_state-file : (w : World yaml.Bytes) → (with_state yaml deps w).file ≡ w.file
  with_state-file w =
      if-holds (λ w'. World.file w' ≡ w.file) deps.load_state (λ _. refl) (λ _. refl)

  with_state-events :
      (w : World yaml.Bytes) → (with_state yaml deps w).events ≡ with_saved deps.load_state w.events
  with_state-events w = ground arith

  settled-IsFinished :
      (original : yaml.Bytes) (plan : Plan yaml) (bytes : yaml.Bytes) (h : List (Event yaml.Bytes))
      (r : Bool × World yaml.Bytes)
      → PollEnds yaml deps 10 plan (confirmed_start bytes h) r
      → IsFinished original plan bytes (settled yaml deps original r)
  settled-IsFinished original plan bytes h (false, w) p =
      rollback-IsFinished original plan bytes verification_timeout w
  settled-IsFinished original plan bytes h (true, w) (same, (k, bound, denied, revoked, events)) = (
    with_state-file w ∙ same,
    (k, h, bound, revoked, with_state-events w ∙ ap (with_saved deps.load_state) events),
  )

  verify_stage-IsFinished :
      (original : yaml.Bytes) (plan : Plan yaml) (bytes : yaml.Bytes) (h : List (Event yaml.Bytes))
      → IsFinished original plan bytes
          (verify_stage yaml deps original plan (confirmed_start bytes h))
  unfolding verify_stage
  verify_stage-IsFinished original plan bytes h =
      settled-IsFinished original plan bytes h
        (poll_verification yaml deps 10 plan (confirmed_start bytes h))
        (poll_verification-PollEnds yaml deps 10 plan (confirmed_start bytes h))

  process_stage-IsFinished :
      (original : yaml.Bytes) (plan : Plan yaml) (bytes : yaml.Bytes) (h : List (Event yaml.Bytes))
      → IsFinished original plan bytes (
          process_stage yaml deps original plan (record {
            file = some bytes;
            events = start_daemon true ∷ stop_daemon true ∷ wrote bytes ∷ h;
          }))
  unfolding process_stage
  process_stage-IsFinished original plan bytes h =
      elim (Bool-cases
        (deps.find_process (start_daemon true ∷ stop_daemon true ∷ wrote bytes ∷ h))) [
          | inl alive ↦ rw alive (verify_stage-IsFinished original plan bytes h)
          | inr dead ↦ rw dead (rollback-IsFinished original plan bytes process_missing _)
        ]

  start_stage-IsFinished :
      (original : yaml.Bytes) (plan : Plan yaml) (bytes : yaml.Bytes) (h : List (Event yaml.Bytes))
      → IsFinished original plan bytes (
          start_stage yaml deps original plan
            (record { file = some bytes; events = stop_daemon true ∷ wrote bytes ∷ h }))
  unfolding start_stage
  start_stage-IsFinished original plan bytes h =
      elim (Bool-cases (deps.start (stop_daemon true ∷ wrote bytes ∷ h))) [
        | inl done ↦ rw done (process_stage-IsFinished original plan bytes h)
        | inr failed ↦ rw failed (rollback-IsFinished original plan bytes start_failed _)
      ]

  stop_stage-IsFinished :
      (original : yaml.Bytes) (plan : Plan yaml) (bytes : yaml.Bytes) (h : List (Event yaml.Bytes))
      → IsFinished original plan bytes (
          stop_stage yaml deps original plan
            (record { file = some bytes; events = wrote bytes ∷ h }))
  unfolding stop_stage
  stop_stage-IsFinished original plan bytes h = elim (Bool-cases (deps.stop (wrote bytes ∷ h))) [
    | inl done ↦ rw done (start_stage-IsFinished original plan bytes h)
    | inr failed ↦ rw failed (rollback-IsFinished original plan bytes stop_failed _)
  ]

  pub save_stage-IsFinished :
      (original : yaml.Bytes) (plan : Plan yaml) (c : ConfigFile yaml) (w : World yaml.Bytes)
      (written : Write yaml.Bytes)
      → IsFinished original plan
          (saved_bytes yaml c)
          (save_stage yaml deps original plan c w written)
  unfolding save_stage
  save_stage-IsFinished original plan c w (damaged bytes) =
      rollback-IsFinished original plan (saved_bytes yaml c) (save_failed write_error)
        (record w { file = some bytes })
  save_stage-IsFinished original plan c w complete =
      stop_stage-IsFinished original plan (saved_bytes yaml c) w.events
