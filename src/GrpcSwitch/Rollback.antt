-- ===== src/GrpcSwitch/Rollback.antt =====
-- internal/actions/daemon/update/switch_to_grpc.go: how the polling loop ends, and what a failed
-- switch leaves behind.
use gameapctl.Base.{
  Bool, true, false, if-holds, some, List, ◌∷◌, ℕ, zero, suc, ◌≡◌, refl, ◌<◌, arith,
}
use gameapctl.DaemonConfig.{Yaml}
use gameapctl.GrpcSwitch.{
  Event, restored, stop_daemon, start_daemon, verified, Write, complete, damaged, Deps, Reason,
  Answer, already_switched, switched, refused, rolled_back, rollback_failed, restart_failed, World,
  Plan, restarted, rollback, restore_backup, poll_verification,
}

module _ (yaml : Yaml) (deps : Deps yaml) where
  abbrev pub Outcome : Type 0
  Outcome = Answer × World yaml.Bytes

  -- The restored file is the one that was read, and the restart is the last step.
  abbrev pub IsRolledBack : yaml.Bytes → Outcome → Type 0
  IsRolledBack original (rolled_back reason, w) =
      (w.file ≡ some original)
      × ((h : List (Event yaml.Bytes)) × (w.events ≡ start_daemon true ∷ restored original ∷ h))
  IsRolledBack original (restart_failed reason, w) =
      (w.file ≡ some original)
      × ((h : List (Event yaml.Bytes)) × (w.events ≡ start_daemon false ∷ restored original ∷ h))
  IsRolledBack original (rollback_failed reason, w) =
      (h : List (Event yaml.Bytes)) × (bytes : yaml.Bytes) × (deps.restore_file h ≡ damaged bytes)
      × (w.file ≡ some bytes)
  IsRolledBack original (refused reason, w) = ⊥
  IsRolledBack original (already_switched, w) = ⊥
  IsRolledBack original (switched, w) = ⊥

  restarted-IsRolledBack :
      (original : yaml.Bytes) (reason : Reason) (h : List (Event yaml.Bytes)) (done : Bool)
      → IsRolledBack original (
          restarted yaml deps reason done
            (record { file = some original; events = start_daemon done ∷ restored original ∷ h }))
  restarted-IsRolledBack original reason h true = (refl, (h, refl))
  restarted-IsRolledBack original reason h false = (refl, (h, refl))

  restore_backup-IsRolledBack :
      (original : yaml.Bytes) (reason : Reason) (w : World yaml.Bytes) (written : Write yaml.Bytes)
      → deps.restore_file w.events ≡ written
      → IsRolledBack original (restore_backup yaml deps original reason w written)
  unfolding restore_backup
  restore_backup-IsRolledBack original reason w (damaged bytes) e = (w.events, bytes, e, refl)
  restore_backup-IsRolledBack original reason w complete e =
      restarted-IsRolledBack original reason w.events (deps.start (restored original ∷ w.events))

  pub rollback-IsRolledBack :
      (original : yaml.Bytes) (reason : Reason) (w : World yaml.Bytes)
      → IsRolledBack original (rollback yaml deps original reason w)
  unfolding rollback
  rollback-IsRolledBack original reason w =
      restore_backup-IsRolledBack original reason
        (record w { events = stop_daemon (deps.stop w.events) ∷ w.events })
        (deps.restore_file (stop_daemon (deps.stop w.events) ∷ w.events)) refl

  -- So many attempts that failed, in front of a history.
  abbrev pub attempts : ℕ → List (Event yaml.Bytes) → List (Event yaml.Bytes)
  attempts zero h = h
  attempts (suc n) h = attempts n (verified false ∷ h)

  -- The panel denied so many times, each time asked after the attempts before.
  abbrev pub Denied : ℕ → Plan yaml → List (Event yaml.Bytes) → Type 0
  Denied zero plan h = Unit
  Denied (suc n) plan h =
      (deps.verify_legacy_revoked plan.api_host plan.api_key h ≡ false)
      × Denied n plan (verified false ∷ h)

  abbrev pub PollEnds : ℕ → Plan yaml → World yaml.Bytes → Bool × World yaml.Bytes → Type 0
  PollEnds left plan w (false, w') =
      (w'.file ≡ w.file) × Denied left plan w.events × (w'.events ≡ attempts left w.events)
  PollEnds left plan w (true, w') =
      (w'.file ≡ w.file)
      × ((k : ℕ) × (k < left)
          × Denied k plan w.events
          × (deps.verify_legacy_revoked plan.api_host plan.api_key (attempts k w.events) ≡ true)
          × (w'.events ≡ verified true ∷ attempts k w.events))

  later :
      (left : ℕ) (plan : Plan yaml) (w : World yaml.Bytes) (r : Bool × World yaml.Bytes)
      → deps.verify_legacy_revoked plan.api_host plan.api_key w.events ≡ false
      → PollEnds left plan (record w { events = verified false ∷ w.events }) r
      → PollEnds (suc left) plan w r
  later left plan w (false, w') denied_now (same, denied, events) =
      (same, (denied_now, denied), events)
  later left plan w (true, w') denied_now (same, (k, bound, denied, revoked, events)) =
      (same, (suc k, omega arith, (denied_now, denied), revoked, events))

  -- The loop leaves the file as it is. If it gives up, it made every attempt, and each time the check
  -- said that the credentials are not revoked; otherwise it stops at the first attempt that finds them
  -- revoked, which is within the bound.
  pub poll_verification-PollEnds :
      (left : ℕ) (plan : Plan yaml) (w : World yaml.Bytes)
      → PollEnds left plan w (poll_verification yaml deps left plan w)
  unfolding poll_verification
  poll_verification-PollEnds zero plan w = (refl, tt, refl)
  poll_verification-PollEnds (suc left) plan w =
      let next = record w { events = verified false ∷ w.events } in
      if-holds (PollEnds (suc left) plan w)
        (deps.verify_legacy_revoked plan.api_host plan.api_key w.events)
        (λ revoked. (refl, (0, omega arith, tt, revoked, refl)))
        (λ refused_now.
          later left plan w (poll_verification yaml deps left plan next) refused_now
            (poll_verification-PollEnds left plan next))
