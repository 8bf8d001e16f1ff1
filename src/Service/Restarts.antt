-- ===== src/Service/Restarts.antt =====
-- The restart of a service with its fallback, and the status that the systemd manager reports.
use gameapctl.Base.{[], ◌∷◌, String, ok, err, ◌≡◌, ◌≢◌, ◌↔◌, refl, ◌⊎◌, inl, inr, arith}
use gameapctl.Service.{
  other_error, History, inactive_service, service_not_found, Shell, Run, Manager, systemd, restart,
  manager_start, manager_stop, manager_restart, manager_status, restart_fallback, start_after_stop,
}

module _ (shell : Shell) (windows_run : String → String → History → Run) where
  -- A stop at this history succeeds, and so does the start that follows.
  abbrev pub StopsAndStarts : Manager → String → History → Type 0
  StopsAndStarts m name h =
      ((manager_stop shell windows_run m name h).0 ≡ ok tt)
      × ((manager_start shell windows_run m name (manager_stop shell windows_run m name h).1).0
          ≡ ok tt)

  start_after_stop-ok :
      (m : Manager) (name : String) (r : Run)
      → ((start_after_stop shell windows_run m name r).0 ≡ ok tt)
        ↔ ((r.0 ≡ ok tt) × ((manager_start shell windows_run m name r.1).0 ≡ ok tt))
  start_after_stop-ok m name (ok done, h) = ground arith
  start_after_stop-ok m name (err e, h) = ((λ p. cc), (λ p. cc))

  restart_fallback-ok :
      (m : Manager) (name : String) (r : Run)
      → ((restart_fallback shell windows_run m name r).0 ≡ ok tt)
        ↔ ((r.0 ≡ ok tt) ⊎ StopsAndStarts m name r.1)
  restart_fallback-ok m name (ok done, h) = ((λ p. inl refl), (λ p. refl))
  restart_fallback-ok m name (err e, h) =
      let both = start_after_stop-ok m name (manager_stop shell windows_run m name h) in
      ((λ p. inr (both.0 p)), (λ p. elim p [ inl q ↦ cc | inr q ↦ both.1 q ]))

  -- A restart succeeds exactly when the manager's own restart does, or else a stop and then a start
  -- do, each run after the commands before it.
  pub restart-ok_iff :
      (m : Manager) (name : String) (h : History)
      → ((restart shell windows_run m name h).0 ≡ ok tt) ↔ (
          ((manager_restart shell windows_run m name h).0 ≡ ok tt)
          ⊎ StopsAndStarts m name (manager_restart shell windows_run m name h).1)
  unfolding restart
  restart-ok_iff m name h = restart_fallback-ok m name (manager_restart shell windows_run m name h)

  -- The status of the systemd manager is never that of an inactive or of a missing service, whatever
  -- the exit code; and a status command that cannot be run at all is reported as success.
  manager_status-systemd :
      (name : String) (h : History)
      → ((manager_status shell windows_run systemd name h).0 ≢ err inactive_service)
        × ((manager_status shell windows_run systemd name h).0 ≢ err (service_not_found name))
        × (shell h ("systemctl" ∷ "--no-pager" ∷ "status" ∷ name ∷ []) ≡ other_error
            → (manager_status shell windows_run systemd name h).0 ≡ ok tt)
  unfolding manager_status
  manager_status-systemd name h = ground arith
