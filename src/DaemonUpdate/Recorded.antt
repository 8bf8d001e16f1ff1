-- ===== src/DaemonUpdate/Recorded.antt =====
-- internal/actions/daemon/update/daemon_update.go: the version that an update records.
use gameapctl.Base.{
  Text, Bool, true, false, ok, is_empty, text_eq, text_eq_iff, ◌≡◌, refl, inl, inr, Bool-cases,
}
use gameapctl.DaemonUpdate.{
  Machine, World, Step, stop_daemon, start_daemon, apply, revert, make_backup, finish, restarted,
  reverted, first_start, undone, first_apply, backed_up, first_stop, update_release,
  update_daemon_state_version,
}

module _ {Binary : Type 0} (machine : Machine Binary) (tag : Text) where
  -- If the step succeeds, the state records the tag.
  abbrev Records : Step machine → Type 0
  Records (r, w) = r ≡ ok tt → w.version ≡ tag

  -- The state of the installation can be loaded and saved, and the release has a tag.
  abbrev pub CanRecord : Type 0
  CanRecord = (machine.load_state ≡ true) × (machine.save_state ≡ true) × (is_empty tag ≡ false)

  Records-finish : CanRecord → (w : World Binary) → Records (finish machine tag w)
  unfolding finish update_daemon_state_version
  Records-finish (loads, saves, tagged) w done = elim (Bool-cases (text_eq w.version tag)) [
    | inl same ↦ rw (loads, saves, tagged, same) ((text_eq_iff w.version tag).0 same)
    | inr other ↦ rw (loads, saves, tagged, other) refl
  ]

  Records-restarted : CanRecord → (p : Bool × World Binary) → Records (restarted machine tag p)
  Records-restarted can (true, w) = Records-finish can w
  Records-restarted can (false, w) = λ e. cc

  Records-reverted : CanRecord → (p : Bool × World Binary) → Records (reverted machine tag p)
  Records-reverted can (true, w) = Records-restarted can (start_daemon machine w)
  Records-reverted can (false, w) = λ e. cc

  Records-first_start : CanRecord → (p : Bool × World Binary) → Records (first_start machine tag p)
  Records-first_start can (true, w) = Records-finish can w
  Records-first_start can (false, w) = Records-reverted can (revert machine w)

  Records-undone : (p : Bool × World Binary) → Records (undone machine p)
  Records-undone (true, w) = λ e. cc
  Records-undone (false, w) = λ e. cc

  Records-first_apply : CanRecord → (p : Bool × World Binary) → Records (first_apply machine tag p)
  Records-first_apply can (true, w) = Records-first_start can (start_daemon machine w)
  Records-first_apply can (false, w) = Records-undone (revert machine w)

  Records-backed_up :
      CanRecord
      → (binary : Binary) (p : Bool × World Binary) → Records (backed_up machine tag binary p)
  Records-backed_up can binary (true, w) = Records-first_apply can (apply machine binary w)
  Records-backed_up can binary (false, w) = λ e. cc

  Records-first_stop :
      CanRecord
      → (binary : Binary) (p : Bool × World Binary) → Records (first_stop machine tag binary p)
  Records-first_stop can binary (true, w) = Records-backed_up can binary (make_backup machine w)
  Records-first_stop can binary (false, w) = λ e. cc

  -- An update that succeeds records the tag of the new release, if the state of the installation can be
  -- loaded and saved and the tag is not empty. The old binary may be the one that runs.
  pub update_release-version :
      CanRecord
      → (binary : Binary) (w : World Binary) → (update_release machine tag binary w).0 ≡ ok tt
      → (update_release machine tag binary w).1.version ≡ tag
  unfolding update_release
  update_release-version can binary w = Records-first_stop can binary (stop_daemon machine w)
