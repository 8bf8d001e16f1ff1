-- ===== src/PanelUpdate/Github/Built.antt =====
-- What the update of the panel by a build of a branch leaves, by its answer.
use gameapctl.Base.{Bool, true, false, Option, none, some, List, ok, err, ◌≡◌, ◌∷◌}
use gameapctl.PanelUpdate.{
  Event, stopped, copied, Machine, World, replace_failed, start_failed, restore_failed,
  restart_failed, rolled_back, build_failed, Outcome,
}
use gameapctl.PanelUpdate.Exchange.{IsKept}
use gameapctl.PanelUpdate.Outcomes.{IsJudged}
use gameapctl.PanelUpdate.Github.{Build, built}

module _ {Binary : Type 0} (machine : Machine Binary) (can_load : Bool)
    (build : List Event → Build Binary) where
  -- The binary to go back to: without a binary, that of a backup that is there.
  abbrev pub old_binary : World Binary → Option Binary
  old_binary w = elim w.binary [ none ↦ w.backup | some old ↦ some old ]

  -- What was done before the build: the backup, if there was a binary, and the stop.
  abbrev pub backed_up_events : World Binary → List Event
  backed_up_events w = elim w.binary [ none ↦ w.events | some old ↦ copied true ∷ w.events ]

  abbrev pub IsBuild : World Binary → Binary → Type 0
  IsBuild w new = build (stopped true ∷ backed_up_events w) ≡ built new

  abbrev pub IsGithubUpdate : World Binary → Outcome machine → Type 0
  IsGithubUpdate w (ok done, w') =
      (new : Binary) × IsBuild w new × IsJudged machine (old_binary w) new (ok done, w')
  IsGithubUpdate w (err rolled_back, w') = (w'.binary ≡ old_binary w) × (w'.running ≡ true)
  IsGithubUpdate w (err restart_failed, w') = w'.binary ≡ old_binary w
  IsGithubUpdate w (err restore_failed, w') = w'.backup ≡ old_binary w
  IsGithubUpdate w (err start_failed, w') =
      (w'.backup ≡ old_binary w)
      × (w'.running ≡ false)
      × ((new : Binary) × IsBuild w new × (w'.binary ≡ some new))
  IsGithubUpdate w (err build_failed, w') = IsKept machine (old_binary w) w'
  IsGithubUpdate w (err replace_failed, w') = ⊥
  IsGithubUpdate w (err e, w') = (w'.binary ≡ w.binary) × (w'.running ≡ w.running)
