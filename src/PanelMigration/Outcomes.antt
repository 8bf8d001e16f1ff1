-- ===== src/PanelMigration/Outcomes.antt =====
-- What the migration leaves, by its answer.
use gameapctl.Base.{ℕ, suc, true, some, ok, err, ◌≡◌, ◌⊎◌, ◌<◌, ◌≤◌}
use gameapctl.PanelMigration.{
  Machine, World, install_failed, start_failed, site_failed, unhealthy, Step, Outcome,
}
use gameapctl.PanelMigration.Restored.{IsRolledBack}

module _ {Tree Conf : Type 0} (machine : Machine Tree Conf) where
  -- The tree of v3 is in place and copied, and the service is this.
  abbrev pub IsReady : Tree → World Tree Conf → Type 0
  IsReady tree w = (w.v3 ≡ some tree) × (w.copy ≡ some tree)

  -- A health check passed that was made after v4 was started, and after which only the archive was made:
  -- each call is known by the number of the calls before it.
  abbrev pub PassedAt : ℕ → Type 0
  PassedAt n = (machine.check n ≡ true) × ((start : ℕ) × (start < n) × (machine.start start ≡ true))

  abbrev pub HasPassed : ℕ → Type 0
  HasPassed calls = (n : ℕ) × PassedAt n × (suc n ≤ calls) × (calls ≤ suc (suc n))

  -- By the answer, for the tree that was there: v4 runs, has passed a check and the tree is in place or
  -- archived; nothing was changed; or the rollback was run.
  abbrev pub IsSettled : Tree → Outcome machine → Type 0
  IsSettled tree (ok done, w') =
      (w'.running ≡ true) × HasPassed w'.calls × ((w'.v3 ≡ some tree) ⊎ (w'.archive ≡ some tree))
  IsSettled tree (err install_failed, w') = IsRolledBack machine tree w'
  IsSettled tree (err start_failed, w') = IsRolledBack machine tree w'
  IsSettled tree (err site_failed, w') = IsRolledBack machine tree w'
  IsSettled tree (err unhealthy, w') = IsRolledBack machine tree w'
  IsSettled tree (err e, w') = w'.v3 ≡ some tree

  abbrev Kept : Tree → World Tree Conf → World Tree Conf → Type 0
  Kept tree w u =
      ((u.v3 ≡ some tree) ⊎ (u.archive ≡ some tree))
      × (u.running ≡ w.running)
      × (w.calls ≤ u.calls)
      × (u.calls ≤ suc w.calls)

  -- v4 was started by a call before these.
  abbrev pub Started : ℕ → Type 0
  Started calls = (start : ℕ) × (start < calls) × (machine.start start ≡ true)

  -- The checks keep the world but for the number of calls.
  abbrev IsChecked : World Tree Conf → Step machine → Type 0
  IsChecked w s =
      (s.1.v3 ≡ w.v3)
      × (s.1.copy ≡ w.copy)
      × (s.1.running ≡ w.running)
      × (s.0 ≡ true → (n : ℕ) × PassedAt n × (s.1.calls ≡ suc n))

  -- A step keeps the tree, its copy and the service.
  abbrev Keeps : World Tree Conf → World Tree Conf → Type 0
  Keeps w u = (u.v3 ≡ w.v3) × (u.copy ≡ w.copy) × (u.running ≡ w.running) × (w.calls ≤ u.calls)
