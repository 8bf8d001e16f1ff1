-- ===== src/PanelMigration/Restored.antt =====
-- The rollback of the migration.
use gameapctl.Base.{
  true, false, Option, none, some, ◌≡◌, refl, sym, subst, ◌∙◌, ◌⊎◌, inl, inr, if-holds,
}
use gameapctl.PanelMigration.{
  Copying, complete, spoilt, Moving, moved, not_copied, not_removed, Machine, World, called,
  removed, clear_v3, moved_back, move_back, site_restored, restore_site, rollback_end,
  rollback_v3_to_v4,
}

module _ {Tree Conf : Type 0} (machine : Machine Tree Conf) where
  -- The rollback says that it succeeded and the tree is in place, or that it failed and the tree is in
  -- place or in the copy.
  abbrev pub IsRolledBack : Tree → World Tree Conf → Type 0
  IsRolledBack tree w =
      ((w.rolled_back ≡ some true) × (w.v3 ≡ some tree))
      ⊎ ((w.rolled_back ≡ some false) × ((w.v3 ≡ some tree) ⊎ (w.copy ≡ some tree)))

  restore_site-IsRolledBack :
      (tree : Tree) (w : World Tree Conf) (backup : Option Conf)
      → IsRolledBack tree w
      → IsRolledBack tree (restore_site machine w backup)
  restore_site-IsRolledBack tree w none h = h
  restore_site-IsRolledBack tree w (some conf) h =
      if-holds (IsRolledBack tree) machine.site_path
        (λ _. site_restored-IsRolledBack (machine.copy_site w.calls)) (λ _. h)
    where
      site_restored-IsRolledBack :
          (c : Copying Conf) → IsRolledBack tree (site_restored machine w conf c)
      site_restored-IsRolledBack complete = h
      site_restored-IsRolledBack (spoilt left) = h

  moved_back-IsRolledBack :
      (tree : Tree) (w : World Tree Conf) (m : Moving Tree)
      → w.copy ≡ some tree
      → IsRolledBack tree (rollback_end machine (moved_back machine w tree m))
  moved_back-IsRolledBack tree w moved h =
      restore_site-IsRolledBack tree
        (record (called machine w) { v3 = some tree; copy = none; rolled_back = some true })
        w.site_backup (inl (refl, refl))
  moved_back-IsRolledBack tree w (not_copied left) h = inr (refl, inr h)
  moved_back-IsRolledBack tree w (not_removed left) h = inr (refl, inl refl)

  move_back-IsRolledBack :
      (tree : Tree) (w : World Tree Conf)
      → w.copy ≡ some tree
      → IsRolledBack tree (rollback_end machine (move_back machine w w.copy))
  move_back-IsRolledBack tree w h =
      subst (λ c. IsRolledBack tree (rollback_end machine (move_back machine w c))) (sym h)
        (moved_back-IsRolledBack tree w (machine.move_tree w.calls) h)

  clear_v3-copy : (w : World Tree Conf) (v3 : Option Tree) → (clear_v3 machine w v3).copy ≡ w.copy
  clear_v3-copy w none = refl
  clear_v3-copy w (some tree) = removed-copy (machine.remove_tree w.calls)
    where
      removed-copy : (c : Copying Tree) → (removed machine w c).copy ≡ w.copy
      removed-copy complete = refl
      removed-copy (spoilt left) = refl

  pub rollback_v3_to_v4-IsRolledBack :
      (tree : Tree) (w : World Tree Conf)
      → w.copy ≡ some tree
      → IsRolledBack tree (rollback_v3_to_v4 machine w)
  unfolding rollback_v3_to_v4
  rollback_v3_to_v4-IsRolledBack tree w h =
      let cleared = clear_v3 machine w w.v3 in
      move_back-IsRolledBack tree cleared (clear_v3-copy w w.v3 ∙ h)
