-- ===== src/Packages/Fallbacks.antt =====
-- pkg/package_manager/fallback.go: when a manager with a fallback fails.
use gameapctl.Base.{List, [], ◌∷◌, String, Result, ok, err, ◌≡◌, refl, ◌↔◌}
use gameapctl.Packages.{Operation, or_both, or_fallback, install_with_fallback}

module _ {State Error : Type 0} (base fallback : Operation State Error) where
  -- Both managers fail, the fallback in the state that the first one left, with these errors.
  abbrev pub BothFail : String → State → List Error → Type 0
  BothFail pack s es =
      (e : Error) × (e' : Error) × ((base pack s).0 ≡ err e)
      × ((fallback pack (base pack s).1).0 ≡ err e')
      × (es ≡ e ∷ e' ∷ [])

  or_both-err :
      (e : Error) (r : Result Error (Unit {0}) × State) (es : List Error)
      → ((or_both e r).0 ≡ err es) ↔ ((e' : Error) × (r.0 ≡ err e') × (es ≡ e ∷ e' ∷ []))
  or_both-err e (ok done, s) es = ((λ h. cc), (λ (e', h, same). cc))
  or_both-err e (err e', s) es = ((λ h. (e', refl, cc)), (λ (e'', h, same). cc))

  or_fallback-err :
      (pack : String) (r : Result Error (Unit {0}) × State) (es : List Error)
      → ((or_fallback fallback pack r).0 ≡ err es) ↔ (
          (e : Error) × (e' : Error) × (r.0 ≡ err e)
          × ((fallback pack r.1).0 ≡ err e')
          × (es ≡ e ∷ e' ∷ []))
  or_fallback-err pack (ok done, s) es = ((λ h. cc), (λ (e, e', h, _, _). cc))
  or_fallback-err pack (err e, s) es =
      let both = or_both-err e (fallback pack s) es in
      (
        (λ h. let (e', failed, same) = both.0 h in (e, e', refl, failed, same)),
        (λ (d, e', h, failed, same). both.1 (e', failed, cc)),
      )

  -- An installation with a fallback fails exactly when both managers fail, the fallback after the
  -- first; its error then holds both of theirs, in this order.
  install_with_fallback-err_iff :
      (pack : String) (s : State) (es : List Error)
      → ((install_with_fallback base fallback pack s).0 ≡ err es) ↔ BothFail pack s es
  unfolding install_with_fallback
  install_with_fallback-err_iff pack s es = or_fallback-err pack (base pack s) es
