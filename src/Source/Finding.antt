-- ===== src/Source/Finding.antt =====
-- What `findRelease` resolves to.
use mathlib.Core.List.{append-nil, map-append}
use text.Mathlib.TextPositions.{eq_refl}
use gameapctl.Base.{
  Text, Bool, false, Option, none, some, List, [], ◌∷◌, ◌++◌, eq_iff, Result, ok, err, ◌&&◌, ◌||◌,
  ltb, length, map, ◌≡◌, ◌≢◌, refl, sym, ◌∙◌, ap, All, arith, if◌then◌else◌,
}
use gameapctl.Release.{Release, FindError}
use gameapctl.Fetch.{is_rate_limit_error}
use gameapctl.Source.{Source, Component, Resolved, is_github, download_url}
use gameapctl.Source.Find.{
  World, Query, is_content_error, other_urls, build_release, Found, found, Failures, no_failures,
  note_failure, or_nothing, or_fail, or_found, find_from_source, retry_github, conclude,
  try_sources,
}

module _ (chosen : Source) (component : Component) (rel : Release) where
  abbrev pub IsOtherThan : Source → Type 0
  IsOtherThan src = src.name ≢ chosen.name

  other_urls-append :
      (srcs more : List Source)
      → All IsOtherThan srcs
      → other_urls chosen component rel (srcs ++ more)
        ≡ map (λ src. download_url src component rel) srcs ++ other_urls chosen component rel more
  unfolding other_urls
  other_urls-append [] more h = refl
  other_urls-append (src ∷ srcs) more (h, hs) =
      ground (arith, eq_iff src.name chosen.name, other_urls-append srcs more hs)

  abbrev url : Source → Text
  url src = download_url src component rel

  only-others :
      (srcs : List Source)
      → All IsOtherThan srcs
      → other_urls chosen component rel srcs ≡ map url srcs
  only-others srcs h =
      ap (other_urls chosen component rel) (sym (append-nil srcs))
      ∙ other_urls-append srcs [] h
      ∙ unfold other_urls in append-nil _

  -- The candidate URLs of a resolved release: that of the source that resolved it, then those of the
  -- other sources in their order, if no other source has its name.
  urls-build_release :
      (before after : List Source)
      → All IsOtherThan before
      → All IsOtherThan after
      → (build_release chosen (before ++ chosen ∷ after) component rel).urls
        ≡ download_url chosen component rel
          ∷ map (λ src. download_url src component rel) (before ++ after)
  unfolding build_release other_urls
  urls-build_release before after hb ha =
      ap (λ us. download_url chosen component rel ∷ us)
        (other_urls-append before (chosen ∷ after) hb
          ∙ ap (λ us. map url before ++ us) (rw (eq_refl chosen.name) (only-others after ha))
          ∙ sym (map-append url before after))

module _ {Body : Type 0} (world : World Body) (q : Query) where
  -- With several sources, GitHub is asked once and does not wait for the end of a rate limit.
  abbrev pub search : List Source → Source → Result FindError Release
  search srcs src = find_from_source world q src (ltb 1 (length srcs))

  -- The sources fail with these errors, and the context is not done.
  abbrev pub AllFail : List Source → List Source → List FindError → Type 0
  AllFail srcs [] [] = Unit
  AllFail srcs (src ∷ left) (e ∷ es) =
      (search srcs src ≡ err e) × (world.is_done src ≡ false) × AllFail srcs left es
  AllFail srcs _ _ = ⊥

  abbrev pub first_content : List FindError → Option FindError
  first_content [] = none
  first_content (e ∷ es) = if is_content_error e then some e else first_content es

  abbrev pub first_of_all : List FindError → Option FindError
  first_of_all [] = none
  first_of_all (e ∷ es) = some e

  abbrev pub is_limited : List Source → List FindError → Bool
  is_limited (src ∷ srcs) (e ∷ es) =
      (is_github src.kind && is_rate_limit_error e) || is_limited srcs es
  is_limited _ _ = false

  -- The answer when all sources fail: the first content error; else, if GitHub was rate limited, the
  -- release that GitHub gives after the wait; else the first error.
  abbrev pub verdict : List Source → List FindError → Found
  verdict srcs es = or_fail (first_content es) (
      if is_limited srcs es
      then or_found (retry_github world q srcs srcs) (or_nothing (first_of_all es))
      else or_nothing (first_of_all es))

  abbrev noted : Failures → List Source → List FindError → Failures
  noted f (src ∷ srcs) (e ∷ es) = noted (note_failure f src e) srcs es
  noted f _ _ = f

  abbrev or_option : Option FindError → Option FindError → Option FindError
  or_option none o = o
  or_option (some e) o = some e

  noted-fields :
      (f : Failures) (srcs left : List Source) (es : List FindError)
      → AllFail srcs left es
      → ((noted f left es).first_err ≡ or_option f.first_err (first_of_all es))
        × ((noted f left es).content_err ≡ or_option f.content_err (first_content es))
        × ((noted f left es).github_rate_limited ≡ is_limited left es || f.github_rate_limited)
  unfolding note_failure
  noted-fields f srcs [] [] h = ground arith
  noted-fields f srcs (src ∷ left) (e ∷ es) h =
      ground (arith, noted-fields (note_failure f src e) srcs left es h.2)
  noted-fields f srcs [] (e ∷ es) h = absurd h
  noted-fields f srcs (src ∷ left) [] h = absurd h

  try_sources-AllFail :
      (srcs left : List Source) (es : List FindError) (f : Failures)
      → AllFail srcs left es
      → try_sources world q left srcs f ≡ conclude world q (noted f left es) srcs
  unfolding try_sources
  try_sources-AllFail srcs [] [] f h = refl
  try_sources-AllFail srcs (src ∷ left) (e ∷ es) f (failed_here, going_on, later) =
      rw (try_sources, failed_here, going_on)
        (try_sources-AllFail srcs left es (note_failure f src e) later)
  try_sources-AllFail srcs [] (e ∷ es) f h = absurd h
  try_sources-AllFail srcs (src ∷ left) [] f h = absurd h

  settle :
      (o : Option FindError) (b : Bool) (again : Result FindError Resolved) (last : Found)
      → (if b then or_fail o (or_found again (or_fail o last)) else or_fail o last)
        ≡ or_fail o (if b then or_found again last else last)
  settle o b again last = ground arith

  or-false : (b : Bool) → (b || false) ≡ b
  or-false b = ground arith

  conclude-verdict :
      (f : Failures) (srcs : List Source) (es : List FindError)
      → f.first_err ≡ first_of_all es
      → f.content_err ≡ first_content es
      → f.github_rate_limited ≡ is_limited srcs es
      → conclude world q f srcs ≡ verdict srcs es
  unfolding conclude
  conclude-verdict f srcs es first content limited =
      simp (first, content, limited) (settle (first_content es) (is_limited srcs es) _ _)

  -- If every source fails and the context is not done, the lookup answers the first content error (a
  -- missing tag or asset) without asking GitHub again; if there is none and GitHub was rate limited,
  -- what GitHub gives after the wait, and the first error if that fails too; else the first error.
  pub try_sources-verdict :
      (srcs : List Source) (es : List FindError)
      → AllFail srcs srcs es
      → try_sources world q srcs srcs no_failures ≡ verdict srcs es
  try_sources-verdict srcs es h =
      let (first, content, limited) = noted-fields no_failures srcs srcs es h in
      try_sources-AllFail srcs srcs es no_failures h
      ∙ conclude-verdict (noted no_failures srcs es) srcs es first content
          (limited ∙ or-false (is_limited srcs es))

  -- The first source, in order, that has the release gives it, if those before it fail and the context
  -- is not done; its URL is the first candidate.
  try_sources-first :
      (before : List Source) (src : Source) (after srcs : List Source) (es : List FindError)
      (rel : Release) (f : Failures)
      → AllFail srcs before es
      → search srcs src ≡ ok rel
      → try_sources world q (before ++ src ∷ after) srcs f
        ≡ found (build_release src srcs q.component rel)
  unfolding try_sources
  try_sources-first [] src after srcs es rel f h got = rw (try_sources, got)
  try_sources-first (b ∷ before) src after srcs [] rel f h got = absurd h
  try_sources-first (b ∷ before) src after srcs (e ∷ es) rel f (failed_here, going_on, later) got =
      rw (try_sources, failed_here, going_on)
        (try_sources-first before src after srcs es rel (note_failure f b e) later got)
