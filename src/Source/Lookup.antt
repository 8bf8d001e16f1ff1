-- ===== src/Source/Lookup.antt =====
-- `findRelease` as a whole: the component, the forced source, and the memoized order.
use mathlib.Core.List.{Perm}
use mathlib.Core.List.Perm
use mathlib.Core.Path.{subst}
use gameapctl.Base.{
  Option, none, some, List, [], ◌∷◌, String, Result-cases, ◌≡◌, ◌≢◌, refl, inl, inr, arith, ℕ,
  Bool-cases,
}
use gameapctl.Release.{FindError, unknown_component_error}
use gameapctl.Source.{Source, Resolved, github_releases_path}
use gameapctl.Source.Order.{ProbeReply, probe_and_sort, ordered_sources}
use gameapctl.Source.Ordering.{probe_and_sort-Perm}
use gameapctl.Source.Find.{
  World, Query, found, failed, nothing, Failures, no_failures, note_failure, conclude, try_sources,
  find_release,
}
use gameapctl.Source.Finding.{search}

found-ne-nothing : (r : Resolved) → found r ≢ nothing
found-ne-nothing r h = cc

failed-ne-nothing : (e : FindError) → failed e ≢ nothing
failed-ne-nothing e h = cc

first_err-note_failure :
    (f : Failures) (src : Source) (error e : FindError)
    → f.first_err ≡ some e
    → (note_failure f src error).first_err ≡ some e
unfolding note_failure
first_err-note_failure f src error e h = ground arith

first_err-some :
    (f : Failures) (src : Source) (error : FindError)
    → f.first_err ≡ none
    → (note_failure f src error).first_err ≡ some error
unfolding note_failure
first_err-some f src error h = ground arith

module _ {Body : Type 0} (world : World Body) (q : Query) where
  conclude-ne-nothing :
      (f : Failures) (srcs : List Source) (e : FindError)
      → f.first_err ≡ some e
      → conclude world q f srcs ≢ nothing
  unfolding conclude
  conclude-ne-nothing f srcs e h = ground arith

  try_sources-ne-nothing_after :
      (left srcs : List Source) (f : Failures) (e : FindError)
      → f.first_err ≡ some e
      → try_sources world q left srcs f ≢ nothing
  unfolding try_sources
  try_sources-ne-nothing_after [] srcs f e h n = conclude-ne-nothing f srcs e h n
  try_sources-ne-nothing_after (src ∷ left) srcs f e h n =
      elim (Result-cases (search world q srcs src)) [
        | inl (rel, got) ↦ found-ne-nothing _ (rw (try_sources, got) at n)
        | inr (error, got) ↦ elim (Bool-cases (world.is_done src)) [
          | inl over ↦ failed-ne-nothing _ (rw (try_sources, got, over) at n)
          | inr going_on ↦
              try_sources-ne-nothing_after left srcs (note_failure f src error) e
                (first_err-note_failure f src error e h) (rw (try_sources, got, going_on) at n)
        ]
      ]

  try_sources-ne-nothing :
      (srcs : List Source) → srcs ≢ [] → try_sources world q srcs srcs no_failures ≢ nothing
  unfolding try_sources
  try_sources-ne-nothing [] h n = h refl
  try_sources-ne-nothing (src ∷ left) h n = elim (Result-cases (search world q (src ∷ left) src)) [
    | inl (rel, got) ↦ found-ne-nothing _ (rw (try_sources, got) at n)
    | inr (error, got) ↦ elim (Bool-cases (world.is_done src)) [
      | inl over ↦ failed-ne-nothing _ (rw (try_sources, got, over) at n)
      | inr going_on ↦
          try_sources-ne-nothing_after left (src ∷ left) (note_failure no_failures src error) error
            (first_err-some no_failures src error refl) (rw (try_sources, got, going_on) at n)
    ]
  ]

  module _ (probe : Source → ProbeReply) (sources : List Source) where
    -- Without a forced source, a lookup of a known component whose order is not memoized yet searches
    -- the probed order of the sources, and memoizes it.
    find_release-probed :
        (path : List ℕ)
        → github_releases_path q.component ≡ some path
        → find_release world q probe "" sources none ≡ (
          try_sources world q
              (probe_and_sort probe sources)
              (probe_and_sort probe sources)
              no_failures,
          some (probe_and_sort probe sources),
        )
    unfolding find_release ordered_sources
    find_release-probed path known = rw (find_release, known)

    -- A lookup of a known component in at least one source, with no forced source and no memoized
    -- order, ends with a release or an error: the `nil, nil` after the loop is never returned.
    find_release-ne-nothing :
        (path : List ℕ)
        → github_releases_path q.component ≡ some path
        → sources ≢ []
        → (find_release world q probe "" sources none).0 ≢ nothing
    find_release-ne-nothing path known some_source = rw (find_release-probed path known) (
        try_sources-ne-nothing (probe_and_sort probe sources) (λ empty. some_source (
          Perm.eq-nil
            (Perm.symm (subst (λ l. Perm l sources) empty (probe_and_sort-Perm probe sources))))))

    -- A component that the program does not name is refused before any probe or request: the error
    -- does not depend on the network, the forced source or the memoized order, which is kept.
    pub find_release-unknown :
        (forced : String) (memo : Option (List Source))
        → github_releases_path q.component ≡ none
        → find_release world q probe forced sources memo ≡ (failed unknown_component_error, memo)
    unfolding find_release
    find_release-unknown forced memo unknown = rw (find_release, unknown)

-- The order of the sources is probed once: a second lookup without a forced source searches in the
-- order of the first probe, whatever the network would answer now.
pub find_release-memoized :
    {Body : Type 0} (world world' : World Body) (q q' : Query) (probe probe' : Source → ProbeReply)
    (sources : List Source) (path path' : List ℕ)
    → github_releases_path q.component ≡ some path
    → github_releases_path q'.component ≡ some path'
    → find_release world' q' probe' "" sources (find_release world q probe "" sources none).1 ≡ (
      try_sources world' q'
          (probe_and_sort probe sources)
          (probe_and_sort probe sources)
          no_failures,
      some (probe_and_sort probe sources),
    )
unfolding find_release ordered_sources
find_release-memoized world world' q q' probe probe' sources path path' known known' =
    rw (find_release-probed world q probe sources path known) (rw (find_release, known'))
