-- ===== src/Source/Origin.antt =====
-- Where the release that `findRelease` resolves to comes from.
use mathlib.Core.List.{Memᴰ}
use gameapctl.Base.{true, List, ok, ◌≡◌, ◌⊎◌}
use gameapctl.Release.{Release}
use gameapctl.Fetch.{find_with_options}
use gameapctl.Source.{Source, Resolved, is_github, releases_url}
use gameapctl.Source.Find.{World, Query, build_release}
use gameapctl.Source.Finding.{search}

module _ {Body : Type 0} (world : World Body) (q : Query) where
  -- Where an answer with a release comes from.
  pub record IsResolved (srcs : List Source) (r : Resolved) : Type 0 where
    pub src : Source
    pub rel : Release
    pub listed : Memᴰ src srcs
    pub built : r ≡ build_release src srcs q.component rel
    pub searched :
        (search world q srcs src ≡ ok rel)
        ⊎ ((is_github src.kind ≡ true)
            × ((find_with_options
                  (world.search_again src)
                  (releases_url src q.component)
                  q.kernel
                  q.platform
                  q.opts).result
                ≡ ok rel))

  abbrev Within : List Source → List Source → Type 0
  Within left srcs = (s : Source) → Memᴰ s left → Memᴰ s srcs
