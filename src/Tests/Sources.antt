-- ===== src/Tests/Sources.antt =====
-- The order of the sources, the lookup through them and the download, at concrete inputs.
use gameapctl.Base.{
  Text, codes, false, none, some, List, [], ◌∷◌, ℕ, Result, ok, err, ◌≡◌, refl, if◌then◌else◌,
  text_eq, str_eq,
}
use gameapctl.Release.{Releases, status_error, rate_limit_error, with_message}
use gameapctl.Fetch.{
  find_from_static_list, find_with_options, build_request_url, fetch_release, should_retry,
  retry_from, find_at,
}
use gameapctl.Source.{Source, Resolved, github_releases_path}
use gameapctl.Source.Order.{ProbeReply, answer, no_answer, read_probe, probe_and_sort, probed}
use gameapctl.Source.Ordering.{Ordered, Precedes, probe_and_sort-Ordered}
use gameapctl.Source.Stability.{keep, is_at, is_down, probe_and_sort_stable}
use gameapctl.Source.Find.{World, no_failures, find_from_source, try_sources, find_release}
use gameapctl.Source.Finding.{verdict, try_sources-verdict}
use gameapctl.Source.Lookup.{find_release-memoized}
use gameapctl.Source.Download.{
  all_failed, download_with, download_with-first, download_with-all_failed,
}
use gameapctl.Tests.Data.{listed, server, hub, mirror, world_of, query}

abbrev sources : List Source
sources = hub ∷ mirror ∷ []

-- GitHub's quota is used up, the mirror answers.
abbrev probes : Source → ProbeReply
probes src = if str_eq src.name "github" then answer 200 10 "0" else answer 200 30 ""

abbrev dead : Source → ProbeReply
dead src = no_answer

probe_and_sort-probes : probe_and_sort probes sources ≡ mirror ∷ hub ∷ []
unfolding probe_and_sort read_probe
probe_and_sort-probes = refl

probe_and_sort-Ordered_example :
    Ordered (λ a b. Precedes (probed probes a) (probed probes b)) (probe_and_sort probes sources)
probe_and_sort-Ordered_example = probe_and_sort-Ordered probes sources

probe_and_sort_stable_example :
    ((l : ℕ)
      → keep (λ s. is_at l (probed probes s)) (probe_and_sort probes sources)
        ≡ keep (λ s. is_at l (probed probes s)) sources)
    × (keep (λ s. is_down (probed probes s)) (probe_and_sort probes sources)
        ≡ keep (λ s. is_down (probed probes s)) sources)
probe_and_sort_stable_example = probe_and_sort_stable probes sources

-- GitHub is over its rate limit, and the mirror is broken.
abbrev limited : World (List Releases)
limited = world_of (λ src. if str_eq src.name "github" then server 1 429 [] else server 1 500 [])

try_sources-verdict_example :
    try_sources limited query sources sources no_failures
    ≡ verdict limited query sources
        (with_message (rate_limit_error 429 none) ∷ status_error 500 ∷ [])
unfolding find_from_source find_with_options find_from_static_list build_request_url fetch_release
    should_retry retry_from find_at
try_sources-verdict_example =
    try_sources-verdict limited query sources
      (with_message (rate_limit_error 429 none) ∷ status_error 500 ∷ [])
      (refl, refl, (refl, refl, tt))

-- GitHub is over its rate limit, and the mirror has the release.
abbrev mirrored : World (List Releases)
mirrored =
    world_of (λ src. if str_eq src.name "github" then server 1 429 [] else server 0 500 listed)

find_release-memoized_example :
    find_release mirrored query dead "" sources
      (find_release limited query probes "" sources none).1
    ≡ (
      try_sources mirrored query
          (probe_and_sort probes sources)
          (probe_and_sort probes sources)
          no_failures,
      some (probe_and_sort probes sources),
    )
unfolding github_releases_path
find_release-memoized_example =
    find_release-memoized limited mirrored query query probes dead sources
      (codes "/repos/gameap/daemon/releases") (codes "/repos/gameap/daemon/releases") refl refl

abbrev resolved : Resolved
resolved = record {
  tag = codes "v3.2.0";
  asset_name = codes "daemon";
  urls = codes "a" ∷ codes "b" ∷ codes "c" ∷ [];
}

-- The URL "a" fails.
abbrev fetch_file : Text → Result ℕ (Unit {0})
fetch_file url = if text_eq url (codes "a") then err 404 else ok tt

abbrev no_file : Text → Result ℕ (Unit {0})
no_file url = if text_eq url (codes "c") then err 500 else err 404

download_with-first_example :
    download_with fetch_file (λ url. false) (some resolved) ≡ (ok tt, codes "a" ∷ codes "b" ∷ [])
unfolding text_eq
download_with-first_example =
    download_with-first fetch_file (λ url. false) resolved (codes "a" ∷ []) (codes "b")
      (codes "c" ∷ []) refl ((refl, (404, refl)), tt) refl

download_with-all_failed_example :
    download_with no_file (λ url. false) (some resolved)
    ≡ (err (all_failed 500), codes "a" ∷ codes "b" ∷ codes "c" ∷ [])
unfolding text_eq
download_with-all_failed_example =
    download_with-all_failed no_file (λ url. false) resolved (codes "a")
      (codes "b" ∷ codes "c" ∷ []) 404 (404 ∷ 500 ∷ []) refl
      (refl, refl, (refl, refl, (refl, refl, tt)))
