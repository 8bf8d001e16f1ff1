-- ===== src/Tests/Releases.antt =====
-- The choice of a release and the requests for it, at concrete inputs.
use gameapctl.Base.{
  Text, ◌++◌, codes, List, [], ◌∷◌, ℕ, ok, ltb, ◌≡◌, refl, ◌↔◌, All, ◌≤◌, ◌+◌, arith, contains,
  if◌then◌else◌, text_eq, subst,
}
use gameapctl.Release.{Releases, select_release, is_skipped, match_asset}
use gameapctl.Release.Selection.{IsSelected, select_release_iff}
use gameapctl.Fetch.{
  trim_slash, Env, answer, singular_mode, fetch_release, find_from_static_list, build_request_url,
  retries, is_rate_limit_error,
}
use gameapctl.Fetch.Requests.{
  decoded, ready, bytes_of, IsSegmentChar, IsRateLimited, build_request_url-IsSegmentChar,
  find_from_static_list-eq-fetch_release,
}
use gameapctl.Fetch.Retries.{
  AreBounded, attempt_at, find, find-bounds, find-settled, find-exhausted,
}
use gameapctl.Tests.Data.{
  linux, amd64, stable, listed, stable_release, latest, pinned_options, server,
}

-- The prerelease at the head of the list is passed over.
select_release-listed : select_release latest linux amd64 listed ≡ ok stable_release
unfolding select_release is_skipped match_asset contains
select_release-listed = refl

select_release_iff_example :
    (select_release latest linux amd64 listed ≡ ok stable_release)
    ↔ IsSelected latest linux amd64 listed stable_release
select_release_iff_example = select_release_iff latest linux amd64 listed stable_release

build_request_url-IsSegmentChar_example :
    (segment : Text) × All IsSegmentChar segment
    × (decoded ready segment ≡ bytes_of pinned_options.tag)
    × (build_request_url (codes "https://g") pinned_options
        ≡ (trim_slash (codes "https://g") ++ codes "/tags/" ++ segment, singular_mode))
build_request_url-IsSegmentChar_example =
    build_request_url-IsSegmentChar (codes "https://g") pinned_options refl
      (omega arith, (omega arith, (omega arith, (omega arith, (omega arith, (omega arith, tt))))))

abbrev static_and_api : Env (List Releases)
static_and_api = record (server 0 200 listed) {
  client = λ n url. if ltb n 1 then answer 200 (stable ∷ []) [] else answer 200 listed [];
}

find_from_static_list-eq-fetch_release_example :
    find_from_static_list static_and_api linux amd64 1 (codes "https://m") pinned_options
    ≡ fetch_release static_and_api linux amd64 0 (codes "https://g") singular_mode pinned_options
unfolding text_eq
find_from_static_list-eq-fetch_release_example =
    find_from_static_list-eq-fetch_release static_and_api linux amd64 pinned_options 0 1
      (codes "https://g") (codes "https://m") listed listed [] refl refl refl
      (stable ∷ [], [], refl, refl)

find-bounds_example :
    (1 ≤ (find (server 2 429 listed) (codes "https://g") linux amd64 latest).requests)
    × ((find (server 2 429 listed) (codes "https://g") linux amd64 latest).requests
        ≤ retries latest + 1)
    × AreBounded
        (retries latest)
        (find (server 2 429 listed) (codes "https://g") linux amd64 latest).waits
find-bounds_example = find-bounds (server 2 429 listed) (codes "https://g") linux amd64 latest

settles-with_ok :
    ¬ IsRateLimited
      (server 1 429 listed)
      (attempt_at (server 1 429 listed) (codes "https://g") linux amd64 latest 1)
unfolding fetch_release build_request_url is_skipped match_asset contains select_release
settles-with_ok h = h

limited_at_first :
    IsRateLimited
      (server 1 429 listed)
      (attempt_at (server 1 429 listed) (codes "https://g") linux amd64 latest 0)
unfolding fetch_release build_request_url is_rate_limit_error
limited_at_first = refl

find-settled_example :
    (find (server 1 429 listed) (codes "https://g") linux amd64 latest).result
    ≡ attempt_at (server 1 429 listed) (codes "https://g") linux amd64 latest 1
find-settled_example =
    find-settled (server 1 429 listed) (codes "https://g") linux amd64 latest 1 (omega arith)
      (λ k below.
        subst
          (λ j.
            IsRateLimited (server 1 429 listed)
              (attempt_at (server 1 429 listed) (codes "https://g") linux amd64 latest j))
          (omega arith) limited_at_first)
      (λ k. refl) settles-with_ok

abbrev busy : Env (List Releases)
busy = record (server 0 200 listed) { client = λ n url. answer 429 [] [] }

always_limited :
    (k : ℕ) → IsRateLimited busy (attempt_at busy (codes "https://g") linux amd64 latest k)
unfolding fetch_release build_request_url is_rate_limit_error
always_limited k = refl

find-exhausted_example :
    IsRateLimited busy (find busy (codes "https://g") linux amd64 latest).result
    × ((find busy (codes "https://g") linux amd64 latest).requests ≡ 6)
find-exhausted_example =
    find-exhausted busy (codes "https://g") linux amd64 latest (λ k few. always_limited k)
      (λ k. refl)
