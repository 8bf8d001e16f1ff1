-- ===== src/Source/Find.antt =====
-- pkg/releasesource/selector.go: the resolution of a release through the ordered sources. A `World` is
-- the network as each source meets it, in the first search and in the search after a rate limit, and
-- the state of the context after each failure.
use gameapctl.Base.{
  Text, Bool, true, false, Option, none, some, List, [], ◌∷◌, String, str_eq, Result, ok, err, ◌&&◌,
  ◌||◌, ltb, length, if◌then◌else◌,
}
use gameapctl.Release.{
  Release, FindOptions, FindError, tag_not_found_error, failed_to_find_release_error, with_message,
  unknown_component_error, unknown_source_error, no_github_source_error,
}
use gameapctl.Fetch.{Env, find_with_options, find_from_static_list, is_rate_limit_error}
use gameapctl.Source.{
  Source, Component, Resolved, is_github, github_releases_path, releases_url, download_url,
}
use gameapctl.Source.Order.{ProbeReply, ordered_sources}

pub record World (Body : Type 0) : Type 0 where
  pub search : Source → Env Body
  pub search_again : Source → Env Body
  pub is_done : Source → Bool

-- What a lookup is for.
pub record Query : Type 0 where
  pub component : Component
  pub kernel : Text
  pub platform : Text
  pub opts : FindOptions

unfoldable pub is_content_error : FindError → Bool
is_content_error (tag_not_found_error _) = true
is_content_error (failed_to_find_release_error _ _ _) = true
is_content_error (with_message e) = is_content_error e
is_content_error _ = false

-- The loop of `buildRelease` over the ordered sources.
unfoldable pub other_urls : Source → Component → Release → List Source → List Text
other_urls chosen component rel [] = []
other_urls chosen component rel (src ∷ srcs) =
    let rest = other_urls chosen component rel srcs in
    if str_eq src.name chosen.name then rest else download_url src component rel ∷ rest

unfoldable pub build_release : Source → List Source → Component → Release → Resolved
unfolding other_urls
build_release chosen ordered component rel = record {
  tag = rel.tag;
  asset_name = rel.asset_name;
  urls = download_url chosen component rel ∷ other_urls chosen component rel ordered;
}

-- `return nil, nil` is `nothing`.
pub data Found : Type 0 where
  found : Resolved → Found
  failed : FindError → Found
  nothing : Found

-- The variables of the loop of `findRelease`.
pub record Failures : Type 0 where
  pub first_err : Option FindError
  pub content_err : Option FindError
  pub github_rate_limited : Bool

abbrev pub no_failures : Failures
no_failures = record { first_err = none; content_err = none; github_rate_limited = false }

abbrev pub or_first : Option FindError → FindError → Option FindError
or_first none e = some e
or_first (some first) e = some first

unfoldable pub note_failure : Failures → Source → FindError → Failures
note_failure f src e = record {
  github_rate_limited = (is_github src.kind && is_rate_limit_error e) || f.github_rate_limited;
  first_err = or_first f.first_err e;
  content_err = if is_content_error e then or_first f.content_err e else f.content_err;
}

abbrev pub or_nothing : Option FindError → Found
or_nothing none = nothing
or_nothing (some e) = failed e

abbrev pub or_fail : Option FindError → Found → Found
or_fail none rest = rest
or_fail (some e) rest = failed e

abbrev pub or_found : Result FindError Resolved → Found → Found
or_found (ok release) rest = found release
or_found (err e) rest = rest

module _ {Body : Type 0} (world : World Body) (q : Query) where
  unfoldable pub find_from_source : Source → Bool → Result FindError Release
  find_from_source src quick_fail =
      if is_github src.kind
      then (find_with_options (world.search src) (releases_url src q.component) q.kernel q.platform
          (record q.opts { no_retry = quick_fail || q.opts.no_retry })).result
      else find_from_static_list (world.search src) q.kernel q.platform 0
          (releases_url src q.component) q.opts

  abbrev pub resolve : Source → List Source → Result FindError Release → Result FindError Resolved
  resolve src srcs (ok rel) = ok (build_release src srcs q.component rel)
  resolve src srcs (err e) = err e

  -- The loop of `retryGitHub`; the first argument is the part of `srcs` that is left.
  unfoldable pub retry_github : List Source → List Source → Result FindError Resolved
  retry_github [] srcs = err no_github_source_error
  retry_github (src ∷ left) srcs =
      if is_github src.kind
      then resolve src srcs
          (find_with_options (world.search_again src) (releases_url src q.component) q.kernel
            q.platform q.opts).result
      else retry_github left srcs

  -- What follows the loop of `findRelease`.
  unfoldable pub conclude : Failures → List Source → Found
  unfolding retry_github
  conclude f srcs =
      let last = or_fail f.content_err (or_nothing f.first_err) in
      if f.github_rate_limited
      then or_fail f.content_err (or_found (retry_github srcs srcs) last)
      else last

  -- The loop of `findRelease`; the first argument is the part of `srcs` that is left.
  unfoldable pub try_sources : List Source → List Source → Failures → Found
  unfolding note_failure conclude
  try_sources [] srcs f = conclude f srcs
  try_sources (src ∷ left) srcs f = elim (find_from_source src (ltb 1 (length srcs))) [
    | ok rel ↦ found (build_release src srcs q.component rel)
    | err e ↦
        let rest = try_sources left srcs (note_failure f src e) in
        if world.is_done src then failed e else rest
  ]

  named : String → List Source → Option Source
  named forced [] = none
  named forced (src ∷ srcs) = if str_eq src.name forced then some src else named forced srcs

  -- `forced` is the value of GAMEAP_RELEASE_SOURCE.
  unfoldable pub sources_for_find :
      (Source → ProbeReply)
      → String
      → List Source
      → Option (List Source)
      → Result FindError (List Source) × Option (List Source)
  unfolding named
  sources_for_find probe forced sources memo =
      if str_eq forced ""
      then (let (ordered, memo') = ordered_sources probe sources memo in (ok ordered, memo'))
      else elim (named forced sources) [
        | none ↦ (err unknown_source_error, memo)
        | some src ↦ (ok (src ∷ []), memo)
      ]

  abbrev pub search_in : Result FindError (List Source) → Found
  search_in (ok srcs) = try_sources srcs srcs no_failures
  search_in (err e) = failed e

  -- `memo` is the state of the selector.
  unfoldable pub find_release :
      (Source → ProbeReply)
      → String
      → List Source
      → Option (List Source)
      → Found × Option (List Source)
  unfolding try_sources sources_for_find
  find_release probe forced sources memo = elim (github_releases_path q.component) [
    | none ↦ (failed unknown_component_error, memo)
    | some path ↦
        let (srcs, memo') = sources_for_find probe forced sources memo in (search_in srcs, memo')
  ]
