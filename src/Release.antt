-- ===== src/Release.antt =====
-- pkg/releasefinder/release_finder.go: the release list of a repository, and the choice of a release
-- and of its asset for an operating system and an architecture.
pub mod Selection
use gameapctl.Base.{
  Text, codes, Bool, true, false, not, ◌&&◌, ◌||◌, Option, none, some, List, [], ◌∷◌, ◌++◌, Result,
  ok, err, ℕ, ℤ, is_empty, text_eq, has_prefix, contains, if◌then◌else◌,
}

pub record Release : Type 0 where
  pub url : Text
  pub tag : Text
  pub asset_name : Text

pub record FindOptions : Type 0 where
  pub tag : Text
  pub tag_prefix : Text
  pub allow_prerelease : Bool
  pub no_retry : Bool

pub record Asset : Type 0 where
  pub url : Text
  pub name : Text
  pub browser_download_url : Text

pub record Releases : Type 0 where
  pub tag_name : Text
  pub prerelease : Bool
  pub draft : Bool
  pub assets : List Asset

-- `with_message` is `errors.WithMessage`, through which `errors.As` looks.
pub data FindError : Type 0 where
  request_error transport_error read_error decode_error context_error : FindError
  status_error : (status_code : ℕ) → FindError
  rate_limit_error : (status_code : ℕ) → (reset_time : Option ℤ) → FindError
  tag_not_found_error : (tag : Text) → FindError
  failed_to_find_release_error : (os arch latest_tag : Text) → FindError
  unknown_component_error unknown_source_error no_github_source_error : FindError
  with_message : FindError → FindError

abbrev pub asset_marker : Text → Text → Text → Text
asset_marker tag os arch = tag ++ b'-' ∷ (os ++ b'-' ∷ (arch ++ b'.' ∷ []))

match_from : Text → Text → List Asset → Option Release
match_from marker tag [] = none
match_from marker tag (asset ∷ assets) =
    if contains asset.name marker
    then some (record { url = asset.browser_download_url; tag = tag; asset_name = asset.name })
    else match_from marker tag assets

unfoldable pub match_asset : Releases → Text → Text → Option Release
unfolding match_from
match_asset release os arch =
    match_from (asset_marker release.tag_name os arch) release.tag_name release.assets

-- The two `continue` tests of `findReleaseFromList`.
unfoldable pub is_skipped : FindOptions → Releases → Bool
is_skipped opts release =
    (not opts.allow_prerelease && (release.prerelease || release.draft))
    || (not (is_empty opts.tag_prefix) && not (has_prefix release.tag_name opts.tag_prefix))

abbrev or_tag : Text → Text → Text
or_tag [] tag = tag
or_tag (c ∷ s) tag = c ∷ s

abbrev or_else : Option Release → Result FindError Release → Result FindError Release
or_else none rest = rest
or_else (some matched) rest = ok matched

-- The loop of `findReleaseFromList`, with `firstEligibleTag` as its variable.
select_from : FindOptions → Text → Text → Text → List Releases → Result FindError Release
select_from opts os arch first [] = err (failed_to_find_release_error os arch first)
select_from opts os arch first (release ∷ r) =
    let skipped = select_from opts os arch first r in
    let missed = select_from opts os arch (or_tag first release.tag_name) r in
    if is_skipped opts release then skipped else or_else (match_asset release os arch) missed

unfoldable pub select_release : FindOptions → Text → Text → List Releases → Result FindError Release
unfolding select_from
select_release opts os arch r = select_from opts os arch [] r

abbrev or_no_asset : Text → Text → Text → Option Release → Result FindError Release
or_no_asset os arch tag none = err (failed_to_find_release_error os arch tag)
or_no_asset os arch tag (some matched) = ok matched

-- The loop of `findReleaseByTagFromList`.
unfoldable pub select_by_tag : Text → Text → Text → List Releases → Result FindError Release
select_by_tag os arch tag [] = err (tag_not_found_error tag)
select_by_tag os arch tag (release ∷ r) =
    if text_eq release.tag_name tag
    then or_no_asset os arch release.tag_name (match_asset release os arch)
    else select_by_tag os arch tag r

unfoldable pub select_single : Text → Text → Releases → Result FindError Release
select_single os arch release = or_no_asset os arch release.tag_name (match_asset release os arch)

-- `json.Unmarshal` is a parameter: `none` is its error.
module _ {Body : Type 0} where
  unfoldable pub find_release_from_list :
      (Body → Option (List Releases)) → Body → Text → Text → FindOptions → Result FindError Release
  unfolding select_release
  find_release_from_list unmarshal body os arch opts = elim (unmarshal body) [
    | none ↦ err (with_message decode_error)
    | some r ↦ select_release opts os arch r
  ]

  unfoldable pub find_release_by_tag_from_list :
      (Body → Option (List Releases)) → Body → Text → Text → Text → Result FindError Release
  unfolding select_by_tag
  find_release_by_tag_from_list unmarshal body os arch tag = elim (unmarshal body) [
    | none ↦ err (with_message decode_error)
    | some r ↦ select_by_tag os arch tag r
  ]

  unfoldable pub find_release_from_single_response :
      (Body → Option Releases) → Body → Text → Text → Result FindError Release
  unfolding select_single
  find_release_from_single_response unmarshal body os arch = elim (unmarshal body) [
    | none ↦ err (with_message decode_error)
    | some release ↦ select_single os arch release
  ]
