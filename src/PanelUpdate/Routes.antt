-- ===== src/PanelUpdate/Routes.antt =====
-- `Handle` of internal/actions/panel/update/panel_update.go, up to the update that it runs; that it
-- records the detected version is left out.
pub mod Allowed
use gameapctl.Base.{
  Bool, true, false, not, ◌&&◌, ◌||◌, Option, none, some, List, [], ◌∷◌, ◌++◌, Text, codes, Result,
  ok, err, ◌>>=◌, if◌then◌else◌, is_empty, text_eq, has_prefix,
}
use gameapctl.EnvFile.{parse_line, scan_lines, File, absent, denied, broken, holds}
use gameapctl.Tag.{NormalizedTag, TagError, normalize_tag, is_major_v3, has_prerelease_suffix}
use gameapctl.Release.{FindOptions}
use gameapctl.Scopes.{PanelPaths}

-- The flags of `handleV4` besides the tag.
pub record Flags : Type 0 where
  pub from_github : Bool
  pub branch : Text

-- The state of the installation, as far as the update reads it.
pub record InstallState : Type 0 where
  pub version : Text
  pub path : Text
  pub from_github : Bool
  pub branch : Text

pub data Route : Type 0 where
  by_branch : Text → Route
  by_release : Text → Text → Route
  migrate_v3 : Route

pub data RouteError : Type 0 where
  exclusive_flags v3_not_supported no_markers : RouteError
  bad_version : TagError → RouteError

-- `none` if the state cannot be loaded.
unfoldable pub stored : {A : Type 0} → A → (InstallState → A) → Option InstallState → A
stored missing field none = missing
stored missing field (some s) = field s

abbrev pub or_main : Text → Text
or_main branch = if is_empty branch then codes "main" else branch

abbrev or_text : Text → Text → Text
or_text a b = if is_empty a then b else a

abbrev pub chosen_branch : Bool → Flags → Option InstallState → Text
unfolding stored
chosen_branch pinned flags state =
    if pinned then flags.branch else or_text flags.branch (stored [] (λ s. s.branch) state)

-- The start of `handleV4`.
unfoldable pub choose_v4 : Flags → Option InstallState → Text → Text → Result RouteError Route
unfolding stored chosen_branch
choose_v4 flags state tag tag_prefix =
    let pinned = not (is_empty tag) || not (is_empty tag_prefix) in
    if pinned && (flags.from_github || not (is_empty flags.branch))
    then err exclusive_flags
    else if flags.from_github || (not pinned && stored false (λ s. s.from_github) state)
    then ok (by_branch (or_main (chosen_branch pinned flags state)))
    else ok (by_release tag tag_prefix)

pub data MajorVersion : Type 0 where
  version_v3 version_v4 : MajorVersion

unfoldable pub is_state_version_v3 : Text → Bool
unfolding text_eq has_prefix
is_state_version_v3 v =
    text_eq v (codes "3")
    || text_eq v (codes "v3")
    || has_prefix v (codes "v3.")
    || has_prefix v (codes "3.")

unfoldable pub is_state_version_v4 : Text → Bool
unfolding text_eq has_prefix
is_state_version_v4 v =
    text_eq v (codes "4")
    || text_eq v (codes "v4")
    || has_prefix v (codes "v4.")
    || has_prefix v (codes "4.")

abbrev pub as_route_error : Result TagError NormalizedTag → Result RouteError NormalizedTag
as_route_error (ok norm) = ok norm
as_route_error (err e) = err (bad_version e)

-- filepath.Join and the existence of a file are parameters.
module _ (join_path : List Text → Text) (exists : Text → Bool) where
  -- `data_dir` is that of the paths.
  abbrev pub detect_from_paths : PanelPaths → Text → Option MajorVersion
  detect_from_paths paths data_dir =
      if exists paths.config_file_path || exists paths.binary_path || exists data_dir
      then some version_v4
      else none

  abbrev pub has_v3_files : Text → Bool
  has_v3_files path =
      not (is_empty path)
      && (exists (join_path (path ∷ codes "artisan" ∷ []))
          || exists (join_path (path ∷ codes ".env" ∷ [])))

  unfoldable pub detect_major_version :
      Option InstallState → PanelPaths → Text → Option MajorVersion
  unfolding is_state_version_v3 is_state_version_v4 stored
  detect_major_version state paths data_dir =
      let recorded = stored [] (λ s. s.version) state in
      if is_state_version_v3 recorded
      then some version_v3
      else if is_state_version_v4 recorded
      then some version_v4
      else if has_v3_files (stored [] (λ s. s.path) state)
      then some version_v3
      else detect_from_paths paths data_dir

  abbrev pub route_by :
      Flags → Option InstallState → NormalizedTag → Option MajorVersion → Result RouteError Route
  unfolding choose_v4
  route_by flags state norm none = err no_markers
  route_by flags state norm (some version_v3) = ok migrate_v3
  route_by flags state norm (some version_v4) = choose_v4 flags state norm.full norm.prefix

  -- `Handle`, up to the update it runs, with the paths that are resolved.
  unfoldable pub choose_update :
      Text → Flags → Option InstallState → PanelPaths → Text → Result RouteError Route
  unfolding normalize_tag is_major_v3 detect_major_version route_by
  choose_update raw flags state paths data_dir = as_route_error (normalize_tag raw) >>= λ norm.
      if is_major_v3 norm
      then err v3_not_supported
      else route_by flags state norm (detect_major_version state paths data_dir)
