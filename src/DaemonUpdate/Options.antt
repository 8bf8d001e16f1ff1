-- ===== src/DaemonUpdate/Options.antt =====
-- internal/actions/daemon/update/daemon_update.go: where the new daemon comes from, and which release
-- is searched.
use mathlib.Core.Path.{ap₂}
use gameapctl.Base.{
  Text, true, not, ◌&&◌, ◌||◌, Option, [], ◌∷◌, Result, ok, err, is_empty, trim_space, ◌≡◌, ◌≢◌,
  ◌↔◌, refl, ◌∙◌, arith,
}
use gameapctl.Tag.{
  NormalizedTag, TagError, normalize_tag, suffix_part, strip_v, has_prerelease_suffix,
}
use gameapctl.Tag.Normalized.{normalize_tag-full}
use gameapctl.Tag.Versions.{has_prerelease_suffix-normalize_tag}
use gameapctl.DaemonUpdate.{
  Flags, InstallState, UpdateError, Route, build_branch, find_by, choose_route, release_options,
  stored_github, stored_branch, or_master, or_text, by_version,
}

is_empty-eq : (s : Text) → is_empty s ≡ true → s ≡ []
is_empty-eq [] h = refl
is_empty-eq (c ∷ s) h = cc

by_version-ne-build_branch :
    (r : Result TagError NormalizedTag) (branch : Text) → by_version r ≢ ok (build_branch branch)
by_version-ne-build_branch (ok t) branch e = cc
by_version-ne-build_branch (err x) branch e = cc

version-blank :
    (flags : Flags) (state : Option InstallState) (branch : Text)
    → choose_route flags state ≡ ok (build_branch branch)
    → flags.version ≡ []
unfolding choose_route
version-blank flags state branch e =
    let never = by_version-ne-build_branch (normalize_tag flags.version) branch in
    is_empty-eq flags.version (ground arith)

-- The update builds a branch exactly when no version is given and GitHub is asked for, by the flag or
-- by the state of the installation.
pub choose_route-build_branch :
    (flags : Flags) (state : Option InstallState)
    → ((branch : Text) × (choose_route flags state ≡ ok (build_branch branch)))
      ↔ ((flags.version ≡ []) × ((flags.from_github || stored_github state) ≡ true))
unfolding choose_route
choose_route-build_branch flags state = (
  (λ (branch, e). (version-blank flags state branch e, ground arith)),
  λ (blank, asked).
      (or_master (or_text flags.branch (stored_branch state)), rw (choose_route, blank, asked)),
)

full-find_by :
    (t : NormalizedTag) (tag tag_prefix : Text)
    → ◌≡◌ {A = Result UpdateError Route}
        (ok (find_by t.full t.prefix))
        (ok (find_by tag tag_prefix))
    → (t.full ≡ tag) × (t.prefix ≡ tag_prefix)
full-find_by t tag tag_prefix e = (cc, cc)

find_by-normal :
    (r : Result TagError NormalizedTag) (tag tag_prefix : Text)
    → by_version r ≡ ok (find_by tag tag_prefix)
    → r ≡ ok (record { full = tag; prefix = tag_prefix })
find_by-normal (ok t) tag tag_prefix e =
    let (same, same') = full-find_by t tag tag_prefix e in
    ap₂ (λ (full prefix : Text). ok (record { full = full; prefix = prefix })) same same'
find_by-normal (err x) tag tag_prefix e = cc

choose_route-find_by :
    (flags : Flags) (state : Option InstallState) (tag tag_prefix : Text)
    → choose_route flags state ≡ ok (find_by tag tag_prefix)
    → tag ≢ []
    → normalize_tag flags.version ≡ ok (record { full = tag; prefix = tag_prefix })
unfolding choose_route
choose_route-find_by flags state tag tag_prefix e given =
    find_by-normal (normalize_tag flags.version) tag tag_prefix (ground arith)

full_options :
    (tag : Text) (t : NormalizedTag)
    → tag ≢ []
    → (not (is_empty tag) && has_prerelease_suffix t) ≡ has_prerelease_suffix t
full_options [] t given = absurd (given refl)
full_options (c ∷ tag) t given = refl

-- For a version of one release, the tag and the prefix in the options of the search are those of the
-- normalized version, and a prerelease is allowed exactly when something follows the digits and the dots
-- of the version.
pub release_options-choose_route :
    (flags : Flags) (state : Option InstallState) (tag tag_prefix : Text)
    → choose_route flags state ≡ ok (find_by tag tag_prefix)
    → tag ≢ []
    → (normalize_tag flags.version
        ≡ ok (record {
          full = (release_options tag tag_prefix).tag;
          prefix = (release_options tag tag_prefix).tag_prefix;
        }))
      × ((release_options tag tag_prefix).allow_prerelease
          ≡ not (is_empty (suffix_part (strip_v (trim_space flags.version)))))
unfolding release_options
release_options-choose_route flags state tag tag_prefix e given =
    let t : NormalizedTag = record { full = tag; prefix = tag_prefix } in
    let normal = choose_route-find_by flags state tag tag_prefix e given in
    let again : normalize_tag tag ≡ ok t = normalize_tag-full flags.version t normal given in
    (
      normal,
      rw again (
          full_options tag t given
          ∙ has_prerelease_suffix-normalize_tag flags.version t normal given),
    )
