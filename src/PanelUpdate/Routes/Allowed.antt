-- ===== src/PanelUpdate/Routes/Allowed.antt =====
-- Which updates the command runs for a `--version`.
use gameapctl.Base.{
  Bool, true, false, not, ◌&&◌, ◌||◌, Option, none, some, List, [], ◌∷◌, Text, Result, ok, err,
  bind-ok, ◌≡◌, ◌≢◌, refl, subst, if◌then◌else◌, is_empty, arith, if-holds,
}
use gameapctl.Tag.{TagError, NormalizedTag, normalize_tag, is_major_v3}
use gameapctl.Scopes.{PanelPaths}
use gameapctl.PanelUpdate.Routes.{
  Flags, InstallState, Route, by_branch, by_release, migrate_v3, RouteError, v3_not_supported,
  stored, choose_v4, MajorVersion, version_v3, version_v4, detect_major_version, route_by,
  choose_update, or_main, chosen_branch, as_route_error,
}

-- By the update that is run, for this tag and this installed version.
abbrev pub Fits : NormalizedTag → Option MajorVersion → Route → Type 0
Fits norm v (by_branch branch) =
    (v ≡ some version_v4) × (norm.full ≡ []) × (norm.prefix ≡ []) × (branch ≢ [])
Fits norm v (by_release tag tag_prefix) =
    (v ≡ some version_v4) × (tag ≡ norm.full) × (tag_prefix ≡ norm.prefix)
Fits norm v migrate_v3 = v ≡ some version_v3

abbrev IsSound : NormalizedTag → Option MajorVersion → Result RouteError Route → Type 0
IsSound norm v (err e) = Unit {0}
IsSound norm v (ok r) = Fits norm v r

or_main_ne : (branch : Text) → or_main branch ≢ []
or_main_ne [] h = cc
or_main_ne (c ∷ s) h = cc

is_empty_eq : (s : Text) → is_empty s ≡ true → s ≡ []
is_empty_eq [] h = refl
is_empty_eq (c ∷ s) h = cc

unpinned :
    (a b g f s : Bool)
    → ((not a || not b) && (g || f)) ≡ false
    → (g || (not (not a || not b) && s)) ≡ true
    → (a ≡ true) × (b ≡ true)
unpinned a b g f s plain source = ground arith

choose_v4-IsSound :
    (flags : Flags) (state : Option InstallState) (norm : NormalizedTag)
    → IsSound norm (some version_v4) (choose_v4 flags state norm.full norm.prefix)
unfolding choose_v4
choose_v4-IsSound flags state norm =
    if-holds (IsSound norm (some version_v4)) _ (λ exclusive. tt)
      (λ plain.
        if-holds (IsSound norm (some version_v4)) _
          (λ source.
            let (full, prefix) =
              unpinned (is_empty norm.full) (is_empty norm.prefix) flags.from_github
                (not (is_empty flags.branch)) (stored false (λ s. s.from_github) state) plain
                source in
            (
              refl,
              is_empty_eq norm.full full,
              is_empty_eq norm.prefix prefix,
              or_main_ne (
                  chosen_branch (not (is_empty norm.full) || not (is_empty norm.prefix)) flags
                    state),
            ))
          (λ release. (refl, refl, refl)))

as_route_error-ok :
    (n : Result TagError NormalizedTag) (norm : NormalizedTag)
    → as_route_error n ≡ ok norm
    → n ≡ ok norm
as_route_error-ok (ok m) norm h = cc
as_route_error-ok (err e) norm h = cc

unless_v3 :
    (norm : NormalizedTag) (v : Option MajorVersion) (v3 : Bool) (chosen : Result RouteError Route)
    (r : Route)
    → IsSound norm v chosen
    → (if v3 then err v3_not_supported else chosen) ≡ ok r
    → (v3 ≡ false) × Fits norm v r
unless_v3 norm v true chosen r sound h = cc
unless_v3 norm v false chosen r sound h = (refl, subst (IsSound norm v) h sound)

module _ (join_path : List Text → Text) (exists : Text → Bool) where
  route_by-IsSound :
      (flags : Flags) (state : Option InstallState) (norm : NormalizedTag) (v : Option MajorVersion)
      → IsSound norm v (route_by join_path exists flags state norm v)
  unfolding route_by
  route_by-IsSound flags state norm none = tt
  route_by-IsSound flags state norm (some version_v3) = refl
  route_by-IsSound flags state norm (some version_v4) = choose_v4-IsSound flags state norm

  -- The update that the command runs fits the installed version and the normalized `--version`, which is
  -- never of v3. The migration, which ignores `--version`, runs only if v3 is found; on v4, a build of a
  -- branch, which then has a name, runs only without a version, and a release has exactly the tag or the
  -- prefix that was asked for.
  pub choose_update-Fits :
      (raw : Text) (flags : Flags) (state : Option InstallState) (paths : PanelPaths)
      (data_dir : Text) (r : Route)
      → choose_update join_path exists raw flags state paths data_dir ≡ ok r
      → (norm : NormalizedTag) × (normalize_tag raw ≡ ok norm)
        × (is_major_v3 norm ≡ false)
        × Fits norm (detect_major_version join_path exists state paths data_dir) r
  unfolding choose_update
  choose_update-Fits raw flags state paths data_dir r h =
      let (norm, read, chosen) = bind-ok (as_route_error (normalize_tag raw)) _ h in
      let (new, fits) =
        unless_v3 norm (detect_major_version join_path exists state paths data_dir)
          (is_major_v3 norm) _ r (route_by-IsSound flags state norm _) chosen in
      (norm, as_route_error-ok (normalize_tag raw) norm read, new, fits)
