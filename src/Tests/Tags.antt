-- ===== src/Tests/Tags.antt =====
-- Version strings, at concrete inputs.
use gameapctl.Base.{
  true, false, atoi, is_digit, codes, not, [], ok, ◌≡◌, ◌≢◌, refl, is_empty, trim_space, split,
  is_space, contains_char,
}
use gameapctl.Tag.{
  is_at_least_v4_2, trim_dot, compare_parts, NormalizedTag, normalize_tag, suffix_part,
  version_part, strip_v, has_prerelease_suffix, matches_split, has_empty, by_segments,
  normalize_stripped, is_version_char,
}
use gameapctl.Tag.Normalized.{IsNormalized, normalize_tag-IsNormalized, normalize_tag-full}
use gameapctl.Tag.Versions.{has_prerelease_suffix-normalize_tag}

abbrev beta_tag : NormalizedTag
beta_tag = record { full = codes "v3.2.0-beta1"; prefix = [] }

normalize_tag-beta : normalize_tag (codes " V3.2.0-beta1 ") ≡ ok beta_tag
unfolding normalize_tag trim_space is_space normalize_stripped matches_split contains_char strip_v
    is_version_char version_part has_empty split by_segments
normalize_tag-beta = refl

full-ne-nil : beta_tag.full ≢ []
full-ne-nil e = cc

normalize_tag-IsNormalized_example : IsNormalized beta_tag
normalize_tag-IsNormalized_example =
    normalize_tag-IsNormalized (codes " V3.2.0-beta1 ") beta_tag normalize_tag-beta

normalize_tag-full_example : normalize_tag (codes "v3.2.0-beta1") ≡ ok beta_tag
normalize_tag-full_example =
    normalize_tag-full (codes " V3.2.0-beta1 ") beta_tag normalize_tag-beta full-ne-nil

has_prerelease_suffix-normalize_tag_example :
    has_prerelease_suffix beta_tag
    ≡ not (is_empty (suffix_part (strip_v (trim_space (codes " V3.2.0-beta1 ")))))
has_prerelease_suffix-normalize_tag_example =
    has_prerelease_suffix-normalize_tag (codes " V3.2.0-beta1 ") beta_tag normalize_tag-beta
      full-ne-nil

-- The minor version is compared as a number, and a suffix does not count.
is_at_least_v4_2-tags :
    (is_at_least_v4_2 (codes "v4.2.0beta1") ≡ true)
    × (is_at_least_v4_2 (codes "4.10") ≡ true)
    × (is_at_least_v4_2 (codes "v4.1.9") ≡ false)
    × (is_at_least_v4_2 (codes "v5") ≡ false)
unfolding is_at_least_v4_2 trim_space is_space matches_split contains_char strip_v is_version_char
    version_part split trim_dot compare_parts atoi is_digit
is_at_least_v4_2-tags = (refl, refl, refl, refl)
