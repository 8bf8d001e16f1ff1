-- ===== src/Tag.antt =====
-- pkg/releasefinder/release_finder.go: version strings. Tags are texts of code points; no test here
-- reads a character that is not ASCII but `strings.TrimSpace`, which trims all of Unicode's spaces.
pub mod Normalized
pub mod Versions
use gameapctl.Base.{
  Text, codes, Bool, true, false, not, ◌&&◌, ◌||◌, Option, none, some, List, [], ◌∷◌, ◌++◌, Result,
  ok, err, ℕ, ℤ, pos, negsuc, is_empty, text_eq, trim_space, trim_prefix, has_prefix, contains_char,
  split, is_digit, leb, ltb, ◌==◌, atoi, length, if◌then◌else◌,
}

pub record NormalizedTag : Type 0 where
  pub full : Text
  pub prefix : Text

pub data TagError : Type 0 where
  invalid_version empty_segment suffix_without_minor suffix_without_patch too_many_segments :
      TagError

unfoldable pub is_version_char : ℕ → Bool
unfolding is_digit
is_version_char c = is_digit c || c == b'.'

-- The groups of `^([0-9.]*)(.*)$`: the longest start of digits and dots, and the rest. A dot of the
-- expression does not match a newline, so a rest that holds one is no match.
unfoldable pub version_part : Text → Text
version_part [] = []
version_part (c ∷ s) = if is_version_char c then c ∷ version_part s else []

unfoldable pub suffix_part : Text → Text
suffix_part [] = []
suffix_part (c ∷ s) = if is_version_char c then suffix_part s else c ∷ s

unfoldable pub matches_split : Text → Bool
unfolding suffix_part
matches_split s = not (contains_char (suffix_part s) 10)

unfoldable pub strip_v : Text → Text
strip_v [] = []
strip_v (c ∷ s) = if c == b'v' || c == b'V' then s else c ∷ s

unfoldable pub has_empty : List Text → Bool
has_empty [] = false
has_empty (p ∷ ps) = is_empty p || has_empty ps

-- The switch on the number of segments.
unfoldable pub by_segments : List Text → Text → Result TagError NormalizedTag
by_segments (major ∷ []) suffix =
    if not (is_empty suffix)
    then err suffix_without_minor
    else ok (record { full = []; prefix = b'v' ∷ (major ++ b'.' ∷ []) })
by_segments (major ∷ minor ∷ []) suffix =
    if not (is_empty suffix)
    then err suffix_without_patch
    else ok (record { full = []; prefix = b'v' ∷ (major ++ b'.' ∷ (minor ++ b'.' ∷ [])) })
by_segments (major ∷ minor ∷ patch ∷ []) suffix =
    ok (record { full = b'v' ∷ (major ++ b'.' ∷ (minor ++ b'.' ∷ (patch ++ suffix))); prefix = [] })
by_segments _ suffix = err too_many_segments

unfoldable pub normalize_stripped : Text → Result TagError NormalizedTag
normalize_stripped stripped =
    if not (matches_split stripped)
    then err invalid_version
    else if is_empty (version_part stripped)
    then err invalid_version
    else if has_empty (split b'.' (version_part stripped))
    then err empty_segment
    else by_segments (split b'.' (version_part stripped)) (suffix_part stripped)

unfoldable pub normalize_tag : Text → Result TagError NormalizedTag
normalize_tag input =
    if is_empty (trim_space input)
    then ok (record { full = []; prefix = [] })
    else normalize_stripped (strip_v (trim_space input))

unfoldable pub has_other_char : Text → Bool
has_other_char [] = false
has_other_char (c ∷ s) = (not (c == b'.') && (ltb c b'0' || ltb b'9' c)) || has_other_char s

unfoldable pub has_prerelease_suffix : NormalizedTag → Bool
has_prerelease_suffix t =
    if is_empty t.full then false else has_other_char (trim_prefix t.full (b'v' ∷ []))

unfoldable pub is_major_v3 : NormalizedTag → Bool
is_major_v3 t =
    if not (is_empty t.full)
    then text_eq t.full (codes "v3") || has_prefix t.full (codes "v3.")
    else if not (is_empty t.prefix)
    then has_prefix t.prefix (codes "v3.")
    else false

-- strings.TrimSuffix(s, ".")
unfoldable pub trim_dot : Text → Text
trim_dot [] = []
trim_dot (c ∷ []) = if c == b'.' then [] else c ∷ []
trim_dot (c ∷ d ∷ s) = c ∷ trim_dot (d ∷ s)

abbrev at_least : ℕ → Option ℤ → Bool
at_least n none = false
at_least n (some (pos k)) = leb n k
at_least n (some (negsuc k)) = false

abbrev is_exactly : ℕ → Option ℤ → Bool
is_exactly n none = false
is_exactly n (some (pos k)) = k == n
is_exactly n (some (negsuc k)) = false

abbrev is_number : Option ℤ → Bool
is_number none = false
is_number (some n) = true

-- `major > 4 || (major == 4 && minor >= 2)`, with an error of either `Atoi` as false.
abbrev compare_versions : Option ℤ → Option ℤ → Bool
compare_versions major minor =
    is_number major
    && is_number minor
    && (at_least 5 major || (is_exactly 4 major && at_least 2 minor))

unfoldable pub compare_parts : List Text → Bool
compare_parts (major ∷ minor ∷ rest) = compare_versions (atoi major) (atoi minor)
compare_parts _ = false

unfoldable pub is_at_least_v4_2 : Text → Bool
is_at_least_v4_2 tag =
    if is_empty (trim_space tag)
    then false
    else if not (matches_split (strip_v (trim_space tag)))
    then false
    else if is_empty (trim_dot (version_part (strip_v (trim_space tag))))
    then false
    else compare_parts (split b'.' (trim_dot (version_part (strip_v (trim_space tag)))))
