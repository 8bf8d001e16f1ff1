-- ===== src/Tag/Versions.antt =====
-- The tests on versions: a prerelease, the major line 3, and 4.2 or newer.
use gameapctl.Base.{
  Text, codes, true, false, not, ◌||◌, List, [], ◌∷◌, ◌++◌, ok, is_empty, text_eq, trim_space,
  trim_prefix, has_prefix, split, is_digit, ◌≡◌, ◌≢◌, refl, ◌∙◌, ap, inl, inr, All, arith,
  Bool-cases,
}
use gameapctl.Tag.{
  NormalizedTag, is_version_char, version_part, suffix_part, strip_v, by_segments, normalize_tag,
  has_other_char, has_prerelease_suffix, is_major_v3,
}
use gameapctl.Tag.Normalized.{
  IsSegment, AreDigits, full-normalize_tag, normalize_stripped-inversion, segments, split-AreDigits,
  version_part-All,
}

has_other_char-suffix_part : (s : Text) → has_other_char s ≡ not (is_empty (suffix_part s))
unfolding has_other_char suffix_part is_version_char
has_other_char-suffix_part [] = refl
has_other_char-suffix_part (c ∷ s) = ground (arith, has_other_char-suffix_part s)

has_prerelease_suffix-v :
    (t : NormalizedTag) (s : Text) → t.full ≡ b'v' ∷ s → has_prerelease_suffix t ≡ has_other_char s
unfolding has_prerelease_suffix trim_prefix has_prefix
has_prerelease_suffix-v t s h = ground arith

-- A pinned release counts as a prerelease exactly when something follows the digits and the dots of
-- the version string.
pub has_prerelease_suffix-normalize_tag :
    (input : Text) (t : NormalizedTag)
    → normalize_tag input ≡ ok t
    → t.full ≢ []
    → has_prerelease_suffix t ≡ not (is_empty (suffix_part (strip_v (trim_space input))))
has_prerelease_suffix-normalize_tag input t e h =
    let (same, _) = full-normalize_tag input t e h in
    has_prerelease_suffix-v t _ same ∙ has_other_char-suffix_part _

abbrev pub first_segment : List Text → Text
first_segment [] = []
first_segment (p ∷ ps) = p

-- Before a dot, digits are `3` exactly when the text starts with `3.`.
has_prefix-segment :
    (p r : Text)
    → All (λ c. is_digit c ≡ true) p
    → has_prefix (p ++ b'.' ∷ r) (codes "3.") ≡ text_eq p (codes "3")
unfolding has_prefix text_eq is_digit
has_prefix-segment [] r h = refl
has_prefix-segment (c ∷ []) r h = ground arith
has_prefix-segment (c ∷ d ∷ p) r h = ground arith

text_eq-segment :
    (p r : Text) → All (λ c. is_digit c ≡ true) p → text_eq (p ++ b'.' ∷ r) (codes "3") ≡ false
unfolding text_eq is_digit
text_eq-segment [] r h = refl
text_eq-segment (c ∷ []) r h = ground arith
text_eq-segment (c ∷ d ∷ p) r h = ground arith

module _ (t : NormalizedTag) (p r : Text) (digits : AreDigits p) where
  is_major_v3-prefix :
      t.full ≡ [] → t.prefix ≡ b'v' ∷ (p ++ b'.' ∷ r) → is_major_v3 t ≡ text_eq p (codes "3")
  unfolding is_major_v3
  is_major_v3-prefix full prefix =
      simp (full, prefix) (unfold has_prefix in has_prefix-segment p r digits)

  is_major_v3-full : t.full ≡ b'v' ∷ (p ++ b'.' ∷ r) → is_major_v3 t ≡ text_eq p (codes "3")
  unfolding is_major_v3
  is_major_v3-full full = simp full (
      unfold has_prefix text_eq in
      (ap (λ b. b || has_prefix (p ++ b'.' ∷ r) (codes "3.")) (text_eq-segment p r digits)
        ∙ has_prefix-segment p r digits))

is_major_v3-by_segments :
    (ps : List Text) (suffix : Text) (t : NormalizedTag)
    → All IsSegment ps
    → by_segments ps suffix ≡ ok t
    → is_major_v3 t ≡ text_eq (first_segment ps) (codes "3")
unfolding by_segments
is_major_v3-by_segments (a ∷ []) suffix t h e =
    is_major_v3-prefix t a [] h.0.1 (ground arith) (ground arith)
is_major_v3-by_segments (a ∷ b ∷ []) suffix t h e =
    is_major_v3-prefix t a (b ++ b'.' ∷ []) h.0.1 (ground arith) (ground arith)
is_major_v3-by_segments (a ∷ b ∷ c ∷ []) suffix t h e =
    is_major_v3-full t a (b ++ b'.' ∷ (c ++ suffix)) h.0.1 (ground arith)
is_major_v3-by_segments ps suffix t h e = cc

is_empty-eq : (s : Text) → is_empty s ≡ true → s ≡ []
is_empty-eq [] h = refl
is_empty-eq (c ∷ s) h = cc

is_major_v3-latest :
    (t : NormalizedTag) (s : Text)
    → t.full ≡ []
    → t.prefix ≡ []
    → s ≡ []
    → is_major_v3 t ≡ text_eq (first_segment (split b'.' (version_part (strip_v s)))) (codes "3")
unfolding is_major_v3 strip_v version_part split text_eq
is_major_v3-latest t s full prefix none_given = simp (full, prefix, none_given)

-- An accepted version string targets the major line 3 exactly when its first segment is `3`.
is_major_v3-normalize_tag :
    (input : Text) (t : NormalizedTag)
    → normalize_tag input ≡ ok t
    → is_major_v3 t
      ≡ text_eq (first_segment (split b'.' (version_part (strip_v (trim_space input))))) (codes "3")
unfolding normalize_tag
is_major_v3-normalize_tag input t e = elim (Bool-cases (is_empty (trim_space input))) [
  | inl blank ↦
      is_major_v3-latest t (trim_space input) (ground arith) (ground arith) (is_empty-eq _ blank)
  | inr given ↦
      let s = strip_v (trim_space input) in
      let (filled, chosen) = normalize_stripped-inversion s t (rw given at e) in
      is_major_v3-by_segments (split b'.' (version_part s)) (suffix_part s) t
        (segments _ filled (split-AreDigits _ (version_part-All s))) chosen
]
