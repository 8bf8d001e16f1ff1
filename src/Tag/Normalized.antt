-- ===== src/Tag/Normalized.antt =====
-- What `NormalizeTag` accepts, and the tags that it gives.
use mathlib.Core.List.{append_assoc}
use gameapctl.Base.{
  Text, true, false, ◌||◌, List, [], ◌∷◌, ◌++◌, ok, ℕ, is_empty, cons_head, keep_unless_blank,
  ==_iff, trim_left, trim_right, trim_space, is_space, split, is_digit, ◌==◌, ◌≡◌, ◌≢◌, refl, ◌∙◌,
  ap, inl, inr, All, arith, Bool-cases, if◌then◌else◌,
}
use gameapctl.Tag.{
  NormalizedTag, is_version_char, version_part, suffix_part, strip_v, has_empty, by_segments,
  normalize_stripped, normalize_tag,
}

version_part-append-suffix_part : (s : Text) → version_part s ++ suffix_part s ≡ s
unfolding version_part suffix_part
version_part-append-suffix_part [] = refl
version_part-append-suffix_part (c ∷ s) = ground (arith, version_part-append-suffix_part s)

-- What `Split` takes apart, `Join` puts together.
join_dot : List Text → Text
join_dot [] = []
join_dot (p ∷ []) = p
join_dot (p ∷ q ∷ ps) = p ++ b'.' ∷ join_dot (q ∷ ps)

join_dot-cons_head :
    (c : ℕ) (p : Text) (ps : List Text) → join_dot ((c ∷ p) ∷ ps) ≡ c ∷ join_dot (p ∷ ps)
unfolding join_dot
join_dot-cons_head c p [] = refl
join_dot-cons_head c p (q ∷ ps) = refl

split-ne-nil : (s : Text) → split b'.' s ≢ []
unfolding split
split-ne-nil [] h = cc
split-ne-nil (c ∷ s) h = ground arith

join_dot-nil : (ps : List Text) → ps ≢ [] → join_dot ([] ∷ ps) ≡ b'.' ∷ join_dot ps
unfolding join_dot
join_dot-nil [] h = absurd (h refl)
join_dot-nil (q ∷ ps) h = refl

join_dot-push :
    (c : ℕ) (s : Text) (ps : List Text)
    → ps ≢ []
    → join_dot ps ≡ s
    → join_dot (if c == b'.' then [] ∷ ps else cons_head c ps) ≡ c ∷ s
join_dot-push c s [] h e = absurd (h refl)
join_dot-push c s (p ∷ ps) h e = elim (Bool-cases (c == b'.')) [
  | inl dot ↦ rw (dot, (==_iff c b'.').0 dot) (join_dot-nil (p ∷ ps) h ∙ ap (λ t. b'.' ∷ t) e)
  | inr other ↦ rw other (join_dot-cons_head c p ps ∙ ap (λ t. c ∷ t) e)
]

join_dot-split : (s : Text) → join_dot (split b'.' s) ≡ s
unfolding split
join_dot-split [] = unfold join_dot in refl
join_dot-split (c ∷ s) = join_dot-push c s (split b'.' s) (split-ne-nil s) (join_dot-split s)

-- A segment of a version: one digit or more.
abbrev pub IsSegment : Text → Type 0
IsSegment p = (p ≢ []) × All (λ c. is_digit c ≡ true) p

-- The tags that `NormalizeTag` gives, by the segments that were written: the latest stable release,
-- the latest of a major or of a minor line, or one release.
pub data IsNormalized (t : NormalizedTag) : Type 0 where
  latest : t.full ≡ [] → t.prefix ≡ [] → IsNormalized t
  major_line :
      (major : Text)
      → IsSegment major
      → t.full ≡ []
      → t.prefix ≡ b'v' ∷ (major ++ b'.' ∷ [])
      → IsNormalized t
  minor_line :
      (major minor : Text)
      → IsSegment major
      → IsSegment minor
      → t.full ≡ []
      → t.prefix ≡ b'v' ∷ (major ++ b'.' ∷ (minor ++ b'.' ∷ []))
      → IsNormalized t
  pinned :
      (major minor patch suffix : Text)
      → IsSegment major
      → IsSegment minor
      → IsSegment patch
      → t.full ≡ b'v' ∷ (major ++ b'.' ∷ (minor ++ b'.' ∷ (patch ++ suffix)))
      → t.prefix ≡ []
      → IsNormalized t

abbrev pub AreDigits : Text → Type 0
AreDigits p = All (λ c. is_digit c ≡ true) p

digit-of-version_char : (c : ℕ) → is_version_char c ≡ true → (c == b'.') ≡ false → is_digit c ≡ true
unfolding is_version_char
digit-of-version_char c h k = ground arith

AreDigits-cons_head :
    (c : ℕ) (ps : List Text) → is_digit c ≡ true → All AreDigits ps → All AreDigits (cons_head c ps)
AreDigits-cons_head c [] h k = ((h, tt), tt)
AreDigits-cons_head c (q ∷ qs) h (k, ks) = ((h, k), ks)

AreDigits-push :
    (c : ℕ) (ps : List Text)
    → is_version_char c ≡ true
    → All AreDigits ps
    → All AreDigits (if c == b'.' then [] ∷ ps else cons_head c ps)
AreDigits-push c ps h hs = elim (Bool-cases (c == b'.')) [
  | inl dot ↦ rw dot (tt, hs)
  | inr other ↦ rw other (AreDigits-cons_head c ps (digit-of-version_char c h other) hs)
]

pub split-AreDigits :
    (s : Text) → All (λ c. is_version_char c ≡ true) s → All AreDigits (split b'.' s)
unfolding split
split-AreDigits [] h = (tt, tt)
split-AreDigits (c ∷ s) h = AreDigits-push c (split b'.' s) h.0 (split-AreDigits s h.1)

pub version_part-All : (s : Text) → All (λ c. is_version_char c ≡ true) (version_part s)
unfolding version_part
version_part-All [] = tt
version_part-All (c ∷ s) = elim (Bool-cases (is_version_char c)) [
  | inl kept ↦ rw kept (kept, version_part-All s)
  | inr other ↦ rw other tt
]

is_empty-ne : (p : Text) → is_empty p ≡ false → p ≢ []
is_empty-ne [] h = cc
is_empty-ne (c ∷ p) h = λ e. cc

pub segments : (ps : List Text) → has_empty ps ≡ false → All AreDigits ps → All IsSegment ps
unfolding has_empty
segments [] h k = tt
segments (p ∷ ps) h (k, ks) = ((is_empty-ne p (ground arith), k), segments ps (ground arith) ks)

by_segments-IsNormalized :
    (ps : List Text) (suffix : Text) (t : NormalizedTag)
    → All IsSegment ps
    → by_segments ps suffix ≡ ok t
    → IsNormalized t
unfolding by_segments
by_segments-IsNormalized (a ∷ []) suffix t h e = major_line a h.0 (ground arith) (ground arith)
by_segments-IsNormalized (a ∷ b ∷ []) suffix t h e =
    minor_line a b h.0 h.1.0 (ground arith) (ground arith)
by_segments-IsNormalized (a ∷ b ∷ c ∷ []) suffix t h e =
    pinned a b c suffix h.0 h.1.0 h.1.1.0 (ground arith) (ground arith)
by_segments-IsNormalized ps suffix t h e = cc

pub normalize_stripped-inversion :
    (s : Text) (t : NormalizedTag)
    → normalize_stripped s ≡ ok t
    → (has_empty (split b'.' (version_part s)) ≡ false)
      × (by_segments (split b'.' (version_part s)) (suffix_part s) ≡ ok t)
unfolding normalize_stripped
normalize_stripped-inversion s t e = ground arith

-- Every version string that is accepted gives one of four kinds of tag: the latest stable release
-- (both fields empty), the line of a major or of a minor version (only the prefix set, `v` and the
-- segments, each followed by a dot), or one pinned release (only the full tag set). The segments are
-- not empty and hold only digits.
pub normalize_tag-IsNormalized :
    (input : Text) (t : NormalizedTag) → normalize_tag input ≡ ok t → IsNormalized t
unfolding normalize_tag
normalize_tag-IsNormalized input t e = elim (Bool-cases (is_empty (trim_space input))) [
  | inl blank ↦ latest (ground arith) (ground arith)
  | inr given ↦
      let s = strip_v (trim_space input) in
      let (filled, chosen) = normalize_stripped-inversion s t (rw given at e) in
      by_segments-IsNormalized (split b'.' (version_part s)) (suffix_part s) t
        (segments _ filled (split-AreDigits _ (version_part-All s))) chosen
]

-- The full tag of a pinned release is `v` and the input, without its spaces and its own `v`.
by_segments-full :
    (ps : List Text) (suffix : Text) (t : NormalizedTag)
    → by_segments ps suffix ≡ ok t
    → t.full ≢ []
    → t.full ≡ b'v' ∷ (join_dot ps ++ suffix)
unfolding by_segments join_dot
by_segments-full (a ∷ []) suffix t e h = absurd (h (ground arith))
by_segments-full (a ∷ b ∷ []) suffix t e h = absurd (h (ground arith))
by_segments-full (a ∷ b ∷ c ∷ []) suffix t e h = simp append_assoc (ground arith)
by_segments-full ps suffix t e h = cc

pub full-normalize_tag :
    (input : Text) (t : NormalizedTag)
    → normalize_tag input ≡ ok t
    → t.full ≢ []
    → (t.full ≡ b'v' ∷ strip_v (trim_space input))
      × (normalize_stripped (strip_v (trim_space input)) ≡ ok t)
unfolding normalize_tag
full-normalize_tag input t e h = elim (Bool-cases (is_empty (trim_space input))) [
  | inl blank ↦ absurd (h (ground arith))
  | inr given ↦
      let s = strip_v (trim_space input) in
      let same : normalize_stripped s ≡ ok t = rw given at e in
      let (filled, chosen) = normalize_stripped-inversion s t same in
      (
        by_segments-full (split b'.' (version_part s)) (suffix_part s) t chosen h
            ∙ ap (λ u. b'v' ∷ (u ++ suffix_part s)) (join_dot-split (version_part s))
            ∙ ap (λ u. b'v' ∷ u) (version_part-append-suffix_part s),
        same,
      )
]

keep_unless_blank-trimmed :
    (c : ℕ) (r : Text)
    → trim_right r ≡ r
    → trim_right (keep_unless_blank c r) ≡ keep_unless_blank c r
unfolding trim_right
keep_unless_blank-trimmed c [] h = ground arith
keep_unless_blank-trimmed c (d ∷ r) h = ap (keep_unless_blank c) h

trim_right_idem : (s : Text) → trim_right (trim_right s) ≡ trim_right s
unfolding trim_right
trim_right_idem [] = refl
trim_right_idem (c ∷ s) = keep_unless_blank-trimmed c (trim_right s) (trim_right_idem s)

tail-trimmed : (c : ℕ) (r s : Text) → keep_unless_blank c r ≡ c ∷ s → r ≡ s
tail-trimmed c [] [] h = refl
tail-trimmed c [] (d ∷ s) h = ground arith
tail-trimmed c (e ∷ r) s h = cc

trim_space-trimmed : (s : Text) → trim_right (trim_space s) ≡ trim_space s
unfolding trim_space
trim_space-trimmed s = trim_right_idem (trim_left s)

trim_right-tail : (c : ℕ) (s : Text) → trim_right (c ∷ s) ≡ c ∷ s → trim_right s ≡ s
unfolding trim_right
trim_right-tail c s h = tail-trimmed c (trim_right s) s h

trim_right-strip_v : (s : Text) → trim_right s ≡ s → trim_right (strip_v s) ≡ strip_v s
unfolding strip_v
trim_right-strip_v [] h = h
trim_right-strip_v (c ∷ s) h = elim (Bool-cases (c == b'v' || c == b'V')) [
  | inl marked ↦ rw marked (trim_right-tail c s h)
  | inr plain ↦ rw plain h
]

trim_space-v : (s : Text) → trim_right s ≡ s → trim_space (b'v' ∷ s) ≡ b'v' ∷ s
unfolding trim_space trim_left is_space
trim_space-v [] h = unfold trim_right in refl
trim_space-v (c ∷ s) h = unfold trim_right in ap (keep_unless_blank b'v') h

normalize_tag-v : (s : Text) → trim_right s ≡ s → normalize_tag (b'v' ∷ s) ≡ normalize_stripped s
unfolding normalize_tag strip_v
normalize_tag-v s h = rw (normalize_tag, trim_space-v s h)

-- Normalizing is idempotent on pinned releases: the full tag that a version string gives is itself
-- accepted, and gives the same tag.
pub normalize_tag-full :
    (input : Text) (t : NormalizedTag)
    → normalize_tag input ≡ ok t
    → t.full ≢ []
    → normalize_tag t.full ≡ ok t
normalize_tag-full input t e h =
    let (same, stripped) = full-normalize_tag input t e h in
    ap normalize_tag same
    ∙ normalize_tag-v (strip_v (trim_space input))
        (trim_right-strip_v (trim_space input) (trim_space-trimmed input))
    ∙ stripped
