-- ===== src/EnvFile/Checks.antt =====
-- A test of updates by computation.
use gameapctl.Base.{
  Bool, true, false, not, ◌&&◌, Option, none, some, [], ◌∷◌, Text, text_eq, text_eq_iff, ◌≡◌, refl,
  trim_right, contains_char, has_prefix,
}
use gameapctl.EnvFile.{Env, get}
use gameapctl.EnvFile.Trim.{starts_clear, IsTrimmed}
use gameapctl.EnvFile.Lines.{IsKey}
use gameapctl.EnvFile.Rewrites.{AreUpdates}
use gameapctl.EnvFile.Files.{AreLines}

abbrev is_trimmed : Text → Bool
unfolding text_eq trim_right
is_trimmed s = starts_clear s && text_eq (trim_right s) s

abbrev is_key : Text → Bool
unfolding is_trimmed contains_char has_prefix
is_key k = is_trimmed k && not (contains_char k b'=') && not (has_prefix k (b'#' ∷ []))

abbrev is_none : Option Text → Bool
is_none none = true
is_none (some v) = false

abbrev is_line : Text → Bool
unfolding contains_char
is_line s = not (contains_char s b'\n')

unfoldable pub fits : Env → Bool
unfolding is_key is_trimmed is_line get
fits [] = true
fits (e ∷ m) =
    is_key e.0 && is_trimmed e.1 && is_line e.0 && is_line e.1 && is_none (get e.0 m) && fits m

and_both : (a b : Bool) → (a && b) ≡ true → (a ≡ true) × (b ≡ true)
and_both true true h = (refl, refl)
and_both true false h = cc
and_both false b h = cc

negated_eq : (b : Bool) → not b ≡ true → b ≡ false
negated_eq true h = cc
negated_eq false h = refl

is_trimmed-IsTrimmed : (s : Text) → is_trimmed s ≡ true → IsTrimmed s
unfolding is_trimmed
is_trimmed-IsTrimmed s h =
    let (clear, same) = and_both (starts_clear s) _ h in
    (clear, (text_eq_iff (trim_right s) s).0 same)

is_key-IsKey : (k : Text) → is_key k ≡ true → IsKey k
unfolding is_key
is_key-IsKey k h =
    let (rest, no_comment) = and_both _ (not (has_prefix k (b'#' ∷ []))) h in
    let (trim, no_equals) = and_both (is_trimmed k) (not (contains_char k b'=')) rest in
    record {
      trimmed = is_trimmed-IsTrimmed k trim;
      no_equals = negated_eq _ no_equals;
      no_comment = negated_eq _ no_comment;
    }

is_none_eq : (o : Option Text) → is_none o ≡ true → o ≡ none
is_none_eq none h = refl
is_none_eq (some v) h = cc

pub fits-AreUpdates : (m : Env) → fits m ≡ true → AreUpdates m × AreLines m
unfolding fits is_line
fits-AreUpdates [] h = (tt, tt)
fits-AreUpdates ((k, v) ∷ m) h =
    let (h₁, rest) = and_both _ (fits m) h in
    let (h₂, fresh) = and_both _ (is_none (get k m)) h₁ in
    let (h₃, v_line) = and_both _ (is_line v) h₂ in
    let (h₄, k_line) = and_both _ (is_line k) h₃ in
    let (key, value) = and_both (is_key k) (is_trimmed v) h₄ in
    let (updates, lines) = fits-AreUpdates m rest in
    (
      (is_key-IsKey k key, is_trimmed-IsTrimmed v value, is_none_eq _ fresh, updates),
      ((negated_eq _ k_line, negated_eq _ v_line), lines),
    )
