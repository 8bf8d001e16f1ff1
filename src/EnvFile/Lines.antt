-- ===== src/EnvFile/Lines.antt =====
-- A line that `writeEnv` prints, as `readEnv` parses it.
use gameapctl.Base.{
  true, false, [], ◌∷◌, some, none, Text, ◌≡◌, refl, arith, trim_space, contains_char, has_prefix,
}
use gameapctl.EnvFile.{before, after, is_skipped, entry_of, parse_line, assignment}
use gameapctl.EnvFile.Trim.{IsTrimmed, IsTrimmed-trim_space, IsTrimmed-equals}

-- A key that can stand in a file: trimmed, without "=", and no start of a comment.
pub record IsKey (k : Text) : Type 0 where
  pub trimmed : IsTrimmed k
  pub no_equals : contains_char k b'=' ≡ false
  pub no_comment : has_prefix k (b'#' ∷ []) ≡ false

before-assignment : (k v : Text) → contains_char k b'=' ≡ false → before b'=' (assignment k v) ≡ k
unfolding before contains_char
before-assignment [] v h = refl
before-assignment (c ∷ k) v h = ground (arith, before-assignment k v)

after-assignment : (k v : Text) → contains_char k b'=' ≡ false → after b'=' (assignment k v) ≡ v
unfolding after contains_char
after-assignment [] v h = refl
after-assignment (c ∷ k) v h = ground (arith, after-assignment k v)

contains_char-assignment : (k v : Text) → contains_char (assignment k v) b'=' ≡ true
unfolding contains_char
contains_char-assignment [] v = refl
contains_char-assignment (c ∷ k) v = ground (arith, contains_char-assignment k v)

is_skipped-assignment :
    (k v : Text) → has_prefix k (b'#' ∷ []) ≡ false → is_skipped (assignment k v) ≡ false
unfolding is_skipped has_prefix
is_skipped-assignment [] v h = ground (arith, contains_char-assignment [] v)
is_skipped-assignment (c ∷ k) v h = ground (arith, contains_char-assignment (c ∷ k) v)

pub parse_line-assignment :
    (k v : Text) → IsKey k → IsTrimmed v → parse_line (assignment k v) ≡ some (k, v)
unfolding parse_line entry_of
parse_line-assignment k v hk hv =
    rw
      (
        IsTrimmed-trim_space (assignment k v) (IsTrimmed-equals k v hk.trimmed hv),
        is_skipped-assignment k v hk.no_comment,
        before-assignment k v hk.no_equals,
        after-assignment k v hk.no_equals,
        IsTrimmed-trim_space k hk.trimmed,
        IsTrimmed-trim_space v hv,
      )
      refl

pub parse_line_blank : parse_line [] ≡ none
unfolding parse_line is_skipped trim_space
parse_line_blank = refl
