-- ===== src/EnvFile/Files.antt =====
-- `readEnv` after `writeEnv`.
use gameapctl.Base.{
  ℕ, true, ◌||◌, Option, List, [], ◌∷◌, ◌++◌, some, none, map, All, All-append, Text, ◌≡◌, ◌≢◌, ok,
  refl, sym, ap, ◌∙◌, arith, text_eq, text_eq_refl, Bool-cases, inl, inr, if-holds, join,
  contains_char, subst,
}
use gameapctl.EnvFile.{
  Env, get, parse_line, with_value, with_update, rewrite_entry, remove_marker, rewrite_line,
  missing_keys, sort_keys, or_nothing, new_line, write_lines, written, scan_lines, read_values,
  assignment, ReadEnv, read_env, holds, is_scannable,
}
use gameapctl.EnvFile.Values.{get_values}
use gameapctl.EnvFile.Rewrites.{AreUpdates, updated, get_head}
use gameapctl.EnvFile.Additions.{last_value-write_lines, member, missing-get}
use gameapctl.EnvFile.Scans.{IsLine, last_value-scan_lines, scan_lines-IsLine}

-- No key and no value of the updates has a line break.
abbrev pub AreLines : Env → Type 0
AreLines = All (λ e. IsLine e.0 × IsLine e.1)

contains_char-append :
    (s t : Text) (c : ℕ) → contains_char (s ++ t) c ≡ contains_char s c || contains_char t c
unfolding contains_char
contains_char-append [] t c = refl
contains_char-append (d ∷ s) t c = ground (arith, contains_char-append s t c)

assignment-IsLine : (k v : Text) → IsLine k → IsLine v → IsLine (assignment k v)
unfolding contains_char
assignment-IsLine k v hk hv = contains_char-append k (b'=' ∷ v) b'\n' ∙ ground arith

get-AreLines : (key v : Text) (m : Env) → AreLines m → get key m ≡ some v → IsLine key × IsLine v
unfolding get
get-AreLines key v [] h e = cc
get-AreLines key v ((k, w) ∷ m) ((hk, hw), hm) e = elim (Bool-cases (text_eq k key)) [
  | inl same ↦
      let (keys, values) = get_head k key w m v same e in
      (subst IsLine keys hk, subst IsLine values hw)
  | inr other ↦ get-AreLines key v m hm (ground arith)
]

with_value-IsLine : (raw k v : Text) → IsLine k → IsLine v → IsLine (with_value raw k v)
unfolding with_value contains_char
with_value-IsLine raw k v hk hv =
    if-holds IsLine (text_eq v remove_marker) (λ e. refl) (λ e. assignment-IsLine k v hk hv)

with_update-IsLine :
    (raw k : Text) (updates : Env) (o : Option Text)
    → AreLines updates
    → IsLine raw
    → get k updates ≡ o
    → IsLine (with_update raw k o)
with_update-IsLine raw k updates none h line e = line
with_update-IsLine raw k updates (some v) h line e =
    let (hk, hv) = get-AreLines k v updates h e in with_value-IsLine raw k v hk hv

rewrite_entry-IsLine :
    (raw : Text) (updates : Env) (p : Option (Text × Text))
    → AreLines updates
    → IsLine raw
    → IsLine (rewrite_entry updates raw p)
unfolding rewrite_entry
rewrite_entry-IsLine raw updates none h line = line
rewrite_entry-IsLine raw updates (some (k, w)) h line =
    with_update-IsLine raw k updates (get k updates) h line refl

map-rewrite_line-IsLine :
    (lines : List Text) (updates : Env)
    → AreLines updates
    → All IsLine lines
    → All IsLine (map (rewrite_line updates) lines)
unfolding rewrite_line
map-rewrite_line-IsLine [] updates h hl = tt
map-rewrite_line-IsLine (line ∷ lines) updates h (hl, hls) = (
  rewrite_entry-IsLine line updates (parse_line line) h hl,
  map-rewrite_line-IsLine lines updates h hls,
)

missing-IsLine :
    (k : Text) (updates : Env) (o : Option Text)
    → AreLines updates
    → o ≢ none
    → get k updates ≡ o
    → IsLine (assignment k (or_nothing o))
missing-IsLine k updates none h new e = absurd (new refl)
missing-IsLine k updates (some v) h new e =
    let (hk, hv) = get-AreLines k v updates h e in assignment-IsLine k v hk hv

map-new_line-IsLine :
    (ks : List Text) (updates : Env)
    → AreLines updates
    → ((k : Text) → member k ks ≡ true → get k updates ≢ none)
    → All IsLine (map (new_line updates) ks)
unfolding new_line
map-new_line-IsLine [] updates h new = tt
map-new_line-IsLine (k ∷ ks) updates h new = (
  missing-IsLine k updates (get k updates) h (new k (ground (arith, text_eq_refl k))) refl,
  map-new_line-IsLine ks updates h (λ j in_ks. new j (ground arith)),
)

write_lines-IsLine :
    (lines : List Text) (updates : Env)
    → AreUpdates updates
    → AreLines updates
    → All IsLine lines
    → All IsLine (write_lines lines updates)
unfolding write_lines
write_lines-IsLine lines updates h hu hl =
    All-append IsLine (map (rewrite_line updates) lines) _
      (map-rewrite_line-IsLine lines updates hu hl)
      (map-new_line-IsLine (sort_keys (missing_keys lines updates)) updates hu
        (λ k. missing-get k lines updates h))

-- What `readEnv` finds for a key in a text.
abbrev pub value_of : Text → Text → Option Text
value_of key s = get key (read_values [] (scan_lines s))

-- Every key has the value of its update in the written text.
pub value_of-written :
    (key s : Text) (updates : Env)
    → AreUpdates updates
    → AreLines updates
    → value_of key (written (scan_lines s) updates) ≡ updated (get key updates) (value_of key s)
unfolding written
value_of-written key s updates h hu =
    let out = write_lines (scan_lines s) updates in
    get_values key (scan_lines (join (b'\n' ∷ []) out))
    ∙ last_value-scan_lines key out
        (write_lines-IsLine (scan_lines s) updates h hu (scan_lines-IsLine s))
    ∙ last_value-write_lines key (scan_lines s) updates h
    ∙ ap (updated (get key updates)) (sym (get_values key (scan_lines s)))

-- Reading a file with `readEnv` after `writeEnv` has written it from what `readEnv` found, if no line of
-- the old or the new text is too long for the scanner: it succeeds, and every key has the value of its
-- update, none if the update removes it, and without an update the value it had. The keys of the
-- updates are trimmed, distinct, without "=" and start no comment, their values are trimmed, and both
-- are without a line break.
pub read_env-written :
    (s : Text) (updates : Env)
    → AreUpdates updates
    → AreLines updates
    → is_scannable s ≡ true
    → is_scannable (written (scan_lines s) updates) ≡ true
    → (before : ReadEnv) × (later : ReadEnv) × (read_env (holds s) ≡ ok before)
      × (read_env (holds (written before.lines updates)) ≡ ok later)
      × ((key : Text) → get key later.values ≡ updated (get key updates) (get key before.values))
unfolding read_env
read_env-written s updates h hu short short' =
    let old : ReadEnv = record { lines = scan_lines s; values = read_values [] (scan_lines s) } in
    let out = written (scan_lines s) updates in
    let new : ReadEnv = record {
      lines = scan_lines out;
      values = read_values [] (scan_lines out);
    } in
    (old, new, rw short refl, rw short' refl, λ key. value_of-written key s updates h hu)
