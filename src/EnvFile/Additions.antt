-- ===== src/EnvFile/Additions.antt =====
-- The lines that `writeEnv` adds, and the values in the whole of what it writes.
use gameapctl.Base.{
  Bool, true, false, not, ◌||◌, Option, List, [], ◌∷◌, some, none, map, Text, ◌≡◌, ◌≢◌, refl, sym,
  ap, ◌∙◌, arith, if◌then◌else◌, text_eq, text_eq_iff, Bool-cases, inl, inr, text_eq_refl,
}
use gameapctl.EnvFile.{
  Env, get, parse_line, remove_marker, assignment, rewrite_line, is_entry_of, is_seen, missing_keys,
  insert_key, sort_keys, or_nothing, new_line, write_lines,
}
use gameapctl.EnvFile.Lines.{parse_line-assignment}
use gameapctl.EnvFile.Values.{or_else, value_in, last_value, last_value-append}
use gameapctl.EnvFile.Rewrites.{
  AreUpdates, get-AreUpdates, updated, line_updated, last_value-rewrite_line,
}

abbrev pub member : Text → List Text → Bool
member key [] = false
member key (k ∷ ks) = text_eq k key || member key ks

member-insert_key :
    (key k : Text) (ks : List Text) → member key (insert_key k ks) ≡ text_eq k key || member key ks
unfolding insert_key
member-insert_key key k [] = refl
member-insert_key key k (x ∷ xs) = ground (arith, member-insert_key key k xs)

pub member-sort_keys : (key : Text) (ks : List Text) → member key (sort_keys ks) ≡ member key ks
unfolding sort_keys
member-sort_keys key [] = refl
member-sort_keys key (k ∷ ks) =
    ground (arith, member-insert_key key k (sort_keys ks), member-sort_keys key ks)

-- Whether a key with this update is to be added.
abbrev is_missing : Bool → Option Text → Bool
is_missing seen none = false
is_missing seen (some v) = not (seen || text_eq v remove_marker)

pub get_at : (k key w : Text) (m : Env) → k ≡ key → get key ((k, w) ∷ m) ≡ some w
unfolding get
get_at k key w m e = rw ((text_eq_iff k key).1 e) refl

pub get_other :
    (k key w : Text) (m : Env) → text_eq k key ≡ false → get key ((k, w) ∷ m) ≡ get key m
unfolding get
get_other k key w m e = rw e refl

member_same :
    (key k : Text) (b : Bool) (rest : List Text)
    → text_eq k key ≡ true
    → member key rest ≡ false
    → member key (if b then rest else k ∷ rest) ≡ not b
member_same key k b rest same h = ground arith

member_other :
    (key k : Text) (b : Bool) (rest : List Text)
    → text_eq k key ≡ false
    → member key (if b then rest else k ∷ rest) ≡ member key rest
member_other key k b rest other = ground arith

member-missing_keys :
    (key : Text) (lines : List Text) (updates : Env)
    → AreUpdates updates
    → member key (missing_keys lines updates) ≡ is_missing (is_seen key lines) (get key updates)
unfolding missing_keys get
member-missing_keys key lines [] h = refl
member-missing_keys key lines ((k, w) ∷ m) (_, _, fresh, hm) =
    let rest = member-missing_keys key lines m hm in
    elim (Bool-cases (text_eq k key)) [
      | inl same ↦
          let keys = (text_eq_iff k key).0 same in
          let alone =
            rest ∙ ap (is_missing (is_seen key lines)) (ap (λ j. get j m) (sym keys) ∙ fresh) in
          rw same (
            member_same key k _ (missing_keys lines m) same alone
            ∙ ap (λ j. not (is_seen j lines || text_eq w remove_marker)) keys)
      | inr other ↦ rw other (member_other key k _ (missing_keys lines m) other ∙ rest)
    ]

or_else_members :
    (e m : Bool) (o : Option Text)
    → or_else (if m then o else none) (if e then o else none) ≡ (if e || m then o else none)
or_else_members e m none = ground arith
or_else_members e m (some v) = ground arith

value_in-new_line :
    (key k : Text) (updates : Env) (o : Option Text)
    → AreUpdates updates
    → get k updates ≡ o
    → o ≢ none
    → value_in key (parse_line (assignment k (or_nothing o))) ≡ (if text_eq k key then o else none)
value_in-new_line key k updates none h e some_update = absurd (some_update refl)
value_in-new_line key k updates (some v) h e some_update =
    let (hk, hv) = get-AreUpdates k v updates h e in rw (parse_line-assignment k v hk hv) refl

get_same :
    (key k : Text) (updates : Env)
    → (if text_eq k key then get k updates else none)
      ≡ (if text_eq k key then get key updates else none)
get_same key k updates = elim (Bool-cases (text_eq k key)) [
  | inl same ↦ rw same (ap (λ j. get j updates) ((text_eq_iff k key).0 same))
  | inr other ↦ rw other refl
]

-- The lines that are added.
pub last_value-new_line :
    (key : Text) (updates : Env) (ks : List Text)
    → AreUpdates updates
    → ((k : Text) → member k ks ≡ true → get k updates ≢ none)
    → last_value key (map (new_line updates) ks) ≡ (if member key ks then get key updates else none)
unfolding last_value new_line
last_value-new_line key updates [] h new = refl
last_value-new_line key updates (k ∷ ks) h new =
    let rest = last_value-new_line key updates ks h (λ j in_ks. new j (ground arith)) in
    let here =
      value_in-new_line key k updates (get k updates) h refl
        (new k (ground (arith, text_eq_refl k))) in
    rw (rest, here, get_same key k updates)
      (or_else_members (text_eq k key) (member key ks) (get key updates))

is_entry_of-value_in :
    (key : Text) (p : Option (Text × Text)) → is_entry_of key p ≡ true → value_in key p ≢ none
unfolding is_entry_of
is_entry_of-value_in key none h = cc
is_entry_of-value_in key (some (k, v)) h = rw h (λ e. cc)

or_else-none : (a b : Option Text) → or_else a b ≡ none → (a ≡ none) × (b ≡ none)
or_else-none none b h = (refl, h)
or_else-none (some v) b h = cc

is_seen-last_value :
    (key : Text) (lines : List Text) → is_seen key lines ≡ true → last_value key lines ≢ none
unfolding is_seen last_value
is_seen-last_value key [] h e = cc
is_seen-last_value key (line ∷ lines) h e =
    let (later, here) = or_else-none (last_value key lines) (value_in key (parse_line line)) e in
    elim (Bool-cases (is_entry_of key (parse_line line))) [
      | inl found ↦ is_entry_of-value_in key (parse_line line) found here
      | inr other ↦ is_seen-last_value key lines (ground arith) later
    ]

added :
    (o old : Option Text) (seen : Bool)
    → (seen ≡ true → old ≢ none)
    → or_else (if is_missing seen o then o else none) (line_updated o old) ≡ updated o old
added none none seen h = refl
added none (some w) seen h = refl
added (some v) none true h = absurd (h refl refl)
added (some v) none false h = ground arith
added (some v) (some w) seen h = ground arith

pub missing-get :
    (k : Text) (lines : List Text) (updates : Env)
    → AreUpdates updates
    → member k (sort_keys (missing_keys lines updates)) ≡ true
    → get k updates ≢ none
missing-get k lines updates h in_keys e =
    let same =
      member-sort_keys k (missing_keys lines updates) ∙ member-missing_keys k lines updates h in
    let none_missing = same ∙ ap (is_missing (is_seen k lines)) e in cc

-- In what `writeEnv` writes, a key has the value of its update, none if the update removes it, and
-- without an update the value it had.
pub last_value-write_lines :
    (key : Text) (lines : List Text) (updates : Env)
    → AreUpdates updates
    → last_value key (write_lines lines updates) ≡ updated (get key updates) (last_value key lines)
unfolding write_lines
last_value-write_lines key lines updates h =
    let missing = missing_keys lines updates in
    let new =
      last_value-new_line key updates (sort_keys missing) h (λ k. missing-get k lines updates h) in
    last_value-append key (map (rewrite_line updates) lines)
      (map (new_line updates) (sort_keys missing))
    ∙ rw
        (
          new,
          last_value-rewrite_line key updates lines h,
          member-sort_keys key missing,
          member-missing_keys key lines updates h,
        )
        (added (get key updates) (last_value key lines) (is_seen key lines)
          (is_seen-last_value key lines))
