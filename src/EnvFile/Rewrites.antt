-- ===== src/EnvFile/Rewrites.antt =====
-- The values in a file that `writeEnv` has rewritten.
use gameapctl.Base.{
  Bool, true, false, Option, List, [], ◌∷◌, some, none, map, Text, ◌≡◌, refl, ap, ◌∙◌, arith,
  if◌then◌else◌, text_eq, text_eq_iff, Bool-cases, inl, inr, subst,
}
use gameapctl.EnvFile.{
  Env, get, parse_line, remove_marker, assignment, with_value, with_update, rewrite_entry,
  rewrite_line,
}
use gameapctl.EnvFile.Trim.{IsTrimmed}
use gameapctl.EnvFile.Lines.{IsKey, parse_line-assignment, parse_line_blank}
use gameapctl.EnvFile.Values.{or_else, value_in, last_value}

-- What the updates can be: their keys and values can stand in a file, and no key comes twice.
abbrev pub AreUpdates : Env → Type 0
AreUpdates [] = Unit
AreUpdates (e ∷ m) = IsKey e.0 × IsTrimmed e.1 × (get e.0 m ≡ none) × AreUpdates m

pub get_head :
    (k key w : Text) (m : Env) (v : Text)
    → text_eq k key ≡ true
    → get key ((k, w) ∷ m) ≡ some v
    → (k ≡ key) × (w ≡ v)
unfolding get
get_head k key w m v same e = ((text_eq_iff k key).0 same, ground arith)

pub get-AreUpdates :
    (key v : Text) (m : Env) → AreUpdates m → get key m ≡ some v → IsKey key × IsTrimmed v
unfolding get
get-AreUpdates key v [] h e = cc
get-AreUpdates key v ((k, w) ∷ m) (hk, hw, _, hm) e = elim (Bool-cases (text_eq k key)) [
  | inl same ↦
      let (keys, values) = get_head k key w m v same e in
      (subst IsKey keys hk, subst IsTrimmed values hw)
  | inr other ↦ get-AreUpdates key v m hm (ground arith)
]

-- The value that an update leaves, the marker none.
abbrev pub kept : Text → Option Text
kept v = if text_eq v remove_marker then none else some v

-- The value of a key after the updates, when it was `old`.
abbrev pub updated : Option Text → Option Text → Option Text
updated none old = old
updated (some v) old = kept v

-- The same for a line, which has a value only if it had one before.
abbrev pub line_updated : Option Text → Option Text → Option Text
line_updated u none = none
line_updated u (some w) = updated u (some w)

value_in_marked :
    (key k w : Text) (marked : Bool)
    → IsKey k
    → IsTrimmed w
    → value_in key (parse_line (if marked then [] else assignment k w))
      ≡ (if text_eq k key then (if marked then none else some w) else none)
value_in_marked key k w true hk hw = rw parse_line_blank (ground arith)
value_in_marked key k w false hk hw = rw (parse_line-assignment k w hk hw) refl

value_in-with_value :
    (key k raw w : Text)
    → IsKey k
    → IsTrimmed w
    → value_in key (parse_line (with_value raw k w)) ≡ (if text_eq k key then kept w else none)
unfolding with_value
value_in-with_value key k raw w = value_in_marked key k w (text_eq w remove_marker)

value_in-with_update :
    (key k raw w : Text) (updates : Env) (o : Option Text)
    → AreUpdates updates
    → get k updates ≡ o
    → parse_line raw ≡ some (k, w)
    → value_in key (parse_line (with_update raw k o))
      ≡ (if text_eq k key then updated o (some w) else none)
value_in-with_update key k raw w updates none h e p = rw p refl
value_in-with_update key k raw w updates (some v) h e p =
    let (hk, hv) = get-AreUpdates k v updates h e in value_in-with_value key k raw v hk hv

same_update :
    (key k w : Text) (updates : Env)
    → (if text_eq k key then updated (get k updates) (some w) else none)
      ≡ line_updated (get key updates) (if text_eq k key then some w else none)
same_update key k w updates = elim (Bool-cases (text_eq k key)) [
  | inl same ↦ rw (same) (ap (λ j. updated (get j updates) (some w)) ((text_eq_iff k key).0 same))
  | inr other ↦ rw other refl
]

value_in-rewrite_entry :
    (key raw : Text) (updates : Env) (p : Option (Text × Text))
    → AreUpdates updates
    → parse_line raw ≡ p
    → value_in key (parse_line (rewrite_entry updates raw p))
      ≡ line_updated (get key updates) (value_in key p)
unfolding rewrite_entry
value_in-rewrite_entry key raw updates none h e = rw e refl
value_in-rewrite_entry key raw updates (some (k, w)) h e =
    value_in-with_update key k raw w updates (get k updates) h refl e ∙ same_update key k w updates

value_in-rewrite_line :
    (key raw : Text) (updates : Env)
    → AreUpdates updates
    → value_in key (parse_line (rewrite_line updates raw))
      ≡ line_updated (get key updates) (value_in key (parse_line raw))
unfolding rewrite_line
value_in-rewrite_line key raw updates h =
    value_in-rewrite_entry key raw updates (parse_line raw) h refl

or_else-line_updated :
    (u a b : Option Text)
    → or_else (line_updated u a) (line_updated u b) ≡ line_updated u (or_else a b)
or_else-line_updated u none b = refl
or_else-line_updated none (some w) b = refl
or_else-line_updated (some v) (some w) none = ground arith
or_else-line_updated (some v) (some w) (some x) = ground arith

-- The lines that were there, as the loop of `writeEnv` leaves them.
pub last_value-rewrite_line :
    (key : Text) (updates : Env) (lines : List Text)
    → AreUpdates updates
    → last_value key (map (rewrite_line updates) lines)
      ≡ line_updated (get key updates) (last_value key lines)
unfolding last_value
last_value-rewrite_line key updates [] h = refl
last_value-rewrite_line key updates (line ∷ lines) h =
    rw (last_value-rewrite_line key updates lines h, value_in-rewrite_line key line updates h)
      (or_else-line_updated (get key updates) (last_value key lines)
        (value_in key (parse_line line)))
