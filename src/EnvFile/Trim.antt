-- ===== src/EnvFile/Trim.antt =====
-- strings.TrimSpace on the pieces of a line.
use gameapctl.Base.{
  ℕ, Bool, true, false, not, [], ◌∷◌, ◌++◌, Text, ◌≡◌, refl, ap, ◌∙◌, arith, if◌then◌else◌, ◌==◌,
  is_space, trim_left, trim_right, trim_space, keep_unless_blank, Bool-cases, inl, inr, if-holds,
}
use gameapctl.EnvFile.{drop_cr}

abbrev pub starts_clear : Text → Bool
starts_clear [] = true
starts_clear (c ∷ s) = not (is_space c)

-- No blank at either end.
abbrev pub IsTrimmed : Text → Type 0
IsTrimmed s = (starts_clear s ≡ true) × (trim_right s ≡ s)

trim_left-starts_clear : (s : Text) → starts_clear (trim_left s) ≡ true
unfolding trim_left
trim_left-starts_clear [] = refl
trim_left-starts_clear (c ∷ s) =
    if-holds (λ (t : Text). starts_clear t ≡ true) (is_space c) (λ h. trim_left-starts_clear s)
      (λ h. rw h refl)

trim_left-clear : (s : Text) → starts_clear s ≡ true → trim_left s ≡ s
unfolding trim_left
trim_left-clear [] h = refl
trim_left-clear (c ∷ s) h = ground arith

keep-trim_right :
    (c : ℕ) (t : Text)
    → trim_right t ≡ t
    → trim_right (keep_unless_blank c t) ≡ keep_unless_blank c t
unfolding trim_right
keep-trim_right c [] h = ground arith
keep-trim_right c (d ∷ t) h = ap (keep_unless_blank c) h

trim_right_idem : (s : Text) → trim_right (trim_right s) ≡ trim_right s
unfolding trim_right
trim_right_idem [] = refl
trim_right_idem (c ∷ s) = keep-trim_right c (trim_right s) (trim_right_idem s)

keep-starts_clear :
    (c : ℕ) (t : Text) → not (is_space c) ≡ true → starts_clear (keep_unless_blank c t) ≡ true
keep-starts_clear c [] h = ground arith
keep-starts_clear c (d ∷ t) h = h

trim_right-starts_clear : (s : Text) → starts_clear s ≡ true → starts_clear (trim_right s) ≡ true
unfolding trim_right
trim_right-starts_clear [] h = refl
trim_right-starts_clear (c ∷ s) h = keep-starts_clear c (trim_right s) h

pub trim_space-IsTrimmed : (s : Text) → IsTrimmed (trim_space s)
unfolding trim_space
trim_space-IsTrimmed s = (
  trim_right-starts_clear (trim_left s) (trim_left-starts_clear s),
  trim_right_idem (trim_left s),
)

pub IsTrimmed-trim_space : (s : Text) → IsTrimmed s → trim_space s ≡ s
unfolding trim_space
IsTrimmed-trim_space s (clear, kept) = ap trim_right (trim_left-clear s clear) ∙ kept

keep-nonempty :
    (c : ℕ) (k : Text) (d : ℕ) (t : Text) → keep_unless_blank c (k ++ (d ∷ t)) ≡ c ∷ k ++ (d ∷ t)
keep-nonempty c [] d t = refl
keep-nonempty c (e ∷ k) d t = refl

trim_right-append :
    (k : Text) (d : ℕ) (t : Text)
    → trim_right (d ∷ t) ≡ d ∷ t
    → trim_right (k ++ (d ∷ t)) ≡ k ++ (d ∷ t)
unfolding trim_right
trim_right-append [] d t h = h
trim_right-append (c ∷ k) d t h =
    ap (keep_unless_blank c) (trim_right-append k d t h) ∙ keep-nonempty c k d t

keep_equals : (v : Text) → keep_unless_blank b'=' v ≡ b'=' ∷ v
unfolding is_space
keep_equals [] = refl
keep_equals (c ∷ v) = refl

starts_clear-equals : (k v : Text) → starts_clear k ≡ true → starts_clear (k ++ (b'=' ∷ v)) ≡ true
unfolding is_space
starts_clear-equals [] v h = refl
starts_clear-equals (c ∷ k) v h = h

pub IsTrimmed-equals : (k v : Text) → IsTrimmed k → IsTrimmed v → IsTrimmed (k ++ (b'=' ∷ v))
unfolding trim_right
IsTrimmed-equals k v hk hv = (
  starts_clear-equals k v hk.0,
  trim_right-append k b'=' v (ap (keep_unless_blank b'=') hv.1 ∙ keep_equals v),
)

trim_right-drop_cr : (s : Text) → trim_right (drop_cr s) ≡ trim_right s
unfolding trim_right drop_cr is_space
trim_right-drop_cr [] = refl
trim_right-drop_cr (c ∷ []) = ground arith
trim_right-drop_cr (c ∷ d ∷ s) = ap (keep_unless_blank c) (trim_right-drop_cr (d ∷ s))

cr-is_space : (c : ℕ) → (c == b'\r') ≡ true → is_space c ≡ true
unfolding is_space
cr-is_space c h = ground arith

blank_cr :
    (c : ℕ) (b : Bool)
    → (b ≡ true → is_space c ≡ true)
    → trim_space (if b then [] else c ∷ []) ≡ trim_space (c ∷ [])
unfolding trim_space trim_left trim_right
blank_cr c true h = rw (h refl) refl
blank_cr c false h = refl

pub trim_space-drop_cr : (s : Text) → trim_space (drop_cr s) ≡ trim_space s
unfolding trim_space trim_left drop_cr trim_right
trim_space-drop_cr [] = refl
trim_space-drop_cr (c ∷ []) = blank_cr c (c == b'\r') (cr-is_space c)
trim_space-drop_cr (c ∷ d ∷ s) = elim (Bool-cases (is_space c)) [
  | inl h ↦ rw h (trim_space-drop_cr (d ∷ s))
  | inr h ↦ rw h (ap (keep_unless_blank c) (trim_right-drop_cr (d ∷ s)))
]
