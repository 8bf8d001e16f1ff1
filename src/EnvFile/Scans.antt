-- ===== src/EnvFile/Scans.antt =====
-- How the lines of a file, joined, are scanned.
use mathlib.Core.List.{append_assoc}
use gameapctl.Base.{
  ℕ, false, List, [], ◌∷◌, ◌++◌, map, All, Text, ◌≡◌, refl, ap, ◌∙◌, arith, if-holds, ◌==◌, split,
  join, cons_head, contains_char, is_empty,
}
use gameapctl.EnvFile.{parse_line, scan_lines, drop_cr, drop_last_empty}
use gameapctl.EnvFile.Trim.{trim_space-drop_cr}
use gameapctl.EnvFile.Lines.{parse_line_blank}
use gameapctl.EnvFile.Values.{or_else, value_in, last_value}

abbrev pub IsLine : Text → Type 0
IsLine s = contains_char s b'\n' ≡ false

split-append : (l s : Text) → IsLine l → split b'\n' (l ++ (b'\n' ∷ s)) ≡ l ∷ split b'\n' s
unfolding split contains_char
split-append [] s h = refl
split-append (c ∷ l) s h = ground (arith, split-append l s)

split-line : (l : Text) → IsLine l → split b'\n' l ≡ l ∷ []
unfolding split contains_char
split-line [] h = refl
split-line (c ∷ l) h = ground (arith, split-line l)

split-join :
    (l : Text) (ls : List Text)
    → All IsLine (l ∷ ls)
    → split b'\n' (join (b'\n' ∷ []) (l ∷ ls)) ≡ l ∷ ls
unfolding join
split-join l [] h = split-line l h.0
split-join l (m ∷ ls) h =
    ap (split b'\n') (append_assoc l (b'\n' ∷ []) (join (b'\n' ∷ []) (m ∷ ls)))
    ∙ split-append l (join (b'\n' ∷ []) (m ∷ ls)) h.0
    ∙ ap (λ r. l ∷ r) (split-join m ls h.1)

cons_head-IsLine :
    (c : ℕ) (ls : List Text) → (c == b'\n') ≡ false → All IsLine ls → All IsLine (cons_head c ls)
unfolding contains_char
cons_head-IsLine c [] other h = (ground arith, tt)
cons_head-IsLine c (l ∷ ls) other h = (ground arith, h.1)

pub split-IsLine : (s : Text) → All IsLine (split b'\n' s)
unfolding split contains_char
split-IsLine [] = (refl, tt)
split-IsLine (c ∷ s) =
    if-holds (All IsLine) (c == b'\n') (λ e. (refl, split-IsLine s))
      (λ e. cons_head-IsLine c (split b'\n' s) e (split-IsLine s))

drop_cr-IsLine : (s : Text) → IsLine s → IsLine (drop_cr s)
unfolding drop_cr contains_char
drop_cr-IsLine [] h = refl
drop_cr-IsLine (c ∷ []) h = ground arith
drop_cr-IsLine (c ∷ d ∷ s) h = ground (arith, drop_cr-IsLine (d ∷ s))

drop_last_empty-IsLine : (ls : List Text) → All IsLine ls → All IsLine (drop_last_empty ls)
unfolding drop_last_empty
drop_last_empty-IsLine [] h = tt
drop_last_empty-IsLine (l ∷ []) h = if-holds (All IsLine) (is_empty l) (λ e. tt) (λ e. h)
drop_last_empty-IsLine (l ∷ m ∷ ls) h = (h.0, drop_last_empty-IsLine (m ∷ ls) h.1)

map-drop_cr-IsLine : (ls : List Text) → All IsLine ls → All IsLine (map drop_cr ls)
map-drop_cr-IsLine [] h = tt
map-drop_cr-IsLine (l ∷ ls) h = (drop_cr-IsLine l h.0, map-drop_cr-IsLine ls h.1)

pub scan_lines-IsLine : (s : Text) → All IsLine (scan_lines s)
unfolding scan_lines
scan_lines-IsLine s =
    map-drop_cr-IsLine (drop_last_empty (split b'\n' s))
      (drop_last_empty-IsLine (split b'\n' s) (split-IsLine s))

parse_line-drop_cr : (l : Text) → parse_line (drop_cr l) ≡ parse_line l
unfolding parse_line
parse_line-drop_cr l = rw (trim_space-drop_cr l) refl

last_value-drop_cr :
    (key : Text) (ls : List Text) → last_value key (map drop_cr ls) ≡ last_value key ls
unfolding last_value
last_value-drop_cr key [] = refl
last_value-drop_cr key (l ∷ ls) = rw (last_value-drop_cr key ls, parse_line-drop_cr l) refl

last_value-drop_last_empty :
    (key : Text) (ls : List Text) → last_value key (drop_last_empty ls) ≡ last_value key ls
unfolding last_value drop_last_empty
last_value-drop_last_empty key [] = refl
last_value-drop_last_empty key ([] ∷ []) = rw parse_line_blank refl
last_value-drop_last_empty key ((c ∷ l) ∷ []) = refl
last_value-drop_last_empty key (l ∷ m ∷ ls) =
    ap (λ o. or_else o (value_in key (parse_line l))) (last_value-drop_last_empty key (m ∷ ls))

-- Reading lines back that were joined keeps every value.
pub last_value-scan_lines :
    (key : Text) (ls : List Text)
    → All IsLine ls
    → last_value key (scan_lines (join (b'\n' ∷ []) ls)) ≡ last_value key ls
unfolding scan_lines join split drop_last_empty
last_value-scan_lines key [] h = refl
last_value-scan_lines key (l ∷ ls) h =
    rw (split-join l ls h)
      (last_value-drop_cr key (drop_last_empty (l ∷ ls)) ∙ last_value-drop_last_empty key (l ∷ ls))
