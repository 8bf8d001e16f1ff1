-- ===== src/EnvFile/Values.antt =====
-- The value that a key has in a file: that of the last line with this key.
use gameapctl.Base.{
  Option, List, [], ◌∷◌, ◌++◌, some, none, Text, ◌≡◌, refl, sym, ap, ◌∙◌, arith, if◌then◌else◌,
  text_eq, text_eq_iff,
}
use gameapctl.EnvFile.{Env, get, put, without, put_entry, read_values, parse_line}

get-without : (j k : Text) (m : Env) → get j (without k m) ≡ (if text_eq k j then none else get j m)
unfolding get without
get-without j k [] = ground arith
get-without j k (e ∷ m) =
    ground (arith, get-without j k m, text_eq_iff e.0 k, text_eq_iff e.0 j, text_eq_iff k j)

pub get-put :
    (j k v : Text) (m : Env) → get j (put k v m) ≡ (if text_eq k j then some v else get j m)
unfolding get put
get-put j k v m = ground (arith, get-without j k m)

abbrev pub or_else : Option Text → Option Text → Option Text
or_else none b = b
or_else (some a) b = some a

or_else_assoc : (a b c : Option Text) → or_else (or_else a b) c ≡ or_else a (or_else b c)
or_else_assoc none b c = refl
or_else_assoc (some a) b c = refl

abbrev pub value_in : Text → Option (Text × Text) → Option Text
value_in key none = none
value_in key (some (k, v)) = if text_eq k key then some v else none

unfoldable pub last_value : Text → List Text → Option Text
last_value key [] = none
last_value key (line ∷ lines) = or_else (last_value key lines) (value_in key (parse_line line))

get-put_entry :
    (key : Text) (e : Option (Text × Text)) (m : Env)
    → get key (put_entry e m) ≡ or_else (value_in key e) (get key m)
unfolding put_entry
get-put_entry key none m = refl
get-put_entry key (some (k, v)) m = get-put key k v m ∙ ground arith

pub get-read_values :
    (key : Text) (m : Env) (lines : List Text)
    → get key (read_values m lines) ≡ or_else (last_value key lines) (get key m)
unfolding read_values last_value
get-read_values key m [] = refl
get-read_values key m (line ∷ lines) =
    get-read_values key (put_entry (parse_line line) m) lines
    ∙ ap (or_else (last_value key lines)) (get-put_entry key (parse_line line) m)
    ∙ sym (or_else_assoc (last_value key lines) (value_in key (parse_line line)) (get key m))

pub last_value-append :
    (key : Text) (xs ys : List Text)
    → last_value key (xs ++ ys) ≡ or_else (last_value key ys) (last_value key xs)
unfolding last_value
last_value-append key [] ys = ground arith
last_value-append key (x ∷ xs) ys =
    ap (λ o. or_else o (value_in key (parse_line x))) (last_value-append key xs ys)
    ∙ or_else_assoc (last_value key ys) (last_value key xs) (value_in key (parse_line x))

pub get_values :
    (key : Text) (lines : List Text) → get key (read_values [] lines) ≡ last_value key lines
unfolding get
get_values key lines = get-read_values key [] lines ∙ ground arith
