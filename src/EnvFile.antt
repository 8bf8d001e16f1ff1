-- ===== src/EnvFile.antt =====
-- internal/actions/panel/letsencrypt/letsencrypt.go: how a `config.env` file is read and rewritten.
-- A map of Go is a list of entries, put under distinct keys; what the code does with a map does not
-- depend on its order, except for `missing_keys`, which are sorted.
pub mod Trim
pub mod Lines
pub mod Values
pub mod Rewrites
pub mod Additions
pub mod Scans
pub mod Files
pub mod Checks
use gameapctl.Base.{
  ℕ, Bool, true, false, not, ◌&&◌, ◌||◌, Option, none, some, List, [], ◌∷◌, ◌++◌, map, Text, codes,
  Result, ok, err, if◌then◌else◌, ◌==◌, ltb, is_empty, text_eq, trim_space, has_prefix,
  contains_char, split, join, all, ◌+◌, ◌*◌,
}

abbrev pub Env : Type 0
Env = List (Text × Text)

unfoldable pub get : Text → Env → Option Text
unfolding text_eq
get k [] = none
get k (e ∷ m) = let rest = get k m in if text_eq e.0 k then some e.1 else rest

unfoldable pub without : Text → Env → Env
unfolding text_eq
without k [] = []
without k (e ∷ m) = let rest = without k m in if text_eq e.0 k then rest else e ∷ rest

unfoldable pub put : Text → Text → Env → Env
unfolding without
put k v m = (k, v) ∷ without k m

-- strings.SplitN at the first separator, for a text that contains one.
unfoldable pub before : ℕ → Text → Text
before sep [] = []
before sep (c ∷ s) = let rest = before sep s in if c == sep then [] else c ∷ rest

unfoldable pub after : ℕ → Text → Text
after sep [] = []
after sep (c ∷ s) = let rest = after sep s in if c == sep then s else rest

-- A line that the loops pass over: blank, a comment, or without "=".
unfoldable pub is_skipped : Text → Bool
unfolding has_prefix contains_char
is_skipped trimmed =
    is_empty trimmed || has_prefix trimmed (b'#' ∷ []) || not (contains_char trimmed b'=')

unfoldable pub entry_of : Text → Text × Text
unfolding trim_space before after
entry_of trimmed = (trim_space (before b'=' trimmed), trim_space (after b'=' trimmed))

unfoldable pub parse_line : Text → Option (Text × Text)
unfolding is_skipped trim_space
parse_line raw =
    let trimmed = trim_space raw in if is_skipped trimmed then none else some (entry_of trimmed)

abbrev pub put_entry : Option (Text × Text) → Env → Env
unfolding put
put_entry none m = m
put_entry (some (k, v)) m = put k v m

-- The values that `readEnv` has collected after these lines.
unfoldable pub read_values : Env → List Text → Env
unfolding parse_line
read_values m [] = m
read_values m (line ∷ lines) = read_values (put_entry (parse_line line) m) lines

-- bufio.ScanLines: a line ends at "\n" or at the end of the file, and loses one "\r" at its end.
unfoldable pub drop_cr : Text → Text
drop_cr [] = []
drop_cr (c ∷ []) = if c == b'\r' then [] else c ∷ []
drop_cr (c ∷ d ∷ s) = c ∷ drop_cr (d ∷ s)

unfoldable pub drop_last_empty : List Text → List Text
drop_last_empty [] = []
drop_last_empty (l ∷ []) = if is_empty l then [] else l ∷ []
drop_last_empty (l ∷ m ∷ ls) = l ∷ drop_last_empty (m ∷ ls)

unfoldable pub scan_lines : Text → List Text
unfolding split drop_last_empty drop_cr
scan_lines s = map drop_cr (drop_last_empty (split b'\n' s))

-- The bytes of a character in UTF-8.
abbrev byte_size : ℕ → ℕ
byte_size c = if ltb c 0x80 then 1 else if ltb c 0x800 then 2 else if ltb c 0x10000 then 3 else 4

unfoldable pub line_bytes : Text → ℕ
line_bytes [] = 0
line_bytes (c ∷ s) = byte_size c + line_bytes s

-- bufio.MaxScanTokenSize
abbrev pub max_scan_token_size : ℕ
max_scan_token_size = 64 * 1024

-- The scanner fails at a line that fills its buffer.
unfoldable pub is_scannable : Text → Bool
unfolding split line_bytes
is_scannable s = all (λ line. ltb (line_bytes line) max_scan_token_size) (split b'\n' s)

-- The file when it is opened and read; `broken` is an error of the scanner.
pub data File : Type 0 where
  absent denied broken : File
  holds : Text → File

pub data EnvError : Type 0 where
  not_found open_failed read_failed : EnvError

pub record ReadEnv : Type 0 where
  pub lines : List Text
  pub values : Env

unfoldable pub read_env : File → Result EnvError ReadEnv
unfolding scan_lines read_values is_scannable
read_env absent = err not_found
read_env denied = err open_failed
read_env broken = err read_failed
read_env (holds s) =
    if is_scannable s
    then ok (record { lines = scan_lines s; values = read_values [] (scan_lines s) })
    else err read_failed

-- "\x00__REMOVE__\x00"
abbrev pub remove_marker : Text
remove_marker = 0 ∷ codes "__REMOVE__" ++ (0 ∷ [])

abbrev pub assignment : Text → Text → Text
assignment key value = key ++ (b'=' ∷ value)

abbrev pub with_value : Text → Text → Text → Text
unfolding text_eq
with_value raw key value = if text_eq value remove_marker then [] else assignment key value

abbrev pub with_update : Text → Text → Option Text → Text
with_update raw key none = raw
with_update raw key (some value) = with_value raw key value

abbrev pub rewrite_entry : Env → Text → Option (Text × Text) → Text
unfolding get
rewrite_entry updates raw none = raw
rewrite_entry updates raw (some (k, v)) = with_update raw k (get k updates)

-- A line after the loop of `writeEnv`.
unfoldable pub rewrite_line : Env → Text → Text
unfolding parse_line
rewrite_line updates raw = rewrite_entry updates raw (parse_line raw)

-- `seen` after the loop, for a key of `updates`.
unfoldable pub is_entry_of : Text → Option (Text × Text) → Bool
unfolding text_eq
is_entry_of key none = false
is_entry_of key (some (k, v)) = text_eq k key

unfoldable pub is_seen : Text → List Text → Bool
unfolding is_entry_of parse_line
is_seen key [] = false
is_seen key (line ∷ lines) = is_entry_of key (parse_line line) || is_seen key lines

unfoldable pub missing_keys : List Text → Env → List Text
unfolding is_seen text_eq
missing_keys lines [] = []
missing_keys lines (e ∷ m) =
    let rest = missing_keys lines m in
    if is_seen e.0 lines || text_eq e.1 remove_marker then rest else e.0 ∷ rest

-- The order of sort.Strings.
unfoldable pub text_lt : Text → Text → Bool
text_lt s [] = false
text_lt [] (d ∷ t) = true
text_lt (c ∷ s) (d ∷ t) = ltb c d || (c == d && text_lt s t)

unfoldable pub insert_key : Text → List Text → List Text
unfolding text_lt
insert_key k [] = k ∷ []
insert_key k (x ∷ xs) = let rest = insert_key k xs in if text_lt x k then x ∷ rest else k ∷ x ∷ xs

unfoldable pub sort_keys : List Text → List Text
unfolding insert_key
sort_keys [] = []
sort_keys (k ∷ ks) = insert_key k (sort_keys ks)

abbrev pub or_nothing : Option Text → Text
or_nothing none = []
or_nothing (some v) = v

-- `updates[k]` is the empty string for a key with no update, which no missing key is.
abbrev pub new_line : Env → Text → Text
unfolding get
new_line updates k = assignment k (or_nothing (get k updates))

unfoldable pub write_lines : List Text → Env → List Text
unfolding rewrite_line sort_keys missing_keys
write_lines lines updates =
    map (rewrite_line updates) lines
    ++ map (new_line updates) (sort_keys (missing_keys lines updates))

-- The text that `writeEnv` writes to the temporary file.
unfoldable pub written : List Text → Env → Text
unfolding write_lines join
written lines updates = join (b'\n' ∷ []) (write_lines lines updates)

-- The steps of `writeEnv` on the temporary file, each of which may fail.
pub record Disk : Type 0 where
  pub opens : Bool
  pub writes : Bool
  pub closes : Bool
  pub renames : Bool

pub data WriteError : Type 0 where
  open_error write_error close_error rename_error : WriteError

-- The result, and the config file; the temporary file is removed or renamed.
pub record Written : Type 0 where
  pub result : Result WriteError (Unit {0})
  pub file : File

abbrev failed : WriteError → File → Written
failed e old = record { result = err e; file = old }

unfoldable pub write_env : Disk → File → List Text → Env → Written
unfolding written
write_env disk old lines updates =
    if not disk.opens
    then failed open_error old
    else if not disk.writes
    then failed write_error old
    else if not disk.closes
    then failed close_error old
    else if not disk.renames
    then failed rename_error old
    else record { result = ok tt; file = holds (written lines updates) }
