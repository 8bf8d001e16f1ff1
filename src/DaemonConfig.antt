-- ===== src/DaemonConfig.antt =====
-- internal/pkg/daemon/config.go: the daemon's configuration file. The YAML library is a parameter, a
-- `Yaml`: it parses and prints documents, reads scalars, and finds, replaces and merges nodes by their
-- paths; the values of the root mapping are opaque but for their keys.
pub mod Edits
use Prim.Native.String
use gameapctl.Base.{
  Bool, true, false, Option, none, some, List, [], ◌∷◌, ◌++◌, String, str_eq, ℕ, zero, suc, Result,
  ok, err, map, take, drop, ◌≡◌, ◌≢◌, if◌then◌else◌, ◌>>=◌,
}

-- What a search of a path comes to: `yaml.ErrNotFoundNode` is `missing`, another error `broken`.
pub data Search {ℓ} (A : Type ℓ) : Type ℓ where
  value : A → Search A
  missing broken : Search A

pub record Yaml : Type 1 where
  pub Bytes : Type 0
  pub Doc : Type 0
  pub parse : Bytes → Option Doc
  pub print : Doc → Bytes
  pub ends_line : Bytes → Bool
  pub add_newline : Bytes → Bytes
  pub read_string : String → Bytes → Search String
  pub read_uint : String → Bytes → Search ℕ
  pub filter_file : String → Doc → Search (Unit {0})
  pub replace : String → String → Doc → Option Doc
  pub merge : String → String → Doc → Option Doc
  pub Value : Type 0
  -- The key of a value of a mapping, `none` for a key with no token.
  pub key_of : Value → Option String
  -- The values of the root mapping in order, `none` if there is no document or its root is no mapping,
  -- and the document with other values there.
  pub root_values : Doc → Option (List Value)
  pub set_values : List Value → Doc → Doc

pub data ConfigError : Type 0 where
  read_error parse_error path_error replace_error merge_error probe_error delete_error write_error :
      ConfigError

abbrev pub is_key : String → Option String → Bool
is_key key none = false
is_key key (some k) = str_eq k key

-- The loop of `DeleteKey`: the index of the first value with this key.
unfoldable pub index_of : String → List (Option String) → Option ℕ
index_of key [] = none
index_of key (k ∷ ks) =
    let rest = index_of key ks in
    if is_key key k then some 0 else elim rest [ none ↦ none | some i ↦ some (suc i) ]

module _ (yaml : Yaml) where
  open yaml use {
    Bytes, Doc, parse, print, read_string, read_uint, filter_file, replace, merge, Value, key_of,
    root_values, set_values,
  }

  pub record ConfigFile : Type 0 where
    pub ast : Doc
    pub content : Bytes

  -- The file is `none` if it cannot be read.
  unfoldable pub load_config : Option Bytes → Result ConfigError ConfigFile
  load_config none = err read_error
  load_config (some bytes) = elim (parse bytes) [
    | none ↦ err parse_error
    | some doc ↦ ok (record { ast = doc; content = bytes })
  ]

  -- The reads go to the bytes that were loaded or saved last, and not to the edited document.
  abbrev pub config_string : ConfigFile → String → Search String
  config_string c path = read_string path c.content

  abbrev pub config_uint : ConfigFile → String → Search ℕ
  config_uint c path = read_uint path c.content

  -- What `Save` writes.
  abbrev pub saved_bytes : ConfigFile → Bytes
  saved_bytes c =
      if yaml.ends_line (print c.ast) then print c.ast else yaml.add_newline (print c.ast)

  abbrev with_ast : ConfigFile → ConfigError → Option Doc → Result ConfigError ConfigFile
  with_ast c e none = err e
  with_ast c e (some doc) = ok (record c { ast = doc })

  -- The path of the key, the line that is merged if the key is missing, and the scalar.
  unfoldable pub set_under_grpc :
      String → String → String → ConfigFile → Result ConfigError ConfigFile
  set_under_grpc path snippet scalar c = elim (filter_file path c.ast) [
    | value found ↦ with_ast c replace_error (replace path scalar c.ast)
    | missing ↦ with_ast c merge_error (merge "$.grpc" snippet c.ast)
    | broken ↦ err probe_error
  ]

  module _ (quote : String → String) where
    abbrev pub address_line : String → String
    address_line address = String.◌++◌ "address: " (String.◌++◌ (quote address) "\n")

    abbrev pub grpc_block : String → String
    grpc_block address =
        if str_eq address ""
        then "grpc:\n  enabled: true\n"
        else String.◌++◌ "grpc:\n  enabled: true\n  " (address_line address)

    abbrev set_address : String → ConfigFile → Result ConfigError ConfigFile
    set_address address c =
        if str_eq address ""
        then ok c
        else set_under_grpc "$.grpc.address" (address_line address) (quote address) c

    unfoldable pub ensure_grpc_enabled : String → ConfigFile → Result ConfigError ConfigFile
    ensure_grpc_enabled address c = elim (filter_file "$.grpc" c.ast) [
      | value found ↦
          set_under_grpc "$.grpc.enabled" "enabled: true\n" "true" c >>= set_address address
      | missing ↦ with_ast c merge_error (merge "$" (grpc_block address) c.ast)
      | broken ↦ err probe_error
    ]

  abbrev removed : ConfigFile → List Value → Option ℕ → ConfigFile
  removed c values none = c
  removed c values (some i) = record c {
    ast = set_values (take i values ++ drop (suc i) values) c.ast;
  }

  -- `DeleteKey "$.<key>"` for a key with no "." and no "[", as all callers pass it.
  unfoldable pub delete_key : String → ConfigFile → Result ConfigError ConfigFile
  unfolding index_of
  delete_key key c = elim (root_values c.ast) [
    | none ↦ err delete_error
    | some values ↦ ok (removed c values (index_of key (map key_of values)))
  ]
