-- ===== src/Replacements.antt =====
-- internal/pkg/daemon/repository_replacements.go: the replacements of repositories that are put into
-- the daemon's configuration for an unreachable CDN. The YAML library is the parameter of DaemonConfig,
-- with what it shows of the value at the key remote_repository_replacements.
pub mod Repeated
use Prim.Native.String
use gameapctl.Base.{
  Bool, true, false, not, ◌&&◌, ◌||◌, Option, none, some, List, [], ◌∷◌, ◌++◌, String, ℕ, Result,
  ok, err, if◌then◌else◌, ◌>>=◌,
}
use gameapctl.DaemonConfig.{
  Yaml, ConfigError, merge_error, ConfigFile, load_config, saved_bytes, delete_key, index_of,
}

abbrev pub remote_repository_replacements_key : String
remote_repository_replacements_key = "remote_repository_replacements"

abbrev pub cdn_com : String
cdn_com = "cdn.gameap.com"

abbrev pub cdn_ru : String
cdn_ru = "cdn.gameap.ru"

pub record ReplacementRule : Type 0 where
  pub origin : String
  pub mirror : String

abbrev rule_if : Bool → ReplacementRule → List ReplacementRule → List ReplacementRule
rule_if true r rules = r ∷ rules
rule_if false r rules = rules

abbrev pub com_rule : ReplacementRule
com_rule = record { origin = cdn_com; mirror = cdn_ru }

abbrev pub ru_rule : ReplacementRule
ru_rule = record { origin = cdn_ru; mirror = cdn_com }

unfoldable pub plan_cdn_replacements : (String → Bool) → List ReplacementRule
plan_cdn_replacements available =
    rule_if (not (available cdn_com) && available cdn_ru) com_rule
      (rule_if (not (available cdn_ru) && available cdn_com) ru_rule [])

-- The value at the key, if any: a mapping with its keys, `true` if it is written in flow style.
pub data Entry : Type 0 where
  absent null_value other_value : Entry
  mapping : List (Option String) → Bool → Entry

pub data ReplacementError : Type 0 where
  root_error structure_error flow_style : ReplacementError
  config_failed : ConfigError → ReplacementError

abbrev pub is_there : Option ℕ → Bool
is_there none = false
is_there (some i) = true

abbrev pub as_config : {A : Type 0} → Result ConfigError A → Result ReplacementError A
as_config (ok a) = ok a
as_config (err e) = err (config_failed e)

abbrev pub block : ReplacementRule → String
block r = String.◌++◌ remote_repository_replacements_key (
    String.◌++◌ ":\n  "
      (String.◌++◌ r.origin (String.◌++◌ ":\n    - " (String.◌++◌ r.mirror "\n"))))

abbrev pub entry_line : ReplacementRule → String
entry_line r = String.◌++◌ r.origin (String.◌++◌ ":\n  - " (String.◌++◌ r.mirror "\n"))

abbrev pub key_path : String
key_path = String.◌++◌ "$." remote_repository_replacements_key

-- `entry_at` is `none` where `rootMapping` fails.
module _ (yaml : Yaml) (entry_at : yaml.Doc → Option Entry) where
  abbrev pub Config : Type 0
  Config = ConfigFile yaml

  unfoldable pub has_entry : String → Option Entry → Result ReplacementError Bool
  unfolding index_of
  has_entry origin none = err root_error
  has_entry origin (some absent) = ok false
  has_entry origin (some null_value) = ok false
  has_entry origin (some other_value) = err structure_error
  has_entry origin (some (mapping keys flow)) = ok (is_there (index_of origin keys))

  abbrev merged : Config → Option yaml.Doc → Result ReplacementError Config
  merged c none = err (config_failed merge_error)
  merged c (some doc) = ok (record c { ast = doc })

  abbrev pub append_replacements_block : ReplacementRule → Config → Result ReplacementError Config
  append_replacements_block r c = merged c (yaml.merge "$" (block r) c.ast)

  abbrev pub merge_replacement_entry : ReplacementRule → Config → Result ReplacementError Config
  merge_replacement_entry r c = merged c (yaml.merge key_path (entry_line r) c.ast)

  unfoldable pub recreate_replacements_block :
      ReplacementRule → Config → Result ReplacementError Config
  unfolding delete_key
  recreate_replacements_block r c =
      as_config (delete_key yaml remote_repository_replacements_key c)
      >>= append_replacements_block r

  unfoldable pub add_under :
      ReplacementRule → Config → Option Entry → Result ReplacementError Config
  unfolding recreate_replacements_block
  add_under r c none = err root_error
  add_under r c (some absent) = append_replacements_block r c
  add_under r c (some null_value) = recreate_replacements_block r c
  add_under r c (some other_value) = err structure_error
  add_under r c (some (mapping [] flow)) = recreate_replacements_block r c
  add_under r c (some (mapping (k ∷ ks) true)) = err flow_style
  add_under r c (some (mapping (k ∷ ks) false)) = merge_replacement_entry r c

  -- The configuration, and whether it was changed, after a rule.
  unfoldable pub add_unless :
      ReplacementRule → Config → Bool → Bool → Result ReplacementError (Config × Bool)
  unfolding add_under
  add_unless r c changed true = ok (c, changed)
  add_unless r c changed false = add_under r c (entry_at c.ast) >>= λ c'. ok (c', true)

  unfoldable pub add_rules :
      List ReplacementRule → Config → Bool → Result ReplacementError (Config × Bool)
  unfolding has_entry add_unless
  add_rules [] c changed = ok (c, changed)
  add_rules (r ∷ rules) c changed =
      has_entry r.origin (entry_at c.ast) >>= add_unless r c changed >>= λ x.
      add_rules rules x.0 x.1

  abbrev pub saved_if : Config × Bool → Option yaml.Bytes
  saved_if (c, true) = some (saved_bytes yaml c)
  saved_if (c, false) = none

  -- What `Save` writes to the file, which is `none` in the argument if it cannot be read: the answer
  -- `ok none` writes nothing.
  unfoldable pub carry_out :
      Option yaml.Bytes → List ReplacementRule → Result ReplacementError (Option yaml.Bytes)
  unfolding load_config add_rules
  carry_out file [] = ok none
  carry_out file (r ∷ rules) =
      as_config (load_config yaml file) >>= (λ c. add_rules (r ∷ rules) c false) >>= λ x.
      ok (saved_if x)

  unfoldable pub ensure_repository_replacements :
      Option yaml.Bytes → (String → Bool) → Result ReplacementError (Option yaml.Bytes)
  unfolding plan_cdn_replacements carry_out
  ensure_repository_replacements file available = carry_out file (plan_cdn_replacements available)

  abbrev written : Result ReplacementError (Option yaml.Bytes) → Option yaml.Bytes
  written (ok bytes) = bytes
  written (err e) = none

  -- What `SetupCDNReplacements` writes: an error is only a warning.
  unfoldable pub setup_cdn_replacements : Option yaml.Bytes → (String → Bool) → Option yaml.Bytes
  unfolding ensure_repository_replacements
  setup_cdn_replacements file available =
      if available cdn_com || available cdn_ru
      then written (ensure_repository_replacements file available)
      else none
