-- ===== src/Tests/Configs.antt =====
-- The replacements of repositories, at concrete inputs.

use gameapctl.Base.{
  List, Option, subst, if◌then◌else◌, Bool, true, false, none, some, [], ◌∷◌, All, String, ok,
  str_eq, ◌≡◌, inl, inr, refl,
}
use gameapctl.DaemonConfig.{Yaml, missing, load_config, index_of}
use gameapctl.Replacements.{
  ReplacementRule, Entry, absent, mapping, com_rule, cdn_com, cdn_ru,
  ensure_repository_replacements, carry_out, plan_cdn_replacements, add_rules, has_entry,
  add_unless, add_under,
}
use gameapctl.Replacements.Repeated.{
  Merges, Reprints, HasOrigin, Replaces, ensure_repository_replacements-again,
}

-- A document is the replacements, and a merge knows the texts for the first CDN.
abbrev Doc : Type 0
Doc = List (String × String)

abbrev keys : Doc → List (Option String)
keys [] = []
keys ((origin, mirror) ∷ doc) = some origin ∷ keys doc

abbrev entry_of_doc : Doc → Option Entry
entry_of_doc [] = some absent
entry_of_doc (line ∷ doc) = some (mapping (keys (line ∷ doc)) false)

abbrev mirrors : Doc → String → List String
mirrors [] origin = []
mirrors ((o, mirror) ∷ doc) origin = if str_eq o origin then mirror ∷ [] else mirrors doc origin

abbrev merge : String → String → Doc → Option Doc
merge path snippet doc =
    if str_eq snippet "remote_repository_replacements:\n  cdn.gameap.com:\n    - cdn.gameap.ru\n"
    then some ((cdn_com, cdn_ru) ∷ [])
    else if str_eq snippet "cdn.gameap.com:\n  - cdn.gameap.ru\n"
    then some ((cdn_com, cdn_ru) ∷ doc)
    else none

abbrev entry_yaml : Yaml
entry_yaml = record {
  Bytes = Doc;
  Doc = Doc;
  parse = some;
  print = λ doc. doc;
  ends_line = λ bytes. true;
  add_newline = λ bytes. bytes;
  read_string = λ path bytes. missing;
  read_uint = λ path bytes. missing;
  filter_file = λ path doc. missing;
  replace = λ path scalar doc. none;
  merge = merge;
  Value = String;
  key_of = some;
  root_values = λ doc. some [];
  set_values = λ values doc. doc;
}

abbrev only_ru : String → Bool
only_ru host = str_eq host "cdn.gameap.ru"

abbrev written_doc : Doc
written_doc = (cdn_com, cdn_ru) ∷ []

ensure-absent :
    ensure_repository_replacements entry_yaml entry_of_doc (some []) only_ru ≡ ok (some written_doc)
unfolding ensure_repository_replacements carry_out plan_cdn_replacements load_config add_rules
    has_entry add_unless add_under
ensure-absent = refl

com-Replaces :
    (doc : Doc) → Replaces entry_yaml entry_of_doc mirrors com_rule ((cdn_com, cdn_ru) ∷ doc)
unfolding HasOrigin index_of
com-Replaces doc = ((some cdn_com ∷ keys doc, false, 0, refl, refl), refl)

some-doc : {d e : Doc} → ◌≡◌ {A = Option Doc} (some d) (some e) → d ≡ e
some-doc h = cc

entry_yaml-Merges : Merges entry_yaml entry_of_doc mirrors com_rule
unfolding Merges
entry_yaml-Merges doc doc' (inl merged) =
    subst (Replaces entry_yaml entry_of_doc mirrors com_rule) (some-doc merged) (com-Replaces [])
entry_yaml-Merges doc doc' (inr (new, merged)) =
    subst (Replaces entry_yaml entry_of_doc mirrors com_rule) (some-doc merged) (com-Replaces doc)

plan-Merges : All (Merges entry_yaml entry_of_doc mirrors) (plan_cdn_replacements only_ru)
unfolding plan_cdn_replacements
plan-Merges = (entry_yaml-Merges, tt)

entry_yaml-Reprints : Reprints entry_yaml entry_of_doc mirrors
entry_yaml-Reprints c = (c.ast, refl, refl, λ origin. refl)

ensure_repository_replacements-again_example :
    (ensure_repository_replacements entry_yaml entry_of_doc (some written_doc) only_ru ≡ ok none)
    × ((r : ReplacementRule) × (doc : Doc) × (only_ru r.origin ≡ false)
        × (only_ru r.mirror ≡ true)
        × (◌≡◌ {A = Option Doc} (some written_doc) (some doc))
        × (mirrors doc r.origin ≡ r.mirror ∷ []))
ensure_repository_replacements-again_example =
    ensure_repository_replacements-again entry_yaml entry_of_doc mirrors entry_yaml-Reprints
      (some []) only_ru written_doc plan-Merges ensure-absent
