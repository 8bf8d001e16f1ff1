-- ===== src/LetsEncrypt/Disabled.antt =====
-- The values in `config.env` after `letsencrypt disable`.
use gameapctl.Base.{
  Bool, true, false, Option, none, some, List, [], ◌∷◌, Text, codes, ok, if◌then◌else◌, text_eq,
  text_eq_iff, ◌≡◌, refl, sym, ap, ◌∙◌, arith, trim_right, contains_char, has_prefix, is_space,
  Bool-cases, inl, inr,
}
use gameapctl.EnvFile.{get, remove_marker, holds, read_env, write_env, written, scan_lines}
use gameapctl.EnvFile.Rewrites.{updated}
use gameapctl.EnvFile.Additions.{member, get_at, get_other}
use gameapctl.EnvFile.Checks.{fits, fits-AreUpdates}
use gameapctl.EnvFile.Files.{value_of, value_of-written}
use gameapctl.Scopes.{PanelPaths, resolve_scope}
use gameapctl.LetsEncrypt.Commands.{
  Tools, removals, disable_updates, disable, disable_in, disabled, env_keys_owned,
}

disable-fits : fits disable_updates ≡ true
unfolding disable_updates removals fits get text_eq trim_right contains_char has_prefix is_space
disable-fits = refl

-- What `disable` makes of the value of a key.
abbrev pub disabled_value : Text → Option Text → Option Text
disabled_value key old =
    if text_eq key (codes "ACME_ENABLED")
    then some (codes "false")
    else if member key env_keys_owned
    then none
    else old

text_neq_sym : (s t : Text) → text_eq s t ≡ false → text_eq t s ≡ false
text_neq_sym s t h = ground (arith, text_eq_iff s t, text_eq_iff t s)

get-removals :
    (key : Text) (ks : List Text)
    → text_eq key (codes "ACME_ENABLED") ≡ false
    → get key (removals ks) ≡ (if member key ks then some remove_marker else none)
unfolding get removals
get-removals key [] h = refl
get-removals key (k ∷ ks) h = ground (
  arith,
  get-removals key ks h,
  text_eq_iff k key,
  text_eq_iff k (codes "ACME_ENABLED"),
  text_eq_iff key (codes "ACME_ENABLED"),
)

updated-removals :
    (m : Bool) (old : Option Text)
    → updated (if m then some remove_marker else none) old ≡ (if m then none else old)
unfolding text_eq
updated-removals true old = refl
updated-removals false old = refl

disabled_enabled :
    (key : Text) (old : Option Text)
    → text_eq key (codes "ACME_ENABLED") ≡ true
    → updated (some (codes "false")) old ≡ disabled_value key old
unfolding text_eq
disabled_enabled key old h = rw h refl

disabled_other :
    (key : Text) (old : Option Text)
    → text_eq key (codes "ACME_ENABLED") ≡ false
    → (if member key env_keys_owned then none else old) ≡ disabled_value key old
disabled_other key old h = rw h refl

get-disable_updates :
    (key : Text) (old : Option Text)
    → updated (get key disable_updates) old ≡ disabled_value key old
unfolding disable_updates
get-disable_updates key old = elim (Bool-cases (text_eq key (codes "ACME_ENABLED"))) [
  | inl same ↦
      let keys = sym ((text_eq_iff key (codes "ACME_ENABLED")).0 same) in
      ap (λ o. updated o old)
        (get_at (codes "ACME_ENABLED") key (codes "false") (removals env_keys_owned) keys)
      ∙ disabled_enabled key old same
  | inr other ↦
      ap (λ o. updated o old)
        (get_other (codes "ACME_ENABLED") key (codes "false") (removals env_keys_owned)
            (text_neq_sym key _ other)
          ∙ get-removals key env_keys_owned other)
      ∙ updated-removals (member key env_keys_owned) old
      ∙ disabled_other key old other
]

disabled-ok :
    (tools : Tools) (paths : PanelPaths) (s : Text)
    → (disabled tools paths (holds s) (read_env (holds s))).result ≡ ok tt
    → (disabled tools paths (holds s) (read_env (holds s))).file
      ≡ holds (written (scan_lines s) disable_updates)
unfolding read_env disabled write_env
disabled-ok tools paths s h = ground arith

disable-ok :
    (tools : Tools) (s : Text) (paths : Option PanelPaths)
    → (disable_in tools (holds s) paths).result ≡ ok tt
    → (disable_in tools (holds s) paths).file ≡ holds (written (scan_lines s) disable_updates)
unfolding disable_in
disable-ok tools s none h = cc
disable-ok tools s (some paths) h = disabled-ok tools paths s h

-- When `letsencrypt disable` succeeds on a file, the text that it leaves has "false" for
-- ACME_ENABLED, no value for the other nine keys that the command owns, and the old value for every
-- other key.
pub disable-value_of :
    (tools : Tools) (scope s : Text)
    → (disable tools scope (holds s)).result ≡ ok tt
    → (out : Text) × ((disable tools scope (holds s)).file ≡ holds out)
      × ((key : Text) → value_of key out ≡ disabled_value key (value_of key s))
unfolding disable
disable-value_of tools scope s h =
    let (updates, lines) = fits-AreUpdates disable_updates disable-fits in
    (
      written (scan_lines s) disable_updates,
      disable-ok tools s (resolve_scope tools.host scope) h,
      λ key.
          value_of-written key s disable_updates updates lines
          ∙ get-disable_updates key (value_of key s),
    )
