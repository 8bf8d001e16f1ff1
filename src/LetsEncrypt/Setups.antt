-- ===== src/LetsEncrypt/Setups.antt =====
-- When `letsencrypt setup` writes the `config.env`, and with which parameters.
use gameapctl.Base.{
  Bool, true, false, not, ◌⊎◌, inl, inr, Option, none, some, List, [], ◌∷◌, any, Text, Result, ok,
  err, bind-ok, ◌>>=◌, ◌>>◌, text_eq_iff, ◌≡◌, ◌≢◌, refl, ◌∙◌, arith, has_prefix, if-holds,
}
use gameapctl.EnvFile.{
  Env, File, holds, absent, denied, broken, ReadEnv, read_env, Disk, Written, write_env, written,
}
use gameapctl.Scopes.{PanelPaths, resolve_scope, scope_user}
use gameapctl.LetsEncrypt.{
  SetupParams, SetupError, http_01, dns_01, validate_setup_params, build_updates,
}
use gameapctl.LetsEncrypt.Commands.{
  Tools, SetupFlags, setup, setup_in, setup_plan, plan_of, carried_out, check_port,
  collect_setup_params, env_read, restarted,
}

-- What the parameters have to be.
pub record IsServable (parses_address : Text → Bool) (paths : PanelPaths) (p : SetupParams)
    : Type 0 where
  pub challenge : (p.challenge_type ≡ http_01) ⊎ (p.challenge_type ≡ dns_01)
  pub domains : p.domains ≢ []
  pub email : parses_address p.email ≡ true
  pub provider : p.challenge_type ≡ dns_01 → p.dns_provider ≢ []
  pub no_wildcard :
      p.challenge_type ≡ http_01 → any (λ d. has_prefix d (b'*' ∷ [])) p.domains ≡ false
  pub port_80_free : p.challenge_type ≡ http_01 → paths.scope ≢ scope_user

validate-IsServable :
    (parses_address : Text → Bool) (paths : PanelPaths) (p : SetupParams)
    → validate_setup_params parses_address p ≡ ok tt
    → check_port paths p ≡ ok tt
    → IsServable parses_address paths p
unfolding validate_setup_params check_port
validate-IsServable parses_address paths p valid port = record {
  challenge =
      ground (arith, text_eq_iff p.challenge_type http_01, text_eq_iff p.challenge_type dns_01);
  domains = ground arith;
  email = ground arith;
  provider = ground (arith, text_eq_iff p.challenge_type dns_01);
  no_wildcard = ground (arith, text_eq_iff p.challenge_type http_01);
  port_80_free =
      ground (arith, text_eq_iff p.challenge_type http_01, text_eq_iff paths.scope scope_user);
}

env_read-ok : (file : File) (r : ReadEnv) → env_read file ≡ ok r → read_env file ≡ ok r
unfolding env_read read_env
env_read-ok (holds s) r h = ground arith
env_read-ok absent r h = cc
env_read-ok denied r h = cc
env_read-ok broken r h = cc

-- A plan comes from parameters that can be served and from the file as it was read.
abbrev pub IsPlan : Tools → PanelPaths → File → ReadEnv → Env → Type 0
IsPlan tools paths file r updates =
    (p : SetupParams) × IsServable tools.parses_address paths p
    × (read_env file ≡ ok r)
    × (build_updates p ≡ ok updates)

all_ok :
    (v c : Result SetupError (Unit {0})) (e : Result SetupError ReadEnv) (b : Result SetupError Env)
    {r : ReadEnv} {u : Env}
    → (v >> c >> e >>= λ r'. ◌>>=◌ {B = ReadEnv × Env} b (λ u'. ok (r', u'))) ≡ ok (r, u)
    → (v ≡ ok tt) × (c ≡ ok tt) × (e ≡ ok r) × (b ≡ ok u)
all_ok (ok done) (ok fine) (ok a) (ok m) h = (refl, refl, cc, cc)
all_ok (err x) c e b h = cc
all_ok (ok done) (err x) e b h = cc
all_ok (ok done) (ok fine) (err x) b h = cc
all_ok (ok done) (ok fine) (ok a) (err x) h = cc

plan_of-IsPlan :
    (tools : Tools) (paths : PanelPaths) (file : File) (p : SetupParams) (r : ReadEnv)
    (updates : Env)
    → plan_of tools paths file p ≡ ok (r, updates)
    → IsPlan tools paths file r updates
unfolding plan_of
plan_of-IsPlan tools paths file p r updates h =
    let (valid, free, read, built) =
      all_ok (validate_setup_params tools.parses_address p) (check_port paths p) (env_read file)
        (build_updates p) h in
    (p, validate-IsServable tools.parses_address paths p valid free, env_read-ok file r read, built)

setup_plan-IsPlan :
    (tools : Tools) (paths : PanelPaths) (f : SetupFlags) (file : File) (input : List Text)
    (r : ReadEnv) (updates : Env)
    → setup_plan tools paths f file input ≡ ok (r, updates)
    → IsPlan tools paths file r updates
unfolding setup_plan
setup_plan-IsPlan tools paths f file input r updates h =
    let (p, _, planned) =
      bind-ok (collect_setup_params tools.to_lower f file input) (plan_of tools paths file) h in
    plan_of-IsPlan tools paths file p r updates planned

-- The file as `write_env` leaves it.
pub write_env-file :
    (disk : Disk) (file : File) (lines : List Text) (updates : Env)
    → ((write_env disk file lines updates).file ≡ file)
      ⊎ ((write_env disk file lines updates).file ≡ holds (written lines updates))
unfolding write_env
write_env-file disk file lines updates =
    if-holds (λ (w : Written). (w.file ≡ file) ⊎ (w.file ≡ holds (written lines updates)))
      (not disk.opens) (λ h. inl refl)
      (λ h.
        if-holds (λ (w : Written). (w.file ≡ file) ⊎ (w.file ≡ holds (written lines updates)))
          (not disk.writes) (λ h. inl refl)
          (λ h.
            if-holds (λ (w : Written). (w.file ≡ file) ⊎ (w.file ≡ holds (written lines updates)))
              (not disk.closes) (λ h. inl refl)
              (λ h.
                if-holds
                  (λ (w : Written). (w.file ≡ file) ⊎ (w.file ≡ holds (written lines updates)))
                  (not disk.renames) (λ h. inl refl) (λ h. inr refl))))

restarted-file :
    (tools : Tools) (paths : PanelPaths) (after : Result SetupError (Unit {0})) (w : Written)
    → (restarted tools paths after w).file ≡ w.file
restarted-file tools paths after w = ground arith

-- `setup` left the file as it was, or wrote the updates of a plan.
abbrev pub IsKeptOrPlanned : Tools → SetupFlags → File → File → Type 0
IsKeptOrPlanned tools f file now =
    (now ≡ file)
    ⊎ ((paths : PanelPaths) × (resolve_scope tools.host f.scope ≡ some paths)
        × ((r : ReadEnv) × (updates : Env) × IsPlan tools paths file r updates
            × (now ≡ holds (written r.lines updates))))

carried_out-file :
    (tools : Tools) (paths : PanelPaths) (f : SetupFlags) (file : File)
    (plan : Result SetupError (ReadEnv × Env))
    → resolve_scope tools.host f.scope ≡ some paths
    → ((r : ReadEnv) (updates : Env) → plan ≡ ok (r, updates) → IsPlan tools paths file r updates)
    → IsKeptOrPlanned tools f file (carried_out tools paths file plan).file
unfolding carried_out
carried_out-file tools paths f file (err e) scope h = inl refl
carried_out-file tools paths f file (ok (r, updates)) scope h =
    let same = restarted-file tools paths _ (write_env tools.disk file r.lines updates) in
    elim (write_env-file tools.disk file r.lines updates) [
      | inl kept ↦ inl (same ∙ kept)
      | inr wrote ↦ inr (paths, scope, (r, updates, h r updates refl, same ∙ wrote))
    ]

setup_in-file :
    (tools : Tools) (f : SetupFlags) (file : File) (input : List Text) (o : Option PanelPaths)
    → resolve_scope tools.host f.scope ≡ o
    → IsKeptOrPlanned tools f file (setup_in tools f file input o).file
unfolding setup_in
setup_in-file tools f file input none scope = inl refl
setup_in-file tools f file input (some paths) scope =
    carried_out-file tools paths f file (setup_plan tools paths f file input) scope
      (setup_plan-IsPlan tools paths f file input)

-- `letsencrypt setup` leaves the `config.env` as it was, or replaces it by the lines it read with the
-- updates of parameters that can be served in the scope: a known challenge, a domain, an address that
-- parses, for dns-01 a provider, and for http-01 no wildcard domain and no user scope.
pub setup-IsKeptOrPlanned :
    (tools : Tools) (f : SetupFlags) (file : File) (input : List Text)
    → IsKeptOrPlanned tools f file (setup tools f file input).file
unfolding setup
setup-IsKeptOrPlanned tools f file input =
    setup_in-file tools f file input (resolve_scope tools.host f.scope) refl
