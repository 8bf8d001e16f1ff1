-- ===== src/LetsEncrypt.antt =====
-- internal/actions/panel/letsencrypt/{setup,disable}.go: turning the panel's certificates on and off by
-- the keys `ACME_*` of its `config.env`. Standard input is the list of its remaining lines, each of
-- which ended in "\n"; at the end of the list a read fails.
pub mod Commands
pub mod Disabled
pub mod Setups
use gameapctl.Base.{
  ℕ, Bool, true, false, not, ◌&&◌, ◌||◌, Option, none, some, List, [], ◌∷◌, ◌++◌, map, Text, codes,
  Result, ok, err, ◌>>=◌, if◌then◌else◌, any, is_empty, text_eq, trim_space, has_prefix,
  contains_char, split, join,
}
use gameapctl.EnvFile.{
  Env, get, put, before, after, remove_marker, File, EnvError, ReadEnv, read_env, Disk, WriteError,
  Written, write_env,
}

pub record SetupParams : Type 0 where
  pub domains : List Text
  pub email : Text
  pub challenge_type : Text
  pub dns_provider : Text
  pub env_kvs : List Text
  pub staging : Bool

pub data SetupError : Type 0 where
  scope_error no_challenge bad_challenge no_domain no_email bad_email no_provider wildcard :
      SetupError
  bad_env : Text → SetupError
  input_error port_80 binary_missing restart_error process_error process_missing : SetupError
  env_error : EnvError → SetupError
  write_error : WriteError → SetupError

abbrev pub http_01 : Text
http_01 = codes "http-01"

abbrev pub dns_01 : Text
dns_01 = codes "dns-01"

unfoldable pub trim_parts : List Text → List Text
unfolding trim_space
trim_parts [] = []
trim_parts (p ∷ ps) =
    let rest = trim_parts ps in if is_empty (trim_space p) then rest else trim_space p ∷ rest

unfoldable pub split_and_trim : Text → List Text
unfolding split trim_parts
split_and_trim s = if is_empty s then [] else trim_parts (split b',' s)

-- `net/mail` parses the address.
module _ (parses_address : Text → Bool) where
  unfoldable pub validate_setup_params : SetupParams → Result SetupError (Unit {0})
  unfolding text_eq has_prefix
  validate_setup_params p =
      if is_empty p.challenge_type
      then err no_challenge
      else if not (text_eq p.challenge_type http_01) && not (text_eq p.challenge_type dns_01)
      then err bad_challenge
      else if is_empty p.domains
      then err no_domain
      else if is_empty p.email
      then err no_email
      else if not (parses_address p.email)
      then err bad_email
      else if text_eq p.challenge_type dns_01 && is_empty p.dns_provider
      then err no_provider
      else if text_eq p.challenge_type http_01 && any (λ d. has_prefix d (b'*' ∷ [])) p.domains
      then err wildcard
      else ok tt

unfoldable pub put_env_kvs : List Text → Env → Result SetupError Env
unfolding put contains_char trim_space before after
put_env_kvs [] m = ok m
put_env_kvs (kv ∷ kvs) m =
    let rest = put_env_kvs kvs (put (trim_space (before b'=' kv)) (trim_space (after b'=' kv)) m) in
    if contains_char kv b'=' then rest else err (bad_env kv)

abbrev pub directory_url : Bool → Text
directory_url staging =
    if staging
    then codes "https://acme-staging-v02.api.letsencrypt.org/directory"
    else codes "https://acme-v02.api.letsencrypt.org/directory"

-- `updates` before the loop over `--env`.
unfoldable pub acme_updates : SetupParams → Env
unfolding text_eq join
acme_updates p =
    (codes "ACME_ENABLED", codes "true")
    ∷ (codes "ACME_CHALLENGE_TYPE", p.challenge_type)
    ∷ (codes "ACME_EMAIL", p.email)
    ∷ (codes "ACME_DOMAINS", join (b',' ∷ []) p.domains)
    ∷ (codes "ACME_DIRECTORY_URL", directory_url p.staging)
    ∷ (
      codes "ACME_DNS_PROVIDER",
      (if text_eq p.challenge_type dns_01 then p.dns_provider else remove_marker),
    )
    ∷ []

unfoldable pub build_updates : SetupParams → Result SetupError Env
unfolding put_env_kvs acme_updates
build_updates p = put_env_kvs p.env_kvs (acme_updates p)

-- A result, and the input that is left.
abbrev Prompted : Type 0
Prompted = Result SetupError SetupParams × List Text

unfoldable pub prompt_line : List Text → Option (Text × List Text)
unfolding trim_space
prompt_line [] = none
prompt_line (line ∷ input) = some (trim_space line, input)

abbrev pub with_line : Option (Text × List Text) → (Text → SetupParams) → Prompted
with_line none f = (err input_error, [])
with_line (some (line, input)) f = (ok (f line), input)

-- strings.ToLower
module _ (to_lower : Text → Text) where
  unfoldable pub prompt_challenge : SetupParams → List Text → Prompted
  unfolding prompt_line
  prompt_challenge p input =
      if not (is_empty p.challenge_type)
      then (ok p, input)
      else with_line (prompt_line input) (λ line. record p {
        challenge_type = if is_empty (to_lower line) then http_01 else to_lower line;
      })

  unfoldable pub prompt_staging : SetupParams → List Text → Prompted
  unfolding prompt_line text_eq
  prompt_staging p input =
      if p.staging
      then (ok p, input)
      else with_line (prompt_line input) (λ line. record p {
        staging = text_eq (to_lower line) (codes "y") || text_eq (to_lower line) (codes "yes");
      })

abbrev pub or_blank : Option Text → Text
or_blank none = []
or_blank (some v) = v

-- The default for the domains: the host of the panel, if it is one.
unfoldable pub default_domains : Env → Text
unfolding get trim_space text_eq
default_domains current =
    let host = trim_space (or_blank (get (codes "HTTP_HOST") current)) in
    if is_empty host || text_eq host (codes "0.0.0.0") then [] else host

unfoldable pub prompt_domains : Env → SetupParams → List Text → Prompted
unfolding prompt_line split_and_trim default_domains
prompt_domains current p input =
    if not (is_empty p.domains)
    then (ok p, input)
    else with_line (prompt_line input) (λ line. record p {
      domains = split_and_trim (if is_empty line then default_domains current else line);
    })

unfoldable pub prompt_email : SetupParams → List Text → Prompted
unfolding prompt_line
prompt_email p input =
    if not (is_empty p.email)
    then (ok p, input)
    else with_line (prompt_line input) (λ line. record p { email = line })

unfoldable pub prompt_dns_provider : SetupParams → List Text → Prompted
unfolding prompt_line text_eq
prompt_dns_provider p input =
    if not (text_eq p.challenge_type dns_01) || not (is_empty p.dns_provider)
    then (ok p, input)
    else with_line (prompt_line input) (λ line. record p { dns_provider = line })

-- The loop that ends at an empty line, with the values collected before.
unfoldable pub read_credentials : SetupParams → List Text → Prompted
unfolding trim_space
read_credentials p [] = (err input_error, [])
read_credentials p (line ∷ input) =
    let rest =
      read_credentials (record p { env_kvs = p.env_kvs ++ (trim_space line ∷ []) }) input in
    if is_empty (trim_space line) then (ok p, input) else rest

unfoldable pub prompt_dns_credentials : SetupParams → List Text → Prompted
unfolding read_credentials text_eq
prompt_dns_credentials p input =
    if not (text_eq p.challenge_type dns_01) || not (is_empty p.env_kvs)
    then (ok p, input)
    else read_credentials p input

infixl 5 ◌>->◌
abbrev pub ◌>->◌ : Prompted → (SetupParams → List Text → Prompted) → Prompted
(ok p, input) >-> f = f p input
(err e, input) >-> f = (err e, input)

unfoldable pub prompt_missing : (Text → Text) → Env → SetupParams → List Text → Prompted
unfolding prompt_challenge prompt_domains prompt_email prompt_dns_provider prompt_staging
    prompt_dns_credentials
prompt_missing to_lower current p input =
    prompt_challenge to_lower p input
    >-> prompt_domains current
    >-> prompt_email
    >-> prompt_dns_provider
    >-> prompt_staging to_lower
    >-> prompt_dns_credentials
