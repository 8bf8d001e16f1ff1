-- ===== src/Connect.antt =====
-- internal/actions/daemon/install/{connect_url,resolve_address}.go: the connect URL of a daemon, and
-- the address at which the certificate of the panel can be verified. The packages `net`, `net/url` and
-- `crypto/x509`, and the probe of a server, are the record Net.
pub mod Candidates
pub mod Resolve
pub mod Trust
pub mod RoundTrip
use gameapctl.Base.{
  ℕ, zero, suc, ◌+◌, ◌/◌, ◌%◌, Bool, true, false, not, ◌&&◌, ◌||◌, Option, none, some, List, [],
  ◌∷◌, ◌++◌, Text, codes, Result, ok, err, ℤ, pos, negsuc, if◌then◌else◌, ltb, leb, is_empty,
  text_eq, trim_prefix, atoi,
}

-- The parts of a parsed URL that the code reads.
pub record Url : Type 0 where
  pub scheme : Text
  pub host : Text
  pub path : Text

pub record Net : Type 1 where
  pub Ip : Type 0
  pub Cert : Type 0
  pub parse_url : Text → Option Url
  pub split_host_port : Text → Option (Text × Text)
  pub join_host_port : Text → Text → Text
  pub parse_ip : Text → Option Ip
  pub ip_text : Ip → Text
  pub is_unspecified : Ip → Bool
  pub is_link_local : Ip → Bool
  pub is_loopback : Ip → Bool
  pub equal_fold : Text → Text → Bool
  pub verify_hostname : Cert → Text → Bool
  pub raw : Cert → Text
  pub ip_addresses : Cert → List Ip
  pub dns_names : Cert → List Text
  -- The result for an address after so many probes: `none` is an error, and a server may show no
  -- certificate.
  pub probe : ℕ → Text → Option (Option Cert)
  pub local_ips : List Text

pub record ConnectInfo : Type 0 where
  pub host : Text
  pub port : ℕ
  pub setup_key : Text

pub data UrlError : Type 0 where
  not_parsed wrong_scheme no_port no_host bad_port no_key : UrlError

-- strconv.Itoa of a number with at most so many digits.
unfoldable pub digits_of : ℕ → ℕ → Text
digits_of zero n = []
digits_of (suc fuel) n =
    let front = digits_of fuel (n / 10) in
    if ltb n 10 then (b'0' + n) ∷ [] else front ++ ((b'0' + n % 10) ∷ [])

-- A port has at most five digits.
unfoldable pub port_text : ℕ → Text
unfolding digits_of
port_text n = digits_of 5 n

-- The conversion to uint16 follows the test of the bounds.
abbrev pub port_in_bounds : Option ℤ → Option ℕ
port_in_bounds none = none
port_in_bounds (some (negsuc n)) = none
port_in_bounds (some (pos n)) = if ltb n 1 || ltb 65535 n then none else some n

abbrev pub with_key : Text → ℕ → Text → Result UrlError ConnectInfo
with_key host port key =
    if is_empty key then err no_key else ok (record { host = host; port = port; setup_key = key })

abbrev pub with_port : Text → Option ℕ → Text → Result UrlError ConnectInfo
with_port host none key = err bad_port
with_port host (some port) key = with_key host port key

unfoldable pub with_host : Option (Text × Text) → Text → Result UrlError ConnectInfo
unfolding atoi trim_prefix
with_host none path = err no_port
with_host (some (host, port)) path =
    if is_empty host
    then err no_host
    else with_port host (port_in_bounds (atoi port)) (trim_prefix path (b'/' ∷ []))

module _ (net : Net) where
  open net use {Cert, parse_url, split_host_port, join_host_port, verify_hostname, raw, probe}

  abbrev pub parse_parts : Option Url → Result UrlError ConnectInfo
  unfolding text_eq with_host
  parse_parts none = err not_parsed
  parse_parts (some u) =
      if not (text_eq u.scheme (codes "grpc"))
      then err wrong_scheme
      else with_host (split_host_port u.host) u.path

  unfoldable pub parse_connect_url : Text → Result UrlError ConnectInfo
  unfolding parse_parts
  parse_connect_url raw_url = parse_parts (parse_url raw_url)

  unfoldable pub address : ConnectInfo → Text
  unfolding port_text
  address info = join_host_port info.host (port_text info.port)

  unfoldable pub connect_url : ConnectInfo → Text
  unfolding address
  connect_url info = codes "grpc://" ++ (address info ++ (b'/' ∷ info.setup_key))

  abbrev pub at_host : ConnectInfo → Text → ConnectInfo
  at_host info host = record { host = host; port = info.port; setup_key = info.setup_key }

  unfoldable pub same_certificate : Cert → Cert → Bool
  unfolding text_eq
  same_certificate a b = text_eq (raw a) (raw b)
