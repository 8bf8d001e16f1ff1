-- ===== src/Tests/Connects.antt =====
-- The connect URL of a daemon, at concrete inputs.
use gameapctl.Base.{
  ℕ, false, Option, ap, drop, ◌==◌, All, All-append, is_digit, none, some, [], ◌∷◌, ◌++◌, Text,
  codes, ok, text_eq, ◌≡◌, refl, arith, if◌then◌else◌, has_prefix, contains_char,
}
use gameapctl.Connect.{Url, Net, ConnectInfo, parse_connect_url, connect_url}
use gameapctl.Apt.Lists.{cut}
use gameapctl.Connect.Resolve.{resolve_connect_address}
use gameapctl.Connect.Trust.{IsTrusted, resolve_connect_address-IsTrusted}
use gameapctl.Connect.RoundTrip.{IsUrlNet, IsName, IsPort, IsKey, parse_connect_url-connect_url}

abbrev info : ConnectInfo
info = record { host = codes "203.0.113.7"; port = 31717; setup_key = codes "abc" }

abbrev printed : Text
printed = codes "grpc://203.0.113.7:31717/abc"

abbrev url_of : Option (Text × Text) → Option Url
url_of none = none
url_of (some (host, key)) = some (record { scheme = codes "grpc"; host = host; path = b'/' ∷ key })

-- A certificate is the host it covers; the panel at the public address covers the local one only.
abbrev net : Net
net = record {
  Ip = Text;
  Cert = Text;
  parse_url = λ s. url_of (cut b'/' (drop 7 s));
  split_host_port = cut b':';
  join_host_port = λ host port. host ++ (b':' ∷ port);
  parse_ip = λ s. if contains_char s b'.' then some s else none;
  ip_text = λ ip. ip;
  is_unspecified = λ ip. text_eq ip (codes "0.0.0.0");
  is_link_local = λ ip. has_prefix ip (codes "169.254.");
  is_loopback = λ ip. has_prefix ip (codes "127.");
  equal_fold = text_eq;
  verify_hostname = text_eq;
  raw = λ cert. cert;
  ip_addresses = λ cert. cert ∷ [];
  dns_names = λ cert. [];
  probe = λ n addr. some (some (codes "10.0.0.2"));
  local_ips = codes "10.0.0.2" ∷ [];
}

cut-append :
    (sep : ℕ) (s t : Text)
    → All (λ c. (c == sep) ≡ false) s
    → cut sep (s ++ (sep ∷ t)) ≡ some (s, t)
unfolding cut
cut-append sep [] t h = ground arith
cut-append sep (c ∷ s) t (hc, h) = rw (hc, cut-append sep s t h) refl

name-no_sign :
    (s : Text) → IsName s → All (λ c. (c == b':') ≡ false) s × All (λ c. (c == b'/') ≡ false) s
name-no_sign [] h = (tt, tt)
name-no_sign (c ∷ s) (hc, h) =
    let (colons, slashes) = name-no_sign s h in ((ground arith, colons), (ground arith, slashes))

port-no_slash : (s : Text) → IsPort s → All (λ c. (c == b'/') ≡ false) s
unfolding is_digit
port-no_slash [] h = tt
port-no_slash (c ∷ s) (hc, h) = (ground arith, port-no_slash s h)

net-IsUrlNet : IsUrlNet net
net-IsUrlNet = record {
  joins = λ host port name digits. refl;
  splits = λ host port name digits. cut-append b':' host port (name-no_sign host name).0;
  parses = λ host port key name digits chars. ap url_of (
      cut-append b'/' (host ++ (b':' ∷ port)) key (
        All-append (λ c. (c == b'/') ≡ false) host (b':' ∷ port) (name-no_sign host name).1
          (refl, port-no_slash port digits)));
}

info-IsName : IsName info.host
info-IsName =
    (refl, (refl, (refl, (refl, (refl, (refl, (refl, (refl, (refl, (refl, (refl, tt)))))))))))

info-IsKey : IsKey info.setup_key
info-IsKey = (refl, (refl, (refl, tt)))

parse_connect_url-connect_url_example : parse_connect_url net (connect_url net info) ≡ ok info
parse_connect_url-connect_url_example =
    parse_connect_url-connect_url net info net-IsUrlNet info-IsName info-IsKey (λ e. cc) (λ e. cc)
      (omega arith) (omega arith)

resolved : (resolve_connect_address net printed).answer ≡ ok (codes "grpc://10.0.0.2:31717/abc")
unfolding resolve_connect_address cut
resolved = refl

resolve_connect_address-IsTrusted_example :
    IsTrusted net printed (resolve_connect_address net printed).answer
resolve_connect_address-IsTrusted_example = resolve_connect_address-IsTrusted net printed
