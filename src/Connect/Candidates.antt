-- ===== src/Connect/Candidates.antt =====
-- The hosts that are tried in place of the one of the connect URL.
use gameapctl.Base.{
  ℕ, Bool, false, not, ◌&&◌, ◌||◌, Option, none, some, List, [], ◌∷◌, ◌++◌, Text, codes,
  if◌then◌else◌, ltb, any, text_eq, has_prefix, contains_char,
}
use gameapctl.Connect.{Net}

unfoldable pub is_in : Text → List Text → Bool
unfolding text_eq
is_in s [] = false
is_in s (t ∷ ts) = text_eq t s || is_in s ts

-- The loop of `dedupStrings`, with the values that were seen.
unfoldable pub dedup_from : List Text → List Text → List Text
unfolding is_in
dedup_from seen [] = []
dedup_from seen (v ∷ vs) =
    let skipped = dedup_from seen vs in
    let kept = dedup_from (v ∷ seen) vs in if is_in v seen then skipped else v ∷ kept

unfoldable pub dedup_strings : List Text → List Text
unfolding dedup_from
dedup_strings vs = dedup_from [] vs

module _ (net : Net) where
  open net use {
    Ip, Cert, parse_ip, ip_text, is_unspecified, is_link_local, is_loopback, equal_fold,
    ip_addresses, dns_names, local_ips,
  }

  -- IsIPv6 of pkg/utils/net.go.
  unfoldable pub is_ipv6 : Text → Bool
  unfolding contains_char
  is_ipv6 ip = elim (parse_ip ip) [ none ↦ false | some parsed ↦ contains_char ip b':' ]

  unfoldable pub ip_preference_weight : Text → ℕ
  unfolding has_prefix is_ipv6
  ip_preference_weight ip =
      if is_ipv6 ip
      then 0
      else if has_prefix ip (codes "127.")
      then 100
      else if has_prefix ip (codes "169.")
      then 200
      else if has_prefix ip (codes "172.")
      then 300
      else if has_prefix ip (codes "10.")
      then 400
      else if has_prefix ip (codes "192.168")
      then 500
      else 1000

  unfoldable pub insert_ip : Text → List Text → List Text
  unfolding ip_preference_weight
  insert_ip ip [] = ip ∷ []
  insert_ip ip (x ∷ xs) =
      let rest = insert_ip ip xs in
      if ltb (ip_preference_weight ip) (ip_preference_weight x) then x ∷ rest else ip ∷ x ∷ xs

  -- sort.SliceStable, by descending weight.
  unfoldable pub sort_ips_by_preference : List Text → List Text
  unfolding insert_ip
  sort_ips_by_preference [] = []
  sort_ips_by_preference (ip ∷ ips) = insert_ip ip (sort_ips_by_preference ips)

  unfoldable pub normalize_host : Text → Text
  normalize_host host = elim (parse_ip host) [ none ↦ host | some ip ↦ ip_text ip ]

  -- The keys of `local`.
  unfoldable pub local_texts : List Text → List Text
  local_texts [] = []
  local_texts (ip ∷ ips) =
      let rest = local_texts ips in
      elim (parse_ip ip) [ none ↦ rest | some parsed ↦ ip_text parsed ∷ rest ]

  abbrev pub is_left_out : Text → Ip → Bool
  unfolding text_eq
  is_left_out orig ip = text_eq (ip_text ip) orig || is_unspecified ip || is_link_local ip

  unfoldable pub loopback_sans : Text → List Ip → List Text
  unfolding is_left_out
  loopback_sans orig [] = []
  loopback_sans orig (ip ∷ ips) =
      let rest = loopback_sans orig ips in
      if is_left_out orig ip then rest else if is_loopback ip then ip_text ip ∷ rest else rest

  unfoldable pub local_sans : Text → List Ip → List Text
  unfolding is_left_out local_texts is_in
  local_sans orig [] = []
  local_sans orig (ip ∷ ips) =
      let rest = local_sans orig ips in
      if is_left_out orig ip || is_loopback ip || not (is_in (ip_text ip) (local_texts local_ips))
      then rest
      else ip_text ip ∷ rest

  abbrev is_localhost : Text → Bool
  is_localhost name = equal_fold name (codes "localhost")

  abbrev pub is_other_name : Text → Text → Bool
  unfolding contains_char
  is_other_name orig_host name = contains_char name b'*' || equal_fold name orig_host

  unfoldable pub dns_sans : Text → List Text → List Text
  unfolding is_other_name
  dns_sans orig_host [] = []
  dns_sans orig_host (name ∷ names) =
      let rest = dns_sans orig_host names in
      if is_other_name orig_host name || is_localhost name then rest else name ∷ rest

  unfoldable pub has_localhost : Text → List Text → Bool
  unfolding is_other_name
  has_localhost orig_host names =
      any (λ name. not (is_other_name orig_host name) && is_localhost name) names

  unfoldable pub candidate_hosts_from_cert : Cert → Text → List Text
  unfolding dedup_strings sort_ips_by_preference local_sans loopback_sans dns_sans has_localhost
      normalize_host
  candidate_hosts_from_cert cert orig_host =
      let orig = normalize_host orig_host in
      dedup_strings (
        sort_ips_by_preference (local_sans orig (ip_addresses cert))
        ++ (loopback_sans orig (ip_addresses cert)
            ++ (dns_sans orig_host (dns_names cert)
                ++ (if has_localhost orig_host (dns_names cert)
                    then codes "localhost" ∷ []
                    else []))))

  abbrev pub usable : Text → Option Ip → Bool
  unfolding is_left_out
  usable orig none = false
  usable orig (some ip) = not (is_left_out orig ip || is_loopback ip)

  abbrev text_of : Option Ip → Text
  text_of none = []
  text_of (some ip) = ip_text ip

  unfoldable pub local_hosts : Text → List Text → List Text
  unfolding usable
  local_hosts orig [] = []
  local_hosts orig (ip ∷ ips) =
      let rest = local_hosts orig ips in
      if usable orig (parse_ip ip) then text_of (parse_ip ip) ∷ rest else rest

  unfoldable pub local_probe_candidates : Text → List Text
  unfolding dedup_strings sort_ips_by_preference local_hosts normalize_host
  local_probe_candidates orig_host = dedup_strings (
      sort_ips_by_preference (local_hosts (normalize_host orig_host) local_ips)
      ++ (codes "127.0.0.1" ∷ []))
