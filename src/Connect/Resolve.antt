-- ===== src/Connect/Resolve.antt =====
-- `resolveConnectAddress`: the connect URL that the installation uses.
use gameapctl.Base.{
  ℕ, suc, Bool, false, ◌&&◌, Option, none, some, List, [], ◌∷◌, Text, Result, ok, err,
  if◌then◌else◌,
}
use gameapctl.Connect.{
  Net, ConnectInfo, UrlError, parse_connect_url, address, connect_url, at_host, same_certificate,
}
use gameapctl.Connect.Candidates.{candidate_hosts_from_cert, local_probe_candidates}

pub data ConnectError : Type 0 where
  bad_url : UrlError → ConnectError
  unreachable : ConnectError
  not_covered : List Text → ConnectError

-- The URL to use, and the one that is only suggested.
pub record Resolved : Type 0 where
  pub answer : Result ConnectError Text
  pub suggestion : Option Text

module _ (net : Net) where
  open net use {Cert, verify_hostname, probe}

  -- A server at a candidate is taken for the same panel.
  unfoldable pub is_panel : Cert → Text → Option (Option Cert) → Bool
  unfolding same_certificate
  is_panel leaf candidate none = false
  is_panel leaf candidate (some none) = false
  is_panel leaf candidate (some (some found)) =
      same_certificate net found leaf && verify_hostname found candidate

  abbrev pub is_some_panel : Text → Option (Option Cert) → Bool
  is_some_panel candidate none = false
  is_some_panel candidate (some none) = false
  is_some_panel candidate (some (some found)) = verify_hostname found candidate

  -- The loop of `rewriteToCoveredCandidate`, after so many probes.
  unfoldable pub covered_candidate : ConnectInfo → Cert → ℕ → List Text → Option Text
  unfolding is_panel address
  covered_candidate info leaf n [] = none
  covered_candidate info leaf n (c ∷ cs) =
      let rest = covered_candidate info leaf (suc n) cs in
      if is_panel leaf c (probe n (address net (at_host net info c))) then some c else rest

  -- The loop of `suggestLocalPanel`.
  unfoldable pub suggested : ConnectInfo → ℕ → List Text → Option Text
  unfolding address connect_url
  suggested info n [] = none
  suggested info n (c ∷ cs) =
      let rest = suggested info (suc n) cs in
      if is_some_panel c (probe n (address net (at_host net info c)))
      then some (connect_url net (at_host net info c))
      else rest

  abbrev pub use_url : Text → Resolved
  use_url url = record { answer = ok url; suggestion = none }

  unfoldable pub rewritten : ConnectInfo → List Text → Option Text → Resolved
  unfolding connect_url
  rewritten info tried none = record { answer = err (not_covered tried); suggestion = none }
  rewritten info tried (some c) = use_url (connect_url net (at_host net info c))

  unfoldable pub rewrite_to_covered_candidate : ConnectInfo → Cert → Resolved
  unfolding rewritten covered_candidate candidate_hosts_from_cert
  rewrite_to_covered_candidate info leaf =
      let tried = candidate_hosts_from_cert net leaf info.host in
      rewritten info tried (covered_candidate info leaf 1 tried)

  unfoldable pub after_probe : Text → ConnectInfo → Option (Option Cert) → Resolved
  unfolding suggested local_probe_candidates rewrite_to_covered_candidate
  after_probe raw_url info none = record {
    answer = err unreachable;
    suggestion = suggested info 1 (local_probe_candidates net info.host);
  }
  after_probe raw_url info (some none) = use_url raw_url
  after_probe raw_url info (some (some leaf)) =
      if verify_hostname leaf info.host
      then use_url raw_url
      else rewrite_to_covered_candidate info leaf

  unfoldable pub after_parse : Text → Result UrlError ConnectInfo → Resolved
  unfolding after_probe address
  after_parse raw_url (err e) = record { answer = err (bad_url e); suggestion = none }
  after_parse raw_url (ok info) = after_probe raw_url info (probe 0 (address net info))

  unfoldable pub resolve_connect_address : Text → Resolved
  unfolding after_parse parse_connect_url
  resolve_connect_address raw_url = after_parse raw_url (parse_connect_url net raw_url)
