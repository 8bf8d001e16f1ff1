-- ===== src/Connect/Trust.antt =====
-- The certificate covers the host of every URL that the installation uses, if a server shows one.
use gameapctl.Base.{
  ℕ, suc, true, false, Option, none, some, List, [], ◌∷◌, Text, Result, ok, err, ◌≡◌, refl, ◌⊎◌,
  inl, inr, if-holds, text_eq_iff, arith, All,
}
use gameapctl.Connect.{
  Net, ConnectInfo, UrlError, parse_connect_url, address, connect_url, at_host, same_certificate,
}
use gameapctl.Connect.Candidates.{candidate_hosts_from_cert}
use gameapctl.Connect.Resolve.{
  ConnectError, bad_url, unreachable, not_covered, Resolved, is_panel, covered_candidate, rewritten,
  rewrite_to_covered_candidate, after_probe, after_parse, resolve_connect_address,
}

module _ (net : Net) where
  open net use {Cert, verify_hostname, raw, probe}

  -- A server at the candidate showed, at some probe, the certificate of the panel, which covers it.
  abbrev pub IsPanelAt : ConnectInfo → Cert → Text → Type 0
  IsPanelAt info leaf c =
      (n : ℕ) × (found : Cert) × (probe n (address net (at_host net info c)) ≡ some (some found))
      × (raw found ≡ raw leaf)
      × (verify_hostname found c ≡ true)

  is_panel-IsPanelAt :
      (info : ConnectInfo) (leaf : Cert) (c : Text) (n : ℕ) (o : Option (Option Cert))
      → probe n (address net (at_host net info c)) ≡ o
      → is_panel net leaf c o ≡ true
      → IsPanelAt info leaf c
  unfolding is_panel same_certificate
  is_panel-IsPanelAt info leaf c n none e h = cc
  is_panel-IsPanelAt info leaf c n (some none) e h = cc
  is_panel-IsPanelAt info leaf c n (some (some found)) e h =
      (n, found, e, ground (arith, text_eq_iff (raw found) (raw leaf)), ground arith)

  -- What the loop finds, and that it passed over the hosts it did not take.
  abbrev pub IsCandidate : ConnectInfo → Cert → List Text → Option Text → Type 0
  IsCandidate info leaf cs (some c) = IsPanelAt info leaf c
  IsCandidate info leaf cs none =
      All
        (λ c. (n : ℕ) × (is_panel net leaf c (probe n (address net (at_host net info c))) ≡ false))
        cs

  later-IsCandidate :
      (info : ConnectInfo) (leaf : Cert) (c : Text) (cs : List Text) (n : ℕ) (o : Option Text)
      → is_panel net leaf c (probe n (address net (at_host net info c))) ≡ false
      → IsCandidate info leaf cs o
      → IsCandidate info leaf (c ∷ cs) o
  later-IsCandidate info leaf c cs n (some d) e h = h
  later-IsCandidate info leaf c cs n none e h = ((n, e), h)

  covered_candidate-IsCandidate :
      (info : ConnectInfo) (leaf : Cert) (n : ℕ) (cs : List Text)
      → IsCandidate info leaf cs (covered_candidate net info leaf n cs)
  unfolding covered_candidate
  covered_candidate-IsCandidate info leaf n [] = tt
  covered_candidate-IsCandidate info leaf n (c ∷ cs) =
      if-holds (IsCandidate info leaf (c ∷ cs))
        (is_panel net leaf c (probe n (address net (at_host net info c))))
        (λ taken. is_panel-IsPanelAt info leaf c n _ refl taken)
        (λ passed.
          later-IsCandidate info leaf c cs n (covered_candidate net info leaf (suc n) cs) passed
            (covered_candidate-IsCandidate info leaf (suc n) cs))

  -- By the answer: the URL as it was given, with no certificate or one that covers its host; another
  -- URL, of a host that shows the same certificate and is covered by it; or why there is none.
  abbrev pub IsTrusted : Text → Result ConnectError Text → Type 0
  IsTrusted raw_url (ok url) =
      (info : ConnectInfo) × (parse_connect_url net raw_url ≡ ok info)
      × (((url ≡ raw_url) × (probe 0 (address net info) ≡ some none))
          ⊎ ((leaf : Cert) × (probe 0 (address net info) ≡ some (some leaf))
              × (((url ≡ raw_url) × (verify_hostname leaf info.host ≡ true))
                  ⊎ ((c : Text) × (url ≡ connect_url net (at_host net info c))
                      × IsPanelAt info leaf c))))
  IsTrusted raw_url (err (bad_url e)) = parse_connect_url net raw_url ≡ err e
  IsTrusted raw_url (err unreachable) =
      (info : ConnectInfo) × (parse_connect_url net raw_url ≡ ok info)
      × (probe 0 (address net info) ≡ none)
  IsTrusted raw_url (err (not_covered tried)) =
      (info : ConnectInfo) × (leaf : Cert) × (parse_connect_url net raw_url ≡ ok info)
      × (probe 0 (address net info) ≡ some (some leaf))
      × (verify_hostname leaf info.host ≡ false)
      × IsCandidate info leaf tried none

  rewritten-IsTrusted :
      (raw_url : Text) (info : ConnectInfo) (leaf : Cert) (tried : List Text) (o : Option Text)
      → parse_connect_url net raw_url ≡ ok info
      → probe 0 (address net info) ≡ some (some leaf)
      → verify_hostname leaf info.host ≡ false
      → IsCandidate info leaf tried o
      → IsTrusted raw_url (rewritten net info tried o).answer
  unfolding rewritten
  rewritten-IsTrusted raw_url info leaf tried none e shown uncovered h =
      (info, leaf, e, shown, uncovered, h)
  rewritten-IsTrusted raw_url info leaf tried (some c) e shown uncovered h =
      (info, e, inr (leaf, shown, inr (c, refl, h)))

  after_probe-IsTrusted :
      (raw_url : Text) (info : ConnectInfo) (o : Option (Option Cert))
      → parse_connect_url net raw_url ≡ ok info
      → probe 0 (address net info) ≡ o
      → IsTrusted raw_url (after_probe net raw_url info o).answer
  unfolding after_probe rewrite_to_covered_candidate
  after_probe-IsTrusted raw_url info none e shown = (info, e, shown)
  after_probe-IsTrusted raw_url info (some none) e shown = (info, e, inl (refl, shown))
  after_probe-IsTrusted raw_url info (some (some leaf)) e shown =
      if-holds (λ (r : Resolved). IsTrusted raw_url r.answer) (verify_hostname leaf info.host)
        (λ covered. (info, e, inr (leaf, shown, inl (refl, covered))))
        (λ uncovered.
          let tried = candidate_hosts_from_cert net leaf info.host in
          rewritten-IsTrusted raw_url info leaf tried (covered_candidate net info leaf 1 tried) e
            shown uncovered (covered_candidate-IsCandidate info leaf 1 tried))

  after_parse-IsTrusted :
      (raw_url : Text) (p : Result UrlError ConnectInfo)
      → parse_connect_url net raw_url ≡ p
      → IsTrusted raw_url (after_parse net raw_url p).answer
  unfolding after_parse
  after_parse-IsTrusted raw_url (err e) h = h
  after_parse-IsTrusted raw_url (ok info) h =
      after_probe-IsTrusted raw_url info (probe 0 (address net info)) h refl

  -- The URL that the installation uses is the given one, if the server there shows no certificate or
  -- one that covers its host, or else that of a host at which a server shows the very same
  -- certificate, which covers this host. Without such a URL, the error says that the given one does not
  -- parse, that nothing answers there, or that no candidate was taken.
  pub resolve_connect_address-IsTrusted :
      (raw_url : Text) → IsTrusted raw_url (resolve_connect_address net raw_url).answer
  unfolding resolve_connect_address
  resolve_connect_address-IsTrusted raw_url =
      after_parse-IsTrusted raw_url (parse_connect_url net raw_url) refl
