-- ===== src/Connect/RoundTrip.antt =====
-- A connect URL that is printed parses to what it was printed from.
use gameapctl.Base.{
  ℕ, zero, suc, ◌+◌, ◌-◌, ◌*◌, ◌/◌, ◌%◌, ◌≤◌, ◌<◌, true, false, Option, none, some, [], ◌∷◌, ◌++◌,
  Text, codes, ok, pos, ltb, ltb→lt, is_empty, ◌≡◌, ◌≢◌, refl, sym, subst, ap, ◌∙◌, inl, inr,
  Bool-cases, if-holds, arith, text_eq, is_digit, digits_from, digits_value, atoi, as_pos,
  trim_prefix, has_prefix, ◌==◌, Bool, ◌&&◌, ◌||◌, leb, All, All-append,
}
use gameapctl.Connect.{
  Net, ConnectInfo, digits_of, port_text, port_in_bounds, with_host, parse_parts, parse_connect_url,
  address, connect_url,
}

abbrev shifted : ℕ → Option ℕ → Option ℕ
shifted d none = none
shifted d (some m) = some (m * 10 + d)

digits_from-append :
    (a : ℕ) (s : Text) (d : ℕ)
    → d < 10
    → digits_from a (s ++ ((b'0' + d) ∷ [])) ≡ shifted d (digits_from a s)
unfolding digits_from is_digit
digits_from-append a [] d h = ground arith
digits_from-append a (c ∷ s) d h = ground (arith, digits_from-append (a * 10 + (c - b'0')) s d h)

abbrev power_of_ten : ℕ → ℕ
power_of_ten zero = 1
power_of_ten (suc n) = 10 * power_of_ten n

one_digit : (n : ℕ) → ltb n 10 ≡ true → digits_from 0 ((b'0' + n) ∷ []) ≡ some n
unfolding digits_from is_digit
one_digit n h = ground arith

digits_from-digits_of :
    (fuel n : ℕ) → n < power_of_ten fuel → digits_from 0 (digits_of fuel n) ≡ some n
unfolding digits_of digits_from
digits_from-digits_of zero n h = ap some (omega arith)
digits_from-digits_of (suc fuel) n h = elim (Bool-cases (ltb n 10)) [
  | inl small ↦ rw small (one_digit n small)
  | inr large ↦ rw large (
      digits_from-append 0 (digits_of fuel (n / 10)) (n % 10) (omega arith)
      ∙ ap (shifted (n % 10)) (digits_from-digits_of fuel (n / 10) (omega arith))
      ∙ ap some (omega arith))
]

abbrev StartsWithDigit : Text → Type 0
StartsWithDigit s = (c : ℕ) × (t : Text) × (s ≡ c ∷ t) × (is_digit c ≡ true)

StartsWithDigit-append : (s : Text) (d : ℕ) → StartsWithDigit s → StartsWithDigit (s ++ (d ∷ []))
StartsWithDigit-append s d (c, t, e, h) = (c, t ++ (d ∷ []), ap (λ r. r ++ (d ∷ [])) e, h)

digit_of : (d : ℕ) → d < 10 → is_digit (b'0' + d) ≡ true
unfolding is_digit
digit_of d h = ground arith

digits_of-StartsWithDigit : (fuel n : ℕ) → StartsWithDigit (digits_of (suc fuel) n)
unfolding digits_of
digits_of-StartsWithDigit zero n =
    if-holds StartsWithDigit (ltb n 10) (λ h. (b'0' + n, [], refl, digit_of n (ltb→lt n 10 h)))
      (λ h. (b'0' + n % 10, [], refl, digit_of (n % 10) (omega arith)))
digits_of-StartsWithDigit (suc fuel) n =
    if-holds StartsWithDigit (ltb n 10) (λ h. (b'0' + n, [], refl, digit_of n (ltb→lt n 10 h)))
      (λ h.
        StartsWithDigit-append (digits_of (suc fuel) (n / 10)) (b'0' + n % 10)
          (digits_of-StartsWithDigit fuel (n / 10)))

no_sign : (d : ℕ) → is_digit d ≡ true → ((d == b'-') ≡ false) × ((d == b'+') ≡ false)
unfolding is_digit
no_sign d h = ground arith

same_head : (d : ℕ) (s : Text) (c : ℕ) (t : Text) → ◌≡◌ {A = Text} (d ∷ s) (c ∷ t) → d ≡ c
same_head d s c t e = cc

as_pos_small : (n : ℕ) → n < 65536 → as_pos (some n) ≡ some (pos n)
as_pos_small n h = ground arith

atoi-digits :
    (s : Text) (n : ℕ)
    → StartsWithDigit s
    → digits_from 0 s ≡ some n
    → n < 65536
    → atoi s ≡ some (pos n)
unfolding atoi digits_value
atoi-digits [] n (c, t, e, h) read small = cc
atoi-digits (d ∷ s) n (c, t, e, h) read small =
    let digit = subst (λ x. is_digit x ≡ true) (sym (same_head d s c t e)) h in
    let (no_minus, no_plus) = no_sign d digit in
    rw (no_minus, no_plus) (ap as_pos read ∙ as_pos_small n small)

port_text-atoi : (n : ℕ) → n < 65536 → atoi (port_text n) ≡ some (pos n)
unfolding port_text
port_text-atoi n h =
    atoi-digits (digits_of 5 n) n (digits_of-StartsWithDigit 4 n)
      (digits_from-digits_of 5 n (omega arith)) h

port_in_bounds_lem : (n : ℕ) → ltb 0 n ≡ true → n < 65536 → port_in_bounds (some (pos n)) ≡ some n
port_in_bounds_lem n h small = ground arith

is_empty_ne : (s : Text) → s ≢ [] → is_empty s ≡ false
is_empty_ne [] h = absurd (h refl)
is_empty_ne (c ∷ s) h = refl

trim_slash : (key : Text) → trim_prefix (b'/' ∷ key) (b'/' ∷ []) ≡ key
unfolding trim_prefix has_prefix
trim_slash key = refl

digits_of-digits : (fuel n : ℕ) → All (λ c. is_digit c ≡ true) (digits_of fuel n)
unfolding digits_of
digits_of-digits zero n = tt
digits_of-digits (suc fuel) n =
    if-holds (All (λ c. is_digit c ≡ true)) (ltb n 10) (λ h. (digit_of n (ltb→lt n 10 h), tt))
      (λ h.
        All-append (λ c. is_digit c ≡ true) (digits_of fuel (n / 10)) ((b'0' + n % 10) ∷ [])
          (digits_of-digits fuel (n / 10)) (digit_of (n % 10) (omega arith), tt))

port_text-digits : (n : ℕ) → All (λ c. is_digit c ≡ true) (port_text n)
unfolding port_text
port_text-digits n = digits_of-digits 5 n

-- The characters of a DNS name or an address of IPv4, and the unreserved ones of a path.
abbrev pub is_name_char : ℕ → Bool
is_name_char c =
    (leb b'a' c && leb c b'z')
    || (leb b'A' c && leb c b'Z')
    || (leb b'0' c && leb c b'9')
    || c == b'-'
    || c == b'.'

abbrev pub is_key_char : ℕ → Bool
is_key_char c = is_name_char c || c == b'_' || c == b'~'

abbrev pub IsName : Text → Type 0
IsName = All (λ c. is_name_char c ≡ true)

abbrev pub IsPort : Text → Type 0
IsPort = All (λ c. is_digit c ≡ true)

abbrev pub IsKey : Text → Type 0
IsKey = All (λ c. is_key_char c ≡ true)

module _ (net : Net) where
  -- What the packages `net` and `net/url` do with the texts of a name, a port and a path: net.JoinHostPort
  -- puts a colon between, net.SplitHostPort takes it out, and url.Parse gives the parts of a URL.
  pub record IsUrlNet : Type 0 where
    pub joins :
        (host port : Text)
        → IsName host
        → IsPort port
        → net.join_host_port host port ≡ host ++ (b':' ∷ port)
    pub splits :
        (host port : Text)
        → IsName host
        → IsPort port
        → net.split_host_port (host ++ (b':' ∷ port)) ≡ some (host, port)
    pub parses :
        (host port key : Text)
        → IsName host
        → IsPort port
        → IsKey key
        → net.parse_url (codes "grpc://" ++ ((host ++ (b':' ∷ port)) ++ (b'/' ∷ key)))
          ≡ some (record { scheme = codes "grpc"; host = host ++ (b':' ∷ port); path = b'/' ∷ key })

  parsed :
      (info : ConnectInfo)
      → IsUrlNet
      → IsName info.host
      → IsKey info.setup_key
      → net.parse_url (connect_url net info)
        ≡ some (record {
          scheme = codes "grpc";
          host = info.host ++ (b':' ∷ port_text info.port);
          path = b'/' ∷ info.setup_key;
        })
  unfolding connect_url address port_text
  parsed info laws name key =
      let port = digits_of-digits 5 info.port in
      ap (λ (a : Text). net.parse_url (codes "grpc://" ++ (a ++ (b'/' ∷ info.setup_key))))
        (laws.joins info.host (digits_of 5 info.port) name port)
      ∙ laws.parses info.host (digits_of 5 info.port) info.setup_key name port key

  -- Parsing the URL that was printed for a host, a port from 1 to 65535 and a key gives them back, if
  -- neither is empty, the host is a DNS name or an address of IPv4, and the key is of letters, digits,
  -- "-", ".", "_" and "~". For texts of these characters, `net` has to join a host and a port by a colon
  -- and to split them there, and `net/url` to give the parts of a URL.
  pub parse_connect_url-connect_url :
      (info : ConnectInfo)
      → IsUrlNet
      → IsName info.host
      → IsKey info.setup_key
      → info.host ≢ []
      → info.setup_key ≢ []
      → 1 ≤ info.port
      → info.port ≤ 65535
      → parse_connect_url net (connect_url net info) ≡ ok info
  unfolding parse_connect_url parse_parts with_host text_eq
  parse_connect_url-connect_url info laws name key host some_key low high =
      rw
        (
          parsed info laws name key,
          laws.splits info.host (port_text info.port) name (port_text-digits info.port),
          is_empty_ne info.host host,
          port_text-atoi info.port (omega arith),
          port_in_bounds_lem info.port (ground arith) (omega arith),
          trim_slash info.setup_key,
          is_empty_ne info.setup_key some_key,
        )
        refl
