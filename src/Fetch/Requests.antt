-- ===== src/Fetch/Requests.antt =====
-- One request: its URL, and how its reply is read.
use gameapctl.Base.{
  codes, ◌++◌, Text, true, false, Option, none, some, List, [], ◌∷◌, Result, Result-cases, ok, err,
  ◌≡◌, refl, sym, ◌↔◌, ◌⊎◌, inl, inr, ℕ, ◌<◌, ◌/◌, ◌%◌, All, All-append, arith, text_eq, Bool-cases,
  Option-cases, is_empty, ap, ◌∙◌, ◌-◌, ◌+◌, ◌*◌, ◌==◌, leb, if◌then◌else◌, append_assoc,
}
use mathlib.Core.Bool.{false≢true}
use gameapctl.Release.{
  Release, Releases, FindOptions, FindError, select_by_tag, select_single, select_release,
  find_release_from_list, find_release_by_tag_from_list, find_release_from_single_response,
}
use gameapctl.Release.Selection.{with_tag, select_release-err}
use gameapctl.Fetch.{
  build_request_url, trim_slash, Env, Reply, bad_request, no_answer, broken_body, answer, FetchMode,
  list_mode, singular_mode, fetch_release, find_from_static_list, is_rate_limit_error, is_path_safe,
  path_escape, utf8, escape_byte, escape_bytes, hex_digit, read_body, read_reply,
  handle_error_response,
}

-- A character of one segment of a URL's path.
abbrev pub IsSegmentChar : ℕ → Type 0
IsSegmentChar c = (is_path_safe c ≡ true) ⊎ (c ≡ b'%')

hex_digit-IsSegmentChar : (d : ℕ) → d < 16 → IsSegmentChar (hex_digit d)
unfolding hex_digit is_path_safe
hex_digit-IsSegmentChar d h = ground arith

escape_byte-All : (c : ℕ) → c < 256 → All IsSegmentChar (escape_byte c)
unfolding escape_byte
escape_byte-All c h = elim (Bool-cases (is_path_safe c)) [
  | inl safe ↦ rw safe (inl safe, tt)
  | inr other ↦
      let hi = hex_digit-IsSegmentChar (c / 16) (omega arith) in
      let lo = hex_digit-IsSegmentChar (c % 16) (omega arith) in rw other (inr refl, (hi, (lo, tt)))
]

escape_bytes-All : (s : List ℕ) → All (λ c. c < 256) s → All IsSegmentChar (escape_bytes s)
unfolding escape_bytes
escape_bytes-All [] h = tt
escape_bytes-All (c ∷ s) h =
    All-append IsSegmentChar _ _ (escape_byte-All c h.0) (escape_bytes-All s h.1)

utf8-All : (c : ℕ) → c < 0x110000 → All (λ b. b < 256) (utf8 c)
unfolding utf8
utf8-All c h = ground arith

path_escape-IsSegmentChar :
    (tag : Text) → All (λ c. c < 0x110000) tag → All IsSegmentChar (path_escape tag)
unfolding path_escape
path_escape-IsSegmentChar [] h = tt
path_escape-IsSegmentChar (c ∷ tag) h =
    All-append IsSegmentChar _ _ (escape_bytes-All (utf8 c) (utf8-All c h.0))
      (path_escape-IsSegmentChar tag h.1)

-- The state of a server that decodes a segment: between two bytes, after "%", or after its first digit.
pub data Decoding : Type 0 where
  ready after_percent : Decoding
  after_digit : ℕ → Decoding

abbrev pub digit_value : ℕ → ℕ
digit_value d = if leb d b'9' then d - b'0' else 10 + (d - b'A')

-- The bytes that a segment stands for, by RFC 3986.
unfoldable pub decoded : Decoding → Text → List ℕ
decoded state [] = []
decoded ready (c ∷ s) =
    let escaped = decoded after_percent s in
    let rest = decoded ready s in if c == b'%' then escaped else c ∷ rest
decoded after_percent (c ∷ s) = decoded (after_digit (digit_value c)) s
decoded (after_digit hi) (c ∷ s) = (hi * 16 + digit_value c) ∷ decoded ready s

abbrev pub bytes_of : Text → List ℕ
unfolding utf8
bytes_of [] = []
bytes_of (c ∷ s) = utf8 c ++ bytes_of s

digit_value-hex_digit : (d : ℕ) → d < 16 → digit_value (hex_digit d) ≡ d
unfolding hex_digit
digit_value-hex_digit d h = ground arith

is_path_safe-plain : (c : ℕ) → is_path_safe c ≡ true → (c == b'%') ≡ false
unfolding is_path_safe
is_path_safe-plain c h = ground arith

decoded-escape_byte :
    (c : ℕ) (s : Text) → c < 256 → decoded ready (escape_byte c ++ s) ≡ c ∷ decoded ready s
unfolding escape_byte decoded
decoded-escape_byte c s h = elim (Bool-cases (is_path_safe c)) [
  | inl safe ↦ rw (safe, is_path_safe-plain c safe) refl
  | inr other ↦
      rw
        (
          other,
          digit_value-hex_digit (c / 16) (omega arith),
          digit_value-hex_digit (c % 16) (omega arith),
        )
        (ap (λ b. b ∷ decoded ready s) (omega arith))
]

decoded-escape_bytes :
    (bs : List ℕ) (s : Text)
    → All (λ b. b < 256) bs
    → decoded ready (escape_bytes bs ++ s) ≡ bs ++ decoded ready s
unfolding escape_bytes
decoded-escape_bytes [] s h = refl
decoded-escape_bytes (b ∷ bs) s (hb, h) =
    ap (decoded ready) (append_assoc (escape_byte b) (escape_bytes bs) s)
    ∙ decoded-escape_byte b (escape_bytes bs ++ s) hb
    ∙ ap (λ t. b ∷ t) (decoded-escape_bytes bs s h)

decoded-path_escape :
    (tag : Text) → All (λ c. c < 0x110000) tag → decoded ready (path_escape tag) ≡ bytes_of tag
unfolding path_escape bytes_of decoded
decoded-path_escape [] h = refl
decoded-path_escape (c ∷ tag) (hc, h) =
    decoded-escape_bytes (utf8 c) (path_escape tag) (utf8-All c hc)
    ∙ ap (λ t. utf8 c ++ t) (decoded-path_escape tag h)

-- For a pinned tag of Unicode code points, the request goes to the endpoint's path, "/tags/" and one
-- more segment. Its characters are "%" and those that a segment may hold, so that no "/", "?" or "#" of
-- the tag ends it, and it decodes to the bytes of the tag in UTF-8.
pub build_request_url-IsSegmentChar :
    (api : Text) (opts : FindOptions)
    → is_empty opts.tag ≡ false
    → All (λ c. c < 0x110000) opts.tag
    → (segment : Text) × All IsSegmentChar segment
      × (decoded ready segment ≡ bytes_of opts.tag)
      × (build_request_url api opts ≡ (trim_slash api ++ codes "/tags/" ++ segment, singular_mode))
unfolding build_request_url
build_request_url-IsSegmentChar api opts pinned h = (
  path_escape opts.tag,
  path_escape-IsSegmentChar opts.tag h,
  decoded-path_escape opts.tag h,
  rw (build_request_url, pinned) refl,
)

module _ {Body : Type 0} (env : Env Body) where
  -- What a server answers at the endpoint of a tag, of which it has the given release.
  abbrev pub ServesTag : ℕ → Text → Option Releases → Type 0
  ServesTag n url none = (body : Body) × (reset : Text) × (env.client n url ≡ answer 404 body reset)
  ServesTag n url (some r) =
      (body : Body) × (reset : Text) × (env.client n url ≡ answer 200 body reset)
      × (env.unmarshal_single body ≡ some r)

  fetch_release-single :
      (os arch : Text) (opts : FindOptions) (n : ℕ) (url : Text) (r : Releases)
      → ServesTag n url (some r)
      → fetch_release env os arch n url singular_mode opts ≡ select_single os arch r
  unfolding fetch_release
  fetch_release-single os arch opts n url r (body, reset, replied, decoded) =
      rw (replied, find_release_from_single_response, decoded)

  fetch_release-with_tag :
      (os arch : Text) (opts : FindOptions) (n : ℕ) (url : Text) (rs : List Releases)
      → ServesTag n url (with_tag opts.tag rs)
      → fetch_release env os arch n url singular_mode opts ≡ select_by_tag os arch opts.tag rs
  unfolding select_by_tag select_single
  fetch_release-with_tag os arch opts n url [] (body, reset, replied) =
      unfold fetch_release in rw replied
  fetch_release-with_tag os arch opts n url (r ∷ rs) h =
      elim (Bool-cases (text_eq r.tag_name opts.tag)) [
        | inl same ↦ rw same (fetch_release-single os arch opts n url r (rw same at h))
        | inr other ↦ rw other (fetch_release-with_tag os arch opts n url rs (rw other at h))
      ]

  -- If the mirror's static list and the GitHub endpoint of the tag serve the same releases, a pinned
  -- tag is resolved to the same release, or to the same error, through either of them.
  pub find_from_static_list-eq-fetch_release :
      (os arch : Text) (opts : FindOptions) (n m : ℕ) (url list_url : Text) (rs : List Releases)
      (body : Body) (reset : Text)
      → is_empty opts.tag ≡ false
      → env.client m list_url ≡ answer 200 body reset
      → env.unmarshal_list body ≡ some rs
      → ServesTag n url (with_tag opts.tag rs)
      → find_from_static_list env os arch m list_url opts
        ≡ fetch_release env os arch n url singular_mode opts
  unfolding find_from_static_list
  find_from_static_list-eq-fetch_release os arch opts n m url list_url rs body reset pinned replied
        decoded served =
      rw (replied, pinned, find_release_by_tag_from_list, decoded)
        (sym (fetch_release-with_tag os arch opts n url rs served))

  abbrev pub IsLimitReply : Reply Body → Type 0
  IsLimitReply (answer status_code body reset) = (status_code ≡ 403) ⊎ (status_code ≡ 429)
  IsLimitReply _ = ⊥

  abbrev pub IsRateLimited : Result FindError Release → Type 0
  IsRateLimited (ok release) = ⊥
  IsRateLimited (err e) = is_rate_limit_error e ≡ true

  select_release-not_limited :
      (os arch : Text) (opts : FindOptions) (rs : List Releases)
      → ¬ IsRateLimited (select_release opts os arch rs)
  unfolding is_rate_limit_error
  select_release-not_limited os arch opts rs h =
      elim (Result-cases (select_release opts os arch rs)) [
        | inl (release, found) ↦ rw found at h
        | inr (e, failed) ↦
            let same = (select_release-err opts os arch rs e failed).1 in
            let limited : is_rate_limit_error e ≡ true = rw failed at h in
            false≢true (rw same at limited)
      ]

  or_no_asset-not_limited :
      (os arch : Text) (r : Releases) → ¬ IsRateLimited (select_single os arch r)
  unfolding select_single is_rate_limit_error
  or_no_asset-not_limited os arch r h = ground arith

  read_body-not_limited :
      (os arch : Text) (mode : FetchMode) (opts : FindOptions) (body : Body)
      → ¬ IsRateLimited (read_body env os arch mode opts body)
  unfolding read_body
  read_body-not_limited os arch singular_mode opts body h =
      elim (Option-cases (env.unmarshal_single body)) [
        | inl broken ↦
            false≢true
              (unfold is_rate_limit_error in (rw (find_release_from_single_response, broken) at h))
        | inr (r, decoded) ↦
            or_no_asset-not_limited os arch r (rw (find_release_from_single_response, decoded) at h)
      ]
  read_body-not_limited os arch list_mode opts body h =
      elim (Option-cases (env.unmarshal_list body)) [
        | inl broken ↦
            false≢true (unfold is_rate_limit_error in (rw (find_release_from_list, broken) at h))
        | inr (rs, decoded) ↦
            select_release-not_limited os arch opts rs (rw (find_release_from_list, decoded) at h)
      ]

  handle_error_response-limited :
      (status_code : ℕ) (reset : Text)
      → (is_rate_limit_error (handle_error_response status_code reset) ≡ true)
        ↔ ((status_code ≡ 403) ⊎ (status_code ≡ 429))
  unfolding handle_error_response is_rate_limit_error
  handle_error_response-limited status_code reset = ground arith

  read_reply-limited :
      (os arch : Text) (mode : FetchMode) (opts : FindOptions) (reply : Reply Body)
      → IsRateLimited (read_reply env os arch mode opts reply) ↔ IsLimitReply reply
  unfolding read_reply is_rate_limit_error
  read_reply-limited os arch mode opts bad_request = ((λ h. cc), (λ h. absurd h))
  read_reply-limited os arch mode opts no_answer = ((λ h. cc), (λ h. absurd h))
  read_reply-limited os arch mode opts broken_body = ((λ h. cc), (λ h. absurd h))
  read_reply-limited os arch mode opts (answer status_code body reset) = ground (
    arith,
    handle_error_response-limited status_code reset,
    read_body-not_limited os arch mode opts body,
  )

  -- A request to the GitHub API fails with a rate-limit error exactly when the reply has status 403
  -- or 429; no other failure, of the network, of the decoder or of the search, counts as one.
  fetch_release-IsRateLimited_iff :
      (os arch : Text) (n : ℕ) (url : Text) (mode : FetchMode) (opts : FindOptions)
      → IsRateLimited (fetch_release env os arch n url mode opts) ↔ IsLimitReply (env.client n url)
  unfolding fetch_release
  fetch_release-IsRateLimited_iff os arch n url mode opts =
      read_reply-limited os arch mode opts (env.client n url)
