-- ===== src/Fetch.antt =====
-- pkg/releasefinder/release_finder.go: requests to the GitHub API and to a static release list, and
-- the retries after a rate limit. The network, the clock and the JSON decoder are an `Env`, which
-- answers each attempt on its own. The texts of error messages are left out.
pub mod Requests
pub mod Retries
use gameapctl.Base.{
  Text, codes, Bool, true, false, not, ◌&&◌, ◌||◌, Option, none, some, List, [], ◌∷◌, ◌++◌, Result,
  ok, err, ℕ, zero, suc, ◌+◌, ◌-◌, ◌*◌, ◌/◌, ◌%◌, ◌^◌, min, ℤ, pos, negsuc, pos_part, is_empty,
  text_eq, contains_char, leb, ltb, ◌==◌, atoi, if◌then◌else◌,
}
use gameapctl.Release.{
  Release, Releases, FindOptions, FindError, request_error, transport_error, read_error,
  context_error, status_error, rate_limit_error, tag_not_found_error, with_message,
  find_release_from_list, find_release_by_tag_from_list, find_release_from_single_response,
}

-- What a request comes to: an error of `http.NewRequest`, of `Do` or of `ReadAll`, or an answer
-- with the header `X-RateLimit-Reset`, empty if it is missing.
pub data Reply (Body : Type 0) : Type 0 where
  bad_request no_answer broken_body : Reply Body
  answer : (status_code : ℕ) → (body : Body) → (rate_limit_reset : Text) → Reply Body

-- The clock is in nanoseconds since 1970. `interrupted n`: the context is done during the wait before
-- attempt n.
pub record Env (Body : Type 0) : Type 0 where
  pub client : ℕ → Text → Reply Body
  pub now : ℕ → ℕ
  pub interrupted : ℕ → Bool
  pub unmarshal_list : Body → Option (List Releases)
  pub unmarshal_single : Body → Option Releases

pub data FetchMode : Type 0 where
  list_mode singular_mode : FetchMode

-- The bytes of a code point in UTF-8.
utf8 : ℕ → List ℕ
utf8 c =
    if ltb c 0x80
    then c ∷ []
    else if ltb c 0x800
    then (0xC0 + c / 64) ∷ (0x80 + c % 64) ∷ []
    else if ltb c 0x10000
    then (0xE0 + c / 4096) ∷ (0x80 + c / 64 % 64) ∷ (0x80 + c % 64) ∷ []
    else (0xF0 + c / 262144) ∷ (0x80 + c / 4096 % 64) ∷ (0x80 + c / 64 % 64) ∷ (0x80 + c % 64) ∷ []

-- The bytes that `url.PathEscape` leaves alone.
unfoldable pub is_path_safe : ℕ → Bool
is_path_safe c =
    (leb b'a' c && leb c b'z')
    || (leb b'A' c && leb c b'Z')
    || (leb b'0' c && leb c b'9')
    || c == b'-'
    || c == b'_'
    || c == b'.'
    || c == b'~'
    || c == b'$'
    || c == b'&'
    || c == b'+'
    || c == b'='
    || c == b':'
    || c == b'@'

hex_digit : ℕ → ℕ
hex_digit d = if ltb d 10 then b'0' + d else b'A' + (d - 10)

escape_byte : ℕ → Text
unfolding is_path_safe hex_digit
escape_byte c =
    if is_path_safe c then c ∷ [] else b'%' ∷ hex_digit (c / 16) ∷ hex_digit (c % 16) ∷ []

escape_bytes : List ℕ → Text
unfolding escape_byte
escape_bytes [] = []
escape_bytes (c ∷ s) = escape_byte c ++ escape_bytes s

-- url.PathEscape
unfoldable pub path_escape : Text → Text
unfolding utf8 escape_bytes
path_escape [] = []
path_escape (c ∷ s) = escape_bytes (utf8 c) ++ path_escape s

-- strings.TrimSuffix(s, "/")
unfoldable pub trim_slash : Text → Text
trim_slash [] = []
trim_slash (c ∷ []) = if c == b'/' then [] else c ∷ []
trim_slash (c ∷ d ∷ s) = c ∷ trim_slash (d ∷ s)

unfoldable pub build_request_url : Text → FindOptions → Text × FetchMode
unfolding path_escape trim_slash
build_request_url api opts =
    if not (is_empty opts.tag)
    then (trim_slash api ++ codes "/tags/" ++ path_escape opts.tag, singular_mode)
    else (
      api ++ (if contains_char api b'?' then codes "&" else codes "?") ++ codes "per_page=100",
      list_mode,
    )

abbrev parse_reset : Text → Option ℤ
parse_reset [] = none
parse_reset (c ∷ s) = atoi (c ∷ s)

unfoldable pub handle_error_response : ℕ → Text → FindError
handle_error_response status_code reset =
    if status_code == 403 || status_code == 429
    then rate_limit_error status_code (parse_reset reset)
    else status_error status_code

unfoldable pub is_rate_limit_error : FindError → Bool
is_rate_limit_error (rate_limit_error _ _) = true
is_rate_limit_error (with_message e) = is_rate_limit_error e
is_rate_limit_error _ = false

unfoldable pub should_retry : FindError → Bool
unfolding is_rate_limit_error
should_retry e = is_rate_limit_error e

abbrev is_singular : FetchMode → Bool
is_singular singular_mode = true
is_singular list_mode = false

module _ {Body : Type 0} (env : Env Body) (os arch : Text) where
  read_body : FetchMode → FindOptions → Body → Result FindError Release
  unfolding find_release_from_single_response find_release_from_list
  read_body singular_mode opts body =
      find_release_from_single_response env.unmarshal_single body os arch
  read_body list_mode opts body = find_release_from_list env.unmarshal_list body os arch opts

  read_reply : FetchMode → FindOptions → Reply Body → Result FindError Release
  unfolding handle_error_response read_body
  read_reply mode opts bad_request = err (with_message request_error)
  read_reply mode opts no_answer = err (with_message transport_error)
  read_reply mode opts broken_body = err (with_message read_error)
  read_reply mode opts (answer status_code body reset) =
      if status_code == 404 && is_singular mode
      then err (tag_not_found_error opts.tag)
      else if not (status_code == 200)
      then err (handle_error_response status_code reset)
      else read_body mode opts body

  -- The request of attempt n.
  unfoldable pub fetch_release : ℕ → Text → FetchMode → FindOptions → Result FindError Release
  unfolding read_reply
  fetch_release n request_url mode opts = read_reply mode opts (env.client n request_url)

  read_static : FindOptions → Reply Body → Result FindError Release
  unfolding find_release_by_tag_from_list find_release_from_list
  read_static opts bad_request = err (with_message request_error)
  read_static opts no_answer = err (with_message transport_error)
  read_static opts broken_body = err (with_message read_error)
  read_static opts (answer status_code body reset) =
      if not (status_code == 200)
      then err (status_error status_code)
      else if not (is_empty opts.tag)
      then find_release_by_tag_from_list env.unmarshal_list body os arch opts.tag
      else find_release_from_list env.unmarshal_list body os arch opts

  unfoldable pub find_from_static_list : ℕ → Text → FindOptions → Result FindError Release
  unfolding read_static
  find_from_static_list n list_url opts = read_static opts (env.client n list_url)

abbrev pub second : ℕ
second = 1000000000

abbrev pub initial_backoff : ℕ
initial_backoff = 2 * second

abbrev pub max_wait : ℕ
max_wait = 120 * second

-- The time that a rate limit ends at, unless it is missing or Go's zero time.
reset_of : FindError → Option ℤ
reset_of (rate_limit_error _ none) = none
reset_of (rate_limit_error _ (some (pos n))) = some (pos n)
reset_of (rate_limit_error _ (some (negsuc n))) = if n == 62135596799 then none else some (negsuc n)
reset_of (with_message e) = reset_of e
reset_of _ = none

abbrev pub max_duration : ℕ
max_duration = 2 ^ 63 - 1

-- time.Until of a time in seconds, and a second more, in a word of 64 bits: the first stops at the
-- longest duration, and the sum of the two then wraps around and is negative. A wait that is not positive
-- is not made: it counts as 0 here.
abbrev pub until_and_second : ℕ → ℤ → ℕ
until_and_second now (negsuc n) = 0
until_and_second now (pos n) =
    let wait = n * second + second - now in if ltb max_duration wait then 0 else wait

unfoldable pub calculate_wait_duration : ℕ → FindError → ℕ → ℕ
unfolding reset_of
calculate_wait_duration now last_err backoff = elim (reset_of last_err) [
  | none ↦ backoff
  | some reset ↦ min max_wait (until_and_second now reset)
]

-- The result of a call, with the waits that it made and its number of requests.
pub record Run : Type 0 where
  pub result : Result FindError Release
  pub waits : List ℕ
  pub requests : ℕ

abbrev retried : ℕ → Run → Run
retried wait run = record run { waits = wait ∷ run.waits; requests = suc run.requests }

-- The first request, which no wait precedes.
abbrev counted : Run → Run
counted run = record run { requests = suc run.requests }

abbrev ended : List ℕ → ℕ → Result FindError Release → Run
ended waits requests result = record { result = result; waits = waits; requests = requests }

abbrev pub retries : FindOptions → ℕ
retries opts = if opts.no_retry then 0 else 5

module _ {Body : Type 0} (env : Env Body) (os arch request_url : Text) (mode : FetchMode)
    (opts : FindOptions) where
  -- The attempts after the first; `left` of them are allowed.
  unfoldable pub retry_from : ℕ → ℕ → ℕ → FindError → Run
  unfolding calculate_wait_duration
  retry_from zero attempt backoff last_err = ended [] 0 (err (with_message last_err))
  retry_from (suc left) attempt backoff last_err =
      let wait = calculate_wait_duration (env.now attempt) last_err backoff in
      if ltb 0 wait && env.interrupted attempt
      then ended (wait ∷ []) 0 (err context_error)
      else elim (fetch_release env os arch attempt request_url mode opts) [
        | ok release ↦ ended (wait ∷ []) 1 (ok release)
        | err e ↦
            let rest = retry_from left (suc attempt) (backoff * 2) e in
            if should_retry e then retried wait rest else ended (wait ∷ []) 1 (err e)
      ]

  -- The loop of `FindWithOptions`: a first attempt, and up to five more.
  unfoldable pub find_at : Run
  find_at = elim (fetch_release env os arch 0 request_url mode opts) [
    | ok release ↦ ended [] 1 (ok release)
    | err e ↦
        let rest = retry_from (retries opts) 1 initial_backoff e in
        if should_retry e then counted rest else ended [] 1 (err e)
  ]

unfoldable pub find_with_options :
    {Body : Type 0} → Env Body → Text → Text → Text → FindOptions → Run
find_with_options env api os arch opts =
    let (request_url, mode) = build_request_url api opts in
    find_at env os arch request_url mode opts
