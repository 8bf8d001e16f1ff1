-- ===== src/Fetch/Retries.antt =====
-- The retry loop of `FindWithOptions`.
use mathlib.Core.Bool.{false≢true}
use native.Mathlib.Decide.{dec_lt}
use gameapctl.Base.{
  Text, Bool, true, false, List, [], ◌∷◌, Result, Result-cases, ok, err, ◌≡◌, refl, sym, ◌∙◌, ◌⊎◌,
  inl, inr, ap, ℕ, zero, suc, ◌+◌, ◌*◌, ◌≤◌, ◌<◌, All, length, arith, Bool-cases, Option-cases, ltb,
  ◌&&◌,
}
use gameapctl.Release.{Release, FindOptions, FindError, context_error}
use gameapctl.Fetch.{
  Env, FetchMode, fetch_release, build_request_url, is_rate_limit_error, should_retry,
  calculate_wait_duration, initial_backoff, max_wait, reset_of, Run, retried, counted, ended,
  retries, retry_from, find_at, find_with_options,
}
use gameapctl.Fetch.Requests.{IsRateLimited}

and-right : (a b : Bool) → (a && b) ≡ true → b ≡ true
and-right a b h = ground arith

-- A wait is the back-off, or it keeps to the limit of two minutes.
wait_bound :
    (now : ℕ) (e : FindError) (backoff : ℕ)
    → backoff ≤ max_wait
    → calculate_wait_duration now e backoff ≤ max_wait
unfolding calculate_wait_duration
wait_bound now e backoff h = elim (Option-cases (reset_of e)) [
  | inl missing ↦ rw (calculate_wait_duration, missing) h
  | inr (reset, known) ↦ rw (calculate_wait_duration, known) (omega arith)
]

-- The back-off of each of the rounds left keeps to the limit.
abbrev Fits : ℕ → ℕ → Type 0
Fits zero backoff = Unit
Fits (suc left) backoff = (backoff ≤ max_wait) × Fits left (backoff * 2)

-- 2, 4, 8, 16 and 32 seconds.
fits : (opts : FindOptions) → Fits (retries opts) initial_backoff
fits opts = elim (Bool-cases opts.no_retry) [
  | inl never ↦ rw never tt
  | inr some_left ↦ rw some_left (omega arith)
]

-- At most so many waits, none of which passes the limit of two minutes.
abbrev pub AreBounded : ℕ → List ℕ → Type 0
AreBounded most waits = All (λ w. w ≤ max_wait) waits × (length waits ≤ most)

module _ {Body : Type 0} (env : Env Body) (os arch url : Text) (mode : FetchMode)
    (opts : FindOptions) where
  abbrev tries : ℕ → ℕ → ℕ → FindError → Run
  tries = retry_from env os arch url mode opts

  abbrev first : Run
  first = find_at env os arch url mode opts

  abbrev fetched : ℕ → Result FindError Release
  fetched attempt = fetch_release env os arch attempt url mode opts

  abbrev wait_before : ℕ → FindError → ℕ → ℕ
  wait_before attempt e backoff = calculate_wait_duration (env.now attempt) e backoff

  -- The three ways in which a round of the loop goes.
  data Round (left attempt backoff : ℕ) (e : FindError) (run : Run) : Type 0 where
    cut_short :
        env.interrupted attempt ≡ true
        → run ≡ ended (wait_before attempt e backoff ∷ []) 0 (err context_error)
        → Round left attempt backoff e run
    settled :
        ¬ IsRateLimited env (fetched attempt)
        → run ≡ ended (wait_before attempt e backoff ∷ []) 1 (fetched attempt)
        → Round left attempt backoff e run
    limited :
        (e' : FindError)
        → fetched attempt ≡ err e'
        → is_rate_limit_error e' ≡ true
        → run ≡ retried (wait_before attempt e backoff) (tries left (suc attempt) (backoff * 2) e')
        → Round left attempt backoff e run

  round-fetched :
      (left attempt backoff : ℕ) (e : FindError) (r : Result FindError Release)
      → fetched attempt ≡ r
      → (ltb 0 (wait_before attempt e backoff) && env.interrupted attempt) ≡ false
      → Round left attempt backoff e (tries (suc left) attempt backoff e)
  unfolding retry_from should_retry
  round-fetched left attempt backoff e (ok release) got quiet =
      settled (rw got (λ h. h)) (rw (quiet, got))
  round-fetched left attempt backoff e (err e') got quiet =
      elim (Bool-cases (is_rate_limit_error e')) [
        | inl again ↦ limited e' got again (rw (quiet, got, again))
        | inr final ↦ settled (λ h. false≢true (sym final ∙ (rw got at h))) (rw (quiet, got, final))
      ]

  round :
      (left attempt backoff : ℕ) (e : FindError)
      → Round left attempt backoff e (tries (suc left) attempt backoff e)
  unfolding retry_from
  round left attempt backoff e =
      elim (Bool-cases (ltb 0 (wait_before attempt e backoff) && env.interrupted attempt)) [
        | inl cut ↦ cut_short (and-right _ _ cut) (rw cut)
        | inr quiet ↦ round-fetched left attempt backoff e (fetched attempt) refl quiet
      ]

  requests-retry_from :
      (left attempt backoff : ℕ) (e : FindError) → (tries left attempt backoff e).requests ≤ left
  requests-retry_from zero attempt backoff e = unfold retry_from in omega arith
  requests-retry_from (suc left) attempt backoff e = elim (round left attempt backoff e) [
    | cut_short _ same ↦ rw same (omega arith)
    | settled _ same ↦ rw same (omega arith)
    | limited e' _ _ same ↦
        rw same (omega (arith, requests-retry_from left (suc attempt) (backoff * 2) e'))
  ]

  waits-retry_from :
      (left attempt backoff : ℕ) (e : FindError)
      → Fits left backoff
      → AreBounded left (tries left attempt backoff e).waits
  waits-retry_from zero attempt backoff e h = unfold retry_from in (tt, omega arith)
  waits-retry_from (suc left) attempt backoff e (now, later) =
      let here = wait_bound (env.now attempt) e backoff now in
      elim (round left attempt backoff e) [
        | cut_short _ same ↦ rw same ((here, tt), omega arith)
        | settled _ same ↦ rw same ((here, tt), omega arith)
        | limited e' _ _ same ↦
            let (rest, few) = waits-retry_from left (suc attempt) (backoff * 2) e' later in
            rw same ((here, rest), omega arith)
      ]

  -- Up to the attempt n, every request from `attempt` on is rate limited, and no wait is cut short.
  abbrev LimitedUntil : ℕ → ℕ → Type 0
  LimitedUntil attempt n =
      ((k : ℕ) → attempt ≤ k → k < n → IsRateLimited env (fetched k))
      × ((k : ℕ) → env.interrupted k ≡ false)

  retry_from-settled :
      (left attempt backoff n : ℕ) (e : FindError)
      → attempt ≤ n
      → n < attempt + left
      → LimitedUntil attempt n
      → ¬ IsRateLimited env (fetched n)
      → (tries left attempt backoff e).result ≡ fetched n
  retry_from-settled zero attempt backoff n e low high h final = absurd (omega arith)
  retry_from-settled (suc left) attempt backoff n e low high (h, quiet) final =
      elim (round left attempt backoff e) [
        | cut_short cut _ ↦ absurd (false≢true (sym (quiet attempt) ∙ cut))
        | settled other same ↦ elim (dec_lt attempt n) [
          | yes below ↦ absurd (other (h attempt (omega arith) below))
          | no not_below ↦ let here : attempt ≡ n = omega arith in rw same (rw here)
        ]
        | limited e' got again same ↦ elim (dec_lt attempt n) [
          | yes below ↦ rw same (
              retry_from-settled left (suc attempt) (backoff * 2) n e' below (omega arith)
                ((λ k low' high'. h k (omega arith) high'), quiet) final)
          | no not_below ↦
              let here : attempt ≡ n = omega arith in absurd (final (rw (← here) (rw got again)))
        ]
      ]

  retry_from-exhausted :
      (left attempt backoff : ℕ) (e : FindError)
      → LimitedUntil attempt (attempt + left)
      → is_rate_limit_error e ≡ true
      → IsRateLimited env (tries left attempt backoff e).result
        × ((tries left attempt backoff e).requests ≡ left)
  retry_from-exhausted zero attempt backoff e h limit =
      unfold retry_from is_rate_limit_error in (limit, refl)
  retry_from-exhausted (suc left) attempt backoff e (h, quiet) limit =
      elim (round left attempt backoff e) [
        | cut_short cut _ ↦ absurd (false≢true (sym (quiet attempt) ∙ cut))
        | settled other _ ↦ absurd (other (h attempt (omega arith) (omega arith)))
        | limited e' got again same ↦
            let (result, requests) =
              retry_from-exhausted left (suc attempt) (backoff * 2) e'
                ((λ k low high. h k (omega arith) (omega arith)), quiet) again in
            rw same (result, ap suc requests)
      ]

  find_at-cases :
      (¬ IsRateLimited env (fetched 0) × (first ≡ ended [] 1 (fetched 0)))
      ⊎ ((e : FindError) × (is_rate_limit_error e ≡ true)
          × (fetched 0 ≡ err e)
          × (first ≡ counted (tries (retries opts) 1 initial_backoff e)))
  unfolding find_at should_retry
  find_at-cases = elim (Result-cases (fetched 0)) [
    | inl (release, got) ↦ inl (rw got (λ h. h), rw (find_at, got))
    | inr (e, got) ↦ elim (Bool-cases (is_rate_limit_error e)) [
      | inl again ↦ inr (e, again, got, rw (find_at, got, again))
      | inr final ↦ inl ((λ h. false≢true (sym final ∙ (rw got at h))), rw (find_at, got, final))
    ]
  ]

  retries-le : retries opts ≤ 5
  retries-le = ground arith

  AreBounded-mono : (m n : ℕ) (ws : List ℕ) → m ≤ n → AreBounded m ws → AreBounded n ws
  AreBounded-mono m n ws h (bounded, few) = (bounded, omega arith)

  pub find_at-bounds :
      (1 ≤ first.requests)
      × (first.requests ≤ retries opts + 1)
      × AreBounded (retries opts) first.waits
  find_at-bounds = elim find_at-cases [
    | inl (_, same) ↦ rw same (omega arith, omega arith, (tt, omega arith))
    | inr (e, _, _, same) ↦ rw same (
      omega arith,
      omega (arith, requests-retry_from (retries opts) 1 initial_backoff e),
      waits-retry_from (retries opts) 1 initial_backoff e (fits opts),
    )
  ]

  pub find_at-settled :
      (n : ℕ)
      → n ≤ retries opts
      → LimitedUntil 0 n
      → ¬ IsRateLimited env (fetched n)
      → first.result ≡ fetched n
  find_at-settled n few (h, quiet) final = elim find_at-cases [
    | inl (other, same) ↦ elim (dec_lt 0 n) [
      | yes below ↦ absurd (other (h 0 (omega arith) below))
      | no not_below ↦ let here : 0 ≡ n = omega arith in rw same (rw here)
    ]
    | inr (e, again, got, same) ↦ elim (dec_lt 0 n) [
      | yes below ↦ rw same (
          retry_from-settled (retries opts) 1 initial_backoff n e below (omega arith)
            ((λ k low high. h k (omega arith) high), quiet) final)
      | no not_below ↦ let here : 0 ≡ n = omega arith in absurd (final (rw (← here) (rw got again)))
    ]
  ]

  pub find_at-exhausted :
      LimitedUntil 0 (suc (retries opts))
      → IsRateLimited env first.result × (first.requests ≡ suc (retries opts))
  find_at-exhausted (h, quiet) = elim find_at-cases [
    | inl (other, _) ↦ absurd (other (h 0 (omega arith) (omega arith)))
    | inr (e, again, got, same) ↦
        let (result, requests) =
          retry_from-exhausted (retries opts) 1 initial_backoff e
            ((λ k low high. h k (omega arith) (omega arith)), quiet) again in
        rw same (result, ap suc requests)
  ]

module _ {Body : Type 0} (env : Env Body) (api os arch : Text) (opts : FindOptions) where
  abbrev pub find : Run
  find = find_with_options env api os arch opts

  -- The request of attempt n of a lookup.
  abbrev pub attempt_at : ℕ → Result FindError Release
  attempt_at n =
      fetch_release env os arch n (build_request_url api opts).0 (build_request_url api opts).1 opts

  -- A lookup makes at least one request, and at most one more than the number of retries: five, or
  -- none if `NoRetry` is set. It makes at most as many waits as retries, and no wait is longer than
  -- two minutes.
  pub find-bounds :
      (1 ≤ find.requests)
      × (find.requests ≤ retries opts + 1)
      × AreBounded (retries opts) find.waits
  unfolding find_with_options
  find-bounds = find_at-bounds env os arch _ _ opts

  -- If the requests before attempt n are all rate limited, attempt n is not, it is one that the options
  -- allow, and no wait is cut short, the lookup returns what attempt n returned, release or error.
  pub find-settled :
      (n : ℕ)
      → n ≤ retries opts
      → ((k : ℕ) → k < n → IsRateLimited env (attempt_at k))
      → ((k : ℕ) → env.interrupted k ≡ false)
      → ¬ IsRateLimited env (attempt_at n)
      → find.result ≡ attempt_at n
  unfolding find_with_options
  find-settled n few h quiet final =
      find_at-settled env os arch _ _ opts n few ((λ k _ high. h k high), quiet) final

  -- If every request that the options allow is rate limited and no wait is cut short, the lookup makes
  -- all of them, and its error still counts as a rate-limit error for the caller.
  pub find-exhausted :
      ((k : ℕ) → k ≤ retries opts → IsRateLimited env (attempt_at k))
      → ((k : ℕ) → env.interrupted k ≡ false)
      → IsRateLimited env find.result × (find.requests ≡ suc (retries opts))
  unfolding find_with_options
  find-exhausted h quiet =
      find_at-exhausted env os arch _ _ opts ((λ k _ high. h k (omega arith)), quiet)
