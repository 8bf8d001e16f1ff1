-- ===== src/Source/Stability.antt =====
-- The sort of the sources is stable: sources of one latency, and the unavailable ones, keep their
-- order.
use mathlib.Core.List.{append-nil}
use gameapctl.Base.{
  Bool, List, [], ◌∷◌, ◌++◌, ℕ, ◌==◌, ◌&&◌, ◌≡◌, refl, sym, ◌∙◌, ap, inl, inr, All, All-append,
  Bool-cases, arith, if◌then◌else◌, not,
}
use gameapctl.Source.{Source}
use gameapctl.Source.Order.{
  ProbeReply, ProbeResult, insert_result, sort_stable, available_results, unavailable_results,
  sources_of, probed, probe_all, probe_and_sort,
}
use gameapctl.Source.Ordering.{
  sources_of-append, sources_of-probe_all, available_results-IsUp, IsUp, IsProbe, All-sort_stable,
  All-available_results, All-unavailable_results, probe_all-IsProbe,
}

abbrev pub keep {ℓ} : {A : Type ℓ} → (A → Bool) → List A → List A
keep p [] = []
keep p (x ∷ xs) = if p x then x ∷ keep p xs else keep p xs

keep-append {ℓ} :
    {A : Type ℓ} (p : A → Bool) (xs ys : List A) → keep p (xs ++ ys) ≡ keep p xs ++ keep p ys
keep-append p [] ys = refl
keep-append p (x ∷ xs) ys = elim (Bool-cases (p x)) [
  | inl kept ↦ rw (kept, keep-append p xs ys)
  | inr left_out ↦ rw (left_out, keep-append p xs ys)
]

-- An available source with this latency.
abbrev pub is_at : ℕ → ProbeResult → Bool
is_at l r = r.available && r.latency == l

abbrev pub is_down : ProbeResult → Bool
is_down r = not r.available

keep-insert_result :
    (l : ℕ) (r : ProbeResult) (rs : List ProbeResult)
    → keep (is_at l) (insert_result r rs) ≡ keep (is_at l) (r ∷ rs)
unfolding insert_result
keep-insert_result l r [] = refl
keep-insert_result l r (q ∷ qs) = ground (arith, keep-insert_result l r qs)

keep-sort_stable :
    (l : ℕ) (rs : List ProbeResult) → keep (is_at l) (sort_stable rs) ≡ keep (is_at l) rs
unfolding sort_stable
keep-sort_stable l [] = refl
keep-sort_stable l (r ∷ rs) =
    keep-insert_result l r (sort_stable rs)
    ∙ ap (λ t. if is_at l r then r ∷ t else t) (keep-sort_stable l rs)

keep-available_results :
    (l : ℕ) (rs : List ProbeResult) → keep (is_at l) (available_results rs) ≡ keep (is_at l) rs
keep-available_results l [] = refl
keep-available_results l (r ∷ rs) = ground (arith, keep-available_results l rs)

keep-unavailable_results :
    (l : ℕ) (rs : List ProbeResult) → keep (is_at l) (unavailable_results rs) ≡ []
keep-unavailable_results l [] = refl
keep-unavailable_results l (r ∷ rs) = ground (arith, keep-unavailable_results l rs)

keep_down-IsUp : (rs : List ProbeResult) → All IsUp rs → keep is_down rs ≡ []
keep_down-IsUp [] h = refl
keep_down-IsUp (r ∷ rs) h =
    ap (λ b. if not b then r ∷ keep is_down rs else keep is_down rs) h.0 ∙ keep_down-IsUp rs h.1

keep_down-unavailable_results :
    (rs : List ProbeResult) → keep is_down (unavailable_results rs) ≡ keep is_down rs
keep_down-unavailable_results [] = refl
keep_down-unavailable_results (r ∷ rs) = ground (arith, keep_down-unavailable_results rs)

abbrev results : List ProbeResult → List ProbeResult
results rs = sort_stable (available_results rs) ++ unavailable_results rs

keep-results : (l : ℕ) (rs : List ProbeResult) → keep (is_at l) (results rs) ≡ keep (is_at l) rs
keep-results l rs =
    simp
      (keep-append, keep-sort_stable, keep-available_results, keep-unavailable_results, append-nil)

keep_down-results : (rs : List ProbeResult) → keep is_down (results rs) ≡ keep is_down rs
keep_down-results rs =
    let up = All-sort_stable IsUp (available_results rs) (available_results-IsUp rs) in
    rw (keep-append, keep_down-IsUp (sort_stable (available_results rs)) up)
      (keep_down-unavailable_results rs)

module _ (probe : Source → ProbeReply) (p : ProbeResult → Bool) where
  keep-sources_of :
      (rs : List ProbeResult)
      → All (IsProbe probe) rs
      → keep (λ s. p (probed probe s)) (sources_of rs) ≡ sources_of (keep p rs)
  keep-sources_of [] h = refl
  keep-sources_of (r ∷ rs) h =
      ap
        (λ q.
          if p q
          then r.src ∷ keep (λ s. p (probed probe s)) (sources_of rs)
          else keep (λ s. p (probed probe s)) (sources_of rs))
        (sym h.0)
      ∙ ground (arith, keep-sources_of rs h.1)

  -- The order of the results and that of the sources keep the same elements.
  keep-probe_and_sort :
      (sources : List Source)
      → keep p (results (probe_all probe sources)) ≡ keep p (probe_all probe sources)
      → keep (λ s. p (probed probe s)) (probe_and_sort probe sources)
        ≡ keep (λ s. p (probed probe s)) sources
  unfolding probe_and_sort
  keep-probe_and_sort sources h =
      let rs = probe_all probe sources in
      let probes = probe_all-IsProbe probe sources in
      let all_probes =
        All-append (IsProbe probe) _ _
          (All-sort_stable (IsProbe probe) _ (All-available_results (IsProbe probe) rs probes))
          (All-unavailable_results (IsProbe probe) rs probes) in
      ap (keep (λ s. p (probed probe s)))
        (sym (sources_of-append (sort_stable (available_results rs)) (unavailable_results rs)))
      ∙ keep-sources_of (results rs) all_probes
      ∙ ap sources_of h
      ∙ sym (keep-sources_of rs probes)
      ∙ ap (keep (λ s. p (probed probe s))) (sources_of-probe_all probe sources)

-- Sources that answered with one latency keep the order in which they are configured, and so do the
-- unavailable ones.
pub probe_and_sort_stable :
    (probe : Source → ProbeReply) (sources : List Source)
    → ((l : ℕ)
        → keep (λ s. is_at l (probed probe s)) (probe_and_sort probe sources)
          ≡ keep (λ s. is_at l (probed probe s)) sources)
      × (keep (λ s. is_down (probed probe s)) (probe_and_sort probe sources)
          ≡ keep (λ s. is_down (probed probe s)) sources)
probe_and_sort_stable probe sources = (
  λ l. keep-probe_and_sort probe (is_at l) sources (keep-results l (probe_all probe sources)),
  keep-probe_and_sort probe is_down sources (keep_down-results (probe_all probe sources)),
)
