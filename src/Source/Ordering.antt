-- ===== src/Source/Ordering.antt =====
-- The order of the sources: a rearrangement of them, by availability, latency and place in the list.
use mathlib.Core.List.{Perm, perm_middle}
use mathlib.Core.List.Perm
use mathlib.Core.Path.{ap₂, subst}
use gameapctl.Base.{
  Bool, true, false, List, [], ◌∷◌, ◌++◌, ◌≤◌, leb, ◌≡◌, refl, sym, ap, inl, inr, All, All-append,
  Bool-cases, arith, if◌then◌else◌,
}
use gameapctl.Source.{Source}
use gameapctl.Source.Order.{
  ProbeReply, ProbeResult, read_probe, insert_result, sort_stable, available_results,
  unavailable_results, sources_of, probed, probe_all, probe_and_sort,
}

pub sources_of-append :
    (rs qs : List ProbeResult) → sources_of (rs ++ qs) ≡ sources_of rs ++ sources_of qs
sources_of-append [] qs = refl
sources_of-append (r ∷ rs) qs = ap (λ l. r.src ∷ l) (sources_of-append rs qs)

insert_result-Perm :
    (r : ProbeResult) (rs : List ProbeResult)
    → Perm (sources_of (insert_result r rs)) (r.src ∷ sources_of rs)
unfolding insert_result
insert_result-Perm r [] = Perm.refl _
insert_result-Perm r (q ∷ qs) = elim (Bool-cases (leb r.latency q.latency)) [
  | inl before ↦ rw before (Perm.refl _)
  | inr after ↦
      rw after (Perm.trans (Perm.cons q.src (insert_result-Perm r qs)) (Perm.swap r.src q.src _))
]

sort_stable-Perm : (rs : List ProbeResult) → Perm (sources_of (sort_stable rs)) (sources_of rs)
unfolding sort_stable
sort_stable-Perm [] = Perm.refl _
sort_stable-Perm (r ∷ rs) =
    Perm.trans (insert_result-Perm r (sort_stable rs)) (Perm.cons r.src (sort_stable-Perm rs))

split-Perm :
    (rs : List ProbeResult)
    → Perm
        (sources_of (available_results rs) ++ sources_of (unavailable_results rs))
        (sources_of rs)
split-Perm [] = Perm.refl _
split-Perm (r ∷ rs) = elim (Bool-cases r.available) [
  | inl up ↦ rw up (Perm.cons r.src (split-Perm rs))
  | inr down ↦ rw down (Perm.trans (perm_middle _ _) (Perm.cons r.src (split-Perm rs)))
]

pub probed-src : (probe : Source → ProbeReply) (src : Source) → (probed probe src).src ≡ src
unfolding read_probe
probed-src probe src = ground arith

pub sources_of-probe_all :
    (probe : Source → ProbeReply) (sources : List Source)
    → sources_of (probe_all probe sources) ≡ sources
sources_of-probe_all probe [] = refl
sources_of-probe_all probe (src ∷ srcs) =
    ap₂ ◌∷◌ (probed-src probe src) (sources_of-probe_all probe srcs)

-- Whatever the probes answer, the order is a rearrangement of the sources: none is lost, none is
-- added, and an unavailable source stays as a fallback.
pub probe_and_sort-Perm :
    (probe : Source → ProbeReply) (sources : List Source)
    → Perm (probe_and_sort probe sources) sources
unfolding probe_and_sort
probe_and_sort-Perm probe sources =
    Perm.trans
      (Perm.append_right _ (sort_stable-Perm (available_results (probe_all probe sources))))
      (subst (Perm _) (sources_of-probe_all probe sources) (split-Perm (probe_all probe sources)))

-- In a list, `R` holds between each element and each later one.
abbrev pub Ordered {ℓ κ} : {A : Type ℓ} → (A → A → Type κ) → List A → Type κ
Ordered R [] = Unit
Ordered R (x ∷ xs) = All (R x) xs × Ordered R xs

-- `r` may stand before `q`: an available source comes before an unavailable one, and of two available
-- ones not the slower one first.
abbrev pub Precedes : ProbeResult → ProbeResult → Type 0
Precedes r q = q.available ≡ true → (r.available ≡ true) × (r.latency ≤ q.latency)

abbrev pub IsUp : ProbeResult → Type 0
IsUp r = r.available ≡ true

module _ (P : ProbeResult → Type 0) where
  All-if :
      (b : Bool) (rs qs : List ProbeResult)
      → (b ≡ true → All P rs)
      → (b ≡ false → All P qs)
      → All P (if b then rs else qs)
  All-if true rs qs h k = h refl
  All-if false rs qs h k = k refl

  All-insert_result :
      (r : ProbeResult) (rs : List ProbeResult) → P r → All P rs → All P (insert_result r rs)
  unfolding insert_result
  All-insert_result r [] h hs = (h, tt)
  All-insert_result r (q ∷ qs) h hs = elim (Bool-cases (leb r.latency q.latency)) [
    | inl before ↦ rw before (h, hs)
    | inr after ↦ rw after (hs.0, All-insert_result r qs h hs.1)
  ]

  pub All-sort_stable : (rs : List ProbeResult) → All P rs → All P (sort_stable rs)
  unfolding sort_stable
  All-sort_stable [] h = tt
  All-sort_stable (r ∷ rs) h = All-insert_result r (sort_stable rs) h.0 (All-sort_stable rs h.1)

  pub All-available_results : (rs : List ProbeResult) → All P rs → All P (available_results rs)
  All-available_results [] h = tt
  All-available_results (r ∷ rs) h =
      let rest = All-available_results rs h.1 in
      All-if r.available _ _ (λ _. (h.0, rest)) (λ _. rest)

  pub All-unavailable_results : (rs : List ProbeResult) → All P rs → All P (unavailable_results rs)
  All-unavailable_results [] h = tt
  All-unavailable_results (r ∷ rs) h =
      let rest = All-unavailable_results rs h.1 in
      All-if r.available _ _ (λ _. rest) (λ _. (h.0, rest))

pub available_results-IsUp : (rs : List ProbeResult) → All IsUp (available_results rs)
available_results-IsUp [] = tt
available_results-IsUp (r ∷ rs) =
    let rest = available_results-IsUp rs in
    All-if IsUp r.available _ _ (λ up. (up, rest)) (λ _. rest)

abbrev IsDown : ProbeResult → Type 0
IsDown r = r.available ≡ false

unavailable_results-IsDown : (rs : List ProbeResult) → All IsDown (unavailable_results rs)
unavailable_results-IsDown [] = tt
unavailable_results-IsDown (r ∷ rs) =
    let rest = unavailable_results-IsDown rs in
    All-if IsDown r.available _ _ (λ _. rest) (λ down. (down, rest))

abbrev IsFaster : ProbeResult → ProbeResult → Type 0
IsFaster r q = IsUp r × (r.latency ≤ q.latency)

IsFaster-trans :
    (r q : ProbeResult) (rs : List ProbeResult)
    → IsUp r
    → r.latency ≤ q.latency
    → All (IsFaster q) rs
    → All (IsFaster r) rs
IsFaster-trans r q [] up h hs = tt
IsFaster-trans r q (p ∷ ps) up h (here, later) =
    ((up, omega arith), IsFaster-trans r q ps up h later)

insert_result-Ordered :
    (r : ProbeResult) (rs : List ProbeResult)
    → IsUp r
    → All IsUp rs
    → Ordered IsFaster rs
    → Ordered IsFaster (insert_result r rs)
unfolding insert_result
insert_result-Ordered r [] up ups h = (tt, tt)
insert_result-Ordered r (q ∷ qs) up ups h = elim (Bool-cases (leb r.latency q.latency)) [
  | inl before ↦
      let le : r.latency ≤ q.latency = ground arith in
      rw before (((up, le), IsFaster-trans r q qs up le h.0), h)
  | inr after ↦
      let le : q.latency ≤ r.latency = ground arith in
      rw after (
        All-insert_result (IsFaster q) r qs (ups.0, le) h.0,
        insert_result-Ordered r qs up ups.1 h.1,
      )
]

sort_stable-Ordered : (rs : List ProbeResult) → All IsUp rs → Ordered IsFaster (sort_stable rs)
unfolding sort_stable
sort_stable-Ordered [] h = tt
sort_stable-Ordered (r ∷ rs) h =
    insert_result-Ordered r (sort_stable rs) h.0 (All-sort_stable IsUp rs h.1)
      (sort_stable-Ordered rs h.1)

pub All-map :
    (P Q : ProbeResult → Type 0) (rs : List ProbeResult)
    → ((r : ProbeResult) → P r → Q r)
    → All P rs
    → All Q rs
All-map P Q [] f h = tt
All-map P Q (r ∷ rs) f h = (f r h.0, All-map P Q rs f h.1)

Ordered-append :
    (rs qs : List ProbeResult) → Ordered IsFaster rs → All IsDown qs → Ordered Precedes (rs ++ qs)
Ordered-append [] [] h d = tt
Ordered-append [] (q ∷ qs) h d =
    (All-map IsDown (Precedes q) qs (λ r down up. cc) d.1, Ordered-append [] qs tt d.1)
Ordered-append (r ∷ rs) qs h d = (
  All-append (Precedes r) rs qs (All-map (IsFaster r) (Precedes r) rs (λ q f up. f) h.0)
      (All-map IsDown (Precedes r) qs (λ q down up. cc) d),
  Ordered-append rs qs h.1 d,
)

module _ (probe : Source → ProbeReply) where
  abbrev pub IsProbe : ProbeResult → Type 0
  IsProbe r = r ≡ probed probe r.src

  pub probe_all-IsProbe : (sources : List Source) → All IsProbe (probe_all probe sources)
  probe_all-IsProbe [] = tt
  probe_all-IsProbe (src ∷ srcs) =
      (ap (probed probe) (sym (probed-src probe src)), probe_all-IsProbe srcs)

  abbrev SourcePrecedes : Source → Source → Type 0
  SourcePrecedes a b = Precedes (probed probe a) (probed probe b)

  All-sources_of :
      (P : ProbeResult → Type 0) (rs : List ProbeResult)
      → All IsProbe rs
      → All P rs
      → All (λ s. P (probed probe s)) (sources_of rs)
  All-sources_of P [] h k = tt
  All-sources_of P (r ∷ rs) h k = (subst P h.0 k.0, All-sources_of P rs h.1 k.1)

  Ordered-sources_of :
      (rs : List ProbeResult)
      → All IsProbe rs
      → Ordered Precedes rs
      → Ordered SourcePrecedes (sources_of rs)
  Ordered-sources_of [] h k = tt
  Ordered-sources_of (r ∷ rs) h k = (
    All-sources_of (Precedes (probed probe r.src)) rs h.1
        (subst (λ q. All (Precedes q) rs) h.0 k.0),
    Ordered-sources_of rs h.1 k.1,
  )

  -- In the order of the sources, every available source comes before every unavailable one, and the
  -- available ones come by latency, the fastest first.
  pub probe_and_sort-Ordered :
      (sources : List Source)
      → Ordered (λ a b. Precedes (probed probe a) (probed probe b)) (probe_and_sort probe sources)
  unfolding probe_and_sort
  probe_and_sort-Ordered sources =
      let rs = probe_all probe sources in
      let up = available_results rs in
      let probes = probe_all-IsProbe sources in
      subst (Ordered SourcePrecedes) (sources_of-append (sort_stable up) (unavailable_results rs)) (
        Ordered-sources_of (sort_stable up ++ unavailable_results rs)
          (All-append IsProbe _ _
            (All-sort_stable IsProbe up (All-available_results IsProbe rs probes))
            (All-unavailable_results IsProbe rs probes))
          (Ordered-append (sort_stable up) (unavailable_results rs)
            (sort_stable-Ordered up (available_results-IsUp rs)) (unavailable_results-IsDown rs)))
