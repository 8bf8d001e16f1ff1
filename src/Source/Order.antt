-- ===== src/Source/Order.antt =====
-- pkg/releasesource/selector.go and cdn.go: the probes of the sources, and the order that they give.
use gameapctl.Base.{
  Bool, true, false, Option, none, some, List, [], ◌∷◌, ◌++◌, String, str_eq, ℕ, leb, ◌==◌, ◌&&◌,
  if◌then◌else◌, not,
}
use gameapctl.Source.{Source, is_github}

-- What the request of `probe` comes to. The parallel probes are independent of each other: a network
-- is a function of the source. `remaining` is the header `X-RateLimit-Remaining`.
pub data ProbeReply : Type 0 where
  bad_request no_answer : ProbeReply
  answer : (status_code : ℕ) → (latency : ℕ) → (remaining : String) → ProbeReply

pub record ProbeResult : Type 0 where
  pub src : Source
  pub latency : ℕ
  pub available : Bool

abbrev unavailable : Source → ProbeResult
unavailable src = record { src = src; latency = 0; available = false }

unfoldable pub read_probe : Source → ProbeReply → ProbeResult
read_probe src bad_request = unavailable src
read_probe src no_answer = unavailable src
read_probe src (answer status_code latency remaining) =
    if not (status_code == 200)
    then unavailable src
    else if is_github src.kind && str_eq remaining "0"
    then unavailable src
    else record { src = src; latency = latency; available = true }

-- slices.SortStableFunc by the latency: an insertion sort, from the end of the list, that puts an
-- element before its equals.
unfoldable pub insert_result : ProbeResult → List ProbeResult → List ProbeResult
insert_result r [] = r ∷ []
insert_result r (q ∷ qs) =
    let rest = insert_result r qs in if leb r.latency q.latency then r ∷ q ∷ qs else q ∷ rest

unfoldable pub sort_stable : List ProbeResult → List ProbeResult
unfolding insert_result
sort_stable [] = []
sort_stable (r ∷ rs) = insert_result r (sort_stable rs)

-- The loop of `probeAndSort` over the results.
abbrev pub available_results : List ProbeResult → List ProbeResult
available_results [] = []
available_results (r ∷ rs) = if r.available then r ∷ available_results rs else available_results rs

abbrev pub unavailable_results : List ProbeResult → List ProbeResult
unavailable_results [] = []
unavailable_results (r ∷ rs) =
    if r.available then unavailable_results rs else r ∷ unavailable_results rs

abbrev pub sources_of : List ProbeResult → List Source
sources_of [] = []
sources_of (r ∷ rs) = r.src ∷ sources_of rs

module _ (probe : Source → ProbeReply) where
  abbrev pub probed : Source → ProbeResult
  probed src = read_probe src (probe src)

  abbrev pub probe_all : List Source → List ProbeResult
  probe_all [] = []
  probe_all (src ∷ srcs) = probed src ∷ probe_all srcs

  unfoldable pub probe_and_sort : List Source → List Source
  unfolding sort_stable
  probe_and_sort sources =
      sources_of (sort_stable (available_results (probe_all sources)))
      ++ sources_of (unavailable_results (probe_all sources))

  -- The state is the field `ordered` behind its `sync.Once`.
  unfoldable pub ordered_sources :
      List Source → Option (List Source) → List Source × Option (List Source)
  ordered_sources sources none = let ordered = probe_and_sort sources in (ordered, some ordered)
  ordered_sources sources (some ordered) = (ordered, some ordered)

  cdns : List Source → List Source
  cdns [] = []
  cdns (src ∷ srcs) = if is_github src.kind then cdns srcs else src ∷ cdns srcs

  availability_map : List ProbeResult → List (String × Bool)
  availability_map [] = []
  availability_map (r ∷ rs) = (r.src.name, r.available) ∷ availability_map rs

  -- The map as the list of its writes, in order.
  unfoldable pub cdn_availability : List Source → List (String × Bool)
  unfolding cdns availability_map
  cdn_availability sources = availability_map (probe_all (cdns sources))
