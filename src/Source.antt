-- ===== src/Source.antt =====
-- pkg/releasesource/source.go, releasesource.go and cdn.go: the sources of releases, their URLs, the
-- download of a resolved release, and the availability of the CDN mirrors.
pub mod Order
pub mod Ordering
pub mod Stability
pub mod Find
pub mod Finding
pub mod Lookup
pub mod Origin
pub mod Download
use gameapctl.Base.{
  Text, codes, Bool, true, false, Option, none, some, List, [], ◌∷◌, ◌++◌, String, map, str_eq,
  if◌then◌else◌, not,
}
use gameapctl.Release.{Release}

-- A component is a string in Go; `other` is one that the program does not name.
pub data Component : Type 0 where
  gameapctl_tool panel daemon : Component
  other : Text → Component

pub data SourceKind : Type 0 where
  github cdn : SourceKind

pub record Source : Type 0 where
  pub name : String
  pub kind : SourceKind
  pub base_url : Text

abbrev pub default_sources : List Source
default_sources =
    record { name = "github"; kind = github; base_url = codes "https://api.github.com" }
    ∷ record { name = "cdn.gameap.com"; kind = cdn; base_url = codes "https://cdn.gameap.com" }
    ∷ record { name = "cdn.gameap.ru"; kind = cdn; base_url = codes "https://cdn.gameap.ru" }
    ∷ []

abbrev pub component_name : Component → Text
component_name gameapctl_tool = codes "gameapctl"
component_name panel = codes "gameap"
component_name daemon = codes "gameap-daemon"
component_name (other name) = name

-- The map `githubReleasesPath`, in which a missing key reads as the empty string.
unfoldable pub github_releases_path : Component → Option Text
github_releases_path gameapctl_tool = some (codes "/repos/gameap/gameapctl/releases")
github_releases_path panel = some (codes "/repos/gameap/gameap/releases")
github_releases_path daemon = some (codes "/repos/gameap/daemon/releases")
github_releases_path (other name) = none

abbrev or_empty : Option Text → Text
or_empty none = []
or_empty (some path) = path

abbrev pub is_github : SourceKind → Bool
is_github github = true
is_github cdn = false

pub data Method : Type 0 where
  get head : Method

unfoldable pub probe_request : Source → Method × Text
probe_request src = if is_github src.kind then (get, src.base_url ++ codes "/rate_limit") else (
  head,
  src.base_url ++ codes "/" ++ component_name gameapctl_tool ++ codes "/releases.json",
)

unfoldable pub releases_url : Source → Component → Text
unfolding github_releases_path
releases_url src component =
    if is_github src.kind
    then src.base_url ++ or_empty (github_releases_path component)
    else src.base_url ++ codes "/" ++ component_name component ++ codes "/releases.json"

unfoldable pub download_url : Source → Component → Release → Text
download_url src component rel =
    if is_github src.kind
    then rel.url
    else src.base_url
      ++ codes "/"
      ++ component_name component
      ++ codes "/"
      ++ rel.tag
      ++ codes "/"
      ++ rel.asset_name

-- `Release` of this package.
pub record Resolved : Type 0 where
  pub tag : Text
  pub asset_name : Text
  pub urls : List Text

unfoldable pub primary_url : Resolved → Text
primary_url r = elim r.urls [ [] ↦ [] | u ∷ us ↦ u ]
