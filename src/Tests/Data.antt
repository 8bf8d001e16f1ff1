-- ===== src/Tests/Data.antt =====
-- The releases, the sources and the networks of the tests.
use gameapctl.Base.{
  Text, codes, true, false, Option, none, some, List, [], ◌∷◌, ℕ, ltb, if◌then◌else◌,
}
use gameapctl.Release.{Release, Releases, FindOptions, Asset}
use gameapctl.Fetch.{Env, answer}
use gameapctl.Source.{Source, daemon, github, cdn}
use gameapctl.Source.Find.{World, Query}

abbrev pub linux : Text
linux = codes "linux"

abbrev pub amd64 : Text
amd64 = codes "amd64"

abbrev pub archive : Asset
archive = record {
  url = codes "https://api.x/1";
  name = codes "daemon-v3.2.0-linux-amd64.tar.gz";
  browser_download_url = codes "https://x/d";
}

abbrev pub beta : Releases
beta = record { tag_name = codes "v4.0.0-beta1"; prerelease = true; draft = false; assets = [] }

abbrev pub stable : Releases
stable = record {
  tag_name = codes "v3.2.0";
  prerelease = false;
  draft = false;
  assets = archive ∷ [];
}

abbrev pub listed : List Releases
listed = beta ∷ stable ∷ []

abbrev pub stable_release : Release
stable_release = record {
  url = codes "https://x/d";
  tag = codes "v3.2.0";
  asset_name = codes "daemon-v3.2.0-linux-amd64.tar.gz";
}

abbrev pub latest : FindOptions
latest = record { tag = []; tag_prefix = []; allow_prerelease = false; no_retry = false }

abbrev pub pinned_options : FindOptions
pinned_options = record {
  tag = codes "v3.2.0";
  tag_prefix = [];
  allow_prerelease = false;
  no_retry = false;
}

abbrev pub first_of : List Releases → Option Releases
first_of [] = none
first_of (r ∷ rs) = some r

-- A server that answers the first `n` attempts with a status, and then the list of releases.
abbrev pub server : ℕ → ℕ → List Releases → Env (List Releases)
server n status_code rs = record {
  client = λ k url. if ltb k n then answer status_code [] [] else answer 200 rs [];
  now = λ k. 0;
  interrupted = λ k. false;
  unmarshal_list = some;
  unmarshal_single = first_of;
}

abbrev pub hub : Source
hub = record { name = "github"; kind = github; base_url = codes "https://api.g" }

abbrev pub mirror : Source
mirror = record { name = "mirror"; kind = cdn; base_url = codes "https://m" }

abbrev pub world_of : (Source → Env (List Releases)) → World (List Releases)
world_of search = record {
  search = search;
  search_again = λ src. server 0 200 listed;
  is_done = λ src. false;
}

abbrev pub query : Query
query = record { component = daemon; kernel = linux; platform = amd64; opts = latest }
