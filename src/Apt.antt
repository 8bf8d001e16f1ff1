-- ===== src/Apt.antt =====
-- pkg/package_manager/apt_strategy.go: what the package manager of Debian and Ubuntu does before and
-- around the installation of packages. The commands that run are the record System, over its state.
pub mod Rounds
pub mod Lists
pub mod Strategy
use gameapctl.Base.{
  ℕ, zero, suc, Bool, true, false, not, ◌&&◌, ◌||◌, Option, none, some, List, [], ◌∷◌, ◌++◌, map,
  Text, codes, Result, ok, err, if◌then◌else◌, text_eq,
}

pub data Distribution : Type 0 where
  ubuntu debian other : Distribution

-- A search is `none` for an error, and else whether there are packages.
pub record System (State : Type 0) : Type 0 where
  pub distribution : Distribution
  pub search : Text → State → Option Bool × State
  pub install : Text → State → Bool × State
  pub purge : Text → State → Bool × State
  pub add_apt_repository : State → Bool × State
  pub has_sources_list : State → Bool
  pub write_sources_list : State → Bool × State
  pub download_key : State → Bool × State
  -- DefinePHPVersion
  pub php_version : State → Option Text

-- What the search for a version of PHP comes to. `searching` is no answer yet.
pub data Found : Type 0 where
  version : Text → Found
  search_error no_version repository_error searching : Found

-- One round of searches.
pub data Round : Type 0 where
  round_error nothing : Round
  available : Text → Round

abbrev pub php_versions : List Text
php_versions =
    codes "8.4"
    ∷ codes "8.3"
    ∷ codes "8.2"
    ∷ codes "8.1"
    ∷ codes "8.0"
    ∷ codes "7.4"
    ∷ codes "7.3"
    ∷ []

abbrev pub php_package : Text → Text → Text
php_package v suffix = codes "php" ++ (v ++ suffix)

unfoldable pub php_packages : Text → List Text
php_packages v = map (php_package v) (
    codes "-bcmath"
    ∷ codes "-bz2"
    ∷ codes "-cli"
    ∷ codes "-curl"
    ∷ codes "-fpm"
    ∷ codes "-gd"
    ∷ codes "-gmp"
    ∷ codes "-intl"
    ∷ codes "-mbstring"
    ∷ codes "-mysql"
    ∷ codes "-opcache"
    ∷ codes "-pgsql"
    ∷ codes "-sqlite"
    ∷ codes "-readline"
    ∷ codes "-xml"
    ∷ codes "-zip"
    ∷ [])

module _ {State : Type 0} (system : System State) where
  open system use {
    distribution, search, install, purge, add_apt_repository, has_sources_list, write_sources_list,
    download_key, php_version,
  }

  -- The installations of a list, up to the first that fails.
  unfoldable pub install_all : List Text → State → Bool × State
  install_all [] s = (true, s)
  install_all (p ∷ ps) s =
      let rest = install_all ps (install p s).1 in
      if (install p s).0 then rest else (false, (install p s).1)

  abbrev pub of_dependency : Option (List Text) → List Text
  of_dependency none = []
  of_dependency (some ds) = ds

  -- The dependencies of the packages that the configuration knows.
  unfoldable pub dependencies_of : (Text → Option (List Text)) → List Text → List Text
  dependencies_of config [] = []
  dependencies_of config (p ∷ ps) = of_dependency (config p) ++ dependencies_of config ps

  unfoldable pub install_dependencies :
      (Text → Option (List Text)) → List Text → State → Bool × State
  unfolding install_all dependencies_of
  install_dependencies config packs s = install_all (dependencies_of config packs) s

  unfoldable pub search_versions : List Text → State → Round × State
  search_versions [] s = (nothing, s)
  search_versions (v ∷ vs) s =
      let rest = search_versions vs (search (php_package v []) s).1 in
      elim (search (php_package v []) s).0 [
        | none ↦ (round_error, (search (php_package v []) s).1)
        | some found ↦ if found then (available v, (search (php_package v []) s).1) else rest
      ]

  abbrev as_added : Bool × State → Option Bool × State
  as_added (true, s) = (some true, s)
  as_added (false, s) = (none, s)

  abbrev pub after_list : Bool × State → Option Bool × State
  after_list (true, s) = as_added (download_key s)
  after_list (false, s) = (none, s)

  -- Whether a repository was added, or an error.
  abbrev pub add_repositories_of : Distribution → State → Option Bool × State
  add_repositories_of ubuntu s = as_added (add_apt_repository s)
  add_repositories_of debian s =
      after_list (if has_sources_list s then (true, s) else write_sources_list s)
  add_repositories_of other s = (some false, s)

  unfoldable pub add_php_repositories : State → Option Bool × State
  add_php_repositories s = add_repositories_of distribution s

  abbrev pub go_on : (Bool → State → Found × State) → Option Bool × State → Found × State
  go_on rest (none, s) = (repository_error, s)
  go_on rest (some added, s) = rest added s

  abbrev pub after_round : Bool → (Bool → State → Found × State) → Round × State → Found × State
  unfolding add_php_repositories
  after_round added rest (round_error, s) = (search_error, s)
  after_round added rest (available v, s) = (version v, s)
  after_round added rest (nothing, s) =
      if added then (no_version, s) else go_on rest (add_php_repositories s)

  -- The loop of `findPHPPackages` in so many rounds, and whether a repository was added.
  unfoldable pub find_version : ℕ → Bool → State → Found × State
  unfolding search_versions after_round
  find_version zero added s = (searching, s)
  find_version (suc rounds) added s =
      after_round added (find_version rounds) (search_versions php_versions s)
