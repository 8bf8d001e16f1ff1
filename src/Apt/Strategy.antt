-- ===== src/Apt/Strategy.antt =====
-- pkg/package_manager/apt_strategy.go: the packages that are replaced before the installation, with the
-- installations this asks for, and what is done before a removal.
use gameapctl.Base.{
  ℕ, Bool, true, false, ◌||◌, Option, none, some, List, [], ◌∷◌, ◌++◌, Text, codes, if◌then◌else◌,
  text_eq,
}
use gameapctl.Apt.{
  Distribution, ubuntu, debian, other, System, Found, version, search_error, no_version,
  repository_error, searching, install_all, find_version, php_packages,
}

module _ {State : Type 0} (system : System State) where
  open system use {distribution, search, purge, php_version}

  abbrev pub is_there : Option Bool → Bool
  is_there none = false
  is_there (some found) = found

  abbrev pub is_error : Option Bool → Bool
  is_error none = true
  is_error (some found) = false

  abbrev pub package_if : Bool → Text → List Text
  package_if found p = if found then p ∷ [] else []

  -- `installAPTRepositoriesDependencies`: two searches, then the installations.
  unfoldable pub install_apt_repositories_dependencies : State → Bool × State
  unfolding install_all
  install_apt_repositories_dependencies s =
      let first = search (codes "software-properties-common") s in
      let second = search (codes "apt-transport-https") first.1 in
      if is_error first.0
      then (false, first.1)
      else if is_error second.0
      then (false, second.1)
      else install_all system
          (package_if (is_there first.0) (codes "software-properties-common")
            ++ package_if (is_there second.0) (codes "apt-transport-https"))
          second.1

  abbrev with_version : Option Text → State → Bool × State
  unfolding install_all
  with_version none s = (false, s)
  with_version (some v) s =
      install_all system (codes "apache2" ∷ (codes "libapache2-mod-php" ++ v) ∷ []) s

  unfoldable pub apache_package_process : State → Bool × State
  unfolding with_version
  apache_package_process s = with_version (php_version s) s

  -- The state of `transformPreInstallPackages` after a package: the packages so far, or an error.
  abbrev pub of_php :
      List Text
      → (List Text → State → Option (List Text) × State)
      → Found × State
      → Option (List Text) × State
  unfolding php_packages
  of_php updated rest (version v, s) = rest (updated ++ php_packages v) s
  of_php updated rest (search_error, s) = (none, s)
  of_php updated rest (no_version, s) = (none, s)
  of_php updated rest (repository_error, s) = (none, s)
  of_php updated rest (searching, s) = (none, s)

  abbrev pub php_into :
      ℕ
      → List Text
      → (List Text → State → Option (List Text) × State)
      → Bool × State
      → Option (List Text) × State
  unfolding find_version
  php_into rounds updated rest (true, s) = of_php updated rest (find_version system rounds false s)
  php_into rounds updated rest (false, s) = (none, s)

  abbrev pub apache_into :
      List Text
      → (List Text → State → Option (List Text) × State)
      → Bool × State
      → Option (List Text) × State
  apache_into updated rest (true, s) = rest updated s
  apache_into updated rest (false, s) = (none, s)

  abbrev pub is_php : Text → Bool
  unfolding text_eq
  is_php p = text_eq p (codes "php") || text_eq p (codes "php-extensions")

  -- `rounds` bounds the loop of `findPHPPackages`.
  unfoldable pub transform_pre_install_packages :
      ℕ → List Text → List Text → State → Option (List Text) × State
  unfolding install_apt_repositories_dependencies apache_package_process text_eq
  transform_pre_install_packages rounds [] updated s = (some updated, s)
  transform_pre_install_packages rounds (p ∷ ps) updated s =
      let rest = transform_pre_install_packages rounds ps in
      if is_php p
      then php_into rounds updated rest (install_apt_repositories_dependencies s)
      else if text_eq p (codes "apache2")
      then apache_into updated rest (apache_package_process s)
      else rest (updated ++ p ∷ []) s

  abbrev purged : Distribution → State → Bool × State
  purged ubuntu s = purge (codes "mysql*") s
  purged debian s = purge (codes "mysql*") s
  purged other s = (true, s)

  unfoldable pub pre_remove : List Text → State → Bool × State
  unfolding text_eq
  pre_remove [] s = (true, s)
  pre_remove (p ∷ ps) s =
      let kept = pre_remove ps s in
      let rest = pre_remove ps (purged distribution s).1 in
      if text_eq p (codes "mysql-server")
      then (if (purged distribution s).0 then rest else (false, (purged distribution s).1))
      else kept
