-- ===== src/Apt/Rounds.antt =====
-- findPHPPackages in pkg/package_manager/apt_strategy.go: how many rounds its loop takes.
use gameapctl.Base.{ℕ, zero, suc, Bool, true, false, ◌≡◌, ◌≢◌, refl, sym, Option, none, some}
use gameapctl.Apt.{
  Distribution, ubuntu, debian, other, System, Found, version, search_error, no_version,
  repository_error, searching, Round, round_error, nothing, available, php_versions,
  search_versions, as_added, find_version, add_php_repositories, add_repositories_of, after_round,
  go_on, after_list,
}

-- An answer of the loop.
abbrev pub IsAnswer : Found → Type 0
IsAnswer searching = ⊥
IsAnswer (version v) = Unit
IsAnswer search_error = Unit
IsAnswer no_version = Unit
IsAnswer repository_error = Unit

module _ {State : Type 0} (system : System State) where
  open system use {
    distribution, add_apt_repository, has_sources_list, write_sources_list, download_key,
  }

  last_round_lem :
      (first second : Bool → State → Found × State) (x : Round × State)
      → (after_round system true first x ≡ after_round system true second x)
        × IsAnswer (after_round system true first x).0
  unfolding add_php_repositories
  last_round_lem first second (round_error, s) = (refl, tt)
  last_round_lem first second (available v, s) = (refl, tt)
  last_round_lem first second (nothing, s) = (refl, tt)

  go_on_lem :
      (first second : Bool → State → Found × State) (x : Option Bool × State)
      → (x.0 ≢ some false)
      → ((s : State) → (first true s ≡ second true s) × IsAnswer (first true s).0)
      → (go_on system first x ≡ go_on system second x) × IsAnswer (go_on system first x).0
  go_on_lem first second (none, s) h same = (refl, tt)
  go_on_lem first second (some true, s) h same = same s
  go_on_lem first second (some false, s) h same = absurd (h refl)

  as_added_lem : (x : Bool × State) → (as_added system x).0 ≢ some false
  as_added_lem (true, s) = λ e. cc
  as_added_lem (false, s) = λ e. cc

  after_list_lem : (x : Bool × State) → (after_list system x).0 ≢ some false
  after_list_lem (true, s) = as_added_lem (download_key s)
  after_list_lem (false, s) = λ e. cc

  add_repositories_of_lem :
      (d : Distribution) → d ≢ other → (s : State) → (add_repositories_of system d s).0 ≢ some false
  add_repositories_of_lem ubuntu h s = as_added_lem (add_apt_repository s)
  add_repositories_of_lem debian h s = after_list_lem _
  add_repositories_of_lem other h s = absurd (h refl)

  first_round_lem :
      distribution ≢ other
      → (first second : Bool → State → Found × State)
      → ((s : State) → (first true s ≡ second true s) × IsAnswer (first true s).0)
      → (added : Bool) (x : Round × State)
      → (after_round system added first x ≡ after_round system added second x)
        × IsAnswer (after_round system added first x).0
  unfolding add_php_repositories
  first_round_lem known first second same true x = last_round_lem first second x
  first_round_lem known first second same false (round_error, s) = (refl, tt)
  first_round_lem known first second same false (available v, s) = (refl, tt)
  first_round_lem known first second same false (nothing, s) =
      go_on_lem first second (add_php_repositories system s)
        (add_repositories_of_lem distribution known s) same

  -- On Ubuntu and Debian the loop of findPHPPackages ends after two rounds at most, whatever the
  -- searches find: with more rounds it gives the same answer.
  pub find_version-two_rounds :
      distribution ≢ other
      → (rounds : ℕ) (added : Bool) (s : State)
      → (find_version system (suc (suc rounds)) added s ≡ find_version system 2 added s)
        × IsAnswer (find_version system 2 added s).0
  unfolding find_version
  find_version-two_rounds known rounds added s =
      let (same, answers) =
        first_round_lem known (find_version system 1) (find_version system (suc rounds))
          (λ s'.
            last_round_lem (find_version system 0) (find_version system rounds)
              (search_versions system php_versions s'))
          added (search_versions system php_versions s) in
      (sym same, answers)

  searching_lem :
      distribution ≡ other
      → (rest : Bool → State → Found × State) → ((s : State) → (rest false s).0 ≡ searching)
      → (x : Round × State) → x.0 ≡ nothing
      → (after_round system false rest x).0 ≡ searching
  unfolding add_php_repositories
  searching_lem unknown rest h (nothing, s) none_found = rw (unknown) (h s)
  searching_lem unknown rest h (round_error, s) none_found = cc
  searching_lem unknown rest h (available v, s) none_found = cc

  -- On another distribution the loop goes on as long as no round finds a version: no number of rounds
  -- gives it an answer when the searches find nothing and do not fail.
  pub find_version-searching :
      distribution ≡ other
      → ((s : State) → (search_versions system php_versions s).0 ≡ nothing)
      → (rounds : ℕ) (s : State) → (find_version system rounds false s).0 ≡ searching
  unfolding find_version
  find_version-searching unknown none_found zero s = refl
  find_version-searching unknown none_found (suc rounds) s =
      searching_lem unknown (find_version system rounds)
        (find_version-searching unknown none_found rounds) (search_versions system php_versions s)
        (none_found s)
