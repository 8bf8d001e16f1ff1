-- ===== src/Packages/Installs.antt =====
-- pkg/package_manager/extended.go: which packages an installation hands to the wrapped manager.
use gameapctl.Base.{
  Bool, true, false, Option, none, some, List, [], ◌∷◌, ◌++◌, String, Result, ok, err, is_empty,
  ok-injective, ◌≡◌, refl, sym, ap, ◌∙◌, inl, inr, Bool-cases, Option-cases, if-holds,
  if◌then◌else◌, subst,
}
use gameapctl.Packages.{
  Event, installed, PackageConfig, InstallError, Machine, Run, and_then, contains_name, lookup_vars,
  run_steps, execute_steps, kept, continued, execute_install_steps, replace_aliases, install_each,
  exclude_by_lookup_path_found, Strategy, noop_strategy, finish_install, pre_install_and_rest,
  install_extended,
}
use gameapctl.Packages.Steps.{handed, handed-execute_steps, handed-run_steps}

err-ne-ok : (e : InstallError) → ¬ (◌≡◌ {A = Result InstallError (Unit {0})} (err e) (ok tt))
err-ne-ok e h = cc

first-ok : (r rest : Run) → (and_then r rest).0 ≡ ok tt → r.0 ≡ ok tt
first-ok (ok done, h) rest e = refl
first-ok (err x, h) rest e = e

and_then-ok : (r rest : Run) → (and_then r rest).0 ≡ ok tt → and_then r rest ≡ rest
and_then-ok (ok done, h) rest e = refl
and_then-ok (err x, h) rest e = absurd (err-ne-ok x e)

module _ (machine : Machine) (packages : String → Option PackageConfig) where
  -- The packages that no install step of their own replaces.
  abbrev pub is_plain : String → Bool
  is_plain pack = elim (packages pack) [ none ↦ true | some config ↦ is_empty config.install ]

  abbrev pub plain : List String → List String
  plain [] = []
  plain (pack ∷ packs) = if is_plain pack then pack ∷ plain packs else plain packs

  is_plain-unknown : (pack : String) → packages pack ≡ none → is_plain pack ≡ true
  is_plain-unknown pack e = rw (is_plain, e) refl

  is_plain-known :
      (pack : String) (config : PackageConfig)
      → packages pack ≡ some config
      → is_plain pack ≡ is_empty config.install
  is_plain-known pack config e = rw (is_plain, e) refl

  plain-kept :
      (pack : String) (packs : List String)
      → is_plain pack ≡ true
      → plain (pack ∷ packs) ≡ pack ∷ plain packs
  plain-kept pack packs e = rw e refl

  plain-left_out :
      (pack : String) (packs : List String)
      → is_plain pack ≡ false
      → plain (pack ∷ packs) ≡ plain packs
  plain-left_out pack packs e = rw e refl

  -- The events of a list of packages, the last package first.
  abbrev pub onto : List String → List String → List String
  onto [] h = h
  onto (pack ∷ packs) h = onto packs (pack ∷ h)

  abbrev Packs : Type 0
  Packs = Result InstallError (List String) × List Event

  -- Nothing was handed over, and the packages that are left are these.
  abbrev Leaves : List Event → List String → Packs → Type 0
  Leaves h packs (r, h') =
      (handed h' ≡ handed h) × ((left : List String) → r ≡ ok left → left ≡ packs)

  Leaves-kept :
      (h : List Event) (pack : String) (packs : List String) (p : Packs)
      → Leaves h packs p
      → Leaves h (pack ∷ packs) (kept machine packages pack p)
  Leaves-kept h pack packs (ok left, h') (same, all) =
      (same, λ left' e. sym (ok-injective e) ∙ ap (λ l. pack ∷ l) (all left refl))
  Leaves-kept h pack packs (err x, h') (same, all) = (same, λ left e. cc)

  Leaves-continued :
      (h : List Event) (packs : List String) (r : Run) (p : Packs)
      → handed r.1 ≡ handed h
      → Leaves r.1 packs p
      → Leaves h packs (continued machine packages r p)
  Leaves-continued h packs (ok done, h') p e (same, all) = (same ∙ e, all)
  Leaves-continued h packs (err x, h') p e (same, all) = (e, λ left e'. cc)

  execute_install_steps-Leaves :
      (executed packs : List String) (h : List Event)
      → Leaves h (plain packs) (execute_install_steps machine packages executed packs h)
  unfolding execute_install_steps
  execute_install_steps-Leaves executed [] h = (refl, λ left e. sym (ok-injective e))
  execute_install_steps-Leaves executed (pack ∷ packs) h = elim (Option-cases (packages pack)) [
    | inl unknown ↦
        subst (λ l. Leaves h l (execute_install_steps machine packages executed (pack ∷ packs) h))
          (sym (plain-kept pack packs (is_plain-unknown pack unknown)))
          (rw (execute_install_steps, unknown)
            (Leaves-kept h pack (plain packs) _ (execute_install_steps-Leaves executed packs h)))
    | inr (config, known) ↦ elim (Bool-cases (is_empty config.install)) [
      | inl none_given ↦
          subst (λ l. Leaves h l (execute_install_steps machine packages executed (pack ∷ packs) h))
            (sym (plain-kept pack packs (is_plain-known pack config known ∙ none_given)))
            (rw (execute_install_steps, known, none_given)
              (Leaves-kept h pack (plain packs) _ (execute_install_steps-Leaves executed packs h)))
      | inr given ↦
          subst (λ l. Leaves h l (execute_install_steps machine packages executed (pack ∷ packs) h))
            (sym (plain-left_out pack packs (is_plain-known pack config known ∙ given)))
            (rw (execute_install_steps, known, given)
              (if-holds (Leaves h (plain packs)) (contains_name pack executed)
                (λ _. execute_install_steps-Leaves executed packs h)
                (λ _.
                  Leaves-continued h (plain packs)
                    (run_steps machine packages false
                      (lookup_vars machine packages config.lookup_paths h) config.install h)
                    _ (handed-run_steps machine packages false _ config.install h)
                    (execute_install_steps-Leaves (pack ∷ executed) packs _))))
    ]
  ]

  -- An installation by each package that succeeds asks for all of them, in their order.
  install_each-handed :
      (packs : List String) (h : List Event)
      → (install_each machine packages packs h).0 ≡ ok tt
      → handed (install_each machine packages packs h).1 ≡ onto packs (handed h)
  unfolding install_each
  install_each-handed [] h e = refl
  install_each-handed (pack ∷ packs) h e = elim (Bool-cases (machine.install h pack)) [
    | inl done ↦
        rw (install_each, done)
          (install_each-handed packs (installed pack true ∷ h) (rw (install_each, done) at e))
    | inr failed ↦ absurd (err-ne-ok _ (rw (install_each, failed) at e))
  ]

  module _ (uniq : List String → List String) where
    abbrev strategy : Strategy
    strategy = noop_strategy uniq

    finish_install-handed :
        (pack : String) (packs : List String) (h : List Event) (p : Packs)
        → Leaves h packs p
        → (finish_install machine packages strategy pack p).0 ≡ ok tt
        → handed (finish_install machine packages strategy pack p).1 ≡ onto packs (handed h)
    finish_install-handed pack packs h (err x, h') leaves e = absurd (err-ne-ok x e)
    finish_install-handed pack packs h (ok left, h') (same, all) e =
        let r = install_each machine packages left h' in
        let post =
          execute_steps machine packages false (λ (config : PackageConfig). config.post_install) []
            (uniq (left ++ pack ∷ [])) r.1 in
        ap (λ (run : Run). handed run.1) (and_then-ok r post e)
        ∙ handed-execute_steps machine packages false (λ config. config.post_install) []
            (uniq (left ++ pack ∷ [])) r.1
        ∙ install_each-handed left h' (first-ok r post e)
        ∙ ap (onto left) same
        ∙ ap (λ l. onto l (handed h)) (all left refl)

    pre_install_and_rest-handed :
        (pack : String) (packs : List String) (h : List Event)
        → (pre_install_and_rest machine packages strategy pack packs h).0 ≡ ok tt
        → handed (pre_install_and_rest machine packages strategy pack packs h).1
          ≡ onto (plain (replace_aliases machine packages (uniq (packs ++ pack ∷ [])))) (handed h)
    pre_install_and_rest-handed pack packs h e =
        let all = uniq (packs ++ pack ∷ []) in
        let pre = λ (config : PackageConfig). config.pre_install in
        let r = execute_steps machine packages true pre [] all h in
        let left =
          execute_install_steps machine packages [] (replace_aliases machine packages all) r.1 in
        let rest = finish_install machine packages strategy pack left in
        let same = and_then-ok r rest e in
        ap (λ (run : Run). handed run.1) same
        ∙ finish_install-handed pack (plain (replace_aliases machine packages all)) r.1 left
            (execute_install_steps-Leaves [] (replace_aliases machine packages all) r.1)
            (ap (λ (run : Run). run.0) (sym same) ∙ e)
        ∙ ap (onto (plain (replace_aliases machine packages all)))
            (handed-execute_steps machine packages true pre [] all h)

    -- By whether the package was found by its lookup paths: nothing was done at all, or these packages
    -- were handed over.
    abbrev pub Installs : Bool → String → List Event → Run → Type 0
    Installs true pack h run = run ≡ (ok tt, h)
    Installs false pack h run =
        handed run.1
        ≡ onto
            (plain (
              replace_aliases machine packages
                (uniq (exclude_by_lookup_path_found machine packages (pack ∷ []) h ++ pack ∷ []))))
            (handed h)

    -- With no further strategy, an installation that succeeds asks the wrapped manager for exactly the
    -- names that stand for the package, in their order, without those that have install steps of their
    -- own. If the package is found by its lookup paths, nothing runs and nothing is asked for.
    pub install_extended-handed :
        (pack : String) (h : List Event)
        → (install_extended machine packages strategy pack h).0 ≡ ok tt
        → Installs
            (is_empty (exclude_by_lookup_path_found machine packages (pack ∷ []) h))
            pack
            h
            (install_extended machine packages strategy pack h)
    unfolding install_extended
    install_extended-handed pack h e =
        elim (Bool-cases (is_empty (exclude_by_lookup_path_found machine packages (pack ∷ []) h))) [
          | inl found ↦ rw found refl
          | inr missing ↦
              rw missing
                (pre_install_and_rest-handed pack _ h (rw (install_extended, missing) at e))
        ]
