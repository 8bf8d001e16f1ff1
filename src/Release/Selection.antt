-- ===== src/Release/Selection.antt =====
-- What `findReleaseFromList` and `findReleaseByTagFromList` choose.
use gameapctl.Base.{
  Text, false, Option, none, some, List, [], ◌∷◌, ◌++◌, ok, err, ◌≡◌, refl, ◌↔◌, ap, inl, inr, All,
  arith, text_eq, Bool-cases, Option-cases, if◌then◌else◌,
}
use gameapctl.Release.{
  Release, Releases, FindOptions, FindError, failed_to_find_release_error, match_asset, is_skipped,
  or_tag, select_from, select_release,
}

module _ (opts : FindOptions) (os arch : Text) where
  -- A release that the options admit has no asset for the platform.
  abbrev pub HasNoMatch : Releases → Type 0
  HasNoMatch r = is_skipped opts r ≡ false → match_asset r os arch ≡ none

  -- `rel` is the asset of the first release in the list that the options admit and that has one.
  pub record IsSelected (rs : List Releases) (rel : Release) : Type 0 where
    pub before : List Releases
    pub chosen : Releases
    pub after : List Releases
    pub listed : rs ≡ before ++ chosen ∷ after
    pub earlier : All HasNoMatch before
    pub admitted : is_skipped opts chosen ≡ false
    pub matched : match_asset chosen os arch ≡ some rel

  IsSelected-cons :
      {r : Releases} {rs : List Releases} {rel : Release}
      → HasNoMatch r
      → IsSelected rs rel
      → IsSelected (r ∷ rs) rel
  IsSelected-cons {r} h s = record {
    before = r ∷ s.before;
    chosen = s.chosen;
    after = s.after;
    listed = ap (λ l. r ∷ l) s.listed;
    earlier = (h, s.earlier);
    admitted = s.admitted;
    matched = s.matched;
  }

  select_from-IsSelected :
      (first : Text) (rs : List Releases) (rel : Release)
      → select_from opts os arch first rs ≡ ok rel
      → IsSelected rs rel
  unfolding select_from
  select_from-IsSelected first [] rel e = cc
  select_from-IsSelected first (r ∷ rs) rel e = elim (Bool-cases (is_skipped opts r)) [
    | inl skipped ↦
        IsSelected-cons (λ h. cc) (select_from-IsSelected first rs rel (rw skipped at e))
    | inr kept ↦ elim (Option-cases (match_asset r os arch)) [
      | inl missed ↦
          IsSelected-cons (λ h. missed)
            (select_from-IsSelected (or_tag first r.tag_name) rs rel (rw (kept, missed) at e))
      | inr (found, matched) ↦ record {
        before = [];
        chosen = r;
        after = rs;
        listed = refl;
        earlier = tt;
        admitted = kept;
        matched = ground arith;
      }
    ]
  ]

  IsSelected-select_from :
      (first : Text) (before : List Releases) (chosen : Releases) (after : List Releases)
      (rel : Release)
      → All HasNoMatch before
      → is_skipped opts chosen ≡ false
      → match_asset chosen os arch ≡ some rel
      → select_from opts os arch first (before ++ chosen ∷ after) ≡ ok rel
  unfolding select_from
  IsSelected-select_from first [] chosen after rel h kept matched = ground arith
  IsSelected-select_from first (r ∷ before) chosen after rel h kept matched =
      elim (Bool-cases (is_skipped opts r)) [
        | inl skipped ↦
            rw skipped (IsSelected-select_from first before chosen after rel h.1 kept matched)
        | inr kept' ↦
            rw (kept', h.0 kept')
              (IsSelected-select_from (or_tag first r.tag_name) before chosen after rel h.1 kept
                matched)
      ]

  -- The list lookup returns a release exactly when it is the asset of the first release that the
  -- options admit and that has one for the platform.
  pub select_release_iff :
      (rs : List Releases) (rel : Release)
      → (select_release opts os arch rs ≡ ok rel) ↔ IsSelected rs rel
  unfolding select_release
  select_release_iff rs rel = (
    select_from-IsSelected [] rs rel,
    λ s.
        rw s.listed
          (IsSelected-select_from [] s.before s.chosen s.after rel s.earlier s.admitted s.matched),
  )

  -- The tag of the first admitted release whose tag is not empty.
  abbrev pub first_eligible_tag : List Releases → Text
  first_eligible_tag [] = []
  first_eligible_tag (r ∷ rs) =
      if is_skipped opts r then first_eligible_tag rs else or_tag r.tag_name (first_eligible_tag rs)

  or_tag_assoc : (a b c : Text) → or_tag (or_tag a b) c ≡ or_tag a (or_tag b c)
  or_tag_assoc [] b c = refl
  or_tag_assoc (x ∷ a) b c = refl

  or_tag_nil : (a : Text) → or_tag a [] ≡ a
  or_tag_nil [] = refl
  or_tag_nil (x ∷ a) = refl

  select_from-err :
      (first : Text) (rs : List Releases) (e : FindError)
      → select_from opts os arch first rs ≡ err e
      → All HasNoMatch rs
        × (e ≡ failed_to_find_release_error os arch (or_tag first (first_eligible_tag rs)))
  unfolding select_from
  select_from-err first [] e h = (tt, rw or_tag_nil (cc))
  select_from-err first (r ∷ rs) e h = elim (Bool-cases (is_skipped opts r)) [
    | inl skipped ↦
        let (none_match, same) = select_from-err first rs e (rw skipped at h) in
        (((λ k. cc), none_match), rw skipped same)
    | inr kept ↦ elim (Option-cases (match_asset r os arch)) [
      | inl missed ↦
          let (none_match, same) =
            select_from-err (or_tag first r.tag_name) rs e (rw (kept, missed) at h) in
          (((λ k. missed), none_match), rw (kept, ← or_tag_assoc first r.tag_name _) same)
      | inr (found, matched) ↦ ground arith
    ]
  ]

  -- The list lookup fails only when no admitted release has an asset for the platform, and its error
  -- then names the platform and the tag of the first admitted release (the first tag that is not
  -- empty).
  pub select_release-err :
      (rs : List Releases) (e : FindError)
      → select_release opts os arch rs ≡ err e
      → All HasNoMatch rs × (e ≡ failed_to_find_release_error os arch (first_eligible_tag rs))
  unfolding select_release
  select_release-err rs e h = select_from-err [] rs e h

-- The release that the endpoint `releases/tags/<tag>` serves, of those in a list.
abbrev pub with_tag : Text → List Releases → Option Releases
with_tag tag [] = none
with_tag tag (r ∷ rs) = if text_eq r.tag_name tag then some r else with_tag tag rs
