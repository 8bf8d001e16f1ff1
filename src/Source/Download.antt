-- ===== src/Source/Download.antt =====
-- pkg/releasesource/releasesource.go: the download of a resolved release. `download_func` and the
-- context are parameters: a function of the URL, and whether the context is done after a URL failed.
-- What is written to `dst` is left out.
use gameapctl.Base.{
  Text, Bool, false, Option, none, some, List, [], ◌∷◌, ◌++◌, Result, ok, err, ◌≡◌, refl, ap, All,
  if◌then◌else◌,
}
use gameapctl.Source.{Resolved}

pub data DownloadError (E : Type 0) : Type 0 where
  no_urls : DownloadError E
  cancelled : E → DownloadError E
  all_failed : E → DownloadError E

module _ {E : Type 0} (download_func : Text → Result E (Unit {0})) (is_done : Text → Bool) where
  -- The loop of `downloadWith`, with `lastErr` as its variable; the URLs that it tried, in order, are
  -- the second part of the result.
  download_from : E → List Text → Result (DownloadError E) (Unit {0}) × List Text
  download_from last_err [] = (err (all_failed last_err), [])
  download_from last_err (u ∷ us) = elim (download_func u) [
    | ok done ↦ (ok tt, u ∷ [])
    | err e ↦
        let rest = download_from e us in
        if is_done u then (err (cancelled e), u ∷ []) else (rest.0, u ∷ rest.1)
  ]

  -- The loop starts with no error, and makes at least one round here.
  download_urls : List Text → Result (DownloadError E) (Unit {0}) × List Text
  unfolding download_from
  download_urls [] = (err no_urls, [])
  download_urls (u ∷ us) = elim (download_func u) [
    | ok done ↦ (ok tt, u ∷ [])
    | err e ↦
        let rest = download_from e us in
        if is_done u then (err (cancelled e), u ∷ []) else (rest.0, u ∷ rest.1)
  ]

  -- A nil release is `none`.
  pub download_with : Option Resolved → Result (DownloadError E) (Unit {0}) × List Text
  unfolding download_urls
  download_with none = (err no_urls, [])
  download_with (some release) = download_urls release.urls

  -- These URLs fail, and the context is not done after any of them.
  abbrev pub Fails : Text → Type 0
  Fails u = (is_done u ≡ false) × ((e : E) × (download_func u ≡ err e))

  download_from-ok :
      (last_err : E) (before : List Text) (u : Text) (after : List Text)
      → All Fails before
      → download_func u ≡ ok tt
      → download_from last_err (before ++ u ∷ after) ≡ (ok tt, before ++ u ∷ [])
  unfolding download_from
  download_from-ok last_err [] u after h got = rw (download_from, got)
  download_from-ok last_err (b ∷ before) u after ((going_on, (e, failed)), h) got =
      rw (download_from, failed, going_on)
        (ap (λ (r : Result (DownloadError E) (Unit {0}) × List Text). (r.0, b ∷ r.1))
          (download_from-ok e before u after h got))

  -- A download tries the candidate URLs in their order and stops at the first that works, if the ones
  -- before it fail and the context is not done.
  pub download_with-first :
      (release : Resolved) (before : List Text) (u : Text) (after : List Text)
      → release.urls ≡ before ++ u ∷ after
      → All Fails before
      → download_func u ≡ ok tt
      → download_with (some release) ≡ (ok tt, before ++ u ∷ [])
  unfolding download_with
  download_with-first release [] u after listed h got = rw listed (rw (download_urls, got))
  download_with-first release (b ∷ before) u after listed ((going_on, (e, failed)), h) got =
      rw listed (
        rw (download_urls, failed, going_on)
          (ap (λ (r : Result (DownloadError E) (Unit {0}) × List Text). (r.0, b ∷ r.1))
            (download_from-ok e before u after h got)))

  abbrev pub last_of : E → List E → E
  last_of e [] = e
  last_of e (e' ∷ es) = last_of e' es

  abbrev pub FailWith : List Text → List E → Type 0
  FailWith [] [] = Unit
  FailWith (u ∷ us) (e ∷ es) = (download_func u ≡ err e) × (is_done u ≡ false) × FailWith us es
  FailWith _ _ = ⊥

  download_from-all_failed :
      (last_err : E) (us : List Text) (es : List E)
      → FailWith us es
      → download_from last_err us ≡ (err (all_failed (last_of last_err es)), us)
  unfolding download_from
  download_from-all_failed last_err [] [] h = refl
  download_from-all_failed last_err (u ∷ us) (e ∷ es) (failed, going_on, h) =
      rw (download_from, failed, going_on)
        (ap (λ (r : Result (DownloadError E) (Unit {0}) × List Text). (r.0, u ∷ r.1))
          (download_from-all_failed e us es h))
  download_from-all_failed last_err [] (e ∷ es) h = absurd h
  download_from-all_failed last_err (u ∷ us) [] h = absurd h

  -- If every candidate fails and the context is not done, each URL was tried once, in order, and the
  -- error is that of the last one.
  pub download_with-all_failed :
      (release : Resolved) (u : Text) (us : List Text) (e : E) (es : List E)
      → release.urls ≡ u ∷ us
      → FailWith (u ∷ us) (e ∷ es)
      → download_with (some release) ≡ (err (all_failed (last_of e es)), u ∷ us)
  unfolding download_with
  download_with-all_failed release u us e es listed (failed, going_on, h) = rw listed (
      rw (download_urls, failed, going_on)
        (ap (λ (r : Result (DownloadError E) (Unit {0}) × List Text). (r.0, u ∷ r.1))
          (download_from-all_failed e us es h)))
