-- ===== src/Replacements/Repeated.antt =====
-- EnsureRepositoryReplacements in internal/pkg/daemon/repository_replacements.go, when it runs again on
-- the file that it wrote.
use Prim.Native.String
use gameapctl.Base.{
  ℕ, Bool, true, false, Bool-cases, Option, none, some, List, [], ◌∷◌, All, String, ok, bind-ok,
  ok-injective, ◌≡◌, ◌≢◌, ◌⊎◌, inl, inr, refl, sym, ap, subst, ◌∙◌, ◌>>=◌,
}
use gameapctl.DaemonConfig.{Yaml, ConfigFile, load_config, saved_bytes, index_of, delete_key}
use gameapctl.Replacements.{
  ReplacementRule, plan_cdn_replacements, com_rule, ru_rule, carry_out, cdn_com, cdn_ru, Entry,
  absent, null_value, other_value, mapping, merged, as_config, has_entry, add_under, add_unless,
  add_rules, saved_if, append_replacements_block, merge_replacement_entry,
  recreate_replacements_block, ensure_repository_replacements,
}

-- There is one rule at most, since each asks for the mirror that the other misses.
plan-cases :
    (available : String → Bool)
    → (plan_cdn_replacements available ≡ [])
      ⊎ ((r : ReplacementRule) × (plan_cdn_replacements available ≡ r ∷ [])
          × (available r.origin ≡ false)
          × (available r.mirror ≡ true))
unfolding plan_cdn_replacements
plan-cases available = elim (Bool-cases (available cdn_com)) [
  | inl up ↦ elim (Bool-cases (available cdn_ru)) [
    | inl mirror_up ↦ inl (rw (up, mirror_up) refl)
    | inr mirror_down ↦ inr (ru_rule, rw (up, mirror_down) refl, mirror_down, up)
  ]
  | inr down ↦ elim (Bool-cases (available cdn_ru)) [
    | inl mirror_up ↦ inr (com_rule, rw (down, mirror_up) refl, down, mirror_up)
    | inr mirror_down ↦ inl (rw (down, mirror_down) refl)
  ]
]

-- `mirrors` are the elements of the list that a document has for an origin.
module _ (yaml : Yaml) (entry_at : yaml.Doc → Option Entry)
    (mirrors : yaml.Doc → String → List String) where
  -- The value at the key is a mapping with the origin of a rule.
  unfoldable pub HasOrigin : ReplacementRule → yaml.Doc → Type 0
  HasOrigin r doc =
      (keys : List (Option String)) × (flow : Bool) × (i : ℕ) × (entry_at doc
        ≡ some (mapping keys flow))
      × (index_of r.origin keys ≡ some i)

  -- The document replaces the origin of a rule by its mirror.
  abbrev pub Replaces : ReplacementRule → yaml.Doc → Type 0
  Replaces r doc = HasOrigin r doc × (mirrors doc r.origin ≡ r.mirror ∷ [])

  -- What a merge does with the two texts of YAML that state that the origin is replaced by the mirror,
  -- under the root and, if the origin is not there, under the key: the merged document has this.
  unfoldable pub Merges : ReplacementRule → Type 0
  Merges r =
      (doc doc' : yaml.Doc)
      → (yaml.merge "$"
            (String.◌++◌ "remote_repository_replacements" (
              String.◌++◌ ":\n  "
                (String.◌++◌ r.origin (String.◌++◌ ":\n    - " (String.◌++◌ r.mirror "\n")))))
            doc
          ≡ some doc')
        ⊎ ((has_entry yaml entry_at r.origin (entry_at doc) ≡ ok false)
            × (yaml.merge "$.remote_repository_replacements"
                  (String.◌++◌ r.origin (String.◌++◌ ":\n  - " (String.◌++◌ r.mirror "\n"))) doc
                ≡ some doc'))
      → Replaces r doc'

  -- A printed document parses to one with the same replacements.
  abbrev pub Reprints : Type 0
  Reprints =
      (c : ConfigFile yaml)
      → (doc : yaml.Doc) × (yaml.parse (saved_bytes yaml c) ≡ some doc)
        × (entry_at doc ≡ entry_at c.ast)
        × ((origin : String) → mirrors doc origin ≡ mirrors c.ast origin)

  has_entry-HasOrigin :
      (r : ReplacementRule) (doc : yaml.Doc)
      → HasOrigin r doc
      → has_entry yaml entry_at r.origin (entry_at doc) ≡ ok true
  unfolding has_entry HasOrigin
  has_entry-HasOrigin r doc (keys, flow, i, e, there) = rw (e, there) refl

  merged-ast :
      (o : Option yaml.Doc) (c c' : ConfigFile yaml)
      → merged yaml entry_at c o ≡ ok c'
      → o ≡ some c'.ast
  merged-ast none c c' h = cc
  merged-ast (some doc) c c' h = ap some (ap (λ (d : ConfigFile yaml). d.ast) (ok-injective h))

  merged-Replaces :
      (r : ReplacementRule) (merges : Merges r) (c c' : ConfigFile yaml)
      → (append_replacements_block yaml entry_at r c ≡ ok c')
        ⊎ ((has_entry yaml entry_at r.origin (entry_at c.ast) ≡ ok false)
            × (merge_replacement_entry yaml entry_at r c ≡ ok c'))
      → Replaces r c'.ast
  unfolding Merges
  merged-Replaces r merges c c' (inl e) = merges c.ast c'.ast (inl (merged-ast _ c c' e))
  merged-Replaces r merges c c' (inr (new, e)) =
      merges c.ast c'.ast (inr (new, merged-ast _ c c' e))

  add_under-Replaces :
      (r : ReplacementRule) (merges : Merges r) (c c' : ConfigFile yaml) (e : Option Entry)
      → entry_at c.ast ≡ e
      → has_entry yaml entry_at r.origin e ≡ ok false
      → add_under yaml entry_at r c e ≡ ok c'
      → Replaces r c'.ast
  unfolding add_under recreate_replacements_block
  add_under-Replaces r merges c c' none is_e new h = cc
  add_under-Replaces r merges c c' (some absent) is_e new h = merged-Replaces r merges c c' (inl h)
  add_under-Replaces r merges c c' (some null_value) is_e new h =
      let (d, deleted, e) =
        bind-ok (as_config (delete_key yaml _ c)) (append_replacements_block yaml entry_at r) h in
      merged-Replaces r merges d c' (inl e)
  add_under-Replaces r merges c c' (some other_value) is_e new h = cc
  add_under-Replaces r merges c c' (some (mapping [] flow)) is_e new h =
      let (d, deleted, e) =
        bind-ok (as_config (delete_key yaml _ c)) (append_replacements_block yaml entry_at r) h in
      merged-Replaces r merges d c' (inl e)
  add_under-Replaces r merges c c' (some (mapping (k ∷ ks) true)) is_e new h = cc
  add_under-Replaces r merges c c' (some (mapping (k ∷ ks) false)) is_e new h =
      merged-Replaces r merges c c' (inr (ap (has_entry yaml entry_at r.origin) is_e ∙ new, h))

  add_unless-cases :
      (r : ReplacementRule) (merges : Merges r) (c : ConfigFile yaml) (found : Bool)
      (x : ConfigFile yaml × Bool)
      → has_entry yaml entry_at r.origin (entry_at c.ast) ≡ ok found
      → add_unless yaml entry_at r c false found ≡ ok x
      → (x.1 ≡ false) ⊎ Replaces r x.0.ast
  unfolding add_unless
  add_unless-cases r merges c true x there h =
      inl (sym (ap (λ (y : ConfigFile yaml × Bool). y.1) (ok-injective h)))
  add_unless-cases r merges c false x new h =
      let (c', added, e) =
        bind-ok (add_under yaml entry_at r c (entry_at c.ast)) (λ c'. ok (c', true)) h in
      inr (
        subst (λ (y : ConfigFile yaml × Bool). Replaces r y.0.ast) (ok-injective e)
          (add_under-Replaces r merges c c' (entry_at c.ast) refl new added))

  -- The rule of a plan, carried out.
  add_rules-cases :
      (r : ReplacementRule) (merges : Merges r) (c : ConfigFile yaml) (x : ConfigFile yaml × Bool)
      → add_rules yaml entry_at (r ∷ []) c false ≡ ok x
      → (x.1 ≡ false) ⊎ Replaces r x.0.ast
  unfolding add_rules
  add_rules-cases r merges c x h =
      let (y, tried, e) =
        bind-ok
          (has_entry yaml entry_at r.origin (entry_at c.ast) >>= add_unless yaml entry_at r c false)
          (λ y. ok (y.0, y.1)) h in
      let (found, checked, e') =
        bind-ok (has_entry yaml entry_at r.origin (entry_at c.ast))
          (add_unless yaml entry_at r c false) tried in
      subst (λ (y : ConfigFile yaml × Bool). (y.1 ≡ false) ⊎ Replaces r y.0.ast) (ok-injective e)
        (add_unless-cases r merges c found y checked e')

  add_rules-again :
      (r : ReplacementRule) (c : ConfigFile yaml)
      → HasOrigin r c.ast
      → add_rules yaml entry_at (r ∷ []) c false ≡ ok (c, false)
  unfolding add_rules
  add_rules-again r c has = rw (has_entry-HasOrigin r c.ast has) refl

  some-bytes : {b b' : yaml.Bytes} → ◌≡◌ {A = Option yaml.Bytes} (some b) (some b') → b ≡ b'
  some-bytes h = cc

  saved_if-some :
      (x : ConfigFile yaml × Bool) (bytes : yaml.Bytes)
      → saved_if yaml entry_at x ≡ some bytes
      → (x.1 ≡ true) × (saved_bytes yaml x.0 ≡ bytes)
  saved_if-some (c, true) bytes h = (refl, some-bytes h)
  saved_if-some (c, false) bytes h = cc

  load_config-some :
      (bytes : yaml.Bytes) (doc : yaml.Doc)
      → yaml.parse bytes ≡ some doc
      → load_config yaml (some bytes) ≡ ok (record { ast = doc; content = bytes })
  unfolding load_config
  load_config-some bytes doc parsed = rw (load_config, parsed) refl

  -- The written bytes hold the origin of the rule.
  written_again :
      (r : ReplacementRule) (merges : Merges r) (reprints : Reprints) (x : ConfigFile yaml × Bool)
      (bytes : yaml.Bytes)
      → (x.1 ≡ false) ⊎ Replaces r x.0.ast
      → (x.1 ≡ true) × (saved_bytes yaml x.0 ≡ bytes)
      → (c : ConfigFile yaml) × (load_config yaml (some bytes) ≡ ok c)
        × (yaml.parse bytes ≡ some c.ast)
        × Replaces r c.ast
  unfolding load_config HasOrigin
  written_again r merges reprints x bytes (inl unchanged) (changed, saved) = cc
  written_again r merges reprints x bytes (inr ((keys, flow, i, e, there), lists))
        (changed, saved) =
      let (doc, parsed, same, mirrored) = reprints x.0 in
      (
        record { ast = doc; content = bytes },
        load_config-some bytes doc (subst (λ b. yaml.parse b ≡ some doc) saved parsed),
        subst (λ b. yaml.parse b ≡ some doc) saved parsed,
        ((keys, flow, i, same ∙ e, there), mirrored r.origin ∙ lists),
      )

  none-ne-some : (bytes : yaml.Bytes) → carry_out yaml entry_at none [] ≢ ok (some bytes)
  unfolding carry_out
  none-ne-some bytes e = cc

  carry_out-again :
      (r : ReplacementRule) (merges : Merges r) (reprints : Reprints) (file : Option yaml.Bytes)
      (bytes : yaml.Bytes)
      → carry_out yaml entry_at file (r ∷ []) ≡ ok (some bytes)
      → (carry_out yaml entry_at (some bytes) (r ∷ []) ≡ ok none)
        × ((doc : yaml.Doc) × (yaml.parse bytes ≡ some doc)
            × (mirrors doc r.origin ≡ r.mirror ∷ []))
  unfolding carry_out
  carry_out-again r merges reprints file bytes h =
      let (x, added, saved) =
        bind-ok
          (as_config (load_config yaml file) >>= λ c. add_rules yaml entry_at (r ∷ []) c false)
          (λ x. ok (saved_if yaml entry_at x)) h in
      let (c, loaded, run) =
        bind-ok (as_config (load_config yaml file)) (λ c. add_rules yaml entry_at (r ∷ []) c false)
          added in
      let (again, reloaded, parsed, (has, lists)) =
        written_again r merges reprints x bytes (add_rules-cases r merges c x run)
          (saved_if-some x bytes (ok-injective saved)) in
      (rw (reloaded, add_rules-again r again has) refl, (again.ast, parsed, lists))

  -- When EnsureRepositoryReplacements writes the configuration, the written text parses to a document
  -- that replaces an unreachable CDN by the other one, which is reachable, and a second run on what it
  -- wrote, with the same CDNs available, writes nothing. For the planned rule, the library's merge of a
  -- text that states the replacement has to leave it in the document, and a printed document to parse to
  -- one with the same replacements.
  pub ensure_repository_replacements-again :
      (reprints : Reprints) (file : Option yaml.Bytes) (available : String → Bool)
      (bytes : yaml.Bytes)
      → All Merges (plan_cdn_replacements available)
      → ensure_repository_replacements yaml entry_at file available ≡ ok (some bytes)
      → (ensure_repository_replacements yaml entry_at (some bytes) available ≡ ok none)
        × ((r : ReplacementRule) × (doc : yaml.Doc) × (available r.origin ≡ false)
            × (available r.mirror ≡ true)
            × (yaml.parse bytes ≡ some doc)
            × (mirrors doc r.origin ≡ r.mirror ∷ []))
  unfolding ensure_repository_replacements
  ensure_repository_replacements-again reprints file available bytes merges h =
      elim (plan-cases available) [
        | inl nothing_planned ↦ absurd (none-ne-some bytes (rw nothing_planned at h))
        | inr (r, planned, down, up) ↦
            let (again, (doc, parsed, lists)) =
              carry_out-again r (rw planned at merges).0 reprints file bytes (rw planned at h) in
            (rw planned again, (r, doc, down, up, parsed, lists))
      ]
