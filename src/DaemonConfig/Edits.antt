-- ===== src/DaemonConfig/Edits.antt =====
-- Edits of the daemon's configuration.
use gameapctl.Base.{
  Option, none, some, List, [], ◌∷◌, ◌++◌, map, take, drop, String, ℕ, suc, ok, ok-injective, ◌≡◌,
  refl, sym, ◌∙◌, ap, if◌then◌else◌, Bool-cases, inl, inr,
}
use gameapctl.DaemonConfig.{Yaml, ConfigFile, index_of, is_key, removed, delete_key}

module _ (yaml : Yaml) where
  -- The values without the first one that has this key.
  abbrev pub without_first : String → List yaml.Value → List yaml.Value
  without_first key [] = []
  without_first key (v ∷ vs) = if is_key key (yaml.key_of v) then vs else v ∷ without_first key vs

  -- A document with other values in its root mapping has these values.
  abbrev pub SetsValues : Type 0
  SetsValues =
      (vs ws : List yaml.Value) (doc : yaml.Doc)
      → yaml.root_values doc ≡ some vs
      → yaml.root_values (yaml.set_values ws doc) ≡ some ws

  abbrev cut_out : List yaml.Value → Option ℕ → List yaml.Value
  cut_out vs none = vs
  cut_out vs (some i) = take i vs ++ drop (suc i) vs

  cut_out-later :
      (v : yaml.Value) (vs : List yaml.Value) (o : Option ℕ)
      → cut_out (v ∷ vs) (elim o [ none ↦ none | some i ↦ some (suc i) ]) ≡ v ∷ cut_out vs o
  cut_out-later v vs none = refl
  cut_out-later v vs (some i) = refl

  cut_out-index_of :
      (key : String) (vs : List yaml.Value)
      → cut_out vs (index_of key (map yaml.key_of vs)) ≡ without_first key vs
  unfolding index_of
  cut_out-index_of key [] = refl
  cut_out-index_of key (v ∷ vs) = elim (Bool-cases (is_key key (yaml.key_of v))) [
    | inl found ↦ rw found refl
    | inr other ↦ rw other (
        cut_out-later v vs (index_of key (map yaml.key_of vs))
        ∙ ap (λ l. v ∷ l) (cut_out-index_of key vs))
  ]

  removed-values :
      (sets : SetsValues) (c : ConfigFile yaml) (vs : List yaml.Value) (o : Option ℕ)
      → yaml.root_values c.ast ≡ some vs
      → yaml.root_values (removed yaml c vs o).ast ≡ some (cut_out vs o)
  removed-values sets c vs none values = values
  removed-values sets c vs (some i) values = sets vs _ c.ast values

  -- Deleting a key of the configuration takes the first value with that key out of the root mapping,
  -- and keeps all other values in their order; a missing key changes nothing. The library has to give a
  -- document the values that are set in its root mapping.
  pub root_values-delete_key :
      (sets : SetsValues) (key : String) (c c' : ConfigFile yaml) (vs : List yaml.Value)
      → yaml.root_values c.ast ≡ some vs
      → delete_key yaml key c ≡ ok c'
      → yaml.root_values c'.ast ≡ some (without_first key vs)
  unfolding delete_key
  root_values-delete_key sets key c c' vs values e =
      let o = index_of key (map yaml.key_of vs) in
      let same : removed yaml c vs o ≡ c' = ok-injective (rw (delete_key, values) at e) in
      ap (λ (d : ConfigFile yaml). yaml.root_values d.ast) (sym same)
      ∙ removed-values sets c vs o values
      ∙ ap some (cut_out-index_of key vs)
