-- ===== src/FeatureStore/Skew.antt =====
-- featurestore/skew.py: the comparison of a joined dataset with what the online path returns.
-- The equality of feature values, Python's `==` on them, is the parameter `same`.
use ailending_hub.Prelude.{
  ℕ, ◌+◌, Bool, true, false, not, Option, none, some, List, [], ◌∷◌, ◌++◌, String, if◌then◌else◌,
  Result, ok, err, ◌>>=◌, Dict, lookup,
}
use ailending_hub.FeatureStore.Join.{
  Cell, key, instant, label, feature, StoreError, key_error, wrong_type, bump,
}

pub record SkewFinding (V : Type 0) : Type 0 where
  pub entity_key : String
  pub name : String
  pub offline_value : Option V
  pub online_value : Option V
  pub observation_point : ℕ

pub record SkewReport (V : Type 0) : Type 0 where
  pub compared : ℕ
  pub findings : List (SkewFinding V)
  pub missing_online : Dict ℕ

abbrev pub empty_report : (V : Type 0) → SkewReport V
empty_report V = record { compared = 0; findings = []; missing_online = [] }

module _ {V : Type 0} where
  -- `row["entity_key"]`
  unfoldable pub row_key : Dict (Cell V) → Result StoreError String
  row_key row = elim (lookup "entity_key" row) [
    | none ↦ err (key_error ("entity_key" ∷ []))
    | some c ↦ elim c [ key k ↦ ok k | _ ↦ err (wrong_type "entity_key") ]
  ]

  -- `row["observation_point"]`
  unfoldable pub row_instant : Dict (Cell V) → Result StoreError ℕ
  row_instant row = elim (lookup "observation_point" row) [
    | none ↦ err (key_error ("observation_point" ∷ []))
    | some c ↦ elim c [ instant t ↦ ok t | _ ↦ err (wrong_type "observation_point") ]
  ]

  -- `row.get(feature)`
  unfoldable pub row_value : String → Dict (Cell V) → Result StoreError (Option V)
  row_value name row = elim (lookup name row) [
    | none ↦ ok none
    | some c ↦ elim c [ feature v ↦ ok v | label v ↦ ok (some v) | _ ↦ err (wrong_type name) ]
  ]

  -- `offline_value != online_value`
  unfoldable pub differ : (V → V → Bool) → Option V → Option V → Bool
  differ same none none = false
  differ same (some a) (some b) = not (same a b)
  differ same _ _ = true

  -- `online_value is None and offline_value is not None`
  abbrev only_offline : Option V → Option V → Bool
  only_offline (some a) none = true
  only_offline _ _ = false

  unfoldable pub compare_value :
      (V → V → Bool) → String → ℕ → String → Option V → Option V → SkewReport V → SkewReport V
  unfolding differ
  compare_value same k t name offline online r = record {
    compared = r.compared + 1;
    findings =
        if differ same offline online
        then r.findings
          ++ record {
            entity_key = k;
            name = name;
            offline_value = offline;
            online_value = online;
            observation_point = t;
          }
            ∷ []
        else r.findings;
    missing_online =
        if only_offline offline online then bump name r.missing_online else r.missing_online;
  }

  unfoldable pub compare_features :
      (V → V → Bool)
      → (String → String → ℕ → Result StoreError (Option V))
      → Dict (Cell V)
      → String
      → ℕ
      → List String
      → SkewReport V
      → Result StoreError (SkewReport V)
  compare_features same online_lookup row k t [] r = ok r
  compare_features same online_lookup row k t (name ∷ names) r = do
    offline ← row_value name row
    online ← online_lookup k name t
    compare_features same online_lookup row k t names (compare_value same k t name offline online r)

  unfoldable pub compare_rows :
      (V → V → Bool)
      → (String → String → ℕ → Result StoreError (Option V))
      → List String
      → List (Dict (Cell V))
      → SkewReport V
      → Result StoreError (SkewReport V)
  compare_rows same online_lookup names [] r = ok r
  compare_rows same online_lookup names (row ∷ rows) r = do
    k ← row_key row
    t ← row_instant row
    r' ← compare_features same online_lookup row k t names r
    compare_rows same online_lookup names rows r'

  unfoldable pub compare_offline_online :
      (V → V → Bool)
      → List (Dict (Cell V))
      → (String → String → ℕ → Result StoreError (Option V))
      → List String
      → Result StoreError (SkewReport V)
  compare_offline_online same rows online_lookup names =
      compare_rows same online_lookup names rows (empty_report V)
