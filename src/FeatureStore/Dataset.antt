-- ===== src/FeatureStore/Dataset.antt =====
-- What the rows of a joined dataset hold.
use mathlib.Core.List.{append-nil, append_assoc}
use ailending_hub.Prelude.{
  ◌≡◌, refl, sym, ◌∙◌, Bool, false, Option, some, List, [], ◌∷◌, ◌++◌, String, arith, inl, inr,
  subst, Dict, lookup, insert, lookup-insert, All, IsIn, str_eq, eq_iff, ok,
}
use ailending_hub.FeatureStore.Values.{FeatureValue, FeatureSource}
use ailending_hub.FeatureStore.Order.{IsOrdered}
use ailending_hub.FeatureStore.AsOf.{as_of, latest_regardless_of_ttl}
use ailending_hub.FeatureStore.Join.{
  Cell, feature, EntityRow, JoinResult, Progress, value_of, start_row, count_absent,
  get_historical_features,
}
use ailending_hub.FeatureStore.NoLeak.{
  after_source, after_sources, after_rows, dataset, get_historical_features-ok,
}

module _ {V : Type 0} where
  abbrev pub answer : EntityRow V → FeatureSource V → Option (FeatureValue V)
  answer e s = as_of s e.entity_key e.observation_point

  abbrev pub latest : EntityRow V → FeatureSource V → Option (FeatureValue V)
  latest e s = latest_regardless_of_ttl s e.entity_key e.observation_point

  -- No source of the list has the name `n`.
  abbrev pub IsUnused : String → List (FeatureSource V) → Type 0
  IsUnused n ss = All (λ s. str_eq s.spec.name n ≡ false) ss

  abbrev pub HasDistinctNames : List (FeatureSource V) → Type 0
  HasDistinctNames [] = Unit
  HasDistinctNames (s ∷ ss) = IsUnused s.spec.name ss × HasDistinctNames ss

  cells-after_source :
      (e : EntityRow V) (s : FeatureSource V) (p : Progress V)
      → (after_source e s p).cells ≡ insert s.spec.name (feature (value_of (answer e s))) p.cells
  unfolding after_source count_absent
  cells-after_source e s p = ground arith

  pub lookup-after_sources :
      (n : String) (e : EntityRow V) (ss : List (FeatureSource V)) (p : Progress V)
      → IsUnused n ss
      → lookup n (after_sources e ss p).cells ≡ lookup n p.cells
  unfolding after_sources
  lookup-after_sources n e [] p h = refl
  lookup-after_sources n e (s ∷ ss) p h =
      lookup-after_sources n e ss (after_source e s p) h.1
      ∙ rw (cells-after_source, lookup-insert, h.0)

  pub lookup-after_sources_self :
      (e : EntityRow V) (ss : List (FeatureSource V)) (p : Progress V) (s : FeatureSource V)
      → HasDistinctNames ss
      → IsIn s ss
      → lookup s.spec.name (after_sources e ss p).cells ≡ some (feature (value_of (answer e s)))
  unfolding after_sources
  lookup-after_sources_self e [] p s d m = absurd m
  lookup-after_sources_self e (x ∷ xs) p s d (inl same) =
      subst
        (λ y.
          lookup y.spec.name (after_sources e xs (after_source e x p)).cells
          ≡ some (feature (value_of (answer e y))))
        same
        (lookup-after_sources x.spec.name e xs (after_source e x p) d.0
          ∙ rw (cells-after_source, lookup-insert, (eq_iff x.spec.name x.spec.name).1 refl))
  lookup-after_sources_self e (x ∷ xs) p s d (inr later) =
      lookup-after_sources_self e xs (after_source e x p) s d.1 later

  -- The cells that a row of the dataset has for its entity row.
  abbrev pub RowFor : List (FeatureSource V) → EntityRow V → Dict (Cell V) → Type 0
  RowFor ss e row =
      (s : FeatureSource V)
      → IsIn s ss
      → lookup s.spec.name row ≡ some (feature (value_of (answer e s)))

  -- `Q` holds row for row, in order.
  abbrev pub Pairs :
      (EntityRow V → Dict (Cell V) → Type 0) → List (EntityRow V) → List (Dict (Cell V)) → Type 0
  Pairs Q [] [] = Unit
  Pairs Q (e ∷ es) (row ∷ rows) = Q e row × Pairs Q es rows
  Pairs Q _ _ = ⊥

  abbrev pub RowsFor : List (FeatureSource V) → List (EntityRow V) → List (Dict (Cell V)) → Type 0
  RowsFor ss = Pairs (RowFor ss)

  -- What holds of each row as it is built holds of the dataset, row for row.
  module _ (Q : EntityRow V → Dict (Cell V) → Type 0) (ss : List (FeatureSource V))
      (each : (e : EntityRow V) (p : Progress V)
        → p.cells ≡ start_row e
        → Q e (after_sources e ss p).cells) where
    after_rows-Pairs :
        (es : List (EntityRow V)) (r : JoinResult V)
        → (added : List (Dict (Cell V))) × ((after_rows ss es r).rows ≡ r.rows ++ added)
          × Pairs Q es added
    unfolding after_rows
    after_rows-Pairs [] r = ([], sym (append-nil r.rows), tt)
    after_rows-Pairs (e ∷ es) r =
        let p =
          after_sources e ss
            (record { cells = start_row e; missing = r.missing; expired = r.expired }) in
        let (added, eq, good) =
          after_rows-Pairs es
            (record { rows = r.rows ++ p.cells ∷ []; missing = p.missing; expired = p.expired }) in
        (p.cells ∷ added, eq ∙ append_assoc r.rows (p.cells ∷ []) added, (each e _ refl, good))

    pub dataset-Pairs : (es : List (EntityRow V)) → Pairs Q es (dataset es ss).rows
    dataset-Pairs es =
        let (added, eq, good) =
          after_rows-Pairs es (record { rows = []; missing = []; expired = [] }) in
        subst (Pairs Q es) (sym eq) good

  pub dataset-RowsFor :
      (es : List (EntityRow V)) (ss : List (FeatureSource V))
      → HasDistinctNames ss
      → RowsFor ss es (dataset es ss).rows
  dataset-RowsFor es ss d =
      dataset-Pairs (RowFor ss) ss (λ e p start s m. lookup-after_sources_self e ss p s d m) es

  -- Every source in key order and every name once: the join returns, and the cell of each feature
  -- in each row is the point-in-time value of that row's entity, in the order of the rows.
  pub get_historical_features-RowsFor :
      (strict : Bool) (es : List (EntityRow V)) (ss : List (FeatureSource V))
      → All IsOrdered ss
      → HasDistinctNames ss
      → (r : JoinResult V) × (get_historical_features es ss strict ≡ ok r) × RowsFor ss es r.rows
  get_historical_features-RowsFor strict es ss h d =
      (dataset es ss, get_historical_features-ok strict es ss h, dataset-RowsFor es ss d)
