-- ===== src/FeatureStore/Parity.antt =====
-- Training and serving agree: a dataset joined through a store shows no skew against the store's
-- own online lookup at the same instants.
use ailending_hub.Prelude.{
  ℕ, ◌+◌, ◌*◌, ◌≡◌, refl, ◌∙◌, ap, subst, Bool, true, false, Option, none, some, List, [], ◌∷◌,
  String, arith, inl, inr, length, map, ok, Dict, lookup, insert, lookup-insert, All, IsIn, eq_iff,
  All_of, Option-cases,
}
use ailending_hub.FeatureStore.Values.{FeatureSource}
use ailending_hub.FeatureStore.Order.{IsOrdered}
use ailending_hub.FeatureStore.AsOf.{as_of}
use ailending_hub.FeatureStore.Join.{
  Cell, key, instant, EntityRow, JoinResult, LocalFeatureStore, start_row, store_of, local_store,
  absent, fetch, fetch_all, resolve, value_of, as_of_lookup, store_historical_features,
}
use ailending_hub.FeatureStore.NoLeak.{dataset, get_historical_features-ok}
use ailending_hub.FeatureStore.Dataset.{
  answer, IsUnused, HasDistinctNames, RowFor, Pairs, dataset-Pairs, lookup-after_sources,
  lookup-after_sources_self,
}
use ailending_hub.FeatureStore.Skew.{
  SkewReport, row_key, row_instant, row_value, differ, compare_value, compare_features,
  compare_rows, compare_offline_online,
}

module _ {V : Type 0} where
  abbrev pub names : List (FeatureSource V) → List String
  names = map (λ s. s.spec.name)

  lookup-store_of :
      (n : String) (ss : List (FeatureSource V)) (d : LocalFeatureStore V)
      → IsUnused n ss
      → lookup n (store_of ss d) ≡ lookup n d
  unfolding store_of
  lookup-store_of n [] d h = refl
  lookup-store_of n (s ∷ ss) d h =
      lookup-store_of n ss (insert s.spec.name s d) h.1 ∙ rw (lookup-insert, h.0)

  lookup-store_of_self :
      (s : FeatureSource V) (ss : List (FeatureSource V)) (d : LocalFeatureStore V)
      → HasDistinctNames ss
      → IsIn s ss
      → lookup s.spec.name (store_of ss d) ≡ some s
  unfolding store_of
  lookup-store_of_self s [] d h m = absurd m
  lookup-store_of_self s (x ∷ xs) d h (inl same) =
      subst (λ y. lookup y.spec.name (store_of xs (insert x.spec.name x d)) ≡ some y) same
        (lookup-store_of x.spec.name xs (insert x.spec.name x d) h.0
          ∙ rw (lookup-insert, (eq_iff x.spec.name x.spec.name).1 refl))
  lookup-store_of_self s (x ∷ xs) d h (inr m) =
      lookup-store_of_self s xs (insert x.spec.name x d) h.1 m

  -- Every source of `ss` is in the store under its name.
  abbrev IsStocked : LocalFeatureStore V → List (FeatureSource V) → Type 0
  IsStocked store ss = All (λ s. lookup s.spec.name store ≡ some s) ss

  fetch-stocked :
      (store : LocalFeatureStore V) (s : FeatureSource V)
      → lookup s.spec.name store ≡ some s
      → fetch store s.spec.name ≡ ok s
  unfolding fetch
  fetch-stocked store s h = rw (h, fetch)

  fetch_all-names :
      (store : LocalFeatureStore V) (ss : List (FeatureSource V))
      → IsStocked store ss
      → fetch_all store (names ss) ≡ ok ss
  unfolding fetch_all
  fetch_all-names store [] h = refl
  fetch_all-names store (s ∷ ss) h =
      rw (fetch-stocked store s h.0) (rw (fetch_all-names store ss h.1))

  absent-names :
      (store : LocalFeatureStore V) (ss : List (FeatureSource V))
      → IsStocked store ss
      → absent store (names ss) ≡ []
  absent-names store [] h = refl
  absent-names store (s ∷ ss) h = rw h.0 (absent-names store ss h.1)

  resolve-names :
      (store : LocalFeatureStore V) (ss : List (FeatureSource V))
      → IsStocked store ss
      → resolve store (names ss) ≡ ok ss
  unfolding resolve
  resolve-names store ss h = rw (absent-names store ss h) (fetch_all-names store ss h)

  local_store-IsStocked :
      (ss : List (FeatureSource V)) → HasDistinctNames ss → IsStocked (local_store ss) ss
  unfolding local_store
  local_store-IsStocked ss d = All_of ss (λ s m. lookup-store_of_self s ss [] d m)

  as_of_lookup-stocked :
      (store : LocalFeatureStore V) (s : FeatureSource V) (k : String) (obs : ℕ)
      → lookup s.spec.name store ≡ some s
      → as_of_lookup store k s.spec.name obs ≡ ok (value_of (as_of s k obs))
  unfolding as_of_lookup
  as_of_lookup-stocked store s k obs h = rw (fetch-stocked store s h)

  -- The cells that the comparison reads in a row: the key, the instant and the features.
  abbrev Readable : List (FeatureSource V) → EntityRow V → Dict (Cell V) → Type 0
  Readable ss e row =
      (lookup "entity_key" row ≡ some (key e.entity_key))
      × (lookup "observation_point" row ≡ some (instant e.observation_point))
      × RowFor ss e row

  -- No feature is called like one of the two cells that identify a row.
  abbrev pub HasPlainNames : List (FeatureSource V) → Type 0
  HasPlainNames ss = IsUnused "entity_key" ss × IsUnused "observation_point" ss

  start_row-cells :
      (e : EntityRow V)
      → (lookup "entity_key" (start_row e) ≡ some (key e.entity_key))
        × (lookup "observation_point" (start_row e) ≡ some (instant e.observation_point))
  unfolding start_row lookup insert
  start_row-cells e = elim (Option-cases e.label_value) [
    | inl n ↦ rw (n, start_row) (refl, refl)
    | inr (l, n) ↦ rw (n, start_row) (refl, refl)
  ]

  dataset-Readable :
      (es : List (EntityRow V)) (ss : List (FeatureSource V))
      → HasDistinctNames ss
      → HasPlainNames ss
      → Pairs (Readable ss) es (dataset es ss).rows
  dataset-Readable es ss d plain =
      dataset-Pairs (Readable ss) ss
        (λ e p start. (
          lookup-after_sources "entity_key" e ss p plain.0 ∙ (rw start (start_row-cells e).0),
          lookup-after_sources "observation_point" e ss p plain.1
              ∙ (rw start (start_row-cells e).1),
          λ s m. lookup-after_sources_self e ss p s d m,
        ))
        es

  module _ (same : V → V → Bool) (same_refl : (v : V) → same v v ≡ true) where
    differ_self : (o : Option V) → differ same o o ≡ false
    unfolding differ
    differ_self none = refl
    differ_self (some v) = rw (same_refl v)

    -- A comparison that agrees counts itself and records nothing.
    abbrev Clean : ℕ → SkewReport V
    Clean n = record { compared = n; findings = []; missing_online = [] }

    compare_value_self :
        (k : String) (t : ℕ) (name : String) (o : Option V) (n : ℕ)
        → compare_value same k t name o o (Clean n) ≡ Clean (n + 1)
    unfolding compare_value
    compare_value_self k t name none n = refl
    compare_value_self k t name (some v) n = rw (same_refl v)

    compare_features-clean :
        (store : LocalFeatureStore V) (e : EntityRow V) (row : Dict (Cell V))
        (ss : List (FeatureSource V)) (n m : ℕ)
        → IsStocked store ss
        → RowFor ss e row
        → n + length ss ≡ m
        → compare_features same
            (as_of_lookup store)
            row
            e.entity_key
            e.observation_point
            (names ss)
            (Clean n)
          ≡ ok (Clean m)
    unfolding compare_features
    compare_features-clean store e row [] n m h cells sum =
        ap (λ (i : ℕ). ok (Clean i)) (omega arith)
    compare_features-clean store e row (s ∷ ss) n m h cells sum =
        rw
          (
            row_value-feature,
            as_of_lookup-stocked store s e.entity_key e.observation_point h.0,
            compare_value_self,
          )
          (compare_features-clean store e row ss (n + 1) m h.1 (λ x i. cells x (inr i))
            (omega arith))
      where
        row_value-feature : row_value s.spec.name row ≡ ok (value_of (answer e s))
        row_value-feature = unfold row_value in rw (cells s (inl refl), row_value)

    compare_rows-clean :
        (store : LocalFeatureStore V) (ss : List (FeatureSource V))
        → IsStocked store ss
        → (es : List (EntityRow V)) (rows : List (Dict (Cell V))) (n m : ℕ)
        → Pairs (Readable ss) es rows
        → n + length es * length ss ≡ m
        → compare_rows same (as_of_lookup store) (names ss) rows (Clean n) ≡ ok (Clean m)
    unfolding compare_rows
    compare_rows-clean store ss h [] [] n m p sum = ap (λ (i : ℕ). ok (Clean i)) (omega arith)
    compare_rows-clean store ss h [] (row ∷ rows) n m p sum = absurd p
    compare_rows-clean store ss h (e ∷ es) [] n m p sum = absurd p
    compare_rows-clean store ss h (e ∷ es) (row ∷ rows) n m p sum =
        rw
          (
            row_key-ok,
            row_instant-ok,
            compare_features-clean store e row ss n (n + length ss) h p.0.2 refl,
          )
          (compare_rows-clean store ss h es rows (n + length ss) m p.1 (omega arith))
      where
        row_key-ok : row_key row ≡ ok e.entity_key
        row_key-ok = unfold row_key in rw (p.0.0, row_key)

        row_instant-ok : row_instant row ≡ ok e.observation_point
        row_instant-ok = unfold row_instant in rw (p.0.1, row_instant)

    -- A dataset joined through a local store, compared with the store's own lookup, is free of skew:
    -- both calls return, every cell was compared, and no finding and no missing online value is
    -- recorded. The histories are in key order, the names of the features are distinct and none is
    -- the name of a cell that identifies the row, and equality of values is reflexive.
    pub compare-historical :
        (ss : List (FeatureSource V)) (es : List (EntityRow V))
        → All IsOrdered ss
        → HasDistinctNames ss
        → HasPlainNames ss
        → (r : JoinResult V) × (store_historical_features (local_store ss) es (names ss) ≡ ok r)
          × (compare_offline_online same r.rows (as_of_lookup (local_store ss)) (names ss)
              ≡ ok
                  (record { compared = length es * length ss; findings = []; missing_online = [] }))
    unfolding store_historical_features compare_offline_online
    compare-historical ss es ordered d plain =
        let stocked : IsStocked (local_store ss) ss = local_store-IsStocked ss d in
        (
          dataset es ss,
          rw (resolve-names (local_store ss) ss stocked)
              (get_historical_features-ok true es ss ordered),
          compare_rows-clean (local_store ss) ss stocked es (dataset es ss).rows 0
              (length es * length ss) (dataset-Readable es ss d plain) (omega arith),
        )
