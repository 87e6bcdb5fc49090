-- ===== src/FeatureStore/Join.antt =====
-- featurestore/pit.py: get_historical_features; featurestore/ports.py: LocalFeatureStore;
-- featurestore/skew.py: compare. A row is a dict whose cells are the kinds of value that the join
-- writes: the entity's key, the instant, a label, and a feature's value or None.
use ailending_hub.Prelude.{
  ℕ, ◌+◌, Bool, true, not, ◌&&◌, ◌||◌, Option, none, some, List, [], ◌∷◌, ◌++◌, String, ltb,
  if◌then◌else◌, Result, ok, err, ◌>>=◌, ◌>>◌, filter, Dict, lookup, insert, is_some, raise_if,
  is_nil,
}
use ailending_hub.FeatureStore.Values.{FeatureValue, FeatureSource}
use ailending_hub.FeatureStore.AsOf.{as_of, latest_regardless_of_ttl}

pub data Cell (V : Type 0) : Type 0 where
  key : String → Cell V
  instant : ℕ → Cell V
  label : V → Cell V
  feature : Option V → Cell V

pub data StoreError : Type 0 where
  leakage : (name entity_key : String) (event created observation_point : ℕ) → StoreError
  key_error : List String → StoreError
  -- a cell of another kind than the reader wants
  wrong_type : String → StoreError

pub record EntityRow (V : Type 0) : Type 0 where
  pub entity_key : String
  pub observation_point : ℕ
  pub label_value : Option V

pub record JoinResult (V : Type 0) : Type 0 where
  pub rows : List (Dict (Cell V))
  pub missing : Dict ℕ
  pub expired : Dict ℕ

-- `d.get(name, 0)`
abbrev pub count_of : String → Dict ℕ → ℕ
count_of name d = elim (lookup name d) [ none ↦ 0 | some n ↦ n ]

-- `bucket[name] = bucket.get(name, 0) + 1`
unfoldable pub bump : String → Dict ℕ → Dict ℕ
bump name d = insert name (count_of name d + 1) d

-- The variables of the inner loop: the row being built and the two counters.
pub record Progress (V : Type 0) : Type 0 where
  pub cells : Dict (Cell V)
  pub missing : Dict ℕ
  pub expired : Dict ℕ

module _ {V : Type 0} where
  -- `record` before the loop over the sources.
  unfoldable pub start_row : EntityRow V → Dict (Cell V)
  start_row e =
      let base =
        insert "observation_point" (instant e.observation_point)
          (insert "entity_key" (key e.entity_key) []) in
      elim e.label_value [ none ↦ base | some l ↦ insert "label" (label l) base ]

  -- The branch where `as_of` has no value.
  unfoldable pub count_absent : FeatureSource V → EntityRow V → Progress V → Progress V
  count_absent s e p =
      let name = s.spec.name in
      let cells : Dict (Cell V) = insert name (feature none) p.cells in
      if is_some (latest_regardless_of_ttl s e.entity_key e.observation_point)
      then record { cells = cells; missing = p.missing; expired = bump name p.expired }
      else record { cells = cells; missing = bump name p.missing; expired = p.expired }

  -- The strict re-check, and the write of the value.
  unfoldable pub place :
      Bool
      → FeatureSource V
      → EntityRow V
      → FeatureValue V
      → Progress V
      → Result StoreError (Progress V)
  place strict s e v p = do
    raise_if
        (strict
          && (ltb e.observation_point v.event_timestamp
              || ltb e.observation_point v.created_timestamp))
        (leakage s.spec.name e.entity_key v.event_timestamp v.created_timestamp e.observation_point)
    ok (record p { cells = insert s.spec.name (feature (some v.value)) p.cells })

  -- One round of the loop over the sources.
  unfoldable pub join_source :
      Bool → EntityRow V → FeatureSource V → Progress V → Result StoreError (Progress V)
  unfolding count_absent place
  join_source strict e s p = elim (as_of s e.entity_key e.observation_point) [
    | none ↦ ok (count_absent s e p)
    | some v ↦ place strict s e v p
  ]

  unfoldable pub join_sources :
      Bool → EntityRow V → List (FeatureSource V) → Progress V → Result StoreError (Progress V)
  join_sources strict e [] p = ok p
  join_sources strict e (s ∷ ss) p = do q ← join_source strict e s p; join_sources strict e ss q

  -- The loop over the entity rows, with the result as its variable.
  unfoldable pub join_rows :
      Bool
      → List (FeatureSource V)
      → List (EntityRow V)
      → JoinResult V
      → Result StoreError (JoinResult V)
  join_rows strict sources [] r = ok r
  join_rows strict sources (e ∷ es) r = do
    p ←
        join_sources strict e sources
          (record { cells = start_row e; missing = r.missing; expired = r.expired })
    join_rows strict sources es
        (record { rows = r.rows ++ p.cells ∷ []; missing = p.missing; expired = p.expired })

  unfoldable pub get_historical_features :
      List (EntityRow V) → List (FeatureSource V) → Bool → Result StoreError (JoinResult V)
  get_historical_features entity_rows sources strict =
      join_rows strict sources entity_rows (record { rows = []; missing = []; expired = [] })

-- `LocalFeatureStore`: the sources by name.
abbrev pub LocalFeatureStore : Type 0 → Type 0
LocalFeatureStore V = Dict (FeatureSource V)

module _ {V : Type 0} where
  unfoldable pub store_of : List (FeatureSource V) → LocalFeatureStore V → LocalFeatureStore V
  store_of [] d = d
  store_of (s ∷ ss) d = store_of ss (insert s.spec.name s d)

  unfoldable pub local_store : List (FeatureSource V) → LocalFeatureStore V
  unfolding store_of
  local_store sources = store_of sources []

  -- `self._sources[f]`
  unfoldable pub fetch : LocalFeatureStore V → String → Result StoreError (FeatureSource V)
  fetch store f = elim (lookup f store) [ none ↦ err (key_error (f ∷ [])) | some s ↦ ok s ]

  unfoldable pub fetch_all :
      LocalFeatureStore V → List String → Result StoreError (List (FeatureSource V))
  fetch_all store [] = ok []
  fetch_all store (f ∷ fs) = do s ← fetch store f; rest ← fetch_all store fs; ok (s ∷ rest)

  abbrev pub absent : LocalFeatureStore V → List String → List String
  absent store = filter (λ f. not (is_some (lookup f store)))

  -- `_resolve`: names that are not registered raise one KeyError that lists them all.
  unfoldable pub resolve :
      LocalFeatureStore V → List String → Result StoreError (List (FeatureSource V))
  unfolding fetch_all
  resolve store features = do
    raise_if (not (is_nil (absent store features))) (key_error (absent store features))
    fetch_all store features

  unfoldable pub store_historical_features :
      LocalFeatureStore V → List (EntityRow V) → List String → Result StoreError (JoinResult V)
  store_historical_features store entity_rows features = do
    sources ← resolve store features
    get_historical_features entity_rows sources true

  -- `None if value is None else value.value`
  abbrev pub value_of : Option (FeatureValue V) → Option V
  value_of none = none
  value_of (some v) = some v.value

  unfoldable pub as_of_lookup :
      LocalFeatureStore V → String → String → ℕ → Result StoreError (Option V)
  as_of_lookup store entity_key name obs = do
    s ← fetch store name
    ok (value_of (as_of s entity_key obs))
