-- ===== src/FeatureStore/AsOf.antt =====
-- featurestore/pit.py: FeatureSource.as_of and _latest_regardless_of_ttl.
use ailending_hub.Prelude.{
  ℕ, ◌-◌, Bool, ◌&&◌, Option, none, some, List, [], ◌∷◌, map, String, ltb, leb, if◌then◌else◌, take,
  filter, lookup,
}
use ailending_hub.FeatureStore.Values.{FeatureValue, FeatureSource, key_le}
use ailending_hub.FeatureStore.Bisect.{bisect_right}

module _ {V : Type 0} where
  -- The `for` of `as_of` over the slice, with the candidate as its variable.
  unfoldable pub latest_known :
      ℕ → Option (FeatureValue V) → List (FeatureValue V) → Option (FeatureValue V)
  latest_known obs candidate [] = candidate
  latest_known obs candidate (v ∷ rest) =
      latest_known obs
        (if ltb obs v.created_timestamp
          then candidate
          else elim candidate [ none ↦ some v | some c ↦ if key_le c v then some v else some c ])
        rest

  -- The TTL test. A value of the slice is never after `obs`, so `-` does not stop at 0 early.
  unfoldable pub within_ttl : Option ℕ → ℕ → Option (FeatureValue V) → Option (FeatureValue V)
  within_ttl ttl obs none = none
  within_ttl none obs (some c) = some c
  within_ttl (some t) obs (some c) = if ltb t (obs - c.event_timestamp) then none else some c

  abbrev event_times : List (FeatureValue V) → List ℕ
  event_times = map (λ v. v.event_timestamp)

  -- `history[:cutoff]`
  abbrev pub up_to : ℕ → List (FeatureValue V) → List (FeatureValue V)
  up_to obs history = take (bisect_right (event_times history) obs) history

  unfoldable pub as_of : FeatureSource V → String → ℕ → Option (FeatureValue V)
  unfolding latest_known within_ttl
  as_of s entity_key obs = elim (lookup entity_key s.by_entity) [
    | none ↦ none
    | some history ↦ within_ttl s.spec.ttl obs (latest_known obs none (up_to obs history))
  ]

  unfoldable pub knowable : ℕ → FeatureValue V → Bool
  knowable obs v = leb v.event_timestamp obs && leb v.created_timestamp obs

  -- `max(..., key, default=None)`: the first of the greatest.
  unfoldable pub max_by_key : List (FeatureValue V) → Option (FeatureValue V)
  max_by_key [] = none
  max_by_key (v ∷ rest) = elim (max_by_key rest) [
    | none ↦ some v
    | some m ↦ if key_le m v then some v else some m
  ]

  unfoldable pub latest_regardless_of_ttl : FeatureSource V → String → ℕ → Option (FeatureValue V)
  unfolding knowable max_by_key
  latest_regardless_of_ttl s entity_key obs = elim (lookup entity_key s.by_entity) [
    | none ↦ none
    | some history ↦ max_by_key (filter (knowable obs) history)
  ]
