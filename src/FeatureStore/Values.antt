-- ===== src/FeatureStore/Values.antt =====
-- featurestore/pit.py: FeatureValue, FeatureSpec, FeatureSource and its writes. An instant is a
-- number of microseconds, and so is a duration; the values of features are of any type `V`.
use ailending_hub.Prelude.{
  ℕ, Bool, ◌&&◌, ◌||◌, Option, none, some, List, [], ◌∷◌, ◌++◌, String, ltb, leb, ◌==◌,
  if◌then◌else◌, Result, ok, err, Dict, lookup, insert, sort_by,
}

pub record FeatureValue (V : Type 0) : Type 0 where
  pub event_timestamp : ℕ
  pub created_timestamp : ℕ
  pub value : V

pub data ValueError : Type 0 where
  created_precedes_event ttl_not_positive : ValueError

-- `FeatureValue(...)` with the check of `__post_init__`.
unfoldable pub feature_value : {V : Type 0} → ℕ → ℕ → V → Result ValueError (FeatureValue V)
feature_value event created v =
    if ltb created event
    then err created_precedes_event
    else ok (record { event_timestamp = event; created_timestamp = created; value = v })

pub record FeatureSpec : Type 0 where
  pub name : String
  pub ttl : Option ℕ
  pub owner : String
  pub source_id : String
  pub description : String

-- The check of `FeatureSpec.__post_init__`; a duration here is never negative.
unfoldable pub feature_spec : FeatureSpec → Result ValueError FeatureSpec
feature_spec spec = elim spec.ttl [
  | none ↦ ok spec
  | some t ↦ if t == 0 then err ttl_not_positive else ok spec
]

pub record FeatureSource (V : Type 0) : Type 0 where
  pub spec : FeatureSpec
  pub by_entity : Dict (List (FeatureValue V))

module _ {V : Type 0} where
  -- The order of the key `(event_timestamp, created_timestamp)`.
  unfoldable pub key_le : FeatureValue V → FeatureValue V → Bool
  key_le a b =
      ltb a.event_timestamp b.event_timestamp
      || a.event_timestamp == b.event_timestamp && leb a.created_timestamp b.created_timestamp

  abbrev pub or_empty : Option (List (FeatureValue V)) → List (FeatureValue V)
  or_empty none = []
  or_empty (some history) = history

  -- What the source holds of one entity.
  abbrev pub history_of : FeatureSource V → String → List (FeatureValue V)
  history_of s entity_key = or_empty (lookup entity_key s.by_entity)

  unfoldable pub add : String → FeatureValue V → FeatureSource V → FeatureSource V
  unfolding key_le
  add entity_key v s = record s {
    by_entity = insert entity_key (sort_by key_le (history_of s entity_key ++ v ∷ [])) s.by_entity;
  }

  unfoldable pub extend : String → List (FeatureValue V) → FeatureSource V → FeatureSource V
  extend entity_key [] s = s
  extend entity_key (v ∷ vs) s = extend entity_key vs (add entity_key v s)

-- `FeatureSource(spec)`
abbrev pub new_source : (V : Type 0) → FeatureSpec → FeatureSource V
new_source V spec = record { spec = spec; by_entity = [] }
