-- ===== src/Fraud/Features.antt =====
-- fraud/velocity.py: the named windows and the features of an application over the three dimensions.
use ailending_hub.Prelude.{
  ℕ, List, [], ◌∷◌, String, true, false, is_empty, Dict, insert, Result, ok, ◌>>=◌,
}
use ailending_hub.Fraud.Velocity.{
  Dimension, device, phone, address, ApplicationEvent, VelocityCounter, VelocityError, new_counter,
  ingest, count,
}
use Prim.Native.String.{◌++◌}

-- `WINDOWS`, in microseconds.
abbrev pub hour_window : ℕ
hour_window = 3600000000

abbrev pub day_window : ℕ
day_window = 86400000000

abbrev pub week_window : ℕ
week_window = 604800000000

-- `Dimension.value`
abbrev pub dimension_value : Dimension → String
dimension_value d = elim d [ device ↦ "device" | phone ↦ "phone" | address ↦ "address" ]

abbrev pub feature_name : Dimension → String → String
feature_name d window = "velocity_" ++ dimension_value d ++ "_" ++ window

-- `VelocityCounter.features`
unfoldable pub features : VelocityCounter → String → ℕ → ℕ → Result VelocityError (Dict ℕ)
unfolding count
features c key as_of known_at = do
  hour ← count c key as_of known_at hour_window
  day ← count c key as_of known_at day_window
  week ← count c key as_of known_at week_window
  ok (
      (feature_name c.dimension "1h", hour)
      ∷ (feature_name c.dimension "24h", day)
      ∷ (feature_name c.dimension "7d", week)
      ∷ [])

pub record VelocityFeatures : Type 0 where
  pub devices : VelocityCounter
  pub phones : VelocityCounter
  pub addresses : VelocityCounter

-- `VelocityFeatures.build`
abbrev pub build_features : ℕ → VelocityFeatures
build_features allowed_lateness = record {
  devices = new_counter device allowed_lateness;
  phones = new_counter phone allowed_lateness;
  addresses = new_counter address allowed_lateness;
}

abbrev pub counter_for : VelocityFeatures → Dimension → VelocityCounter
counter_for f d = elim d [ device ↦ f.devices | phone ↦ f.phones | address ↦ f.addresses ]

abbrev pub with_counter : Dimension → VelocityCounter → VelocityFeatures → VelocityFeatures
with_counter device c f = record f { devices = c }
with_counter phone c f = record f { phones = c }
with_counter address c f = record f { addresses = c }

-- `VelocityFeatures.ingest_all`
unfoldable pub ingest_features :
    VelocityFeatures → List ApplicationEvent → Result VelocityError VelocityFeatures
unfolding ingest
ingest_features f [] = ok f
ingest_features f (e ∷ events) = ingest (counter_for f e.dimension) e >>= λ r.
    ingest_features (with_counter e.dimension r.1 f) events

-- `out.update(row)`
abbrev update : Dict ℕ → Dict ℕ → Dict ℕ
update out [] = out
update out ((name, n) ∷ row) = update (insert name n out) row

-- The loop of `for_application`: a dimension without a key is absent.
unfoldable pub features_from :
    VelocityFeatures → ℕ → ℕ → Dict ℕ → List (Dimension × String) → Result VelocityError (Dict ℕ)
unfolding features
features_from f as_of known_at out [] = ok out
features_from f as_of known_at out ((d, key) ∷ keys) = elim (is_empty key) [
  | true ↦ features_from f as_of known_at out keys
  | false ↦ features (counter_for f d) key as_of known_at >>= λ row.
      features_from f as_of known_at (update out row) keys
]

-- `VelocityFeatures.for_application`
unfoldable pub for_application :
    VelocityFeatures → List (Dimension × String) → ℕ → ℕ → Result VelocityError (Dict ℕ)
unfolding features_from
for_application f keys as_of known_at = features_from f as_of known_at [] keys
