-- ===== src/FeatureStore/Tests.antt =====
-- Runs of the feature store on a small history, and its theorems at it.
use ailending_hub.Prelude.{
  ◌&&◌, ℕ, ◌*◌, ◌≡◌, refl, true, not, none, some, List, [], ◌∷◌, String, arith, ◌==◌, ok, All, inl,
  count_if, length, lookup, insert, sort_by,
}
use ailending_hub.FeatureStore.Values.{
  FeatureValue, FeatureSpec, FeatureSource, add, extend, new_source,
}
use ailending_hub.FeatureStore.Order.{IsOrdered, extend-IsOrdered, new_source-IsOrdered}
use ailending_hub.FeatureStore.Bisect.{bisect_right}
use ailending_hub.FeatureStore.AsOf.{as_of, latest_regardless_of_ttl}
use ailending_hub.FeatureStore.PointInTime.{Answers, as_of-Answers}
use ailending_hub.FeatureStore.Join.{
  EntityRow, JoinResult, get_historical_features, local_store, store_historical_features,
  as_of_lookup, count_of,
}
use ailending_hub.FeatureStore.NoLeak.{dataset, get_historical_features-ok}
use ailending_hub.FeatureStore.Dataset.{HasDistinctNames, RowsFor, get_historical_features-RowsFor}
use ailending_hub.FeatureStore.Known.{some_known, some_young}
use ailending_hub.FeatureStore.Counts.{get_historical_features_counts}
use ailending_hub.FeatureStore.Skew.{compare_offline_online}
use ailending_hub.FeatureStore.Parity.{names, HasPlainNames, compare-historical}

abbrev score : FeatureSpec
score = record {
  name = "score";
  ttl = some 30;
  owner = "risk";
  source_id = "bureau";
  description = "";
}

abbrev balance : FeatureSpec
balance = record {
  name = "balance";
  ttl = none;
  owner = "core";
  source_id = "cbs";
  description = "";
}

abbrev seen_at : ℕ → ℕ → ℕ → FeatureValue ℕ
seen_at event created v = record { event_timestamp = event; created_timestamp = created; value = v }

-- The value of day 3 landed on day 20, after a correction of day 2's value.
abbrev scores : List (FeatureValue ℕ)
scores = seen_at 3 20 700 ∷ seen_at 1 1 600 ∷ seen_at 2 9 650 ∷ seen_at 2 4 640 ∷ []

score_source : FeatureSource ℕ
score_source = extend "c1" scores (new_source ℕ score)

balance_source : FeatureSource ℕ
balance_source = extend "c1" (seen_at 5 5 100 ∷ []) (new_source ℕ balance)

run : Unit {0}
unfolding score_source balance_source extend add sort_by lookup insert as_of
    latest_regardless_of_ttl bisect_right
run = tt

-- On day 10 the score of day 3 is not known yet, and the later correction of day 2 wins.
as_of-day_10 : as_of score_source "c1" 10 ≡ some (seen_at 2 9 650)
unfolding run
as_of-day_10 = refl

as_of-day_40 : as_of score_source "c1" 40 ≡ none
unfolding run
as_of-day_40 = refl

score_source-IsOrdered : IsOrdered score_source
unfolding score_source
score_source-IsOrdered =
    extend-IsOrdered "c1" scores (new_source ℕ score) (new_source-IsOrdered ℕ score)

balance_source-IsOrdered : IsOrdered balance_source
unfolding balance_source
balance_source-IsOrdered =
    extend-IsOrdered "c1" (seen_at 5 5 100 ∷ []) (new_source ℕ balance)
      (new_source-IsOrdered ℕ balance)

as_of-Answers_example : Answers score_source "c1" 10 (as_of score_source "c1" 10)
as_of-Answers_example = as_of-Answers score_source "c1" 10 score_source-IsOrdered

extend-IsOrdered_example : IsOrdered (extend "c1" scores (new_source ℕ score))
extend-IsOrdered_example =
    extend-IsOrdered "c1" scores (new_source ℕ score) (new_source-IsOrdered ℕ score)

abbrev both : List (FeatureSource ℕ)
both = score_source ∷ balance_source ∷ []

abbrev at : String → ℕ → EntityRow ℕ
at k t = record { entity_key = k; observation_point = t; label_value = none }

abbrev entity_rows : List (EntityRow ℕ)
entity_rows = at "c1" 10 ∷ at "c1" 40 ∷ at "c2" 40 ∷ []

both-IsOrdered : All IsOrdered both
both-IsOrdered = (score_source-IsOrdered, (balance_source-IsOrdered, tt))

both-HasDistinctNames : HasDistinctNames both
unfolding run
both-HasDistinctNames = ((refl, tt), (tt, tt))

both-HasPlainNames : HasPlainNames both
unfolding run
both-HasPlainNames = ((refl, (refl, tt)), (refl, (refl, tt)))

==_refl : (v : ℕ) → (v == v) ≡ true
==_refl v = ground arith

get_historical_features-RowsFor_example :
    (r : JoinResult ℕ) × (get_historical_features entity_rows both true ≡ ok r)
    × RowsFor both entity_rows r.rows
get_historical_features-RowsFor_example =
    get_historical_features-RowsFor true entity_rows both both-IsOrdered both-HasDistinctNames

get_historical_features_counts_example :
    (r : JoinResult ℕ) × (get_historical_features entity_rows both true ≡ ok r)
    × (count_of score_source.spec.name r.missing
        ≡ count_if (λ e. not (some_known score_source e)) entity_rows)
    × (count_of score_source.spec.name r.expired
        ≡ count_if (λ e. some_known score_source e && not (some_young score_source e)) entity_rows)
get_historical_features_counts_example =
    get_historical_features_counts true entity_rows both score_source both-IsOrdered
      both-HasDistinctNames (inl refl)

compare-historical_example :
    (r : JoinResult ℕ) × (store_historical_features (local_store both) entity_rows (names both)
      ≡ ok r)
    × (compare_offline_online ◌==◌ r.rows (as_of_lookup (local_store both)) (names both)
        ≡ ok (record {
          compared = length entity_rows * length both;
          findings = [];
          missing_online = [];
        }))
compare-historical_example =
    compare-historical ◌==◌ ==_refl both entity_rows both-IsOrdered both-HasDistinctNames
      both-HasPlainNames

get_historical_features-ok_example :
    get_historical_features entity_rows both true ≡ ok (dataset entity_rows both)
get_historical_features-ok_example = get_historical_features-ok true entity_rows both both-IsOrdered
