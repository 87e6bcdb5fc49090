-- ===== src/FeatureStore/NoLeak.antt =====
-- Over sources in key order the join never raises LeakageError, and its result is that of a loop
-- with no check at all.
use ailending_hub.Prelude.{
  ℕ, ◌≤◌, ◌≡◌, refl, Bool, none, some, List, [], ◌∷◌, ◌++◌, String, arith, inl, inr, Option-cases,
  subst, ok, insert, All,
}
use ailending_hub.FeatureStore.Values.{FeatureValue, FeatureSource}
use ailending_hub.FeatureStore.Order.{IsOrdered}
use ailending_hub.FeatureStore.AsOf.{as_of}
use ailending_hub.FeatureStore.PointInTime.{Answers, as_of-Answers}
use ailending_hub.FeatureStore.Join.{
  feature, EntityRow, JoinResult, Progress, start_row, count_absent, place, join_source,
  join_sources, join_rows, get_historical_features,
}

module _ {V : Type 0} where
  pub as_of_before :
      (s : FeatureSource V) (k : String) (obs : ℕ) (v : FeatureValue V)
      → IsOrdered s
      → as_of s k obs ≡ some v
      → (v.event_timestamp ≤ obs) × (v.created_timestamp ≤ obs)
  as_of_before s k obs v ordered e =
      let a : Answers s k obs (some v) =
        subst (Answers s k obs) e (as_of-Answers s k obs ordered) in
      (a.0.0.1, a.0.0.2)

  -- One round without the check.
  unfoldable pub after_source : EntityRow V → FeatureSource V → Progress V → Progress V
  after_source e s p = elim (as_of s e.entity_key e.observation_point) [
    | none ↦ count_absent s e p
    | some v ↦ record p { cells = insert s.spec.name (feature (some v.value)) p.cells }
  ]

  unfoldable pub after_sources : EntityRow V → List (FeatureSource V) → Progress V → Progress V
  after_sources e [] p = p
  after_sources e (s ∷ ss) p = after_sources e ss (after_source e s p)

  unfoldable pub after_rows :
      List (FeatureSource V) → List (EntityRow V) → JoinResult V → JoinResult V
  after_rows sources [] r = r
  after_rows sources (e ∷ es) r =
      let p =
        after_sources e sources
          (record { cells = start_row e; missing = r.missing; expired = r.expired }) in
      after_rows sources es
        (record { rows = r.rows ++ p.cells ∷ []; missing = p.missing; expired = p.expired })

  join_source-ok :
      (strict : Bool) (e : EntityRow V) (s : FeatureSource V) (p : Progress V)
      → IsOrdered s
      → join_source strict e s p ≡ ok (after_source e s p)
  unfolding join_source after_source place
  join_source-ok strict e s p ordered =
      elim (Option-cases (as_of s e.entity_key e.observation_point)) [
        | inl absent ↦ rw (absent, join_source, after_source)
        | inr (v, found) ↦
            let (early, known) = as_of_before s e.entity_key e.observation_point v ordered found in
            rw (found, join_source, after_source) (ground arith)
      ]

  join_sources-ok :
      (strict : Bool) (e : EntityRow V) (ss : List (FeatureSource V)) (p : Progress V)
      → All IsOrdered ss
      → join_sources strict e ss p ≡ ok (after_sources e ss p)
  unfolding join_sources after_sources
  join_sources-ok strict e [] p h = refl
  join_sources-ok strict e (s ∷ ss) p h =
      rw (join_source-ok strict e s p h.0) (join_sources-ok strict e ss (after_source e s p) h.1)

  join_rows-ok :
      (strict : Bool) (ss : List (FeatureSource V)) (es : List (EntityRow V)) (r : JoinResult V)
      → All IsOrdered ss
      → join_rows strict ss es r ≡ ok (after_rows ss es r)
  unfolding join_rows after_rows
  join_rows-ok strict ss [] r h = refl
  join_rows-ok strict ss (e ∷ es) r h =
      rw (join_sources-ok strict e ss _ h) (join_rows-ok strict ss es _ h)

  -- The dataset of the loop without the check.
  abbrev pub dataset : List (EntityRow V) → List (FeatureSource V) → JoinResult V
  dataset es ss = after_rows ss es (record { rows = []; missing = []; expired = [] })

  -- Over sources whose histories are in key order the join returns its dataset without an error,
  -- strict or not: the check for leakage never fires.
  pub get_historical_features-ok :
      (strict : Bool) (entity_rows : List (EntityRow V)) (sources : List (FeatureSource V))
      → All IsOrdered sources
      → get_historical_features entity_rows sources strict ≡ ok (dataset entity_rows sources)
  unfolding get_historical_features
  get_historical_features-ok strict es ss h = join_rows-ok strict ss es _ h
