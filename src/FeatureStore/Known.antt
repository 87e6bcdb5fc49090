-- ===== src/FeatureStore/Known.antt =====
-- Which rows have a known value, and a known value within the TTL, beside what as_of and
-- latest_regardless_of_ttl of featurestore/pit.py return.
use ailending_hub.Prelude.{
  leb, any, any_witness, IsIn-any, sym, ◌↔◌, ℕ, ◌+◌, ◌≡◌, refl, Bool, true, false, ◌&&◌, Option,
  none, some, arith, inl, inr, Bool-cases, is_some,
}
use ailending_hub.FeatureStore.Values.{FeatureValue, FeatureSource, key_le, history_of}
use ailending_hub.FeatureStore.Order.{IsOrdered}
use ailending_hub.FeatureStore.PointInTime.{
  Answers, IsKnowable, IsFresh, as_of-Answers, LatestOrNone, latest_regardless_of_ttl-LatestOrNone,
}
use ailending_hub.FeatureStore.Join.{EntityRow}
use ailending_hub.FeatureStore.Dataset.{answer, latest}

module _ {V : Type 0} where
  -- A value of the entity's history was true, and in the warehouse, by the row's instant.
  abbrev pub is_known : EntityRow V → FeatureValue V → Bool
  is_known e v =
      leb v.event_timestamp e.observation_point && leb v.created_timestamp e.observation_point

  -- The value was within the TTL then.
  abbrev pub is_young : Option ℕ → EntityRow V → FeatureValue V → Bool
  is_young none e v = true
  is_young (some t) e v = leb e.observation_point (v.event_timestamp + t)

  -- Some value was known; some known value was within the TTL.
  abbrev pub some_known : FeatureSource V → EntityRow V → Bool
  some_known s e = any (is_known e) (history_of s e.entity_key)

  abbrev pub some_young : FeatureSource V → EntityRow V → Bool
  some_young s e = any (λ v. is_known e v && is_young s.spec.ttl e v) (history_of s e.entity_key)

  IsKnowable-some_known :
      (s : FeatureSource V) (e : EntityRow V) (v : FeatureValue V)
      → IsKnowable e.observation_point (history_of s e.entity_key) v
      → some_known s e ≡ true
  IsKnowable-some_known s e v (there, early, known) =
      IsIn-any (is_known e) v (history_of s e.entity_key) there (ground arith)

  pub latest-some_known :
      (s : FeatureSource V) (e : EntityRow V) → is_some (latest e s) ≡ some_known s e
  latest-some_known s e =
      go (latest e s) (latest_regardless_of_ttl-LatestOrNone s e.entity_key e.observation_point)
    where
      go :
          (l : Option (FeatureValue V))
          → LatestOrNone s e.entity_key e.observation_point l
          → is_some l ≡ some_known s e
      go none nothing = elim (Bool-cases (some_known s e)) [
        | inl t ↦
            let (v, there, known) = any_witness (is_known e) (history_of s e.entity_key) t in
            absurd (nothing v (there, ground arith, ground arith))
        | inr f ↦ sym f
      ]
      go (some m) latest = sym (IsKnowable-some_known s e m latest.0)

  IsFresh-is_young :
      (ttl : Option ℕ) (e : EntityRow V) (v : FeatureValue V)
      → IsFresh ttl e.observation_point v ↔ (is_young ttl e v ≡ true)
  IsFresh-is_young none e v = ((λ h. refl), λ h. tt)
  IsFresh-is_young (some t) e v = ground arith

  -- A known value is no younger than the latest one.
  young_latest :
      (ttl : Option ℕ) (e : EntityRow V) (v m : FeatureValue V)
      → key_le v m ≡ true
      → is_young ttl e v ≡ true
      → is_young ttl e m ≡ true
  unfolding key_le
  young_latest none e v m le h = refl
  young_latest (some t) e v m le h = ground arith

  pub answer-some_young :
      (s : FeatureSource V) (e : EntityRow V) → IsOrdered s → is_some (answer e s) ≡ some_young s e
  answer-some_young s e ordered =
      go (answer e s) (as_of-Answers s e.entity_key e.observation_point ordered)
    where
      old :
          ((v : FeatureValue V)
            → IsKnowable e.observation_point (history_of s e.entity_key) v
            → is_young s.spec.ttl e v ≡ true
            → ⊥)
          → false ≡ some_young s e
      old none_young = elim (Bool-cases (some_young s e)) [
        | inl t ↦
            let (v, there, both) =
              any_witness (λ v. is_known e v && is_young s.spec.ttl e v) (history_of s e.entity_key)
                t in
            absurd (none_young v (there, ground arith, ground arith) (ground arith))
        | inr f ↦ sym f
      ]

      go :
          (a : Option (FeatureValue V))
          → Answers s e.entity_key e.observation_point a
          → is_some a ≡ some_young s e
      go none (inl nothing) = old (λ v knowable young. nothing v knowable)
      go none (inr (m, (there, tops), stale)) = old (λ v knowable young. stale (
          (IsFresh-is_young s.spec.ttl e m).1
            (young_latest s.spec.ttl e v m (tops v knowable) young)))
      go (some m) (((there, early, known), tops), fresh) =
          let young = (IsFresh-is_young s.spec.ttl e m).0 fresh in
          sym (
            IsIn-any (λ v. is_known e v && is_young s.spec.ttl e v) m (history_of s e.entity_key)
              there (ground arith))

  -- A known value within the TTL is a known value.
  pub some_young-some_known :
      (s : FeatureSource V) (e : EntityRow V) → some_young s e ≡ true → some_known s e ≡ true
  some_young-some_known s e h =
      let (v, there, both) =
        any_witness (λ v. is_known e v && is_young s.spec.ttl e v) (history_of s e.entity_key) h in
      IsIn-any (is_known e) v (history_of s e.entity_key) there (ground arith)
