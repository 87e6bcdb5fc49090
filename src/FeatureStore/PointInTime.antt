-- ===== src/FeatureStore/PointInTime.antt =====
-- The contract of `FeatureSource.as_of`: point-in-time correctness.
use ailending_hub.Prelude.{
  ℕ, ◌+◌, ◌-◌, ◌≤◌, ◌≡◌, refl, sym, true, ◌⊎◌, inl, inr, Option, none, some, List, [], ◌∷◌, String,
  arith, ltb, Bool-cases, IsIn, IsSortedBy, lookup, filter, IsIn-filter, IsIn-filter_of, subst,
  Option-cases, if◌then◌else◌, ◌↔◌,
}
use ailending_hub.FeatureStore.Values.{FeatureValue, FeatureSource, key_le, history_of, or_empty}
use ailending_hub.FeatureStore.Order.{key_le-IsOrder, IsOrdered}
use ailending_hub.FeatureStore.AsOf.{
  latest_known, within_ttl, up_to, as_of, knowable, max_by_key, latest_regardless_of_ttl,
}
use ailending_hub.FeatureStore.Latest.{
  Outcome, latest_known-Outcome, IsIn-up_to, up_to-IsIn, key_le_refl,
}

module _ {V : Type 0} where
  -- True in the world, and in the warehouse, by the instant.
  abbrev pub IsKnowable : ℕ → List (FeatureValue V) → FeatureValue V → Type 0
  IsKnowable obs history v =
      IsIn v history × (v.event_timestamp ≤ obs) × (v.created_timestamp ≤ obs)

  abbrev pub IsLatest : ℕ → List (FeatureValue V) → FeatureValue V → Type 0
  IsLatest obs history m =
      IsKnowable obs history m
      × ((v : FeatureValue V) → IsKnowable obs history v → key_le v m ≡ true)

  abbrev pub IsFresh : Option ℕ → ℕ → FeatureValue V → Type 0
  IsFresh none obs m = Unit
  IsFresh (some t) obs m = obs ≤ m.event_timestamp + t

  -- What an answer says: a value is the latest knowable one and fresh; no value means that nothing
  -- was knowable, or that the latest knowable value is past its TTL.
  abbrev pub Answers : FeatureSource V → String → ℕ → Option (FeatureValue V) → Type 0
  Answers s k obs none =
      ((v : FeatureValue V) → ¬ IsKnowable obs (history_of s k) v)
      ⊎ ((m : FeatureValue V) × IsLatest obs (history_of s k) m × (¬ IsFresh s.spec.ttl obs m))
  Answers s k obs (some m) = IsLatest obs (history_of s k) m × IsFresh s.spec.ttl obs m

  Outcome→latest :
      (obs : ℕ) (xs : List (FeatureValue V)) (m : FeatureValue V)
      → IsSortedBy key_le xs
      → Outcome obs (up_to obs xs) (some m)
      → IsLatest obs xs m
  Outcome→latest obs xs m s (there, known, tops) =
      let (held, early) = IsIn-up_to obs xs s m there in
      ((held, early, known), λ v (i, e, c). tops v (up_to-IsIn obs xs s v i e) c)

  answer_within :
      (s : FeatureSource V) (k : String) (obs : ℕ) (r : Option (FeatureValue V))
      → IsSortedBy key_le (history_of s k)
      → Outcome obs (up_to obs (history_of s k)) r
      → (ttl : Option ℕ) → s.spec.ttl ≡ ttl
      → Answers s k obs (within_ttl ttl obs r)
  unfolding within_ttl
  answer_within s k obs none sorted o ttl e =
      inl (λ v (i, early, c). o v (up_to-IsIn obs (history_of s k) sorted v i early) c)
  answer_within s k obs (some m) sorted o none e =
      (Outcome→latest obs (history_of s k) m sorted o, rw e tt)
  answer_within s k obs (some m) sorted o (some t) e =
      let latest : IsLatest obs (history_of s k) m =
        Outcome→latest obs (history_of s k) m sorted o in
      elim (Bool-cases (ltb t (obs - m.event_timestamp))) [
        | inl old ↦
            rw old (inr (m, latest, rw e (λ (h : obs ≤ m.event_timestamp + t). ground arith)))
        | inr young ↦ rw young (latest, rw e (ground arith))
      ]

  -- Over a source whose histories are in key order, a value that `as_of` returns is in the entity's
  -- history, was true and known at the instant, is the latest of those by event and then by
  -- creation, and is within the TTL; and it returns none only if no value was true and known then,
  -- or if the latest one is past the TTL.
  pub as_of-Answers :
      (s : FeatureSource V) (entity_key : String) (obs : ℕ)
      → IsOrdered s
      → Answers s entity_key obs (as_of s entity_key obs)
  unfolding as_of
  as_of-Answers s entity_key obs ordered = elim (Option-cases (lookup entity_key s.by_entity)) [
    | inl e ↦ rw (e, as_of) (inl (λ v (i, early, c). subst (λ o. IsIn v (or_empty o)) e i))
    | inr (history, e) ↦
        rw (e, as_of)
          (answer_within s entity_key obs (latest_known obs none (up_to obs history))
            (ordered entity_key) (rw e (latest_known-Outcome obs (up_to obs history))) s.spec.ttl
            refl)
  ]

  abbrev pub LatestOrNone : FeatureSource V → String → ℕ → Option (FeatureValue V) → Type 0
  LatestOrNone s k obs none = (v : FeatureValue V) → ¬ IsKnowable obs (history_of s k) v
  LatestOrNone s k obs (some m) = IsLatest obs (history_of s k) m

  abbrev TopsAll : List (FeatureValue V) → Option (FeatureValue V) → Type 0
  TopsAll xs none = (v : FeatureValue V) → ¬ IsIn v xs
  TopsAll xs (some m) = IsIn m xs × ((v : FeatureValue V) → IsIn v xs → key_le v m ≡ true)

  max_by_key-TopsAll : (xs : List (FeatureValue V)) → TopsAll xs (max_by_key xs)
  unfolding max_by_key
  max_by_key-TopsAll [] = λ v i. i
  max_by_key-TopsAll (x ∷ xs) = top (max_by_key xs) (max_by_key-TopsAll xs)
    where
      top :
          (r : Option (FeatureValue V))
          → TopsAll xs r
          → TopsAll
              (x ∷ xs)
              (elim r [ none ↦ some x | some m ↦ if key_le m x then some x else some m ])
      top none none_in = (
        inl refl,
        λ v i. elim i [
          | inl e ↦ subst (λ y. key_le y x ≡ true) e (key_le_refl x)
          | inr j ↦ absurd (none_in v j)
        ],
      )
      top (some m) (there, tops) = elim (Bool-cases (key_le m x)) [
        | inl up ↦ rw up (
          inl refl,
          λ v i. elim i [
            | inl e ↦ subst (λ y. key_le y x ≡ true) e (key_le_refl x)
            | inr j ↦ key_le-IsOrder.trans v m x (tops v j) up
          ],
        )
        | inr down ↦ rw down (
          inr there,
          λ v i. elim i [
            | inl e ↦ subst (λ y. key_le y m ≡ true) e (key_le-IsOrder.total m x down)
            | inr j ↦ tops v j
          ],
        )
      ]

  knowable_iff :
      (obs : ℕ) (v : FeatureValue V)
      → (knowable obs v ≡ true) ↔ ((v.event_timestamp ≤ obs) × (v.created_timestamp ≤ obs))
  unfolding knowable
  knowable_iff obs v = ground arith

  pub latest_regardless_of_ttl-LatestOrNone :
      (s : FeatureSource V) (k : String) (obs : ℕ)
      → LatestOrNone s k obs (latest_regardless_of_ttl s k obs)
  unfolding latest_regardless_of_ttl
  latest_regardless_of_ttl-LatestOrNone s k obs = elim (Option-cases (lookup k s.by_entity)) [
    | inl e ↦
        rw (e, latest_regardless_of_ttl) (λ v (i, early, c). subst (λ o. IsIn v (or_empty o)) e i)
    | inr (history, e) ↦
        rw (e, latest_regardless_of_ttl)
          (pick history e (max_by_key (filter (knowable obs) history))
            (max_by_key-TopsAll (filter (knowable obs) history)))
  ]
    where
      pick :
          (history : List (FeatureValue V))
          → lookup k s.by_entity ≡ some history
          → (r : Option (FeatureValue V)) → TopsAll (filter (knowable obs) history) r
          → LatestOrNone s k obs r
      pick history e none none_in = λ v (i, early, c). none_in v (
          IsIn-filter_of (knowable obs) v history (subst (λ o. IsIn v (or_empty o)) e i)
            ((knowable_iff obs v).1 (early, c)))
      pick history e (some m) (there, tops) =
          let (held, t) = IsIn-filter (knowable obs) m history there in
          let (early, known) = (knowable_iff obs m).0 t in
          (
            (subst (λ o. IsIn m (or_empty o)) (sym e) held, early, known),
            λ v (i, ve, vc). tops v (
                IsIn-filter_of (knowable obs) v history (subst (λ o. IsIn v (or_empty o)) e i)
                  ((knowable_iff obs v).1 (ve, vc))),
          )
