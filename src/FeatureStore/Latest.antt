-- ===== src/FeatureStore/Latest.antt =====
-- What `as_of` selects: the greatest key among the values that were true and known by the instant.
use ailending_hub.Prelude.{
  ℕ, zero, suc, ◌≤◌, ◌<◌, ◌≡◌, refl, sym, ap, subst, true, ◌⊎◌, inl, inr, Option, none, some, List,
  [], ◌∷◌, take, arith, ltb, length, get_or, Bool-cases, IsIn, if◌then◌else◌, IsSortedBy,
}
use ailending_hub.FeatureStore.Values.{FeatureValue, key_le}
use ailending_hub.FeatureStore.Order.{key_le-IsOrder, event_times, IsSortedBy-ascending}
use ailending_hub.FeatureStore.Bisect.{bisect_right, bisect_right-Splits, Splits}
use ailending_hub.FeatureStore.AsOf.{latest_known, up_to}

module _ {V : Type 0} where
  abbrev pub Known : ℕ → FeatureValue V → Type 0
  Known obs v = v.created_timestamp ≤ obs

  -- `m` has the greatest key of the known values of a list.
  abbrev pub Tops : ℕ → List (FeatureValue V) → FeatureValue V → Type 0
  Tops obs xs m = (v : FeatureValue V) → IsIn v xs → Known obs v → key_le v m ≡ true

  pub key_le_refl : (v : FeatureValue V) → key_le v v ≡ true
  unfolding key_le
  key_le_refl v = ground arith

  abbrev step : ℕ → Option (FeatureValue V) → FeatureValue V → Option (FeatureValue V)
  step obs candidate v =
      if ltb obs v.created_timestamp
      then candidate
      else elim candidate [ none ↦ some v | some c ↦ if key_le c v then some v else some c ]

  step-some :
      (obs : ℕ) (c v : FeatureValue V)
      → Known obs c
      → (d : FeatureValue V) × (step obs (some c) v ≡ some d)
        × Known obs d
        × (key_le c d ≡ true)
        × (Known obs v → key_le v d ≡ true)
        × ((d ≡ c) ⊎ (d ≡ v))
  step-some obs c v h = elim (Bool-cases (ltb obs v.created_timestamp)) [
    | inl t ↦ (c, rw t, h, key_le_refl c, (λ k. absurd (ground arith)), inl refl)
    | inr f ↦ elim (Bool-cases (key_le c v)) [
      | inl up ↦ (v, rw (f, up), ground arith, up, (λ k. key_le_refl v), inr refl)
      | inr down ↦
          (c, rw (f, down), h, key_le_refl c, (λ k. key_le-IsOrder.total c v down), inl refl)
    ]
  ]

  latest_known-some :
      (obs : ℕ) (xs : List (FeatureValue V)) (c : FeatureValue V)
      → Known obs c
      → (m : FeatureValue V) × (latest_known obs (some c) xs ≡ some m)
        × Known obs m
        × (key_le c m ≡ true)
        × Tops obs xs m
        × ((m ≡ c) ⊎ IsIn m xs)
  unfolding latest_known
  latest_known-some obs [] c h = (c, refl, h, key_le_refl c, (λ v i k. absurd i), inl refl)
  latest_known-some obs (x ∷ xs) c h =
      let (d, e, dk, up, top, which) = step-some obs c x h in
      let (m, e', mk, up', tops, from) = latest_known-some obs xs d dk in
      (
        m,
        rw e e',
        mk,
        key_le-IsOrder.trans c d m up up',
        (λ v i k. elim i [
          | inl same ↦
              key_le-IsOrder.trans v d m (subst (λ y. Known obs y → key_le y d ≡ true) same top k)
                up'
          | inr later ↦ tops v later k
        ]),
        elim from [
          | inl at_d ↦ elim which [ inl at_c ↦ inl (cc) | inr at_x ↦ inr (inl (cc)) ]
          | inr later ↦ inr (inr later)
        ],
      )

  -- Nothing of the list is known, or the loop ends with the greatest known key.
  abbrev pub Outcome : ℕ → List (FeatureValue V) → Option (FeatureValue V) → Type 0
  Outcome obs xs none = (v : FeatureValue V) → IsIn v xs → ¬ Known obs v
  Outcome obs xs (some m) = IsIn m xs × Known obs m × Tops obs xs m

  pub latest_known-Outcome :
      (obs : ℕ) (xs : List (FeatureValue V)) → Outcome obs xs (latest_known obs none xs)
  unfolding latest_known
  latest_known-Outcome obs [] = λ v i. absurd i
  latest_known-Outcome obs (x ∷ xs) = elim (Bool-cases (ltb obs x.created_timestamp)) [
    | inl t ↦
        rw t (widen (latest_known obs none xs) (latest_known-Outcome obs xs) (λ k. ground arith))
    | inr f ↦ rw f (start (latest_known-some obs xs x (ground arith)))
  ]
    where
      widen :
          (r : Option (FeatureValue V)) → Outcome obs xs r → ¬ Known obs x → Outcome obs (x ∷ xs) r
      widen none o unknown =
          λ v i k. elim i [ inl e ↦ unknown (subst (Known obs) (sym e) k) | inr j ↦ o v j k ]
      widen (some m) o unknown = (
        inr o.0,
        o.1,
        λ v i k. elim i [
          | inl e ↦ absurd (unknown (subst (Known obs) (sym e) k))
          | inr j ↦ o.2 v j k
        ],
      )

      start :
          (m : FeatureValue V) × (latest_known obs (some x) xs ≡ some m)
            × Known obs m
            × (key_le x m ≡ true)
            × Tops obs xs m
            × ((m ≡ x) ⊎ IsIn m xs)
          → Outcome obs (x ∷ xs) (latest_known obs (some x) xs)
      start (m, e, mk, up, tops, from) = rw e (
        elim from [ inl at_x ↦ inl (sym at_x) | inr later ↦ inr later ],
        mk,
        λ v i k. elim i [
          | inl same ↦ subst (λ y. key_le y m ≡ true) same up
          | inr later ↦ tops v later k
        ],
      )

  IsIn-index :
      (v : FeatureValue V) (xs : List (FeatureValue V))
      → IsIn v xs
      → (i : ℕ) × (i < length (event_times xs))
        × (get_or (event_times xs) i 0 ≡ v.event_timestamp)
        × ((r : ℕ) → i < r → IsIn v (take r xs))
  IsIn-index v [] m = absurd m
  IsIn-index v (x ∷ xs) (inl e) =
      (0, omega arith, ap (λ (y : FeatureValue V). y.event_timestamp) e, first)
    where
      first : (r : ℕ) → 0 < r → IsIn v (take r (x ∷ xs))
      first zero h = absurd (omega arith)
      first (suc r) h = inl e
  IsIn-index v (x ∷ xs) (inr m) =
      let (i, fits, at_i, taken) = IsIn-index v xs m in (suc i, omega arith, at_i, later i taken)
    where
      later :
          (i : ℕ)
          → ((r : ℕ) → i < r → IsIn v (take r xs))
          → (r : ℕ) → suc i < r
          → IsIn v (take r (x ∷ xs))
      later i taken zero h = absurd (omega arith)
      later i taken (suc r) h = inr (taken r (omega arith))

  take-index :
      (v : FeatureValue V) (r : ℕ) (xs : List (FeatureValue V))
      → IsIn v (take r xs)
      → IsIn v xs × ((i : ℕ) × (i < r) × (get_or (event_times xs) i 0 ≡ v.event_timestamp))
  take-index v zero xs m = absurd m
  take-index v (suc r) [] m = absurd m
  take-index v (suc r) (x ∷ xs) (inl e) =
      (inl e, (0, omega arith, ap (λ (y : FeatureValue V). y.event_timestamp) e))
  take-index v (suc r) (x ∷ xs) (inr m) =
      let (there, (i, small, at_i)) = take-index v r xs m in (inr there, (suc i, omega arith, at_i))

  module _ (obs : ℕ) (xs : List (FeatureValue V)) (sorted : IsSortedBy key_le xs) where
    split : Splits (event_times xs) obs (bisect_right (event_times xs) obs)
    split = bisect_right-Splits (event_times xs) obs (IsSortedBy-ascending xs sorted)

    -- The slice of `as_of` holds exactly the values whose event is not after the instant.
    pub IsIn-up_to :
        (v : FeatureValue V) → IsIn v (up_to obs xs) → IsIn v xs × (v.event_timestamp ≤ obs)
    IsIn-up_to v m =
        let (there, (i, small, at_i)) = take-index v (bisect_right (event_times xs) obs) xs m in
        (there, omega (arith, split.below i small))

    pub up_to-IsIn :
        (v : FeatureValue V) → IsIn v xs → v.event_timestamp ≤ obs → IsIn v (up_to obs xs)
    up_to-IsIn v m early =
        let (i, fits, at_i, taken) = IsIn-index v xs m in
        taken (bisect_right (event_times xs) obs) (in_slice i fits at_i)
      where
        in_slice :
            (i : ℕ)
            → i < length (event_times xs)
            → get_or (event_times xs) i 0 ≡ v.event_timestamp
            → i < bisect_right (event_times xs) obs
        in_slice i fits at_i = elim (Bool-cases (ltb i (bisect_right (event_times xs) obs))) [
          | inl t ↦ ground arith
          | inr f ↦
              let past : obs < get_or (event_times xs) i 0 = split.above i (ground arith) fits in
              absurd (omega arith)
        ]
