-- ===== src/FeatureStore/Order.antt =====
-- The key of a feature value is a total preorder, and every write keeps each entity's values in
-- ascending order of the key.
use ailending_hub.Prelude.{
  ℕ, ◌≤◌, ◌<◌, ◌≡◌, true, Bool-cases, inl, inr, List, [], ◌∷◌, ◌++◌, String, arith, eq_iff, str_eq,
  lookup-insert, IsSortedBy, IsOrder, IsIn, sort_by, sort_by-IsSortedBy, IsIn-sort_by, sort_by-IsIn,
  if◌then◌else◌, subst, sym, IsIn-append, IsIn-append_left, IsIn-append_right, ◌⊎◌, map, lookup,
  refl, length, All, get_or, zero, suc, All-IsIn, All_of,
}
use ailending_hub.FeatureStore.Values.{
  FeatureValue, FeatureSource, FeatureSpec, key_le, add, extend, history_of, new_source,
}

module _ {V : Type 0} where
  pub key_le-IsOrder : IsOrder (key_le {V = V})
  unfolding key_le
  key_le-IsOrder = record { trans = λ a b c p q. ground arith; total = λ a b p. ground arith }

  pub key_le-event :
      (a b : FeatureValue V) → key_le a b ≡ true → a.event_timestamp ≤ b.event_timestamp
  unfolding key_le
  key_le-event a b h = ground arith

  -- Every entity's history is in ascending order.
  abbrev pub IsOrdered : FeatureSource V → Type 0
  IsOrdered s = (k : String) → IsSortedBy key_le (history_of s k)

  history_of-add :
      (k j : String) (v : FeatureValue V) (s : FeatureSource V)
      → history_of (add k v s) j
        ≡ (if str_eq k j then sort_by key_le (history_of s k ++ v ∷ []) else history_of s j)
  unfolding add
  history_of-add k j v s = elim (Bool-cases (str_eq k j)) [
    | inl t ↦ rw (lookup-insert, t)
    | inr f ↦ rw (lookup-insert, f)
  ]

  pub add-IsOrdered :
      (k : String) (v : FeatureValue V) (s : FeatureSource V) → IsOrdered s → IsOrdered (add k v s)
  add-IsOrdered k v s h j = rw (history_of-add k j v s) (elim (Bool-cases (str_eq k j)) [
    | inl t ↦ rw t (sort_by-IsSortedBy key_le key_le-IsOrder (history_of s k ++ v ∷ []))
    | inr f ↦ rw f (h j)
  ])

  -- A value is in an entity's history after a write exactly if it was there or was written.
  pub IsIn-add :
      (k j : String) (v w : FeatureValue V) (s : FeatureSource V)
      → IsIn w (history_of (add k v s) j)
      → IsIn w (history_of s j) ⊎ ((k ≡ j) × (v ≡ w))
  IsIn-add k j v w s h = elim (Bool-cases (str_eq k j)) [
    | inl t ↦
        let e : k ≡ j = (eq_iff k j).0 t in
        let m : IsIn w (history_of s k ++ v ∷ []) =
          IsIn-sort_by key_le w (history_of s k ++ v ∷ []) (rw (history_of-add k j v s, t) at h) in
        elim (IsIn-append w (history_of s k) (v ∷ []) m) [
          | inl old ↦ inl (subst (λ i. IsIn w (history_of s i)) e old)
          | inr (inl new) ↦ inr (e, new)
          | inr (inr none_left) ↦ absurd none_left
        ]
    | inr f ↦ inl (rw (history_of-add k j v s, f) at h)
  ]

  pub add-IsIn :
      (k : String) (v : FeatureValue V) (s : FeatureSource V) → IsIn v (history_of (add k v s) k)
  add-IsIn k v s =
      rw (history_of-add k k v s, (eq_iff k k).1 refl)
        (sort_by-IsIn key_le v (history_of s k ++ v ∷ [])
          (IsIn-append_right v (history_of s k) (v ∷ []) (inl refl)))

  pub add-IsIn_old :
      (k j : String) (v w : FeatureValue V) (s : FeatureSource V)
      → IsIn w (history_of s j)
      → IsIn w (history_of (add k v s) j)
  add-IsIn_old k j v w s h = rw (history_of-add k j v s) (elim (Bool-cases (str_eq k j)) [
    | inl t ↦ rw t (
        sort_by-IsIn key_le w (history_of s k ++ v ∷ []) (
          IsIn-append_left w (history_of s k) (v ∷ [])
            (subst (λ i. IsIn w (history_of s i)) (sym ((eq_iff k j).0 t)) h)))
    | inr f ↦ rw f h
  ])

  -- Adding values to a source, in whatever order they come, keeps the history of every entity
  -- sorted by event and then by creation.
  pub extend-IsOrdered :
      (k : String) (vs : List (FeatureValue V)) (s : FeatureSource V)
      → IsOrdered s
      → IsOrdered (extend k vs s)
  unfolding extend
  extend-IsOrdered k [] s h = h
  extend-IsOrdered k (v ∷ vs) s h = extend-IsOrdered k vs (add k v s) (add-IsOrdered k v s h)

  -- The events of an ordered history ascend.
  abbrev pub event_times : List (FeatureValue V) → List ℕ
  event_times = map (λ v. v.event_timestamp)

  get_or-events :
      (e : ℕ) (xs : List (FeatureValue V)) (j : ℕ)
      → All (λ v. e ≤ v.event_timestamp) xs
      → j < length (event_times xs)
      → e ≤ get_or (event_times xs) j 0
  get_or-events e [] j h k = absurd (omega arith)
  get_or-events e (x ∷ xs) zero h k = h.0
  get_or-events e (x ∷ xs) (suc j) h k = get_or-events e xs j h.1 (omega arith)

  pub IsSortedBy-ascending :
      (xs : List (FeatureValue V))
      → IsSortedBy key_le xs
      → (i j : ℕ) → i ≤ j
      → j < length (event_times xs)
      → get_or (event_times xs) i 0 ≤ get_or (event_times xs) j 0
  IsSortedBy-ascending [] s i j h k = absurd (omega arith)
  IsSortedBy-ascending (x ∷ xs) s zero zero h k = omega arith
  IsSortedBy-ascending (x ∷ xs) s zero (suc j) h k =
      get_or-events x.event_timestamp xs j
        (All_of xs (λ a m. key_le-event x a (All-IsIn (λ b. key_le x b ≡ true) a xs s.0 m)))
        (omega arith)
  IsSortedBy-ascending (x ∷ xs) s (suc i) zero h k = absurd (omega arith)
  IsSortedBy-ascending (x ∷ xs) s (suc i) (suc j) h k =
      IsSortedBy-ascending xs s.1 i j (omega arith) (omega arith)

pub new_source-IsOrdered : (V : Type 0) (spec : FeatureSpec) → IsOrdered (new_source V spec)
unfolding lookup
new_source-IsOrdered V spec k = tt
