-- ===== src/Fraud/Search.antt =====
-- Python's `bisect`: a binary search for the first element at which a test fails. On a list whose
-- elements pass the test up to some place, the search finds the place.
use ailending_hub.Prelude.{
  ℕ, zero, suc, ◌+◌, ◌-◌, ◌/◌, ◌<◌, ◌≤◌, ◌≡◌, refl, ap, Bool, true, false, not, inl, inr, List, [],
  ◌∷◌, arith, ltb, length, get_or, take, drop, filter, All, Bool-cases, ltb→lt, IsSortedBy,
}

module _ {A : Type 0} (goes_right : A → Bool) (d : A) where
  search_loop : List A → ℕ → ℕ → ℕ → ℕ
  search_loop xs zero lo hi = lo
  search_loop xs (suc fuel) lo hi = elim (ltb lo hi) [
    | true ↦ elim (goes_right (get_or xs ((lo + hi) / 2) d)) [
      | true ↦ search_loop xs fuel ((lo + hi) / 2 + 1) hi
      | false ↦ search_loop xs fuel lo ((lo + hi) / 2)
    ]
    | false ↦ lo
  ]

  -- `hi - lo` rounds are enough, since each round shortens the interval.
  unfoldable pub search : List A → ℕ
  unfolding search_loop
  search xs = search_loop xs (length xs) 0 (length xs)

  abbrev pub IsSplit : List A → Type 0
  IsSplit xs =
      (i j : ℕ)
      → i ≤ j
      → j < length xs
      → goes_right (get_or xs j d) ≡ true
      → goes_right (get_or xs i d) ≡ true

  -- Below `r` the test passes, and from `r` on it fails.
  pub record SplitsAt (xs : List A) (r : ℕ) : Type 0 where
    pub bounded : r ≤ length xs
    pub below : (i : ℕ) → i < r → goes_right (get_or xs i d) ≡ true
    pub above : (i : ℕ) → r ≤ i → i < length xs → goes_right (get_or xs i d) ≡ false

  module _ (xs : List A) (split : IsSplit xs) where
    fails_above :
        (i j : ℕ)
        → i ≤ j
        → j < length xs
        → goes_right (get_or xs i d) ≡ false
        → goes_right (get_or xs j d) ≡ false
    fails_above i j le lt f = elim (Bool-cases (goes_right (get_or xs j d))) [
      | inl t ↦ let u = split i j le lt t in absurd (ground arith)
      | inr g ↦ g
    ]

    search_loop-SplitsAt :
        (fuel lo hi : ℕ)
        → lo ≤ hi
        → hi ≤ length xs
        → hi - lo ≤ fuel
        → ((i : ℕ) → i < lo → goes_right (get_or xs i d) ≡ true)
        → ((i : ℕ) → hi ≤ i → i < length xs → goes_right (get_or xs i d) ≡ false)
        → SplitsAt xs (search_loop xs fuel lo hi)
    unfolding search_loop
    search_loop-SplitsAt zero lo hi ordered fits enough below above = record {
      bounded = omega arith;
      below = below;
      above = λ i h k. above i (omega arith) k;
    }
    search_loop-SplitsAt (suc fuel) lo hi ordered fits enough below above =
        elim (Bool-cases (ltb lo hi)) [
          | inr f ↦
              rw (f, search_loop)
                (record {
                  bounded = omega arith;
                  below = below;
                  above = λ i h k. above i (ground arith) k;
                })
          | inl t ↦
              let open_ends : lo < hi = ltb→lt lo hi t in
              rw (t, search_loop)
                (elim (Bool-cases (goes_right (get_or xs ((lo + hi) / 2) d))) [
                  | inl right ↦ rw right (
                      search_loop-SplitsAt fuel ((lo + hi) / 2 + 1) hi (omega arith) fits
                        (omega arith)
                        (λ i h. split i ((lo + hi) / 2) (omega arith) (omega arith) right) above)
                  | inr left ↦ rw left (
                      search_loop-SplitsAt fuel lo ((lo + hi) / 2) (omega arith) (omega arith)
                        (omega arith) below (λ i h k. fails_above ((lo + hi) / 2) i h k left))
                ])
        ]

    pub search-SplitsAt : SplitsAt xs (search xs)
    unfolding search
    search-SplitsAt =
        search_loop-SplitsAt (length xs) 0 (length xs) (omega arith) (omega arith) (omega arith)
          (λ i h. absurd (omega arith)) (λ i h k. absurd (omega arith))

  -- The place cuts the list into what passes and what fails.
  pub SplitsAt-filter :
      (xs : List A) (r : ℕ)
      → SplitsAt xs r
      → (take r xs ≡ filter goes_right xs) × (drop r xs ≡ filter (λ x. not (goes_right x)) xs)
  SplitsAt-filter [] zero s = (refl, refl)
  SplitsAt-filter [] (suc r) s = (refl, refl)
  SplitsAt-filter (x ∷ xs) zero s =
      let (t, e) = SplitsAt-filter xs zero (record {
        bounded = omega arith;
        below = λ i h. absurd (omega arith);
        above = λ i h k. s.above (suc i) (omega arith) (omega arith);
      }) in
      let fails : goes_right x ≡ false = s.above 0 (omega arith) (omega arith) in
      rw fails (t, ap (◌∷◌ x) e)
  SplitsAt-filter (x ∷ xs) (suc r) s =
      let (t, e) = SplitsAt-filter xs r (record {
        bounded = let b = s.bounded in omega arith;
        below = λ i h. s.below (suc i) (omega arith);
        above = λ i h k. s.above (suc i) (omega arith) (omega arith);
      }) in
      let passes : goes_right x ≡ true = s.below 0 (omega arith) in rw passes (ap (◌∷◌ x) t, e)

  -- On a sorted list a test that passes below whatever passes it is split.
  All-get_or : (P : A → Type 0) (xs : List A) (j : ℕ) → All P xs → j < length xs → P (get_or xs j d)
  All-get_or P [] j h lt = absurd (omega arith)
  All-get_or P (x ∷ xs) zero h lt = h.0
  All-get_or P (x ∷ xs) (suc j) h lt = All-get_or P xs j h.1 (omega arith)

  pub sorted-IsSplit :
      (le : A → A → Bool)
      → ((a b : A) → le a b ≡ true → goes_right b ≡ true → goes_right a ≡ true)
      → (xs : List A) → IsSortedBy le xs
      → IsSplit xs
  sorted-IsSplit le closed [] s i j h lt t = absurd (omega arith)
  sorted-IsSplit le closed (x ∷ xs) s zero zero h lt t = t
  sorted-IsSplit le closed (x ∷ xs) s zero (suc j) h lt t =
      closed x (get_or xs j d) (All-get_or (λ y. le x y ≡ true) xs j s.0 (omega arith)) t
  sorted-IsSplit le closed (x ∷ xs) s (suc i) zero h lt t = absurd (omega arith)
  sorted-IsSplit le closed (x ∷ xs) s (suc i) (suc j) h lt t =
      sorted-IsSplit le closed xs s.1 i j (omega arith) (omega arith) t
