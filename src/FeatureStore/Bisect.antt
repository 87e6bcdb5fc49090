-- ===== src/FeatureStore/Bisect.antt =====
-- Python's `bisect_right` on a list of instants, and where it splits an ascending list.
use ailending_hub.Prelude.{
  ℕ, zero, suc, ◌+◌, ◌-◌, ◌/◌, ◌<◌, ◌≤◌, true, false, inl, inr, List, arith, ltb, length, get_or,
  Bool-cases, ltb→lt,
}

-- The binary search: `hi - lo` rounds are enough, since each round shortens the interval.
bisect_loop : List ℕ → ℕ → ℕ → ℕ → ℕ → ℕ
bisect_loop xs x zero lo hi = lo
bisect_loop xs x (suc fuel) lo hi = elim (ltb lo hi) [
  | true ↦ elim (ltb x (get_or xs ((lo + hi) / 2) 0)) [
    | true ↦ bisect_loop xs x fuel lo ((lo + hi) / 2)
    | false ↦ bisect_loop xs x fuel ((lo + hi) / 2 + 1) hi
  ]
  | false ↦ lo
]

unfoldable pub bisect_right : List ℕ → ℕ → ℕ
unfolding bisect_loop
bisect_right xs x = bisect_loop xs x (length xs) 0 (length xs)

abbrev pub IsAscending : List ℕ → Type 0
IsAscending xs = (i j : ℕ) → i ≤ j → j < length xs → get_or xs i 0 ≤ get_or xs j 0

-- Below `r` everything is at most `x`, and from `r` on everything is above `x`.
pub record Splits (xs : List ℕ) (x r : ℕ) : Type 0 where
  pub bounded : r ≤ length xs
  pub below : (i : ℕ) → i < r → get_or xs i 0 ≤ x
  pub above : (i : ℕ) → r ≤ i → i < length xs → x < get_or xs i 0

module _ (xs : List ℕ) (x : ℕ) (ascending : IsAscending xs) where
  bisect_loop-Splits :
      (fuel lo hi : ℕ)
      → lo ≤ hi
      → hi ≤ length xs
      → hi - lo ≤ fuel
      → ((i : ℕ) → i < lo → get_or xs i 0 ≤ x)
      → ((i : ℕ) → hi ≤ i → i < length xs → x < get_or xs i 0)
      → Splits xs x (bisect_loop xs x fuel lo hi)
  unfolding bisect_loop
  bisect_loop-Splits zero lo hi ordered fits enough below above = record {
    bounded = omega arith;
    below = below;
    above = λ i h k. above i (omega arith) k;
  }
  bisect_loop-Splits (suc fuel) lo hi ordered fits enough below above =
      elim (Bool-cases (ltb lo hi)) [
        | inr f ↦
            rw (f, bisect_loop)
              (record {
                bounded = omega arith;
                below = below;
                above = λ i h k. above i (ground arith) k;
              })
        | inl t ↦
            rw (t, bisect_loop)
              (elim (Bool-cases (ltb x (get_or xs ((lo + hi) / 2) 0))) [
                | inl left ↦ rw left (
                    let open_ends : lo < hi = ltb→lt lo hi t in
                    let mid_above : x < get_or xs ((lo + hi) / 2) 0 = ltb→lt _ _ left in
                    bisect_loop-Splits fuel lo ((lo + hi) / 2) (omega arith) (omega arith)
                      (omega arith) below (λ i h k. omega (arith, ascending ((lo + hi) / 2) i h k)))
                | inr right ↦ rw right (
                    let open_ends : lo < hi = ltb→lt lo hi t in
                    let mid_below : get_or xs ((lo + hi) / 2) 0 ≤ x = ground arith in
                    bisect_loop-Splits fuel ((lo + hi) / 2 + 1) hi (omega arith) fits (omega arith)
                      (λ i h.
                        omega (arith, ascending i ((lo + hi) / 2) (omega arith) (omega arith)))
                      above)
              ])
      ]

  -- On an ascending list the search finds the first place whose element exceeds `x`.
  pub bisect_right-Splits : Splits xs x (bisect_right xs x)
  unfolding bisect_right
  bisect_right-Splits =
      bisect_loop-Splits (length xs) 0 (length xs) (omega arith) (omega arith) (omega arith)
        (λ i h. absurd (omega arith)) (λ i h k. absurd (omega arith))
