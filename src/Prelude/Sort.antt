-- ===== src/Prelude/Sort.antt =====
-- Python's `sorted` and `list.sort` are stable: an insertion sort that puts an element before the
-- first one that its key does not exceed. The order on keys is a Boolean test `le`.
use ailending_hub.Prelude.Lists.{length, All, IsIn, All-IsIn, All_of}
use ailending_hub.Prelude.Tests.{if◌then◌else◌, Bool-cases}
use Prim.Native.Nat.{suc}
use mathlib.Core.Path.{◌≡◌, refl, ap, ◌∙◌}
use mathlib.Core.Logic.{◌⊎◌, inl, inr}
use mathlib.Core.Bool.{Bool, true, false}
use mathlib.Core.List.{List, [], ◌∷◌}

module _ {A : Type 0} (le : A → A → Bool) where
  insert_by : A → List A → List A
  insert_by x [] = x ∷ []
  insert_by x (y ∷ ys) = let rest = insert_by x ys in if le x y then x ∷ y ∷ ys else y ∷ rest

  unfoldable pub sort_by : List A → List A
  unfolding insert_by
  sort_by [] = []
  sort_by (x ∷ xs) = insert_by x (sort_by xs)

  -- Every element is at most each later one.
  abbrev pub IsSortedBy : List A → Type 0
  IsSortedBy [] = Unit
  IsSortedBy (x ∷ xs) = All (λ y. le x y ≡ true) xs × IsSortedBy xs

  IsIn-insert_by : (a x : A) (ys : List A) → IsIn a (insert_by x ys) → (x ≡ a) ⊎ IsIn a ys
  unfolding insert_by
  IsIn-insert_by a x [] h = h
  IsIn-insert_by a x (y ∷ ys) h = elim (Bool-cases (le x y)) [
    | inl t ↦ rw t at h
    | inr f ↦ elim (rw f at h) [
      | inl e ↦ inr (inl e)
      | inr m ↦ elim (IsIn-insert_by a x ys m) [ inl e ↦ inl e | inr k ↦ inr (inr k) ]
    ]
  ]

  insert_by-IsIn : (a x : A) (ys : List A) → (x ≡ a) ⊎ IsIn a ys → IsIn a (insert_by x ys)
  unfolding insert_by
  insert_by-IsIn a x [] h = h
  insert_by-IsIn a x (y ∷ ys) h = elim (Bool-cases (le x y)) [
    | inl t ↦ rw t h
    | inr f ↦ rw f (elim h [
      | inl e ↦ inr (insert_by-IsIn a x ys (inl e))
      | inr (inl e) ↦ inl e
      | inr (inr m) ↦ inr (insert_by-IsIn a x ys (inr m))
    ])
  ]

  pub IsIn-sort_by : (a : A) (xs : List A) → IsIn a (sort_by xs) → IsIn a xs
  unfolding sort_by
  IsIn-sort_by a [] h = h
  IsIn-sort_by a (x ∷ xs) h = elim (IsIn-insert_by a x (sort_by xs) h) [
    | inl e ↦ inl e
    | inr m ↦ inr (IsIn-sort_by a xs m)
  ]

  pub sort_by-IsIn : (a : A) (xs : List A) → IsIn a xs → IsIn a (sort_by xs)
  unfolding sort_by
  sort_by-IsIn a [] h = h
  sort_by-IsIn a (x ∷ xs) (inl e) = insert_by-IsIn a x (sort_by xs) (inl e)
  sort_by-IsIn a (x ∷ xs) (inr m) = insert_by-IsIn a x (sort_by xs) (inr (sort_by-IsIn a xs m))

  length-insert_by : (x : A) (ys : List A) → length (insert_by x ys) ≡ suc (length ys)
  unfolding insert_by
  length-insert_by x [] = refl
  length-insert_by x (y ∷ ys) = elim (Bool-cases (le x y)) [
    | inl t ↦ rw t
    | inr f ↦ rw f (ap suc (length-insert_by x ys))
  ]

  pub length-sort_by : (xs : List A) → length (sort_by xs) ≡ length xs
  unfolding sort_by
  length-sort_by [] = refl
  length-sort_by (x ∷ xs) = length-insert_by x (sort_by xs) ∙ ap suc (length-sort_by xs)

  -- The test is a total preorder.
  pub record IsOrder : Type 0 where
    pub trans : (a b c : A) → le a b ≡ true → le b c ≡ true → le a c ≡ true
    pub total : (a b : A) → le a b ≡ false → le b a ≡ true

  module _ (order : IsOrder) where
    insert_by-IsSortedBy : (x : A) (ys : List A) → IsSortedBy ys → IsSortedBy (insert_by x ys)
    unfolding insert_by
    insert_by-IsSortedBy x [] s = (tt, tt)
    insert_by-IsSortedBy x (y ∷ ys) s = elim (Bool-cases (le x y)) [
      | inl t ↦ rw t (
        (t, All_of ys (λ a m. order.trans x y a t (All-IsIn (λ b. le y b ≡ true) a ys s.0 m))),
        s,
      )
      | inr f ↦ rw f (
        All_of (insert_by x ys) (λ a m. elim (IsIn-insert_by a x ys m) [
          | inl e ↦ rw (← e) (order.total x y f)
          | inr k ↦ All-IsIn (λ b. le y b ≡ true) a ys s.0 k
        ]),
        insert_by-IsSortedBy x ys s.1,
      )
    ]

    pub sort_by-IsSortedBy : (xs : List A) → IsSortedBy (sort_by xs)
    unfolding sort_by
    sort_by-IsSortedBy [] = tt
    sort_by-IsSortedBy (x ∷ xs) = insert_by-IsSortedBy x (sort_by xs) (sort_by-IsSortedBy xs)
