-- ===== src/Prelude/Lists.antt =====
-- Lists measured by native numbers, tests over lists, and membership and `All` by recursion, which
-- compute to sums and products that the tactics read.
use Prim.Native.Nat.{ℕ, zero, suc, ◌+◌, min}
use mathlib.Core.Path.{◌≡◌, refl, sym, ap, subst}
use mathlib.Core.Logic.{◌⊎◌, ◌↔◌, inl, inr}
use mathlib.Core.Bool.{Bool, true, false, not, ◌&&◌, ◌||◌}
use mathlib.Core.List.{List, [], ◌∷◌, ◌++◌}
use native.Mathlib.Omega.{arith}
use ailending_hub.Prelude.Tests.{if◌then◌else◌, Bool-cases}

module _ {ℓ} {A : Type ℓ} where
  abbrev pub length : List A → ℕ
  length [] = 0
  length (x ∷ xs) = suc (length xs)

  abbrev pub is_nil : List A → Bool
  is_nil [] = true
  is_nil (x ∷ xs) = false

  -- `l[:n]`
  abbrev pub take : ℕ → List A → List A
  take zero xs = []
  take (suc n) [] = []
  take (suc n) (x ∷ xs) = x ∷ take n xs

  -- `l[n:]`
  abbrev pub drop : ℕ → List A → List A
  drop zero xs = xs
  drop (suc n) [] = []
  drop (suc n) (x ∷ xs) = drop n xs

  abbrev pub get_or : List A → ℕ → A → A
  get_or [] i d = d
  get_or (x ∷ xs) zero d = x
  get_or (x ∷ xs) (suc i) d = get_or xs i d

  abbrev pub all : (A → Bool) → List A → Bool
  all p [] = true
  all p (x ∷ xs) = p x && all p xs

  abbrev pub any : (A → Bool) → List A → Bool
  any p [] = false
  any p (x ∷ xs) = p x || any p xs

  -- `[x for x in xs if p(x)]`
  abbrev pub filter : (A → Bool) → List A → List A
  filter p [] = []
  filter p (x ∷ xs) = let rest = filter p xs in if p x then x ∷ rest else rest

  -- `sum(1 for x in xs if p(x))`
  abbrev pub count_if : (A → Bool) → List A → ℕ
  count_if p [] = 0
  count_if p (x ∷ xs) = (if p x then 1 else 0) + count_if p xs

  abbrev pub All {κ} : (A → Type κ) → List A → Type κ
  All P [] = Unit
  All P (x ∷ xs) = P x × All P xs

-- The state after a loop over a list.
abbrev pub foldl : {S A : Type 0} → (S → A → S) → S → List A → S
foldl step s [] = s
foldl step s (x ∷ xs) = foldl step (step s x) xs

module _ {A : Type 0} where
  abbrev pub IsIn : A → List A → Type 0
  IsIn a [] = ⊥
  IsIn a (x ∷ xs) = (x ≡ a) ⊎ IsIn a xs

  pub IsIn-append_left : (a : A) (xs ys : List A) → IsIn a xs → IsIn a (xs ++ ys)
  IsIn-append_left a [] ys h = absurd h
  IsIn-append_left a (x ∷ xs) ys (inl e) = inl e
  IsIn-append_left a (x ∷ xs) ys (inr h) = inr (IsIn-append_left a xs ys h)

  pub IsIn-append_right : (a : A) (xs ys : List A) → IsIn a ys → IsIn a (xs ++ ys)
  IsIn-append_right a [] ys h = h
  IsIn-append_right a (x ∷ xs) ys h = inr (IsIn-append_right a xs ys h)

  pub IsIn-append : (a : A) (xs ys : List A) → IsIn a (xs ++ ys) → IsIn a xs ⊎ IsIn a ys
  IsIn-append a [] ys h = inr h
  IsIn-append a (x ∷ xs) ys (inl e) = inl (inl e)
  IsIn-append a (x ∷ xs) ys (inr h) = elim (IsIn-append a xs ys h) [
    | inl l ↦ inl (inr l)
    | inr r ↦ inr r
  ]

  pub IsIn-filter :
      (p : A → Bool) (a : A) (xs : List A) → IsIn a (filter p xs) → IsIn a xs × (p a ≡ true)
  IsIn-filter p a [] h = absurd h
  IsIn-filter p a (x ∷ xs) h = elim (Bool-cases (p x)) [
    | inl yes_x ↦
        let h' : (x ≡ a) ⊎ IsIn a (filter p xs) =
          subst (λ b. IsIn a (if b then x ∷ filter p xs else filter p xs)) yes_x h in
        elim h' [
          | inl e ↦ (inl e, subst (λ y. p y ≡ true) e yes_x)
          | inr r ↦ let (m, t) = IsIn-filter p a xs r in (inr m, t)
        ]
    | inr no_x ↦
        let r : IsIn a (filter p xs) =
          subst (λ b. IsIn a (if b then x ∷ filter p xs else filter p xs)) no_x h in
        let (m, t) = IsIn-filter p a xs r in (inr m, t)
  ]

  pub IsIn-filter_of :
      (p : A → Bool) (a : A) (xs : List A) → IsIn a xs → p a ≡ true → IsIn a (filter p xs)
  IsIn-filter_of p a [] h t = absurd h
  IsIn-filter_of p a (x ∷ xs) (inl e) t = rw (subst (λ y. p y ≡ true) (sym e) t) (inl e)
  IsIn-filter_of p a (x ∷ xs) (inr h) t = elim (Bool-cases (p x)) [
    | inl yes_x ↦ rw yes_x (inr (IsIn-filter_of p a xs h t))
    | inr no_x ↦ rw no_x (IsIn-filter_of p a xs h t)
  ]

  pub All-IsIn {κ} : (P : A → Type κ) (a : A) (xs : List A) → All P xs → IsIn a xs → P a
  All-IsIn P a [] h m = absurd m
  All-IsIn P a (x ∷ xs) h (inl e) = subst P e h.0
  All-IsIn P a (x ∷ xs) h (inr m) = All-IsIn P a xs h.1 m

  pub All_of {κ} : {P : A → Type κ} (xs : List A) → ((a : A) → IsIn a xs → P a) → All P xs
  All_of [] h = tt
  All_of (x ∷ xs) h = (h x (inl refl), All_of xs (λ a m. h a (inr m)))

module _ {ℓ} {A : Type ℓ} where
  pub length-append : (xs ys : List A) → length (xs ++ ys) ≡ length xs + length ys
  length-append [] ys = omega arith
  length-append (x ∷ xs) ys = omega (arith, length-append xs ys)

  pub take-append-drop : (n : ℕ) (xs : List A) → take n xs ++ drop n xs ≡ xs
  take-append-drop zero xs = refl
  take-append-drop (suc n) [] = refl
  take-append-drop (suc n) (x ∷ xs) = ap (◌∷◌ x) (take-append-drop n xs)

  pub length-take : (n : ℕ) (xs : List A) → length (take n xs) ≡ min n (length xs)
  length-take zero xs = omega arith
  length-take (suc n) [] = omega arith
  length-take (suc n) (x ∷ xs) = omega (arith, length-take n xs)

  pub is_nil-append : (xs ys : List A) → is_nil (xs ++ ys) ≡ (is_nil xs && is_nil ys)
  is_nil-append [] ys = refl
  is_nil-append (x ∷ xs) ys = refl

-- `if bad: reasons.append(r)`
abbrev pub reason_if : {R : Type 0} → Bool → R → List R
reason_if true r = r ∷ []
reason_if false r = []

pub is_nil-reason_if : {R : Type 0} (b : Bool) (r : R) → is_nil (reason_if b r) ≡ not b
is_nil-reason_if true r = refl
is_nil-reason_if false r = refl

-- The test that finds `a` finds it among the elements.
pub any_iff :
    {A : Type 0} (same : A → A → Bool) (a : A)
    → ((x : A) → (same a x ≡ true) ↔ (x ≡ a))
    → (xs : List A) → (any (same a) xs ≡ true) ↔ IsIn a xs
any_iff same a eq [] = ((λ h. absurd (ground arith)), λ h. absurd h)
any_iff same a eq (x ∷ xs) =
    let (down, up) = eq x in
    let (down', up') = any_iff same a eq xs in
    (
      (λ h. elim (Bool-cases (same a x)) [
        | inl t ↦ inl (down t)
        | inr f ↦ inr (down' (rw f at h))
      ]),
      λ m. elim m [
        | inl e ↦ rw (up e)
        | inr k ↦ elim (Bool-cases (same a x)) [ inl t ↦ rw t | inr f ↦ rw f (up' k) ]
      ],
    )

-- What passes a test `p`, counted by a test `q` that agrees with it.
module _ {ℓ} {A : Type ℓ} (p q : A → Bool) (same : (x : A) → p x ≡ q x) where
  pub length-filter_as : (xs : List A) → length (filter p xs) ≡ count_if q xs
  length-filter_as [] = refl
  length-filter_as (x ∷ xs) = ground (arith, length-filter_as xs, same x)

  pub count_if-filter_as :
      (k : A → Bool) (xs : List A) → count_if k (filter p xs) ≡ count_if (λ x. q x && k x) xs
  count_if-filter_as k [] = refl
  count_if-filter_as k (x ∷ xs) = ground (arith, count_if-filter_as k xs, same x)

-- A test holds somewhere in the list.
module _ {A : Type 0} where
  pub any_witness :
      (p : A → Bool) (xs : List A) → any p xs ≡ true → (x : A) × IsIn x xs × (p x ≡ true)
  any_witness p [] h = absurd (ground arith)
  any_witness p (x ∷ xs) h = elim (Bool-cases (p x)) [
    | inl t ↦ (x, inl refl, t)
    | inr f ↦ let (y, m, t) = any_witness p xs (ground arith) in (y, inr m, t)
  ]

  pub IsIn-any : (p : A → Bool) (x : A) (xs : List A) → IsIn x xs → p x ≡ true → any p xs ≡ true
  IsIn-any p x [] m t = absurd m
  IsIn-any p x (y ∷ xs) (inl e) t =
      let here : p y ≡ true = subst (λ z. p z ≡ true) (sym e) t in ground arith
  IsIn-any p x (y ∷ xs) (inr m) t = let later = IsIn-any p x xs m t in ground arith
