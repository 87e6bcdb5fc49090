-- ===== src/Fraud/Buckets.antt =====
-- The buckets of a velocity counter: sorted, and with every event of their key.
use ailending_hub.Prelude.{
  ℕ, zero, suc, ◌+◌, ◌≤◌, ◌<◌, ◌≡◌, refl, ap, ◌∙◌, subst, inl, inr, Bool, true, false, not, ◌&&◌,
  List, [], ◌∷◌, ◌++◌, arith, if◌then◌else◌, leb, leb→le, length, take, drop, filter, count_if,
  get_or, All_of, All-IsIn, IsIn, IsIn-filter, IsIn-append, IsSortedBy, Bool-cases,
  take-append-drop,
}
use ailending_hub.Fraud.Search.{search, search-SplitsAt, SplitsAt-filter, sorted-IsSplit}
use ailending_hub.Fraud.Velocity.{
  Arrival, no_arrival, before, bisect_left, bisect_right, insert_arrival, window_slice,
  datetime_max,
}

-- Not after.
abbrev pub arrival_le : Arrival → Arrival → Bool
arrival_le a b = not (before b a)

le_trans : (a b c : Arrival) → arrival_le a b ≡ true → arrival_le b c ≡ true → arrival_le a c ≡ true
le_trans a b c h k = ground arith

before_le : (a b c : Arrival) → arrival_le a b ≡ true → before b c ≡ true → before a c ≡ true
before_le a b c h k = ground arith

before-arrival_le : (a b : Arrival) → before a b ≡ true → arrival_le a b ≡ true
before-arrival_le a b h = ground arith

count_if-append :
    {A : Type 0} (p : A → Bool) (xs ys : List A)
    → count_if p (xs ++ ys) ≡ count_if p xs + count_if p ys
count_if-append p [] ys = omega arith
count_if-append p (x ∷ xs) ys = let rest = count_if-append p xs ys in omega arith

IsSortedBy-filter :
    (p : Arrival → Bool) (xs : List Arrival)
    → IsSortedBy arrival_le xs
    → IsSortedBy arrival_le (filter p xs)
IsSortedBy-filter p [] s = tt
IsSortedBy-filter p (x ∷ xs) s = elim (Bool-cases (p x)) [
  | inl t ↦ rw t (
    All_of (filter p xs)
        (λ a m. All-IsIn (λ y. arrival_le x y ≡ true) a xs s.0 (IsIn-filter p a xs m).0),
    IsSortedBy-filter p xs s.1,
  )
  | inr f ↦ rw f (IsSortedBy-filter p xs s.1)
]

IsSortedBy-append :
    (xs ys : List Arrival)
    → IsSortedBy arrival_le xs
    → IsSortedBy arrival_le ys
    → ((a b : Arrival) → IsIn a xs → IsIn b ys → arrival_le a b ≡ true)
    → IsSortedBy arrival_le (xs ++ ys)
IsSortedBy-append [] ys s s' h = s'
IsSortedBy-append (x ∷ xs) ys s s' h = (
  All_of (xs ++ ys) (λ a m. elim (IsIn-append a xs ys m) [
    | inl k ↦ All-IsIn (λ y. arrival_le x y ≡ true) a xs s.0 k
    | inr k ↦ h x a (inl refl) k
  ]),
  IsSortedBy-append xs ys s.1 s' (λ a b m k. h a b (inr m) k),
)

pub insert_arrival-IsSortedBy :
    (x : Arrival) (xs : List Arrival)
    → IsSortedBy arrival_le xs
    → IsSortedBy arrival_le (insert_arrival x xs)
unfolding insert_arrival bisect_right
insert_arrival-IsSortedBy x xs s =
    let p : Arrival → Bool = λ e. not (before x e) in
    let splits =
      search-SplitsAt p no_arrival xs
        (sorted-IsSplit p no_arrival arrival_le (λ a b h k. le_trans a b x h k) xs s) in
    let (low, high) = SplitsAt-filter p no_arrival xs (search p no_arrival xs) splits in
    rw (low, high)
      (IsSortedBy-append (filter p xs) (x ∷ filter (λ e. not (p e)) xs) (IsSortedBy-filter p xs s)
        (
          All_of (filter (λ e. not (p e)) xs) (λ a m. after a m),
          IsSortedBy-filter (λ e. not (p e)) xs s,
        )
        (λ a b m k. elim k [
          | inl e ↦ subst (λ y. arrival_le a y ≡ true) e (IsIn-filter p a xs m).1
          | inr k' ↦ le_trans a x b (IsIn-filter p a xs m).1 (after b k')
        ]))
  where
    after : (a : Arrival) → IsIn a (filter (λ e. not (not (before x e))) xs) → arrival_le x a ≡ true
    after a m =
        let t = (IsIn-filter (λ e. not (not (before x e))) a xs m).1 in
        before-arrival_le x a (ground arith)

pub count_if-insert_arrival :
    (k : Arrival → Bool) (x : Arrival) (xs : List Arrival)
    → count_if k (insert_arrival x xs) ≡ (if k x then 1 else 0) + count_if k xs
unfolding insert_arrival
count_if-insert_arrival k x xs =
    let r : ℕ = bisect_right xs x in
    let split = count_if-append k (take r xs) (x ∷ drop r xs) in
    let whole = count_if-append k (take r xs) (drop r xs) in
    let same : count_if k (take r xs ++ drop r xs) ≡ count_if k xs =
      ap (count_if k) (take-append-drop r xs) in
    omega arith

count_if-filter :
    {A : Type 0} (k p : A → Bool) (xs : List A)
    → count_if k (filter p xs) ≡ count_if (λ x. p x && k x) xs
count_if-filter k p [] = refl
count_if-filter k p (x ∷ xs) =
    let rest = count_if-filter k p xs in
    elim (Bool-cases (p x)) [
      | inl t ↦ rw t (ap (λ n. (if k x then 1 else 0) + n) rest)
      | inr f ↦ rw f (omega arith)
    ]

count_if-sum :
    {A : Type 0} (p q r : A → Bool)
    → ((x : A) → (if p x then 1 else 0) ≡ (if q x then 1 else 0) + (if r x then 1 else 0))
    → (xs : List A) → count_if p xs ≡ count_if q xs + count_if r xs
count_if-sum p q r each [] = omega arith
count_if-sum p q r each (x ∷ xs) =
    let rest = count_if-sum p q r each xs in let here = each x in omega arith

-- A slice and what lies before it.
count_if-slice :
    {A : Type 0} (k : A → Bool) (start stop : ℕ) (xs : List A)
    → start ≤ stop
    → count_if k (drop start (take stop xs)) + count_if k (take start xs)
      ≡ count_if k (take stop xs)
count_if-slice k zero stop xs h = omega arith
count_if-slice k (suc start) zero xs h = absurd (omega arith)
count_if-slice k (suc start) (suc stop) [] h = omega arith
count_if-slice k (suc start) (suc stop) (x ∷ xs) h =
    let rest = count_if-slice k start stop xs (omega arith) in omega arith

-- On a sorted bucket the slice has the events of the window.
pub window_slice-count_if :
    (k : Arrival → Bool) (from as_of : ℕ) (xs : List Arrival)
    → IsSortedBy arrival_le xs
    → from ≤ as_of
    → ((e : Arrival) → k e ≡ true → e.arrived ≤ datetime_max)
    → count_if k (window_slice xs from as_of)
      ≡ count_if (λ e. (leb from e.occurred && leb e.occurred as_of) && k e) xs
unfolding window_slice bisect_left bisect_right
window_slice-count_if k from as_of xs s ordered known =
    let low : Arrival = record { occurred = from; arrived = 0 } in
    let high : Arrival = record { occurred = as_of; arrived = datetime_max } in
    let p : Arrival → Bool = λ e. not (before high e) in
    let q : Arrival → Bool = λ e. before e low in
    let p_splits =
      search-SplitsAt p no_arrival xs
        (sorted-IsSplit p no_arrival arrival_le (λ a b h t. le_trans a b high h t) xs s) in
    let q_splits =
      search-SplitsAt q no_arrival xs
        (sorted-IsSplit q no_arrival arrival_le (λ a b h t. before_le a b low h t) xs s) in
    let start : ℕ = search q no_arrival xs in
    let stop : ℕ = search p no_arrival xs in
    let start_first : start ≤ stop = elim (Bool-cases (leb start stop)) [
      | inl t ↦ leb→le start stop t
      | inr f ↦
          let below = q_splits.below stop (ground arith) in
          let fits : stop < length xs = let b = q_splits.bounded in ground arith in
          let above = p_splits.above stop (omega arith) fits in
          absurd (passes (get_or xs stop no_arrival) below above)
    ] in
    let slice = count_if-slice k start stop xs start_first in
    let taken =
      ap (count_if k) (SplitsAt-filter p no_arrival xs stop p_splits).0 ∙ count_if-filter k p xs in
    let skipped =
      ap (count_if k) (SplitsAt-filter q no_arrival xs start q_splits).0 ∙ count_if-filter k q xs in
    let parts =
      count_if-sum (λ e. p e && k e) (λ e. (leb from e.occurred && leb e.occurred as_of) && k e)
        (λ e. q e && k e) (λ e. part e) xs in
    omega arith
  where
    passes :
        (e : Arrival)
        → before e (record { occurred = from; arrived = 0 }) ≡ true
        → not (before (record { occurred = as_of; arrived = datetime_max }) e) ≡ false
        → ⊥
    passes e h n = absurd (ground arith)

    part :
        (e : Arrival)
        → (if not (before (record { occurred = as_of; arrived = datetime_max }) e) && k e
            then 1
            else 0)
          ≡ (if (leb from e.occurred && leb e.occurred as_of) && k e then 1 else 0)
            + (if before e (record { occurred = from; arrived = 0 }) && k e then 1 else 0)
    part e = elim (Bool-cases (k e)) [
      | inl t ↦ let bound = known e t in rw t (ground arith)
      | inr f ↦ rw f (ground arith)
    ]
