-- ===== src/Fraud/Actions.antt =====
-- Which action an accepted routing policy gives a score.
use ailending_hub.Prelude.{
  ◌≤◌, ◌≡◌, ◌≢◌, refl, ◌⊎◌, inl, inr, Bool, true, false, List, [], ◌∷◌, arith, any, length,
  Bool-cases, &&_iff, All, IsIn, All-IsIn, ok, sort_by, IsOrder, IsSortedBy, sort_by-IsSortedBy,
}
use ailending_hub.Fraud.Bands.{
  Action, pass, Band, RoutingPolicy, lowers, same_list, set_size, lower_le, routing_policy,
  action_from, action_for, route,
}

module _ {F : Type 0} (le same : F → F → Bool) where
  -- Each lower edge is below every later one, and differs from it.
  abbrev pub IsLadder : List (Band F) → Type 0
  IsLadder [] = Unit
  IsLadder (b ∷ bs) =
      All (λ c. (le b.lower c.lower ≡ true) × (same b.lower c.lower ≡ false)) bs × IsLadder bs

  -- The action is that of the band with the greatest lower edge that the score reaches, and `pass`
  -- if it reaches none.
  abbrev pub Governs : F → List (Band F) → Action → Type 0
  Governs score bands a =
      ((a ≡ pass) × All (λ c. le c.lower score ≡ false) bands)
      ⊎ ((b : Band F) × IsIn b bands
          × (le b.lower score ≡ true)
          × (a ≡ b.action)
          × All (λ c. le c.lower score ≡ true → le c.lower b.lower ≡ true) bands)

  set_size-≤ : (bs : List (Band F)) → set_size le same (lowers bs) ≤ length bs
  unfolding set_size
  set_size-≤ [] = omega arith
  set_size-≤ (b ∷ bs) = ground (arith, set_size-≤ bs)

  none_same :
      (x : F) (bs : List (Band F))
      → any (same x) (lowers bs) ≡ false
      → All (λ c. same x c.lower ≡ false) bs
  none_same x [] h = tt
  none_same x (b ∷ bs) h = (ground arith, none_same x bs (ground arith))

  both :
      (P Q : Band F → Type 0) (bs : List (Band F)) → All P bs → All Q bs → All (λ c. P c × Q c) bs
  both P Q [] p q = tt
  both P Q (b ∷ bs) p q = ((p.0, q.0), both P Q bs p.1 q.1)

  IsLadder-of :
      (bs : List (Band F))
      → IsSortedBy (lower_le le same) bs
      → set_size le same (lowers bs) ≡ length bs
      → IsLadder bs
  unfolding set_size
  IsLadder-of [] s e = tt
  IsLadder-of (b ∷ bs) s e = elim (Bool-cases (any (same b.lower) (lowers bs))) [
    | inl t ↦ absurd (let h = rw t at e in omega (arith, set_size-≤ bs))
    | inr f ↦
        let h = rw f at e in
        (
          both (λ c. le b.lower c.lower ≡ true) (λ c. same b.lower c.lower ≡ false) bs s.0
              (none_same b.lower bs f),
          IsLadder-of bs s.1 (omega arith),
        )
  ]

  module _ (order : IsOrder le)
      (same_le : (a b : F) → same a b ≡ true → (le a b ≡ true) × (le b a ≡ true)) where
    le_refl : (a : F) → le a a ≡ true
    le_refl a = elim (Bool-cases (le a a)) [ inl t ↦ t | inr f ↦ order.total a a f ]

    at_most :
        (x y : F) (cs bs : List (Band F))
        → same x y ≡ true
        → same_list le same (lowers cs) (lowers bs) ≡ true
        → All (λ c. le x c.lower ≡ true) cs
        → All (λ c. le y c.lower ≡ true) bs
    unfolding same_list
    at_most x y [] [] e h p = tt
    at_most x y [] (b ∷ bs) e h p = absurd (ground arith)
    at_most x y (a ∷ cs) [] e h p = absurd (ground arith)
    at_most x y (a ∷ cs) (b ∷ bs) e h p =
        let (first, rest) = (&&_iff _ _).0 h in
        (
          order.trans y x b.lower (same_le x y e).1
              (order.trans x a.lower b.lower p.0 (same_le a.lower b.lower first).0),
          at_most x y cs bs e rest p.1,
        )

    sorted_as :
        (cs bs : List (Band F))
        → same_list le same (lowers cs) (lowers bs) ≡ true
        → IsSortedBy (lower_le le same) cs
        → IsSortedBy (lower_le le same) bs
    unfolding same_list
    sorted_as [] [] h s = tt
    sorted_as [] (b ∷ bs) h s = absurd (ground arith)
    sorted_as (a ∷ cs) [] h s = absurd (ground arith)
    sorted_as (a ∷ cs) (b ∷ bs) h s =
        let (first, rest) = (&&_iff _ _).0 h in
        (at_most a.lower b.lower cs bs first rest s.0, sorted_as cs bs rest s.1)

    band_order : IsOrder (lower_le le same)
    band_order = record {
      trans = λ a b c. order.trans a.lower b.lower c.lower;
      total = λ a b. order.total a.lower b.lower;
    }

    -- The constructor accepts only a non-empty policy whose lower edges ascend strictly, and leaves
    -- it as it is.
    pub routing_policy-IsLadder :
        (p q : RoutingPolicy F)
        → routing_policy le same p ≡ ok q
        → (q ≡ p) × (p.bands ≢ []) × IsLadder p.bands
    unfolding routing_policy
    routing_policy-IsLadder p q h =
        let sorted = sort_by-IsSortedBy (lower_le le same) band_order p.bands in
        elim (Bool-cases
          (same_list le same (lowers (sort_by (lower_le le same) p.bands)) (lowers p.bands))) [
            | inl t ↦ (
              ground arith,
              (λ e. ground arith),
              IsLadder-of p.bands (sorted_as (sort_by (lower_le le same) p.bands) p.bands t sorted)
                  (ground arith),
            )
            | inr f ↦ absurd (ground arith)
          ]

    GovernsFrom : Action → F → List (Band F) → Action → Type 0
    GovernsFrom start score bands a =
        ((a ≡ start) × All (λ c. le c.lower score ≡ false) bands)
        ⊎ ((b : Band F) × IsIn b bands
            × (le b.lower score ≡ true)
            × (a ≡ b.action)
            × All (λ c. le c.lower score ≡ true → le c.lower b.lower ≡ true) bands)

    unreached :
        (score x : F) (bs : List (Band F))
        → All (λ c. le c.lower score ≡ false) bs
        → All (λ c. le c.lower score ≡ true → le c.lower x ≡ true) bs
    unreached score x [] h = tt
    unreached score x (b ∷ bs) h = ((λ t. cc), unreached score x bs h.1)

    action_from-Governs :
        (score : F) (start : Action) (bs : List (Band F))
        → IsLadder bs
        → GovernsFrom start score bs (action_from le same score start bs)
    unfolding action_from GovernsFrom
    action_from-Governs score start [] l = inl (refl, tt)
    action_from-Governs score start (b ∷ bs) l = elim (Bool-cases (le b.lower score)) [
      | inl t ↦ rw t (elim (action_from-Governs score b.action bs l.1) [
        | inl (e, none_of) ↦
            inr (b, inl refl, t, e, ((λ h. le_refl b.lower), unreached score b.lower bs none_of))
        | inr (c, m, t', e, top) ↦ inr (
          c,
          inr m,
          t',
          e,
          (
            (λ h.
                (All-IsIn (λ c. (le b.lower c.lower ≡ true) × (same b.lower c.lower ≡ false)) c bs
                  l.0 m).0),
            top,
          ),
        )
      ])
      | inr f ↦ rw f (elim (action_from-Governs score start bs l.1) [
        | inl (e, none_of) ↦ inl (e, (refl, none_of))
        | inr (c, m, t', e, top) ↦ inr (c, inr m, t', e, ((λ h. cc), top))
      ])
    ]

    -- Under a policy that the constructor accepts, a score from 0 to 1 is routed to the action of
    -- the band with the greatest lower edge that it reaches, and passes if it reaches none. The
    -- comparison of scores is a total preorder, and equal scores are each at most the other.
    pub route-Governs :
        (nought one score : F) (p q : RoutingPolicy F)
        → routing_policy le same p ≡ ok q
        → le nought score ≡ true
        → le score one ≡ true
        → (a : Action) × (route le same nought one score q ≡ ok a) × Governs score p.bands a
    unfolding route action_for GovernsFrom
    route-Governs nought one score p q h low high =
        let (e, some_band, ladder) = routing_policy-IsLadder p q h in
        (
          action_from le same score pass p.bands,
          rw (e, low, high),
          action_from-Governs score pass p.bands ladder,
        )
