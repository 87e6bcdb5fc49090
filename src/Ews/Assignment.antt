-- ===== src/Ews/Assignment.antt =====
-- ews/routing.py: OfficerAssignment and apply_officer_cap.
use ailending_hub.Prelude.{
  ℕ, suc, ◌+◌, ◌<◌, ◌≡◌, refl, sym, subst, ap, inl, inr, ◌↔◌, Bool, true, false, ◌&&◌, ◌||◌, Option,
  none, some, List, [], ◌∷◌, ◌++◌, String, arith, ltb, leb, ◌==◌, Result, ok, err, ◌>>=◌, ◌>>◌,
  raise_if, take, drop, length, count_if, sort_by, IsSortedBy, IsOrder, sort_by-IsSortedBy,
  length-sort_by, IsIn-sort_by, sort_by-IsIn, IsIn, All-IsIn, take-append-drop, length-append,
  length-take, IsIn-append_right,
}
use Prim.Native.Nat.{min, zero}
use ailending_hub.Ews.Alerts.{Tier, red, tier_value, Alert, RoutingError, ungrounded, empty_cap}

pub record OfficerAssignment (M : Type 0) : Type 0 where
  pub officer_id : String
  pub assigned : List (Alert M)
  pub deferred : List (Alert M)
  pub cap : ℕ

abbrev is_red : Tier → Bool
is_red red = true
is_red _ = false

-- `cap`, or the ratified cap, which is none while OFFICER_DAILY_ALERT_CAP is pending.
unfoldable pub chosen_cap : Option ℕ → Option ℕ → Result RoutingError ℕ
chosen_cap (some n) ratified = ok n
chosen_cap none none = err ungrounded
chosen_cap none (some n) = ok n

module _ {M : Type 0} where
  unfoldable pub at_capacity : OfficerAssignment M → Bool
  at_capacity r = leb r.cap (length r.assigned)

  unfoldable pub deferred_red_count : OfficerAssignment M → ℕ
  deferred_red_count r = count_if (λ a. is_red a.tier_of) r.deferred

  -- The order of the key `(-int(tier), raised_at)`.
  abbrev pub urgent_le : Alert M → Alert M → Bool
  urgent_le a b =
      ltb (tier_value b.tier_of) (tier_value a.tier_of)
      || tier_value a.tier_of == tier_value b.tier_of && leb a.raised_at b.raised_at

  unfoldable pub apply_officer_cap :
      Option ℕ → List (Alert M) → String → Option ℕ → Result RoutingError (OfficerAssignment M)
  unfolding chosen_cap
  apply_officer_cap ratified alerts officer_id cap = do
    n ← chosen_cap cap ratified
    raise_if (n == 0) empty_cap
    ok (record {
      officer_id = officer_id;
      assigned = take n (sort_by urgent_le alerts);
      deferred = drop n (sort_by urgent_le alerts);
      cap = n;
    })

  urgent_order : IsOrder urgent_le
  urgent_order = record { trans = λ a b c p q. trans_lem a b c p q; total = λ a b p. ground arith }
    where
      trans_lem :
          (a b c : Alert M) → urgent_le a b ≡ true → urgent_le b c ≡ true → urgent_le a c ≡ true
      trans_lem a b c p q = ground arith

  sorted_split :
      (n : ℕ) (xs : List (Alert M))
      → IsSortedBy urgent_le xs
      → (a b : Alert M) → IsIn a (take n xs)
      → IsIn b (drop n xs)
      → urgent_le a b ≡ true
  sorted_split zero xs s a b m k = absurd m
  sorted_split (suc n) [] s a b m k = absurd m
  sorted_split (suc n) (x ∷ xs) s a b (inl e) k =
      subst (λ y. urgent_le y b ≡ true) e
        (All-IsIn (λ y. urgent_le x y ≡ true) b xs s.0
          (subst (IsIn b) (take-append-drop n xs) (IsIn-append_right b (take n xs) (drop n xs) k)))
  sorted_split (suc n) (x ∷ xs) s a b (inr m) k = sorted_split n xs s.1 a b m k

  -- With a positive cap the officer gets the worst alerts and the rest are deferred: the cap or all
  -- alerts are assigned, whichever is fewer, the two parts are together as long as the alerts and
  -- have the same members, and each assigned alert is at least as urgent as every deferred one: of a
  -- higher tier, or of the same tier and no younger.
  pub apply_officer_cap-worst :
      (ratified : Option ℕ) (alerts : List (Alert M)) (officer_id : String) (n : ℕ)
      → 0 < n
      → (r : OfficerAssignment M) × (apply_officer_cap ratified alerts officer_id (some n) ≡ ok r)
        × (length r.assigned ≡ min n (length alerts))
        × (length r.assigned + length r.deferred ≡ length alerts)
        × ((a : Alert M) → IsIn a (r.assigned ++ r.deferred) ↔ IsIn a alerts)
        × ((a b : Alert M) → IsIn a r.assigned → IsIn b r.deferred → urgent_le a b ≡ true)
  unfolding apply_officer_cap
  apply_officer_cap-worst ratified alerts officer_id n positive =
      let sorted = sort_by urgent_le alerts in
      let r : OfficerAssignment M = record {
        officer_id = officer_id;
        assigned = take n sorted;
        deferred = drop n sorted;
        cap = n;
      } in
      let whole = take-append-drop n sorted in
      let count = length-sort_by urgent_le alerts in
      (
        r,
        ground arith,
        (omega (arith, length-take n sorted, count)),
        omega (arith, length-append (take n sorted) (drop n sorted), ap length whole, count),
        (λ a. (
          (λ m. IsIn-sort_by urgent_le a alerts (subst (IsIn a) whole m)),
          λ m. subst (IsIn a) (sym whole) (sort_by-IsIn urgent_le a alerts m),
        )),
        sorted_split n sorted (sort_by-IsSortedBy urgent_le urgent_order alerts),
      )

  -- Without a cap, given or ratified, or with a cap of 0, nothing is assigned and an error is raised.
  pub apply_officer_cap-err :
      (alerts : List (Alert M)) (officer_id : String) (ratified : Option ℕ)
      → (apply_officer_cap none alerts officer_id none ≡ err ungrounded)
        × (apply_officer_cap ratified alerts officer_id (some 0) ≡ err empty_cap)
  unfolding apply_officer_cap
  apply_officer_cap-err alerts officer_id ratified = (refl, refl)
