-- ===== src/Serving/Advance.antt =====
-- When a model may leave its rung of the ladder.
use ailending_hub.Prelude.{
  ℕ, ◌+◌, ◌≤◌, ◌≡◌, ◌↔◌, true, ◌&&◌, Option, none, some, List, arith, leb, is_some, is_nil,
  is_nil-append, is_nil-reason_if, pos, leb_ℤ,
}
use ailending_hub.Serving.Ladder.{LadderReason, may_advance, elapsed, shadow_status, canary_status}

-- The stage began, and as many days have passed since.
abbrev pub HasRun : ℕ → Option ℕ → ℕ → Type 0
HasRun days none as_of = ⊥
HasRun days (some start) as_of = start + days ≤ as_of

is_nil-shadow :
    {Fraction : Type 0} (whole : Fraction) (started_at : Option ℕ) (as_of : ℕ)
    (blocking : List LadderReason)
    → is_nil (shadow_status whole started_at as_of blocking).blocking
      ≡ (is_nil blocking && is_some started_at)
unfolding shadow_status
is_nil-shadow whole started_at as_of blocking = rw (is_nil-append, is_nil-reason_if) (ground arith)

is_nil-canary :
    {Fraction : Type 0} (started_at : Option ℕ) (as_of : ℕ) (traffic_fraction : Option Fraction)
    (clean_days : ℕ) (blocking : List LadderReason)
    → is_nil (canary_status started_at as_of traffic_fraction clean_days blocking).blocking
      ≡ (is_nil blocking && (is_some started_at && (is_some traffic_fraction && leb 28 clean_days)))
unfolding canary_status
is_nil-canary started_at as_of traffic_fraction clean_days blocking =
    rw
      (
        is_nil-append, is_nil-append, is_nil-append, is_nil-reason_if, is_nil-reason_if,
        is_nil-reason_if,
      )
      (ground arith)

-- As many days passed exactly if the subtraction reaches the minimum.
HasRun-iff :
    (days start as_of : ℕ)
    → (leb_ℤ (pos days) (elapsed (some start) as_of) ≡ true) ↔ HasRun days (some start) as_of
HasRun-iff days start as_of = ((λ h. ground arith), λ h. ground arith)

-- A model may leave the shadow stage exactly if it began 28 days ago or earlier and nothing blocks
-- it; it may leave the canary stage exactly if, moreover, the fraction of the traffic is configured
-- and 28 days were clean.
pub may_advance_iff :
    {Fraction : Type 0} (whole : Fraction) (started_at : Option ℕ) (as_of : ℕ)
    (traffic_fraction : Option Fraction) (clean_days : ℕ) (blocking : List LadderReason)
    → ((may_advance (shadow_status whole started_at as_of blocking) ≡ true)
        ↔ (HasRun 28 started_at as_of × (is_nil blocking ≡ true)))
      × ((may_advance (canary_status started_at as_of traffic_fraction clean_days blocking) ≡ true)
          ↔ (HasRun 28 started_at as_of
              × (is_some traffic_fraction ≡ true)
              × (28 ≤ clean_days)
              × (is_nil blocking ≡ true)))
unfolding may_advance shadow_status canary_status
may_advance_iff whole none as_of traffic_fraction clean_days blocking =
    let shadow = is_nil-shadow whole none as_of blocking in
    let canary = is_nil-canary none as_of traffic_fraction clean_days blocking in
    (
      ((λ h. absurd (ground arith)), λ (h, _). absurd h),
      ((λ h. absurd (ground arith)), λ (h, _, _, _). absurd h),
    )
may_advance_iff whole (some start) as_of traffic_fraction clean_days blocking =
    let shadow = is_nil-shadow whole (some start) as_of blocking in
    let canary = is_nil-canary (some start) as_of traffic_fraction clean_days blocking in
    let (ran, ran') = HasRun-iff 28 start as_of in
    (
      ((λ h. (ran (ground arith), ground arith)), λ (h, k). let r = ran' h in ground arith),
      (
        (λ h. (ran (ground arith), ground arith, ground arith, ground arith)),
        λ (h, k, m, n). let r = ran' h in ground arith,
      ),
    )
