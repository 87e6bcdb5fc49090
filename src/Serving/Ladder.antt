-- ===== src/Serving/Ladder.antt =====
-- serving/shadow.py: LadderStatus, shadow_status and canary_status. A date is the number of its day,
-- and a traffic fraction's value is a parameter. The daily comparisons, which are statistics of
-- scores, are not modelled.
use ailending_hub.Prelude.{
  ℕ, Bool, ◌&&◌, Option, none, some, List, ◌++◌, String, ltb, is_some, not, is_nil, reason_if, ℤ,
  pos, leb_ℤ, sub_ℕ,
}

-- `MINIMUM_SHADOW.days` and `MINIMUM_CANARY.days`
abbrev pub minimum_shadow : ℕ
minimum_shadow = 28

abbrev pub minimum_canary : ℕ
minimum_canary = 28

pub data LadderReason : Type 0 where
  shadow_not_started canary_not_started no_traffic_fraction : LadderReason
  too_few_clean : (clean_days : ℕ) → LadderReason
  other : String → LadderReason

pub record LadderStatus (Fraction : Type 0) : Type 0 where
  pub stage : String
  pub started_at : Option ℕ
  pub as_of : ℕ
  pub days_elapsed : ℤ
  pub minimum_days : ℕ
  pub traffic_fraction : Option Fraction
  pub blocking : List LadderReason

-- `LadderStatus.duration_met` and `LadderStatus.may_advance`
abbrev pub duration_met : {Fraction : Type 0} → LadderStatus Fraction → Bool
duration_met status = leb_ℤ (pos status.minimum_days) status.days_elapsed

unfoldable pub may_advance : {Fraction : Type 0} → LadderStatus Fraction → Bool
may_advance status = duration_met status && is_nil status.blocking

-- `(as_of - started_at).days if started_at else 0`
abbrev pub elapsed : Option ℕ → ℕ → ℤ
elapsed none as_of = pos 0
elapsed (some start) as_of = sub_ℕ as_of start

-- The argument `whole` is the fraction 1.0.
unfoldable pub shadow_status :
    {Fraction : Type 0} → Fraction → Option ℕ → ℕ → List LadderReason → LadderStatus Fraction
shadow_status whole started_at as_of blocking = record {
  stage = "shadow";
  started_at = started_at;
  as_of = as_of;
  days_elapsed = elapsed started_at as_of;
  minimum_days = minimum_shadow;
  traffic_fraction = some whole;
  blocking = blocking ++ reason_if (not (is_some started_at)) shadow_not_started;
}

unfoldable pub canary_status :
    {Fraction : Type 0}
    → Option ℕ
    → ℕ
    → Option Fraction
    → ℕ
    → List LadderReason
    → LadderStatus Fraction
canary_status started_at as_of traffic_fraction clean_days blocking = record {
  stage = "canary";
  started_at = started_at;
  as_of = as_of;
  days_elapsed = elapsed started_at as_of;
  minimum_days = minimum_canary;
  traffic_fraction = traffic_fraction;
  blocking =
      blocking
      ++ (reason_if (not (is_some started_at)) canary_not_started
          ++ (reason_if (not (is_some traffic_fraction)) no_traffic_fraction
              ++ reason_if (ltb clean_days minimum_canary) (too_few_clean clean_days)));
}
