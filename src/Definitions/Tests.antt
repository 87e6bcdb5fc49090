-- ===== src/Definitions/Tests.antt =====
-- Concrete dates and observations, and the theorems at them.
use Prim.Native.Nat.{min}
use ailending_hub.Prelude.{◌+◌, ◌*◌, ◌≤◌, ◌<◌, ◌≡◌, ◌⊎◌, ◌↔◌, refl, false, none, some, ok, arith}
use ailending_hub.Definitions.Labels.{
  OutcomeObservation, good, bad, indeterminate, label, is_trainable, is_indeterminate, is_default,
  is_true, IsFlagged, label_iff,
}
use ailending_hub.Definitions.Dates.{
  Date, outcome_window, calendar_days, days_in_month, is_leap, date_of,
}
use ailending_hub.Definitions.Windows.{IsDate, outcome_window_end}

abbrev late : OutcomeObservation
late = record {
  max_dpd = 45;
  written_off = none;
  fraud_confirmed = some false;
  restructured_due_to_distress = none;
}

late_is_judged : label late ≡ indeterminate
unfolding label is_indeterminate is_default is_true
late_is_judged = refl

label_iff_example :
    ((label late ≡ bad) ↔ ((90 ≤ late.max_dpd) ⊎ IsFlagged late))
    × ((label late ≡ indeterminate)
        ↔ ((30 ≤ late.max_dpd) × (late.max_dpd < 90) × (¬ IsFlagged late)))
    × ((label late ≡ good) ↔ ((late.max_dpd < 30) × (¬ IsFlagged late)))
    × ((is_trainable late ≡ false)
        ↔ ((30 ≤ late.max_dpd) × (late.max_dpd < 90) × (¬ IsFlagged late)))
label_iff_example = label_iff late

-- The last day of January, and a window of 13 months that ends in a leap February.
abbrev disbursal : Date
disbursal = record { year = 2023; month = 1; day = 31 }

calendar : Unit {0}
unfolding calendar_days is_leap days_in_month date_of
calendar = tt

disbursal-IsDate : IsDate disbursal
unfolding calendar
disbursal-IsDate = (omega arith, omega arith, omega arith, omega arith, omega arith, omega arith)

leap_end :
    outcome_window disbursal (some 13) ≡ ok (disbursal, record { year = 2024; month = 2; day = 29 })
unfolding calendar outcome_window
leap_end = refl

outcome_window_end_example :
    (end : Date) × (outcome_window disbursal (some 13) ≡ ok (disbursal, end))
    × IsDate end
    × (12 * end.year + end.month ≡ 12 * 2023 + 1 + 13)
    × (end.day ≡ min 31 (calendar_days end.year end.month))
outcome_window_end_example = outcome_window_end disbursal 13 disbursal-IsDate (omega arith)
