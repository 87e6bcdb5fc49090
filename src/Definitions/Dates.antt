-- ===== src/Definitions/Dates.antt =====
-- Dates as Python's `datetime.date` has them, and the dates of definitions/appendix_a.py.
use Prim.Native.Nat.{min}
use ailending_hub.Prelude.{
  ℕ, ◌+◌, ◌-◌, ◌/◌, ◌%◌, Bool, not, ◌&&◌, ◌||◌, Option, none, some, leb, ◌==◌, if◌then◌else◌,
  Result, ok, err, ◌>>=◌, ◌>>◌, raise_if,
}

pub record Date : Type 0 where
  pub year : ℕ
  pub month : ℕ
  pub day : ℕ

pub data DateError : Type 0 where
  out_of_range : (year month day : ℕ) → DateError
  no_final_decision no_snapshot : DateError
  not_month_end : Date → DateError

unfoldable pub is_leap : ℕ → Bool
is_leap y = (y % 4 == 0) && (not (y % 100 == 0) || (y % 400 == 0))

-- The days of a month of the Gregorian calendar, as `date` knows them.
unfoldable pub calendar_days : ℕ → ℕ → ℕ
unfolding is_leap
calendar_days y m =
    if m == 2
    then (if is_leap y then 29 else 28)
    else if (m == 4) || (m == 6) || (m == 9) || (m == 11)
    then 30
    else 31

-- `_days_in_month`: 31 for December, else the day before the first of the next month.
unfoldable pub days_in_month : ℕ → ℕ → ℕ
unfolding calendar_days
days_in_month y m = if m == 12 then 31 else calendar_days y m

-- `date(y, m, d)`, which raises ValueError out of range.
unfoldable pub date_of : ℕ → ℕ → ℕ → Result DateError Date
unfolding calendar_days
date_of y m d =
    if leb 1 y && leb y 9999 && (leb 1 m && leb m 12) && (leb 1 d && leb d (calendar_days y m))
    then ok (record { year = y; month = m; day = d })
    else err (out_of_range y m d)

abbrev pub outcome_window_months : ℕ
outcome_window_months = 12

abbrev pub or_window : Option ℕ → ℕ
or_window none = outcome_window_months
or_window (some n) = n

-- `outcome_window`; a number of months here is never negative.
unfoldable pub outcome_window : Date → Option ℕ → Result DateError (Date × Date)
unfolding days_in_month date_of
outcome_window start months =
    let span = or_window months in
    let y = start.year + (start.month - 1 + span) / 12 in
    let m = (start.month - 1 + span) % 12 + 1 in
    do end ← date_of y m (min start.day (days_in_month y m)); ok (start, end)

unfoldable pub month_end : Date → Result DateError Date
unfolding days_in_month date_of
month_end d = date_of d.year d.month (days_in_month d.year d.month)

abbrev pub same_date : Date → Date → Bool
same_date a b = (a.year == b.year) && (a.month == b.month) && (a.day == b.day)

pub data Scoring : Type 0 where
  application behavioral : Scoring

unfoldable pub observation_point : Scoring → Option Date → Option Date → Result DateError Date
observation_point application none snapshot = err no_final_decision
observation_point application (some d) snapshot = ok d
observation_point behavioral final none = err no_snapshot
observation_point behavioral final (some d) = do
  end ← month_end d
  raise_if (not (same_date d end)) (not_month_end d)
  ok d
