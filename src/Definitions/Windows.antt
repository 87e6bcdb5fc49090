-- ===== src/Definitions/Windows.antt =====
-- Where an outcome window ends, and which dates are observation points.
use Prim.Native.Nat.{min}
use ailending_hub.Prelude.{
  ℕ, ◌+◌, ◌-◌, ◌*◌, ◌/◌, ◌%◌, ◌≤◌, ◌≡◌, refl, ◌↔◌, none, some, arith, le→leb, ok,
}
use ailending_hub.Definitions.Dates.{
  Date, calendar_days, days_in_month, date_of, outcome_window, month_end, behavioral,
  observation_point,
}

-- A date that `date` can hold.
abbrev pub IsDate : Date → Type 0
IsDate d =
    (1 ≤ d.year)
    × (d.year ≤ 9999)
    × (1 ≤ d.month)
    × (d.month ≤ 12)
    × (1 ≤ d.day)
    × (d.day ≤ calendar_days d.year d.month)

calendar_days_bounds : (y m : ℕ) → (28 ≤ calendar_days y m) × (calendar_days y m ≤ 31)
unfolding calendar_days
calendar_days_bounds y m = ground arith

days_in_month-eq : (y m : ℕ) → days_in_month y m ≡ calendar_days y m
unfolding days_in_month calendar_days
days_in_month-eq y m = ground arith

date_of-ok :
    (y m d : ℕ)
    → 1 ≤ y
    → y ≤ 9999
    → 1 ≤ m
    → m ≤ 12
    → 1 ≤ d
    → d ≤ calendar_days y m
    → date_of y m d ≡ ok (record { year = y; month = m; day = d })
unfolding date_of
date_of-ok y m d a b c e f g = rw (
  le→leb 1 y a,
  le→leb y 9999 b,
  le→leb 1 m c,
  le→leb m 12 e,
  le→leb 1 d f,
  le→leb d (calendar_days y m) g,
)

-- From a date, a window of `n` months that ends in year 9999 or earlier ends in the month that is
-- `n` months on, on the same day or, where that month is shorter, on its last one; the end is a
-- date of the calendar.
pub outcome_window_end :
    (start : Date) (n : ℕ)
    → IsDate start
    → (12 * start.year + (start.month - 1) + n) / 12 ≤ 9999
    → (end : Date) × (outcome_window start (some n) ≡ ok (start, end))
      × IsDate end
      × (12 * end.year + end.month ≡ 12 * start.year + start.month + n)
      × (end.day ≡ min start.day (calendar_days end.year end.month))
unfolding outcome_window
outcome_window_end start n (y1, y2, m1, m2, d1, d2) early =
    let y = start.year + (start.month - 1 + n) / 12 in
    let m = (start.month - 1 + n) % 12 + 1 in
    let d = min start.day (days_in_month y m) in
    let same = days_in_month-eq y m in
    let (low, high) = calendar_days_bounds y m in
    let made =
      date_of-ok y m d (omega arith) (omega arith) (omega arith) (omega arith) (omega arith)
        (omega arith) in
    (
      record { year = y; month = m; day = d },
      rw made,
      (omega arith, omega arith, omega arith, omega arith, omega arith, omega arith),
      omega arith,
      rw same,
    )

-- The month-end of a date is a date of the same month, no earlier than any date of that month; and a
-- behavioral observation point is accepted exactly if it is the month-end of its month.
pub observation_point_iff :
    (d : Date)
    → IsDate d
    → (e : Date) × (month_end d ≡ ok e)
      × IsDate e
      × (e.year ≡ d.year)
      × (e.month ≡ d.month)
      × ((f : Date) → IsDate f → f.year ≡ d.year → f.month ≡ d.month → f.day ≤ e.day)
      × ((observation_point behavioral none (some d) ≡ ok d) ↔ (d.day ≡ e.day))
unfolding month_end observation_point
observation_point_iff d (y1, y2, m1, m2, d1, d2) =
    let n = days_in_month d.year d.month in
    let same = days_in_month-eq d.year d.month in
    let (low, high) = calendar_days_bounds d.year d.month in
    let made = date_of-ok d.year d.month n y1 y2 m1 m2 (omega arith) (omega arith) in
    (
      record { year = d.year; month = d.month; day = n },
      made,
      (y1, y2, m1, m2, omega arith, omega arith),
      refl,
      refl,
      (λ f (a, b, c, g, h, i) fy fm.
          let i' : f.day ≤ calendar_days d.year d.month = rw (fy, fm) at i in omega arith),
      rw made ((λ h. ground arith), λ h. ground arith),
    )
