-- ===== src/Learning/Cadence.antt =====
-- learning/cadence.py: the activities of the cadence, overdue and runnable. A date is its
-- ordinal, from 1, and a duration is in microseconds.
use ailending_hub.Prelude.{
  ℕ, ◌+◌, ◌-◌, ◌/◌, Bool, false, not, Option, none, some, List, [], ◌∷◌, ◌++◌, String,
  if◌then◌else◌, ltb, is_empty, filter, member, Dict, lookup, Result, ok, err, ◌>>=◌, ◌>>◌,
  raise_if, ℤ, pos, negsuc,
}

pub data Frequency : Type 0 where
  nightly weekly monthly quarterly annual : Frequency

-- `Frequency.interval`, in days.
unfoldable pub interval_days : Frequency → ℕ
interval_days f = elim f [ nightly ↦ 1 | weekly ↦ 7 | monthly ↦ 30 | quarterly ↦ 91 | annual ↦ 365 ]

pub record Activity : Type 0 where
  pub name : String
  pub frequency : Frequency
  pub owning_phase : String
  pub conditional : String

unfoldable pub is_conditional : Activity → Bool
is_conditional a = not (is_empty a.conditional)

abbrev unconditional : String → Frequency → String → Activity
unconditional name f phase = record {
  name = name;
  frequency = f;
  owning_phase = phase;
  conditional = "";
}

-- `CADENCE`
abbrev pub cadence : List Activity
cadence =
    unconditional "graph community scores" nightly "P6"
    ∷ unconditional "agri revisit processing" nightly "P2"
    ∷ unconditional "feature freshness checks" nightly "P0"
    ∷ unconditional "PSI/CSI + calibration monitors" weekly "P1"
    ∷ unconditional "hallucination audit" weekly "P5"
    ∷ unconditional "alert-precision tracking" weekly "P4"
    ∷ (record {
      name = "fraud/EWS retrains";
      frequency = monthly;
      owning_phase = "P1";
      conditional = "as data warrants";
    })
    ∷ unconditional "suitability audit" monthly "P4"
    ∷ unconditional "fairness dashboards" monthly "P1"
    ∷ unconditional "scoring retrain calendar" quarterly "P1"
    ∷ unconditional "golden-set refresh" quarterly "P5"
    ∷ unconditional "reject-inference cycle" quarterly "P1"
    ∷ unconditional "exploration-cell review" quarterly "P6"
    ∷ unconditional "full model revalidation" annual "P0"
    ∷ unconditional "definitions-package review" annual "P0"
    ∷ unconditional "DR test of decisioning fallback" annual "P0"
    ∷ []

pub record OverdueItem : Type 0 where
  pub activity : Activity
  pub last_run : Option ℕ
  pub days_late : Option ℕ

pub data CadenceError : Type 0 where
  negative_grace : CadenceError
  ran_in_future : (name : String) (seen as_of : ℕ) → CadenceError
  out_of_range : CadenceError

-- A date plus a duration is a date: the part of the duration beyond whole days is dropped.
abbrev pub whole_days : ℕ → ℕ
whole_days microseconds = microseconds / 86400000000

-- The ordinal of `date.max`, the last day of the year 9999.
abbrev pub date_max : ℕ
date_max = 3652059

-- `due`, where it is a date
abbrev pub due_day : ℕ → Activity → ℕ → ℕ
due_day grace a seen = seen + interval_days a.frequency + whole_days grace

-- The item of an activity that last ran on `seen`, or never.
unfoldable pub late_item : ℕ → ℕ → Activity → Option ℕ → List OverdueItem
unfolding interval_days
late_item grace as_of a none = record { activity = a; last_run = none; days_late = none } ∷ []
late_item grace as_of a (some seen) =
    if ltb (due_day grace a seen) as_of
    then record {
      activity = a;
      last_run = some seen;
      days_late = some (as_of - due_day grace a seen);
    }
      ∷ []
    else []

unfoldable pub is_future : ℕ → Option ℕ → Bool
is_future as_of none = false
is_future as_of (some seen) = ltb as_of seen

-- `seen + interval + grace` raises OverflowError past `date.max`.
unfoldable pub is_beyond : ℕ → Activity → Option ℕ → Bool
unfolding interval_days
is_beyond grace a none = false
is_beyond grace a (some seen) = ltb date_max (due_day grace a seen)

abbrev pub seen_day : Option ℕ → ℕ
seen_day none = 0
seen_day (some seen) = seen

-- The loop over the activities.
unfoldable pub overdue_from :
    ℕ → ℕ → Dict ℕ → List Activity → Result CadenceError (List OverdueItem)
unfolding late_item is_future is_beyond
overdue_from grace as_of last_run [] = ok []
overdue_from grace as_of last_run (a ∷ activities) =
    let seen = lookup a.name last_run in
    raise_if (is_future as_of seen) (ran_in_future a.name (seen_day seen) as_of)
    >> raise_if (is_beyond grace a seen) out_of_range
    >> (overdue_from grace as_of last_run activities >>= λ items.
        ok (late_item grace as_of a seen ++ items))

unfoldable pub overdue : ℤ → ℕ → Dict ℕ → List Activity → Result CadenceError (List OverdueItem)
unfolding overdue_from
overdue (negsuc _) as_of last_run activities = err negative_grace
overdue (pos grace) as_of last_run activities = overdue_from grace as_of last_run activities

unfoldable pub runnable : List Activity → List String → List Activity
runnable activities shipped_phases = filter (λ a. member a.owning_phase shipped_phases) activities
