-- ===== src/Definitions/Labels.antt =====
-- definitions/appendix_a.py: OutcomeObservation and the labels. A count of days past due is never
-- negative here, so the constructor's check always passes.
use ailending_hub.Prelude.{
  ℕ, ◌≤◌, ◌<◌, ◌≡◌, ◌⊎◌, ◌↔◌, Bool, true, false, ◌&&◌, ◌||◌, Option, none, some, arith, leb,
  if◌then◌else◌,
}

pub data Label : Type 0 where
  good bad indeterminate : Label

-- A flag is none where it was not observed.
pub record OutcomeObservation : Type 0 where
  pub max_dpd : ℕ
  pub written_off : Option Bool
  pub fraud_confirmed : Option Bool
  pub restructured_due_to_distress : Option Bool

abbrev pub default_dpd_threshold_days : ℕ
default_dpd_threshold_days = 90

abbrev pub indeterminate_dpd_lower_days : ℕ
indeterminate_dpd_lower_days = 30

abbrev pub indeterminate_dpd_upper_days : ℕ
indeterminate_dpd_upper_days = 89

-- `flag is True`
unfoldable pub is_true : Option Bool → Bool
is_true none = false
is_true (some b) = b

unfoldable pub is_default : OutcomeObservation → Bool
unfolding is_true
is_default o =
    if leb default_dpd_threshold_days o.max_dpd
    then true
    else is_true o.written_off
      || is_true o.fraud_confirmed
      || is_true o.restructured_due_to_distress

unfoldable pub is_indeterminate : OutcomeObservation → Bool
unfolding is_default
is_indeterminate o =
    if is_default o
    then false
    else leb indeterminate_dpd_lower_days o.max_dpd && leb o.max_dpd indeterminate_dpd_upper_days

unfoldable pub label : OutcomeObservation → Label
unfolding is_indeterminate
label o = if is_default o then bad else if is_indeterminate o then indeterminate else good

abbrev not_indeterminate : Label → Bool
not_indeterminate indeterminate = false
not_indeterminate _ = true

unfoldable pub is_trainable : OutcomeObservation → Bool
unfolding label
is_trainable o = not_indeterminate (label o)

-- One of the flags was observed to be set.
abbrev pub IsFlagged : OutcomeObservation → Type 0
IsFlagged o =
    (o.written_off ≡ some true)
    ⊎ (o.fraud_confirmed ≡ some true)
    ⊎ (o.restructured_due_to_distress ≡ some true)

any_flag_iff :
    (o : OutcomeObservation)
    → ((is_true o.written_off
          || is_true o.fraud_confirmed
          || is_true o.restructured_due_to_distress)
        ≡ true)
      ↔ IsFlagged o
unfolding is_true
any_flag_iff o = ((λ h. ground arith), λ h. ground arith)

-- The three labels leave no gap between their thresholds: a loan is bad exactly from 90 days past
-- due on or with a flag observed to be set, and where no flag is, it is indeterminate exactly from
-- 30 to 89 days and good exactly below 30; it may enter a training target exactly if it is not in
-- the middle band.
pub label_iff :
    (o : OutcomeObservation)
    → ((label o ≡ bad) ↔ ((90 ≤ o.max_dpd) ⊎ IsFlagged o))
      × ((label o ≡ indeterminate) ↔ ((30 ≤ o.max_dpd) × (o.max_dpd < 90) × (¬ IsFlagged o)))
      × ((label o ≡ good) ↔ ((o.max_dpd < 30) × (¬ IsFlagged o)))
      × ((is_trainable o ≡ false) ↔ ((30 ≤ o.max_dpd) × (o.max_dpd < 90) × (¬ IsFlagged o)))
unfolding label is_indeterminate is_default is_trainable
label_iff o =
    let (down, up) = any_flag_iff o in
    (
      ((λ h. ground arith), λ h. ground arith),
      (
        (λ h. (ground arith, ground arith, λ f. let t = up f in ground arith)),
        λ (p, q, r). ground arith,
      ),
      ((λ h. (ground arith, λ f. let t = up f in ground arith)), λ (p, r). ground arith),
      (
        (λ h. (ground arith, ground arith, λ f. let t = up f in ground arith)),
        λ (p, q, r). ground arith,
      ),
    )
