-- ===== src/Serving/Bands.antt =====
-- serving/bands.py: BandConfig and canary_assignment. A float is of type `F`, whose `<=` is `le`. A
-- value is pending while the committee has not set it.
use ailending_hub.Prelude.{
  ℕ, ◌+◌, ◌%◌, Bool, true, false, not, ◌&&◌, List, [], ◌∷◌, String, leb, str_eq, any, if◌then◌else◌,
  Result, ok, err, ◌>>◌, raise_if,
}
use ailending_hub.DecisionLog.Record.{Outcome, approve, decline, refer}

-- `Pending | float`
pub data Limit (F : Type 0) : Type 0 where
  pending : Limit F
  given : F → Limit F

pub record Approval : Type 0 where
  pub approver : String
  pub role : String
  pub approved_at : ℕ

pub record BandConfig (F : Type 0) : Type 0 where
  pub model_name : String
  pub owner : String
  pub status : String
  pub approve_below : Limit F
  pub decline_above : Limit F
  pub canary_percentage : Limit F
  pub canary_band_low : Limit F
  pub canary_band_high : Limit F
  pub approvals : List Approval
  pub source_path : String

-- `ungrounded` is the exception Ungrounded, the others are BandConfigError.
pub data BandError : Type 0 where
  ungrounded contradicting_cutoffs : BandError
  not_dual_approved : (approvers : ℕ) → BandError
  not_probability not_percentage : BandError

abbrev pub is_given : {F : Type 0} → Limit F → Bool
is_given pending = false
is_given (given x) = true

-- The size of the set of approvers.
unfoldable pub approver_count : List Approval → ℕ
approver_count [] = 0
approver_count (a ∷ rest) =
    (if any (λ b. str_eq a.approver b.approver) rest then 0 else 1) + approver_count rest

abbrev pub required_approvers : ℕ
required_approvers = 2

module _ {F : Type 0} where
  unfoldable pub is_grounded : BandConfig F → Bool
  is_grounded c = is_given c.approve_below && is_given c.decline_above

  unfoldable pub distinct_approvers : BandConfig F → ℕ
  unfolding approver_count
  distinct_approvers c = approver_count c.approvals

  unfoldable pub dual_control_satisfied : BandConfig F → Bool
  unfolding distinct_approvers
  dual_control_satisfied c = leb required_approvers (distinct_approvers c)

  unfoldable pub is_effective : BandConfig F → Bool
  unfolding is_grounded dual_control_satisfied
  is_effective c = is_grounded c && dual_control_satisfied c

module _ {F : Type 0} (le : F → F → Bool) where
  -- `low >= high`, where both are numbers.
  abbrev contradicts : Limit F → Limit F → Bool
  contradicts (given low) (given high) = le high low
  contradicts _ _ = false

  -- `BandConfig.__post_init__`
  unfoldable pub band_config : BandConfig F → Result BandError (BandConfig F)
  band_config c = do
    raise_if (contradicts c.approve_below c.decline_above) contradicting_cutoffs
    ok c

  -- The comparisons of `outcome_for` with its two cutoffs.
  unfoldable pub place_between : Limit F → Limit F → F → Result BandError Outcome
  place_between (given low) (given high) pd =
      ok (if le pd low then approve else if le high pd then decline else refer)
  place_between _ _ pd = err ungrounded

  -- `outcome_for`, with the floats 0.0 and 1.0.
  unfoldable pub outcome_for : F → F → BandConfig F → F → Result BandError Outcome
  unfolding place_between is_grounded dual_control_satisfied
  outcome_for nought one c pd = do
    raise_if (not (is_grounded c)) ungrounded
    raise_if (not (dual_control_satisfied c)) (not_dual_approved (distinct_approvers c))
    raise_if (not (le nought pd && le pd one)) not_probability
    place_between c.approve_below c.decline_above pd

  unfoldable pub in_band : Limit F → Limit F → F → Bool
  in_band (given low) (given high) pd = le low pd && le pd high
  in_band _ _ pd = false

  unfoldable pub in_canary_band : BandConfig F → F → Bool
  unfolding in_band
  in_canary_band c pd = in_band c.canary_band_low c.canary_band_high pd

  -- `canary_assignment`: `hash32` is the number of the first eight digits of the SHA-256 of a text,
  -- and `in_share bucket p` is `bucket < p * 100`.
  unfoldable pub canary_assignment :
      (String → ℕ) → (ℕ → F → Bool) → F → F → String → BandConfig F → Result BandError Bool
  canary_assignment hash32 in_share nought hundred application_id c = elim c.canary_percentage [
    | pending ↦ ok false
    | given p ↦ do
      raise_if (not (le nought p && le p hundred)) not_percentage
      ok (in_share (hash32 application_id % 10_000) p)
  ]
