-- ===== src/Portfolio/Staging.antt =====
-- portfolio/staging.py: the staging of an account and of a population. A lifetime PD is a float of
-- type `F`, on which `<=`, `/` and the numbers 0.0 and 1.0 are parameters. The SICR threshold is none
-- while it is pending. The texts of a decision's provenance are left out.
use ailending_hub.Prelude.{
  ℕ, ◌+◌, Bool, true, false, not, ◌&&◌, Option, none, some, List, [], ◌∷◌, ◌++◌, String, leb,
  if◌then◌else◌, is_nil, reason_if, length, count_if, Result, ok, err, ◌>>◌, raise_if,
}
use ailending_hub.Definitions.Labels.{is_default}

pub data Stage : Type 0 where
  one two three : Stage

-- The identifiers of the rules.
pub data Rule : Type 0 where
  credit_impaired dpd_backstop ews_red_flag sicr_pd_ratio no_trigger : Rule

abbrev pub dpd_backstop_days : ℕ
dpd_backstop_days = 30

pub record StagingInput (F : Type 0) : Type 0 where
  pub account_id : String
  pub snapshot : String
  pub dpd : Option ℕ
  pub written_off : Option Bool
  pub lifetime_pd : Option F
  pub lifetime_pd_at_origination : Option F
  pub ews_flag : Bool

pub data StagingError : Type 0 where
  pd_out_of_range at_origination_out_of_range : (account_id : String) → StagingError
  -- the exception Ungrounded
  undetermined : (account_id snapshot : String) → StagingError

pub record StagingDecision : Type 0 where
  pub account_id : String
  pub snapshot : String
  pub stage : Stage
  pub triggers : List Rule

pub record Undeterminable : Type 0 where
  pub account_id : String
  pub snapshot : String
  pub unevaluable_rules : List Rule

pub data Classified : Type 0 where
  decided : StagingDecision → Classified
  undeterminable : Undeterminable → Classified

pub record StagingPolicy (F : Type 0) : Type 0 where
  pub sicr_threshold : Option F
  pub backstop_days : ℕ
  pub ews_enabled : Bool

abbrev is_unset_threshold : {F : Type 0} → Option F → Bool
is_unset_threshold none = true
is_unset_threshold (some t) = false

pub data Blocker : Type 0 where
  no_sicr_threshold ews_not_wired : Blocker

unfoldable pub blockers : {F : Type 0} → StagingPolicy F → List Blocker
blockers p =
    reason_if (is_unset_threshold p.sicr_threshold) no_sicr_threshold
    ++ reason_if (not p.ews_enabled) ews_not_wired

-- `item.dpd or 0`
abbrev pub or_zero : Option ℕ → ℕ
or_zero none = 0
or_zero (some n) = n

-- `item.dpd is not None and item.dpd >= backstop`
unfoldable pub reaches : Option ℕ → ℕ → Bool
reaches none backstop = false
reaches (some n) backstop = leb backstop n

-- What the SICR arm says: it fired, it did not, or it could not be evaluated.
pub data Arm : Type 0 where
  fired clear unevaluable : Arm

abbrev pub has_fired : Arm → Bool
has_fired fired = true
has_fired _ = false

abbrev pub has_no_value : Arm → Bool
has_no_value unevaluable = true
has_no_value _ = false

module _ {F : Type 0} (le : F → F → Bool) (nought one_float : F) where
  abbrev in_range : Option F → Bool
  in_range none = true
  in_range (some x) = le nought x && le x one_float

  -- `StagingInput.__post_init__`
  unfoldable pub staging_input : StagingInput F → Result StagingError (StagingInput F)
  staging_input i = do
    raise_if (not (in_range i.lifetime_pd)) (pd_out_of_range i.account_id)
    raise_if (not (in_range i.lifetime_pd_at_origination))
        (at_origination_out_of_range i.account_id)
    ok i

module _ {F : Type 0} (le : F → F → Bool) (divide : F → F → F) (nought : F) where
  -- `_pd_ratio`
  unfoldable pub pd_ratio : Option F → Option F → Option F
  pd_ratio (some now) (some origin) = if le origin nought then none else some (divide now origin)
  pd_ratio _ _ = none

  -- The SICR arm; `ratio > threshold` is that the ratio is not at most the threshold, for numbers.
  unfoldable pub sicr_arm : Option F → Option F → Arm
  sicr_arm none ratio = unevaluable
  sicr_arm (some t) none = unevaluable
  sicr_arm (some t) (some r) = if le r t then clear else fired

  unfoldable pub arm_of : StagingPolicy F → StagingInput F → Arm
  unfolding sicr_arm pd_ratio
  arm_of p i = sicr_arm p.sicr_threshold (pd_ratio i.lifetime_pd i.lifetime_pd_at_origination)

  unfoldable pub is_impaired : StagingInput F → Bool
  is_impaired i = is_default (record {
    max_dpd = or_zero i.dpd;
    written_off = i.written_off;
    fraud_confirmed = none;
    restructured_due_to_distress = none;
  })

  -- The rules of stage 2 that fire.
  unfoldable pub stage_two_triggers : StagingPolicy F → StagingInput F → List Rule
  unfolding reaches arm_of
  stage_two_triggers p i =
      reason_if (reaches i.dpd p.backstop_days) dpd_backstop
      ++ (reason_if (p.ews_enabled && i.ews_flag) ews_red_flag
          ++ reason_if (has_fired (arm_of p i)) sicr_pd_ratio)

  abbrev decision : StagingInput F → Stage → List Rule → Classified
  decision i s rules =
      decided
        (record { account_id = i.account_id; snapshot = i.snapshot; stage = s; triggers = rules })

  unfoldable pub classify : StagingPolicy F → StagingInput F → Classified
  unfolding is_impaired stage_two_triggers
  classify p i =
      if is_impaired i
      then decision i three (credit_impaired ∷ [])
      else if not (is_nil (stage_two_triggers p i))
      then decision i two (stage_two_triggers p i)
      else if has_no_value (arm_of p i)
      then undeterminable (record {
        account_id = i.account_id;
        snapshot = i.snapshot;
        unevaluable_rules = sicr_pd_ratio ∷ [];
      })
      else decision i one (no_trigger ∷ [])

  -- `StagingPolicy.stage`
  unfoldable pub stage_account :
      StagingPolicy F → StagingInput F → Result StagingError StagingDecision
  unfolding classify
  stage_account p i = elim (classify p i) [
    | decided d ↦ ok d
    | undeterminable u ↦ err (undetermined i.account_id i.snapshot)
  ]

pub record StagingRun : Type 0 where
  pub decisions : List StagingDecision
  pub undeterminable_items : List Undeterminable

unfoldable pub total_of : StagingRun → ℕ
total_of r = length r.decisions + length r.undeterminable_items

abbrev pub is_stage : Stage → Stage → Bool
is_stage one one = true
is_stage two two = true
is_stage three three = true
is_stage _ _ = false

-- `counts`: of each stage, and of the undeterminable.
unfoldable pub stage_count : Stage → StagingRun → ℕ
stage_count s r = count_if (λ d. is_stage s d.stage) r.decisions

unfoldable pub collect : Classified → StagingRun → StagingRun
collect (decided d) r = record r { decisions = r.decisions ++ d ∷ [] }
collect (undeterminable u) r = record r { undeterminable_items = r.undeterminable_items ++ u ∷ [] }

module _ {F : Type 0} (le : F → F → Bool) (divide : F → F → F) (nought : F) where
  -- The loop of `run_staging`, with the run as its variable.
  unfoldable pub stage_from : StagingPolicy F → List (StagingInput F) → StagingRun → StagingRun
  unfolding collect
  stage_from p [] r = r
  stage_from p (i ∷ is) r = stage_from p is (collect (classify le divide nought p i) r)

  unfoldable pub run_staging : StagingPolicy F → List (StagingInput F) → StagingRun
  unfolding stage_from
  run_staging p items = stage_from p items (record { decisions = []; undeterminable_items = [] })
