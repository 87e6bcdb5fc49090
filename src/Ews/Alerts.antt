-- ===== src/Ews/Alerts.antt =====
-- ews/routing.py: the two-key rule, Disposition, Alert and InMemoryCaseManager. An instant is a
-- number of microseconds. `M` is the type of a PD delta, which is only carried.
use ailending_hub.Prelude.{
  ℕ, ◌+◌, ◌*◌, Bool, true, false, not, ◌&&◌, Option, none, some, List, String, ltb, ◌==◌, is_nil,
  is_empty, if◌then◌else◌, Result, ok, ◌>>◌, raise_if, Dict, insert, contains, values, filter,
  length,
}

pub data Tier : Type 0 where
  no_tier amber red : Tier

-- `int(tier)`
abbrev pub tier_value : Tier → ℕ
tier_value no_tier = 0
tier_value amber = 1
tier_value red = 2

pub record TwoKeyEvidence : Type 0 where
  pub change_point : Bool
  pub adverse_direction : Bool
  pub velocity_confirmed : Bool

abbrev one_if : Bool → ℕ
one_if true = 1
one_if false = 0

unfoldable pub keys_turned : TwoKeyEvidence → ℕ
keys_turned e = one_if e.change_point + one_if e.adverse_direction + one_if e.velocity_confirmed

unfoldable pub tier : TwoKeyEvidence → Tier
tier e =
    if not e.change_point
    then no_tier
    else if e.adverse_direction && e.velocity_confirmed
    then red
    else amber

pub data RoutingError : Type 0 where
  no_outcome_code tier_none no_reasons no_owner no_action not_an_sla :
      (alert_id : String) → RoutingError
  already_open never_opened : (alert_id : String) → RoutingError
  empty_cap empty_window : RoutingError
  -- Ungrounded: the value waits for a decision that has not been taken
  ungrounded : RoutingError

pub record Disposition : Type 0 where
  pub alert_id : String
  pub disposed_at : ℕ
  pub officer_id : String
  pub confirmed_relevant : Bool
  pub outcome_code : String

-- `Disposition.__post_init__`
unfoldable pub disposition_of : Disposition → Result RoutingError Disposition
disposition_of d = do raise_if (is_empty d.outcome_code) (no_outcome_code d.alert_id); ok d

pub record Alert (M : Type 0) : Type 0 where
  pub alert_id : String
  pub account_id : String
  pub tier_of : Tier
  pub raised_at : ℕ
  pub trigger_reasons : List String
  pub pd_delta : Option M
  pub recommended_action : String
  pub sla_hours : ℕ
  pub owner_id : String
  pub signal_ids : List String
  pub disposition : Option Disposition

abbrev pub is_no_tier : Tier → Bool
is_no_tier no_tier = true
is_no_tier _ = false

-- An hour, in microseconds.
abbrev pub hour : ℕ
hour = 3_600_000_000

module _ {M : Type 0} where
  -- `Alert.__post_init__`; a number of hours here is never negative.
  unfoldable pub alert_of : Alert M → Result RoutingError (Alert M)
  alert_of a = do
    raise_if (is_no_tier a.tier_of) (tier_none a.alert_id)
    raise_if (is_nil a.trigger_reasons) (no_reasons a.alert_id)
    raise_if (is_empty a.owner_id) (no_owner a.alert_id)
    raise_if (is_empty a.recommended_action) (no_action a.alert_id)
    raise_if (a.sla_hours == 0) (not_an_sla a.alert_id)
    ok a

  unfoldable pub breached_sla : Alert M → ℕ → Bool
  breached_sla a now = elim a.disposition [
    | none ↦ ltb (a.raised_at + a.sla_hours * hour) now
    | some d ↦ ltb (a.raised_at + a.sla_hours * hour) d.disposed_at
  ]

-- `InMemoryCaseManager`
pub record CaseManager (M : Type 0) : Type 0 where
  pub cases : Dict (Alert M)
  pub dispositions : Dict Disposition

module _ {M : Type 0} where
  -- The manager with the case, and the id that is returned.
  unfoldable pub open_case : Alert M → CaseManager M → Result RoutingError (CaseManager M × String)
  open_case a m = do
    raise_if (contains a.alert_id m.cases) (already_open a.alert_id)
    ok (record m { cases = insert a.alert_id a m.cases }, a.alert_id)

  unfoldable pub record_disposition :
      Disposition → CaseManager M → Result RoutingError (CaseManager M)
  record_disposition d m = do
    raise_if (not (contains d.alert_id m.cases)) (never_opened d.alert_id)
    ok (record m { dispositions = insert d.alert_id d m.dispositions })

  unfoldable pub open_cases : CaseManager M → List (Alert M)
  open_cases m = filter (λ a. not (contains a.alert_id m.dispositions)) (values m.cases)

  unfoldable pub undisposed_count : CaseManager M → ℕ
  unfolding open_cases
  undisposed_count m = length (open_cases m)
