-- ===== src/Identity/Rates.antt =====
-- identity/spine.py: the rates of an audit; identity/audit.py: evaluate. Floats are a parameter, with
-- the quotient of two integers and `>=`.
use ailending_hub.Prelude.{
  ℕ, Bool, false, ◌==◌, Option, none, some, List, [], ◌∷◌, String, if◌then◌else◌,
}
use ailending_hub.Identity.Spine.{SpineAudit}

-- A join direction, its rate and whether it passes.
pub record Check (F : Type 0) : Type 0 where
  pub check_name : String
  pub measured : Option F
  pub is_met : Bool

-- `rate is not None and rate >= JOIN_RATE_GATE`
abbrev pub is_reached : {F : Type 0} → (F → F → Bool) → F → Option F → Bool
is_reached at_least gate none = false
is_reached at_least gate (some r) = at_least r gate

module _ {F : Type 0} (divide : ℕ → ℕ → F) where
  -- JOIN_RATE_GATE, which is 0.995: the literal and the quotient are both the float nearest to 995/1000.
  abbrev pub join_rate_gate : F
  join_rate_gate = divide 995 1000

  -- `_rate`
  unfoldable pub rate : ℕ → ℕ → Option F
  rate numerator denominator =
      if denominator == 0 then none else some (divide numerator denominator)

  unfoldable pub loan_to_application_rate : SpineAudit → Option F
  unfolding rate
  loan_to_application_rate audit = rate audit.loans_with_application audit.loans_in_cbs

  unfoldable pub collections_to_loan_rate : SpineAudit → Option F
  unfolding rate
  collections_to_loan_rate audit = rate audit.collections_cases_resolved audit.collections_cases

  unfoldable pub customer_consistency_rate : SpineAudit → Option F
  unfolding rate
  customer_consistency_rate audit =
      rate audit.loans_with_consistent_customer audit.loans_with_customer_evidence

  module _ (at_least : F → F → Bool) where
    abbrev check : String → Option F → Check F
    check name measured = record {
      check_name = name;
      measured = measured;
      is_met = is_reached at_least join_rate_gate measured;
    }

    unfoldable pub evaluate : SpineAudit → List (Check F)
    unfolding loan_to_application_rate collections_to_loan_rate customer_consistency_rate
    evaluate audit =
        check "loan_to_application" (loan_to_application_rate audit)
        ∷ check "collections_to_loan" (collections_to_loan_rate audit)
        ∷ check "customer_consistency" (customer_consistency_rate audit)
        ∷ []
