-- ===== src/Privacy/Retention.antt =====
-- privacy/retention.py: RetentionRule, validate and unresolved. `load`, which reads the file, is not
-- modelled.
use ailending_hub.Prelude.{
  Bool, true, false, not, ◌&&◌, Option, none, some, List, [], ◌∷◌, ◌++◌, String, filter, is_some,
  member, reason_if, ℤ, pos, leb_ℤ,
}

-- `MINIMUM_DECISION_RETENTION_YEARS`
abbrev pub minimum_decision_retention_years : ℤ
minimum_decision_retention_years = pos 8

pub data Basis : Type 0 where
  regulatory audit consent operational : Basis

-- A period is a number of years, or `none` for a `Pending` placeholder.
pub record RetentionRule : Type 0 where
  pub table : String
  pub period_years : Option ℤ
  pub basis : Basis
  pub carries_decisions : Bool
  pub erasable_on_request : Bool
  pub note : String

abbrev pub resolved : RetentionRule → Bool
resolved rule = is_some rule.period_years

-- The texts of the errors.
pub data RetentionError : Type 0 where
  duplicate_rule not_positive erasable_duty : (table : String) → RetentionError
  below_floor : (table : String) (period : ℤ) → RetentionError

abbrev pub is_regulatory : Basis → Bool
is_regulatory b = elim b [ regulatory ↦ true | _ ↦ false ]

-- The checks of a rule whose period is known.
unfoldable pub period_errors : RetentionRule → ℤ → List RetentionError
period_errors rule period =
    reason_if (leb_ℤ period (pos 0)) (not_positive rule.table)
    ++ (reason_if (rule.carries_decisions && not (leb_ℤ minimum_decision_retention_years period))
          (below_floor rule.table period)
        ++ reason_if (is_regulatory rule.basis && rule.erasable_on_request)
            (erasable_duty rule.table))

-- A pending period is not checked.
unfoldable pub known_errors : RetentionRule → Option ℤ → List RetentionError
unfolding period_errors
known_errors rule none = []
known_errors rule (some period) = period_errors rule period

-- The body of the loop, with the tables seen before.
unfoldable pub rule_errors : List String → RetentionRule → List RetentionError
unfolding known_errors
rule_errors seen rule =
    reason_if (member rule.table seen) (duplicate_rule rule.table)
    ++ known_errors rule rule.period_years

unfoldable pub validate_from : List String → List RetentionRule → List RetentionError
unfolding rule_errors
validate_from seen [] = []
validate_from seen (rule ∷ rules) = rule_errors seen rule ++ validate_from (rule.table ∷ seen) rules

unfoldable pub validate : List RetentionRule → List RetentionError
unfolding validate_from
validate rules = validate_from [] rules

unfoldable pub unresolved : List RetentionRule → List RetentionRule
unresolved rules = filter (λ r. not (resolved r)) rules
