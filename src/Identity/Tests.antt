-- ===== src/Identity/Tests.antt =====
-- A loan, its application and two collections cases, one of them for a loan that the core system does
-- not have, and the theorems at them. A character beyond ASCII is dropped here.
use ailending_hub.Prelude.{
  arith, not, values, Bool, ℕ, all, leb, leb→le, ◌*◌, ◌<◌, ◌+◌, ◌≤◌, ◌≡◌, refl, true, ◌&&◌, any,
  some, List, [], ◌∷◌, String, length, count_if, get_or, lookup, insert, contains,
}
use ailending_hub.Prelude.Texts.{is_space}
use ailending_hub.Identity.Keys.{Entity, SpineKey, normalise}
use ailending_hub.Identity.Spine.{SpineAudit, Row}
use ailending_hub.Identity.Build.{build_spine}
use ailending_hub.Identity.Joined.{has_application}
use ailending_hub.Identity.Loops.{opens, applies, build_spine_iff}
use ailending_hub.Identity.Accounts.{is_case_failure, is_missing, is_disagreement}
use ailending_hub.Identity.Cases.{finds}
use ailending_hub.Identity.Records.{is_applied, is_evident, is_agreed}
use ailending_hub.Identity.Audited.{build_spine_counts}
use ailending_hub.Identity.Rates.{evaluate}
use ailending_hub.Identity.Gate.{IsRounded, evaluate_bounds}
use ailending_hub.Identity.Survivorship.{Conflict, resolve_all}
use Prim.Native.Char.{Char}

abbrev dropped : Char → String
dropped c = ""

abbrev loan_key : SpineKey
loan_key = record { entity = Entity.loan; value = "LN-001" }

abbrev loans : List Row
loans =
    (("loan_id", some "ln-001") ∷ ("customer_id", some "c-77") ∷ ("is_active", some " Yes") ∷ [])
    ∷ (("loan_id", some "ln-002") ∷ ("is_active", some "no") ∷ [])
    ∷ []

abbrev applications : List Row
applications =
    (("loan_id", some "LN-001")
      ∷ ("application_id", some "ap-9")
      ∷ ("customer_id", some "c-78")
      ∷ [])
    ∷ []

abbrev cases : List Row
cases =
    (("loan_id", some "LN-001") ∷ ("case_id", some "col-1") ∷ [])
    ∷ (("loan_id", some "LN-404") ∷ ("case_id", some "col-2") ∷ [])
    ∷ []

-- A loan of two active rows counts twice, has one record and no failure.
twice_counted :
    let built = build_spine dropped dropped "A" (get_or loans 0 [] ∷ loans) applications [] in
    (built.audit.loans_in_cbs ≡ 2)
    × (built.audit.loans_with_application ≡ 1)
    × (count_if is_missing built.audit.failures ≡ 0)
unfolding build_spine normalise lookup is_space insert
twice_counted = (refl, refl, refl)

build_spine_iff_example :
    let spine = (build_spine dropped dropped "A" loans applications cases).spine in
    (contains "LN-001" spine ≡ any (opens dropped dropped "LN-001") loans)
    × (has_application "LN-001" spine ≡ (
        any (opens dropped dropped "LN-001") loans && any (applies dropped "LN-001") applications))
build_spine_iff_example = build_spine_iff dropped dropped "A" loans applications cases "LN-001"

build_spine_counts_example :
    let built = build_spine dropped dropped "A" loans applications cases in
    let records = values built.spine in
    let failures = built.audit.failures in
    (built.audit.collections_cases ≡ length cases)
    × (built.audit.collections_cases_resolved ≡ count_if (finds dropped dropped loans) cases)
    × (built.audit.collections_cases
        ≡ built.audit.collections_cases_resolved + count_if is_case_failure failures)
    × (built.audit.loans_with_application ≡ count_if is_applied records)
    × (count_if is_missing failures ≡ count_if (λ r. not (is_applied r)) records)
    × (built.audit.loans_with_customer_evidence ≡ count_if is_evident records)
    × (built.audit.loans_with_consistent_customer
        ≡ count_if (λ r. is_evident r && is_agreed r) records)
    × (count_if is_disagreement failures
        ≡ count_if (λ r. is_evident r && not (is_agreed r)) records)
    × (length built.spine ≤ built.audit.loans_in_cbs)
build_spine_counts_example = build_spine_counts dropped dropped "A" loans applications cases

abbrev address : Conflict String
address = record {
  entity = Entity.customer;
  conflict_key = "C-77";
  attribute = "address";
  values = ("collections", "new street") ∷ ("cbs", "old street") ∷ [];
}

abbrev purpose : Conflict String
purpose = record {
  entity = Entity.application;
  conflict_key = "AP-9";
  attribute = "purpose";
  values = ("cbs", "home") ∷ [];
}

unresolved_purpose : length (resolve_all (address ∷ purpose ∷ [])).1 ≡ 1
unfolding resolve_all lookup
unresolved_purpose = refl

-- Quotients as pairs, which are compared exactly.
abbrev pair : ℕ → ℕ → ℕ × ℕ
pair a b = (a, b)

abbrev at_least : ℕ × ℕ → ℕ × ℕ → Bool
at_least (a, b) (c, d) = leb (c * b) (a * d)

pair-IsRounded : IsRounded pair at_least
pair-IsRounded a b c d positive small positive' small' below h = leb→le (c * b) (a * d) h

abbrev agreeing : List Row
agreeing =
    (("loan_id", some "LN-001")
      ∷ ("application_id", some "ap-9")
      ∷ ("customer_id", some "C-77")
      ∷ [])
    ∷ []

abbrev one_case : List Row
one_case = (("loan_id", some "LN-001") ∷ ("case_id", some "col-1") ∷ []) ∷ []

abbrev met_audit : SpineAudit
met_audit = (build_spine dropped dropped "A" loans agreeing one_case).audit

gate_is_met : all (λ c. c.is_met) (evaluate pair at_least met_audit) ≡ true
unfolding evaluate build_spine normalise lookup is_space insert
gate_is_met = refl

one_of_each : (met_audit.loans_in_cbs ≡ 1) × (met_audit.collections_cases ≡ 1)
unfolding build_spine normalise lookup is_space insert
one_of_each = (refl, refl)

evaluate_bounds_example :
    (0 < met_audit.loans_in_cbs)
    × (1000 * count_if is_missing met_audit.failures ≤ 5 * met_audit.loans_in_cbs)
    × (0 < met_audit.collections_cases)
    × (1000 * count_if is_case_failure met_audit.failures ≤ 5 * met_audit.collections_cases)
    × (0 < met_audit.loans_with_customer_evidence)
    × (1000 * count_if is_disagreement met_audit.failures
        ≤ 5 * met_audit.loans_with_customer_evidence)
evaluate_bounds_example =
    evaluate_bounds pair at_least pair-IsRounded dropped dropped "A" loans agreeing one_case
      (omega (arith, one_of_each.0)) (omega (arith, one_of_each.1)) gate_is_met
