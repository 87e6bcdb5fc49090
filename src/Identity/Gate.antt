-- ===== src/Identity/Gate.antt =====
-- identity/audit.py: what it means that a spine's audit meets the gate.
use ailending_hub.Prelude.{
  ◌+◌, not, ◌&&◌, [], ◌∷◌, length, values, ℕ, ◌*◌, ◌≤◌, ◌<◌, ◌≡◌, inl, inr, Bool, true, ◌==◌, List,
  String, arith, all, count_if, Bool-cases,
}
use ailending_hub.Identity.Spine.{Row, SpineRecord, SpineAudit}
use ailending_hub.Identity.Build.{build_spine}
use ailending_hub.Identity.Rates.{
  join_rate_gate, rate, loan_to_application_rate, collections_to_loan_rate,
  customer_consistency_rate, evaluate, is_reached,
}
use ailending_hub.Identity.Accounts.{is_case_failure, is_missing, is_disagreement, length-values}
use ailending_hub.Identity.Records.{is_applied, is_evident, is_agreed}
use ailending_hub.Identity.Audited.{build_spine_counts}
use Prim.Native.Char.{Char}

-- Quotients are rounded correctly. Two of them whose denominators are below 2^40 and at most 1000, of
-- which the second is at most one, are equal or further apart than two neighbouring floats, so that
-- their order is that of the rounded ones.
abbrev pub IsRounded : {F : Type 0} → (ℕ → ℕ → F) → (F → F → Bool) → Type 0
IsRounded divide at_least =
    (a b c d : ℕ)
    → 0 < b
    → b < 1099511627776
    → 0 < d
    → d ≤ 1000
    → c ≤ d
    → at_least (divide a b) (divide c d) ≡ true
    → c * b ≤ a * d

rate_met :
    {F : Type 0} (divide : ℕ → ℕ → F) (at_least : F → F → Bool)
    → IsRounded divide at_least
    → (a b : ℕ) → b < 1099511627776
    → is_reached at_least (join_rate_gate divide) (rate divide a b) ≡ true
    → (0 < b) × (995 * b ≤ a * 1000)
unfolding rate
rate_met divide at_least rounded a b small h = elim (Bool-cases (b == 0)) [
  | inl t ↦ absurd (ground arith)
  | inr f ↦
      let met : at_least (divide a b) (divide 995 1000) ≡ true = rw f at h in
      let positive : 0 < b = ground arith in
      (positive, rounded a b 995 1000 positive small (omega arith) (omega arith) (omega arith) met)
]

-- A record has an application or has none, and agrees or not.
count_if-split :
    (p : SpineRecord → Bool) (rs : List SpineRecord)
    → count_if p rs + count_if (λ r. not (p r)) rs ≡ length rs
count_if-split p [] = omega arith
count_if-split p (r ∷ rs) = ground (arith, count_if-split p rs)

count_if-split_both :
    (p q : SpineRecord → Bool) (rs : List SpineRecord)
    → count_if (λ r. p r && q r) rs + count_if (λ r. p r && not (q r)) rs ≡ count_if p rs
count_if-split_both p q [] = omega arith
count_if-split_both p q (r ∷ rs) = ground (arith, count_if-split_both p q rs)

-- Quotients are rounded correctly, as those of floats are. If all three checks of the audit of a spine
-- of fewer than 2^40 loans and cases are met, then there were loans, cases and records with two
-- customers, and at most five in a thousand of the cases failed, of the loans had no application, and
-- of those records disagreed.
pub evaluate_bounds :
    {F : Type 0} (divide : ℕ → ℕ → F) (at_least : F → F → Bool)
    (rounded : IsRounded divide at_least) (upper_beyond lower_beyond : Char → String)
    (track : String) (cbs_rows los_rows collections_rows : List Row)
    → let audit =
        (build_spine upper_beyond lower_beyond track cbs_rows los_rows collections_rows).audit in
      audit.loans_in_cbs < 1099511627776
      → audit.collections_cases < 1099511627776
      → all (λ c. c.is_met) (evaluate divide at_least audit) ≡ true
      → (0 < audit.loans_in_cbs)
        × (1000 * count_if is_missing audit.failures ≤ 5 * audit.loans_in_cbs)
        × (0 < audit.collections_cases)
        × (1000 * count_if is_case_failure audit.failures ≤ 5 * audit.collections_cases)
        × (0 < audit.loans_with_customer_evidence)
        × (1000 * count_if is_disagreement audit.failures ≤ 5 * audit.loans_with_customer_evidence)
unfolding evaluate loan_to_application_rate collections_to_loan_rate customer_consistency_rate
evaluate_bounds divide at_least rounded upper_beyond lower_beyond track cbs_rows los_rows
      collections_rows few_loans few_cases h =
    let built = build_spine upper_beyond lower_beyond track cbs_rows los_rows collections_rows in
    let audit : SpineAudit = built.audit in
    let records : List SpineRecord = values built.spine in
    let (all_cases, found, cases, applied, missing, evident, agreed, differing, loans) =
      build_spine_counts upper_beyond lower_beyond track cbs_rows los_rows collections_rows in
    let all_records = length-values built.spine in
    let by_application = count_if-split is_applied records in
    let by_evidence = count_if-split is_evident records in
    let by_customer = count_if-split_both is_evident is_agreed records in
    let (some_loans, met_loans) =
      rate_met divide at_least rounded audit.loans_with_application audit.loans_in_cbs few_loans
        (ground arith) in
    let (some_cases, met_cases) =
      rate_met divide at_least rounded audit.collections_cases_resolved audit.collections_cases
        few_cases (ground arith) in
    let (some_evidence, met_customers) =
      rate_met divide at_least rounded audit.loans_with_consistent_customer
        audit.loans_with_customer_evidence (omega arith) (ground arith) in
    (some_loans, omega arith, some_cases, omega arith, some_evidence, omega arith)
