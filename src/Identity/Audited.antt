-- ===== src/Identity/Audited.antt =====
-- identity/spine.py: what the numbers of the finished audit say.
use ailending_hub.Prelude.{
  ◌∙◌, not, ◌&&◌, ◌+◌, ◌≤◌, ◌≡◌, List, String, arith, length, count_if, values,
}
use ailending_hub.Identity.Spine.{Row}
use ailending_hub.Identity.Build.{Building, join_systems, build_spine}
use ailending_hub.Identity.Accounts.{
  is_case_failure, is_missing, is_disagreement, join_systems-Balanced,
}
use ailending_hub.Identity.Cases.{finds, join_systems-cases}
use Prim.Native.Char.{Char}
use ailending_hub.Identity.Records.{is_applied, is_evident, is_agreed, audit_records-After}

-- The audit's numbers are those of the rows and of the finished spine. Every row of the collections
-- system is a case, those whose loan key is that of an active row of the core system are resolved, and
-- each other one is one failure of the collections system. Over the records of the spine, those with
-- an application are counted, and those without are one failure each; those for which two systems or
-- more name a customer are counted as evidence, and are counted as consistent where all of the
-- customers are the same and are one disagreement each where they are not. The spine has at most as
-- many records as active loans were counted.
pub build_spine_counts :
    (upper_beyond lower_beyond : Char → String) (track : String)
    (cbs_rows los_rows collections_rows : List Row)
    → let built = build_spine upper_beyond lower_beyond track cbs_rows los_rows collections_rows in
      let records = values built.spine in
      let failures = built.audit.failures in
      (built.audit.collections_cases ≡ length collections_rows)
      × (built.audit.collections_cases_resolved
          ≡ count_if (finds upper_beyond lower_beyond cbs_rows) collections_rows)
      × (built.audit.collections_cases
          ≡ built.audit.collections_cases_resolved + count_if is_case_failure failures)
      × (built.audit.loans_with_application ≡ count_if is_applied records)
      × (count_if is_missing failures ≡ count_if (λ r. not (is_applied r)) records)
      × (built.audit.loans_with_customer_evidence ≡ count_if is_evident records)
      × (built.audit.loans_with_consistent_customer
          ≡ count_if (λ r. is_evident r && is_agreed r) records)
      × (count_if is_disagreement failures
          ≡ count_if (λ r. is_evident r && not (is_agreed r)) records)
      × (length built.spine ≤ built.audit.loans_in_cbs)
unfolding build_spine
build_spine_counts upper_beyond lower_beyond track cbs_rows los_rows collections_rows =
    let joined : Building =
      join_systems upper_beyond lower_beyond track cbs_rows los_rows collections_rows in
    let (cases, missing, evidence, differ, loans) =
      join_systems-Balanced upper_beyond lower_beyond track cbs_rows los_rows collections_rows in
    let (all_cases, found) =
      join_systems-cases upper_beyond lower_beyond track cbs_rows los_rows collections_rows in
    let (c, s, l, f, a1, m1, v1, g1, d1) = audit_records-After joined.audit (values joined.spine) in
    (
      c ∙ all_cases,
      s ∙ found,
      omega arith,
      omega arith,
      omega arith,
      omega arith,
      omega arith,
      omega arith,
      omega arith,
    )
