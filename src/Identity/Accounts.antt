-- ===== src/Identity/Accounts.antt =====
-- The audit counts each case and each record once.
use ailending_hub.Prelude.{
  suc, ◌+◌, ◌≤◌, ◌≡◌, inl, inr, refl, Bool, true, false, Option, none, some, List, [], ◌∷◌, ◌++◌,
  String, arith, if◌then◌else◌, length, count_if, Dict, lookup, insert, values, contains, str_eq,
  foldl, Bool-cases, Option-cases,
}
use ailending_hub.Identity.Keys.{Entity, Key, SpineKey, usable, rejected, normalise}
use ailending_hub.Identity.Spine.{
  Row, cell, cbs, los, collections, key, is_active, SpineRecord, Failure, missing_application,
  customer_disagreement, unusable_key, orphan_collections_case, loan_rejected, no_active_loan,
  count_rejected, fail_rejected, seen_in, set_application, add_case, count_customer,
}
use ailending_hub.Identity.Build.{
  Building, record_or_new, add_loan, change, resolve_case, open_loan, apply_to, cbs_row, los_row,
  collections_row, join_systems, new_audit,
}
use Prim.Native.Char.{Char}

-- Failures of collections cases, loans without application, and loans whose customers differ.
abbrev pub is_case_failure : Failure → Bool
is_case_failure f = str_eq f.source "collections"

abbrev pub is_missing : Failure → Bool
is_missing f = elim f.cause [ missing_application ↦ true | _ ↦ false ]

abbrev pub is_disagreement : Failure → Bool
is_disagreement f = elim f.cause [ customer_disagreement ↦ true | _ ↦ false ]

count_if-append :
    {A : Type 0} (p : A → Bool) (xs ys : List A)
    → count_if p (xs ++ ys) ≡ count_if p xs + count_if p ys
count_if-append p [] ys = omega arith
count_if-append p (x ∷ xs) ys = let rest = count_if-append p xs ys in omega arith

length-insert :
    {V : Type 0} (k : String) (v : V) (d : Dict V)
    → length (insert k v d) ≡ (if contains k d then length d else suc (length d))
unfolding insert lookup
length-insert k v [] = refl
length-insert k v ((j, w) ∷ d) = let rest = length-insert k v d in ground arith

pub length-values : {V : Type 0} (d : Dict V) → length (values d) ≡ length d
length-values [] = refl
length-values ((k, v) ∷ d) = let rest = length-values d in omega arith

-- While the rows are read: a case is resolved or has failed, no record has been audited, and the
-- spine has no more records than loans were counted.
abbrev pub Balanced : Building → Type 0
Balanced b =
    (b.audit.collections_cases
      ≡ b.audit.collections_cases_resolved + count_if is_case_failure b.audit.failures)
    × (b.audit.loans_with_application + count_if is_missing b.audit.failures ≡ 0)
    × (b.audit.loans_with_customer_evidence ≡ 0)
    × (b.audit.loans_with_consistent_customer + count_if is_disagreement b.audit.failures ≡ 0)
    × (length b.spine ≤ b.audit.loans_in_cbs)

length-change :
    (f : SpineRecord → SpineRecord) (k : SpineKey) (d : Dict SpineRecord)
    → length (change f k d) ≡ length d
length-change f k d = elim (Option-cases (lookup k.value d)) [
  | inl n ↦ rw (change, n) refl
  | inr (r, e) ↦ let same = length-insert k.value (f r) d in rw (change, e) (ground arith)
]

-- The counts of the failures with one more.
module _ (failures : List Failure) (f : Failure) where
  pub one_case_failure :
      count_if is_case_failure (failures ++ f ∷ [])
      ≡ count_if is_case_failure failures + (if is_case_failure f then 1 else 0)
  one_case_failure = let more = count_if-append is_case_failure failures (f ∷ []) in omega arith

  pub one_missing :
      count_if is_missing (failures ++ f ∷ [])
      ≡ count_if is_missing failures + (if is_missing f then 1 else 0)
  one_missing = let more = count_if-append is_missing failures (f ∷ []) in omega arith

  pub one_disagreement :
      count_if is_disagreement (failures ++ f ∷ [])
      ≡ count_if is_disagreement failures + (if is_disagreement f then 1 else 0)
  one_disagreement = let more = count_if-append is_disagreement failures (f ∷ []) in omega arith

add_loan-Balanced :
    (c : Option Key) (k : SpineKey) (b : Building) → Balanced b → Balanced (add_loan c k b)
unfolding add_loan count_customer count_rejected
add_loan-Balanced c k b (cases, missing, evidence, differ, loans) =
    let longer =
      length-insert k.value (seen_in cbs c (record_or_new k (lookup k.value b.spine))) b.spine in
    go c longer
  where
    go :
        (c : Option Key)
        → length (add_loan c k b).spine
          ≡ (if contains k.value b.spine then length b.spine else suc (length b.spine))
        → Balanced (add_loan c k b)
    go none longer = (cases, missing, evidence, differ, ground arith)
    go (some (usable u)) longer = (cases, missing, evidence, differ, ground arith)
    go (some (rejected r)) longer = (cases, missing, evidence, differ, ground arith)

open_loan-Balanced : (c o : Option Key) (b : Building) → Balanced b → Balanced (open_loan c o b)
unfolding open_loan fail_rejected count_rejected
open_loan-Balanced c none b h = h
open_loan-Balanced c (some (usable k)) b h = add_loan-Balanced c k b h
open_loan-Balanced c (some (rejected r)) b (cases, missing, evidence, differ, loans) =
    let f : Failure = record {
      cause = unusable_key;
      source = "cbs";
      failing_key = r.raw;
      detail = loan_rejected r.problem;
    } in
    let c' = one_case_failure b.audit.failures f in
    let m' = one_missing b.audit.failures f in
    let d' = one_disagreement b.audit.failures f in
    (ground arith, ground arith, evidence, ground arith, loans)

apply_to-Balanced :
    (f : SpineRecord → SpineRecord) (o : Option Key) (b : Building)
    → Balanced b
    → Balanced (apply_to f o b)
unfolding apply_to count_rejected
apply_to-Balanced f none b h = h
apply_to-Balanced f (some (rejected r)) b h = h
apply_to-Balanced f (some (usable k)) b (cases, missing, evidence, differ, loans) =
    let same = length-change f k b.spine in (cases, missing, evidence, differ, ground arith)

abbrev count_case : Building → Building
count_case b = record b {
  audit = record b.audit { collections_cases = suc b.audit.collections_cases };
}

-- A case with a loan key is resolved or fails. Every source has the column of loans.
resolve_case-Balanced :
    (f : SpineRecord → SpineRecord) (k : Key) (b : Building)
    → Balanced b
    → Balanced (resolve_case f (some k) (count_case b))
unfolding resolve_case fail_rejected count_rejected
resolve_case-Balanced f (rejected r) b (cases, missing, evidence, differ, loans) =
    let x : Failure = record {
      cause = unusable_key;
      source = "collections";
      failing_key = r.raw;
      detail = loan_rejected r.problem;
    } in
    let c' = one_case_failure b.audit.failures x in
    let m' = one_missing b.audit.failures x in
    let d' = one_disagreement b.audit.failures x in
    (ground arith, ground arith, evidence, ground arith, loans)
resolve_case-Balanced f (usable k) b (cases, missing, evidence, differ, loans) =
    elim (Option-cases (lookup k.value b.spine)) [
      | inl n ↦
          let x : Failure = record {
            cause = orphan_collections_case;
            source = "collections";
            failing_key = some k.value;
            detail = no_active_loan;
          } in
          let c' = one_case_failure b.audit.failures x in
          let m' = one_missing b.audit.failures x in
          let d' = one_disagreement b.audit.failures x in
          rw (resolve_case, n) (ground arith, ground arith, evidence, ground arith, loans)
      | inr (r, e) ↦
          let same = length-insert k.value (f r) b.spine in
          rw (resolve_case, e) (ground arith, missing, evidence, differ, ground arith)
    ]

module _ (upper_beyond lower_beyond : Char → String) where
  cbs_row-Balanced :
      (b : Building) (row : Row) → Balanced b → Balanced (cbs_row upper_beyond lower_beyond b row)
  unfolding cbs_row
  cbs_row-Balanced b row h =
      let opened =
        open_loan-Balanced (key upper_beyond row cbs Entity.customer)
          (key upper_beyond row cbs Entity.loan) b h in
      elim (Bool-cases (is_active lower_beyond row)) [
        | inl t ↦ rw (cbs_row, t) opened
        | inr f ↦ rw (cbs_row, f) h
      ]

  cbs_rows-Balanced :
      (b : Building) (rows : List Row)
      → Balanced b
      → Balanced (foldl (cbs_row upper_beyond lower_beyond) b rows)
  cbs_rows-Balanced b [] h = h
  cbs_rows-Balanced b (row ∷ rows) h =
      cbs_rows-Balanced (cbs_row upper_beyond lower_beyond b row) rows (cbs_row-Balanced b row h)

  los_rows-Balanced :
      (b : Building) (rows : List Row)
      → Balanced b
      → Balanced (foldl (los_row upper_beyond lower_beyond) b rows)
  unfolding los_row
  los_rows-Balanced b [] h = h
  los_rows-Balanced b (row ∷ rows) h =
      let next =
        apply_to-Balanced
          (λ r.
            seen_in los (key upper_beyond row los Entity.customer)
              (set_application (key upper_beyond row los Entity.application) r))
          (key upper_beyond row los Entity.loan) b h in
      los_rows-Balanced (los_row upper_beyond lower_beyond b row) rows next

  collections_rows-Balanced :
      (b : Building) (rows : List Row)
      → Balanced b
      → Balanced (foldl (collections_row upper_beyond lower_beyond) b rows)
  unfolding collections_row
  collections_rows-Balanced b [] h = h
  collections_rows-Balanced b (row ∷ rows) h =
      let next =
        resolve_case-Balanced
          (λ r.
            seen_in collections (key upper_beyond row collections Entity.customer)
              (add_case (key upper_beyond row collections Entity.case_entity) r))
          (normalise upper_beyond Entity.loan (cell "loan_id" row)) b h in
      collections_rows-Balanced (collections_row upper_beyond lower_beyond b row) rows next

  pub join_systems-Balanced :
      (track : String) (cbs_rows los_rows collections_rows : List Row)
      → Balanced (join_systems upper_beyond lower_beyond track cbs_rows los_rows collections_rows)
  unfolding join_systems
  join_systems-Balanced track cbs_rows los_rows collections_rows =
      let start : Building = record { spine = []; audit = new_audit track } in
      let opened : Building = foldl (cbs_row upper_beyond lower_beyond) start cbs_rows in
      let applied : Building = foldl (los_row upper_beyond lower_beyond) opened los_rows in
      let h =
        cbs_rows-Balanced start cbs_rows
          (omega arith, omega arith, refl, omega arith, omega arith) in
      collections_rows-Balanced applied collections_rows (los_rows-Balanced opened los_rows h)
