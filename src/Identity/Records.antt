-- ===== src/Identity/Records.antt =====
-- identity/spine.py: what the last loop of build_spine adds to the audit for the records of the spine.
use ailending_hub.Prelude.{
  sym, ap, ◌∙◌, Bool, true, false, not, ◌&&◌, all, str_eq, eq_iff, is_some, if◌then◌else◌, ℕ, ◌+◌,
  ◌≡◌, inl, inr, refl, some, List, [], ◌∷◌, String, arith, leb, length, count_if, values, foldl,
  Bool-cases, Option-cases,
}
use ailending_hub.Identity.Spine.{
  SpineRecord, SpineAudit, Failure, missing_application, customer_disagreement,
  no_originating_application, customers_differ, one_customer, audit_customer, audit_application,
  audit_record,
}
use ailending_hub.Identity.Accounts.{
  is_case_failure, is_missing, is_disagreement, one_case_failure, one_missing, one_disagreement,
}

-- The record has an originating application.
abbrev pub is_applied : SpineRecord → Bool
is_applied r = is_some r.application

-- Two systems or more name a customer for the loan.
abbrev pub is_evident : SpineRecord → Bool
is_evident r = leb 2 (length r.customer_by_source)

-- Each text is the next one.
abbrev pub all_same : List String → Bool
all_same [] = true
all_same (x ∷ []) = true
all_same (x ∷ y ∷ xs) = str_eq x y && all_same (y ∷ xs)

-- The customers that the systems name are the same.
abbrev pub is_agreed : SpineRecord → Bool
is_agreed r = all_same (values r.customer_by_source)

one_customer-all_same : (xs : List String) → one_customer xs ≡ all_same xs
unfolding one_customer
one_customer-all_same [] = refl
one_customer-all_same (x ∷ []) = refl
one_customer-all_same (x ∷ y ∷ xs) = elim (Bool-cases (str_eq x y)) [
  | inl t ↦
      let same : x ≡ y = (eq_iff x y).0 t in
      let moved : all (str_eq x) xs ≡ all (str_eq y) xs = ap (λ z. all (str_eq z) xs) same in
      rw t (moved ∙ one_customer-all_same (y ∷ xs))
  | inr f ↦ rw f refl
]

-- One audit after another: so many more records with an application, failures for want of one,
-- records with two customers, those of them that agree, and those that disagree.
abbrev pub After : SpineAudit → ℕ → ℕ → ℕ → ℕ → ℕ → SpineAudit → Type 0
After a applied missing evident agreed differing b =
    (b.collections_cases ≡ a.collections_cases)
    × (b.collections_cases_resolved ≡ a.collections_cases_resolved)
    × (b.loans_in_cbs ≡ a.loans_in_cbs)
    × (count_if is_case_failure b.failures ≡ count_if is_case_failure a.failures)
    × (b.loans_with_application ≡ a.loans_with_application + applied)
    × (count_if is_missing b.failures ≡ count_if is_missing a.failures + missing)
    × (b.loans_with_customer_evidence ≡ a.loans_with_customer_evidence + evident)
    × (b.loans_with_consistent_customer ≡ a.loans_with_consistent_customer + agreed)
    × (count_if is_disagreement b.failures ≡ count_if is_disagreement a.failures + differing)

abbrev one : Bool → ℕ
one b = if b then 1 else 0

audit_application-After :
    (r : SpineRecord) (a : SpineAudit)
    → After a (one (is_applied r)) (one (not (is_applied r))) 0 0 0 (audit_application r a)
unfolding audit_application
audit_application-After r a = elim (Option-cases r.application) [
  | inr (x, e) ↦
      rw (audit_application, e)
        (refl, refl, refl, refl, omega arith, omega arith, omega arith, omega arith, omega arith)
  | inl n ↦
      let f : Failure = record {
        cause = missing_application;
        source = "cbs";
        failing_key = some r.loan.value;
        detail = no_originating_application;
      } in
      let c' = one_case_failure a.failures f in
      let m' = one_missing a.failures f in
      let d' = one_disagreement a.failures f in
      rw (audit_application, n)
        (
          refl,
          refl,
          refl,
          ground arith,
          omega arith,
          ground arith,
          omega arith,
          omega arith,
          ground arith,
        )
]

audit_customer-After :
    (r : SpineRecord) (a : SpineAudit)
    → After a 0 0
        (one (is_evident r))
        (one (is_evident r && is_agreed r))
        (one (is_evident r && not (is_agreed r)))
        (audit_customer r a)
unfolding audit_customer
audit_customer-After r a =
    let agree = one_customer-all_same (values r.customer_by_source) in
    elim (Bool-cases (leb 2 (length r.customer_by_source))) [
      | inr few ↦
          rw (audit_customer, few)
            (
              refl,
              refl,
              refl,
              refl,
              omega arith,
              omega arith,
              omega arith,
              omega arith,
              omega arith,
            )
      | inl t ↦ elim (Bool-cases (one_customer (values r.customer_by_source))) [
        | inl single ↦
            let agreed : is_agreed r ≡ true = sym agree ∙ single in
            rw (audit_customer, t, single, agreed)
              (
                refl,
                refl,
                refl,
                refl,
                omega arith,
                omega arith,
                omega arith,
                omega arith,
                omega arith,
              )
        | inr many ↦
            let differ : is_agreed r ≡ false = sym agree ∙ many in
            let f : Failure = record {
              cause = customer_disagreement;
              source = "spine";
              failing_key = some r.loan.value;
              detail = customers_differ r.customer_by_source;
            } in
            let c' = one_case_failure a.failures f in
            let m' = one_missing a.failures f in
            let d' = one_disagreement a.failures f in
            rw (audit_customer, t, many, differ)
              (
                refl,
                refl,
                refl,
                ground arith,
                omega arith,
                ground arith,
                omega arith,
                omega arith,
                ground arith,
              )
      ]
    ]

audit_record-After :
    (a : SpineAudit) (r : SpineRecord)
    → After a
        (one (is_applied r))
        (one (not (is_applied r)))
        (one (is_evident r))
        (one (is_evident r && is_agreed r))
        (one (is_evident r && not (is_agreed r)))
        (audit_record a r)
unfolding audit_record
audit_record-After a r =
    let (c, s, l, f, a1, m1, v1, g1, d1) = audit_application-After r a in
    let (c', s', l', f', a2, m2, v2, g2, d2) = audit_customer-After r (audit_application r a) in
    (
      c' ∙ c,
      s' ∙ s,
      l' ∙ l,
      f' ∙ f,
      omega arith,
      omega arith,
      omega arith,
      omega arith,
      omega arith,
    )

pub audit_records-After :
    (a : SpineAudit) (rs : List SpineRecord)
    → After a
        (count_if is_applied rs)
        (count_if (λ r. not (is_applied r)) rs)
        (count_if is_evident rs)
        (count_if (λ r. is_evident r && is_agreed r) rs)
        (count_if (λ r. is_evident r && not (is_agreed r)) rs)
        (foldl audit_record a rs)
audit_records-After a [] =
    (refl, refl, refl, refl, omega arith, omega arith, omega arith, omega arith, omega arith)
audit_records-After a (r ∷ rs) =
    let (c, s, l, f, a1, m1, v1, g1, d1) = audit_record-After a r in
    let (c', s', l', f', a2, m2, v2, g2, d2) = audit_records-After (audit_record a r) rs in
    (
      c' ∙ c,
      s' ∙ s,
      l' ∙ l,
      f' ∙ f,
      omega arith,
      omega arith,
      omega arith,
      omega arith,
      omega arith,
    )
