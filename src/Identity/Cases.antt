-- ===== src/Identity/Cases.antt =====
-- identity/spine.py: which cases of the collections system build_spine resolves, as a test over the
-- rows.
use ailending_hub.Prelude.{
  ℕ, suc, ◌+◌, ◌≡◌, inl, inr, refl, ◌∙◌, sym, Bool, true, false, Option, none, some, List, [], ◌∷◌,
  String, arith, if◌then◌else◌, any, length, count_if, lookup, contains, foldl, Bool-cases,
  Option-cases,
}
use ailending_hub.Identity.Keys.{Entity, Key, usable, rejected}
use ailending_hub.Identity.Spine.{
  Row, cbs, los, collections, key, is_active, SpineRecord, SpineAudit, seen_in, set_application,
  add_case, count_rejected, fail_rejected, count_customer,
}
use ailending_hub.Identity.Build.{
  Building, add_loan, apply_to, resolve_case, open_loan, cbs_row, los_row, collections_row,
  join_systems, new_audit,
}
use ailending_hub.Identity.Loops.{opens, after_cbs, after_los, after_collections}
use Prim.Native.Char.{Char}

-- The key is usable and its value passes the test.
abbrev found_by : (String → Bool) → Option Key → Bool
found_by t none = false
found_by t (some (rejected _)) = false
found_by t (some (usable k)) = t k.value

-- The case names a loan that an active row of the core system has.
abbrev pub finds : (Char → String) → (Char → String) → List Row → Row → Bool
finds upper_beyond lower_beyond cbs_rows row =
    found_by (λ v. any (opens upper_beyond lower_beyond v) cbs_rows)
      (key upper_beyond row collections Entity.loan)

-- So many more cases, and so many more of them resolved.
abbrev pub More : SpineAudit → ℕ → ℕ → SpineAudit → Type 0
More a cases resolved b =
    (b.collections_cases ≡ a.collections_cases + cases)
    × (b.collections_cases_resolved ≡ a.collections_cases_resolved + resolved)

open_loan-More : (c o : Option Key) (b : Building) → More b.audit 0 0 (open_loan c o b).audit
unfolding open_loan add_loan count_customer count_rejected fail_rejected
open_loan-More c none b = (omega arith, omega arith)
open_loan-More c (some (rejected r)) b = (omega arith, omega arith)
open_loan-More none (some (usable k)) b = (omega arith, omega arith)
open_loan-More (some (rejected r)) (some (usable k)) b = (omega arith, omega arith)
open_loan-More (some (usable u)) (some (usable k)) b = (omega arith, omega arith)

apply_to-More :
    (f : SpineRecord → SpineRecord) (o : Option Key) (b : Building)
    → More b.audit 0 0 (apply_to f o b).audit
unfolding apply_to count_rejected
apply_to-More f none b = (omega arith, omega arith)
apply_to-More f (some (rejected r)) b = (omega arith, omega arith)
apply_to-More f (some (usable k)) b = (omega arith, omega arith)

resolve_case-More :
    (t : String → Bool) (f : SpineRecord → SpineRecord) (o : Option Key) (b : Building)
    → ((v : String) → contains v b.spine ≡ t v)
    → More b.audit 0 (if found_by t o then 1 else 0) (resolve_case f o b).audit
unfolding resolve_case fail_rejected count_rejected
resolve_case-More t f none b same = (omega arith, omega arith)
resolve_case-More t f (some (rejected r)) b same = (omega arith, omega arith)
resolve_case-More t f (some (usable k)) b same =
    let there = same k.value in
    elim (Option-cases (lookup k.value b.spine)) [
      | inl n ↦
          let no : t k.value ≡ false = sym there ∙ rw n refl in
          rw (resolve_case, n, no) (omega arith, omega arith)
      | inr (r, e) ↦
          let yes : t k.value ≡ true = sym there ∙ rw e refl in
          rw (resolve_case, e, yes) (omega arith, omega arith)
    ]

module _ (upper_beyond lower_beyond : Char → String) where
  cbs_row-More :
      (b : Building) (row : Row) → More b.audit 0 0 (cbs_row upper_beyond lower_beyond b row).audit
  unfolding cbs_row
  cbs_row-More b row = elim (Bool-cases (is_active lower_beyond row)) [
    | inl t ↦
        rw (cbs_row, t)
          (open_loan-More (key upper_beyond row cbs Entity.customer)
            (key upper_beyond row cbs Entity.loan) b)
    | inr f ↦ rw (cbs_row, f) (omega arith, omega arith)
  ]

  cbs_rows-More :
      (b : Building) (rows : List Row)
      → More b.audit 0 0 (foldl (cbs_row upper_beyond lower_beyond) b rows).audit
  cbs_rows-More b [] = (omega arith, omega arith)
  cbs_rows-More b (row ∷ rows) =
      let later = cbs_rows-More (cbs_row upper_beyond lower_beyond b row) rows in
      let here = cbs_row-More b row in (omega arith, omega arith)

  los_rows-More :
      (b : Building) (rows : List Row)
      → More b.audit 0 0 (foldl (los_row upper_beyond lower_beyond) b rows).audit
  unfolding los_row
  los_rows-More b [] = (omega arith, omega arith)
  los_rows-More b (row ∷ rows) =
      let later = los_rows-More (los_row upper_beyond lower_beyond b row) rows in
      let here =
        apply_to-More
          (λ r.
            seen_in los (key upper_beyond row los Entity.customer)
              (set_application (key upper_beyond row los Entity.application) r))
          (key upper_beyond row los Entity.loan) b in
      (omega arith, omega arith)

  collections_rows-More :
      (t : String → Bool) (b : Building) (rows : List Row)
      → ((v : String) → contains v b.spine ≡ t v)
      → More b.audit
          (length rows)
          (count_if (λ row. found_by t (key upper_beyond row collections Entity.loan)) rows)
          (foldl (collections_row upper_beyond lower_beyond) b rows).audit
  unfolding collections_row
  collections_rows-More t b [] same = (omega arith, omega arith)
  collections_rows-More t b (row ∷ rows) same =
      let next = collections_row upper_beyond lower_beyond b row in
      let later =
        collections_rows-More t next rows
          (λ v. (after_collections upper_beyond lower_beyond v b (row ∷ [])).0 ∙ same v) in
      let here =
        resolve_case-More t
          (λ r.
            seen_in collections (key upper_beyond row collections Entity.customer)
              (add_case (key upper_beyond row collections Entity.case_entity) r))
          (key upper_beyond row collections Entity.loan)
          (record b {
            audit = record b.audit { collections_cases = suc b.audit.collections_cases };
          })
          same in
      (omega arith, omega arith)

  -- The cases that the three loops count, and those that they resolve.
  pub join_systems-cases :
      (track : String) (cbs_rows los_rows collections_rows : List Row)
      → let audit =
          (join_systems upper_beyond lower_beyond track cbs_rows los_rows collections_rows).audit in
        (audit.collections_cases ≡ length collections_rows)
        × (audit.collections_cases_resolved
            ≡ count_if (finds upper_beyond lower_beyond cbs_rows) collections_rows)
  unfolding join_systems lookup
  join_systems-cases track cbs_rows los_rows collections_rows =
      let start : Building = record { spine = []; audit = new_audit track } in
      let opened : Building = foldl (cbs_row upper_beyond lower_beyond) start cbs_rows in
      let applied : Building = foldl (los_row upper_beyond lower_beyond) opened los_rows in
      let first = cbs_rows-More start cbs_rows in
      let second = los_rows-More opened los_rows in
      let third =
        collections_rows-More (λ v. any (opens upper_beyond lower_beyond v) cbs_rows) applied
          collections_rows
          (λ v.
            (after_los upper_beyond lower_beyond v opened los_rows).0
            ∙ (after_cbs upper_beyond lower_beyond v start cbs_rows).0) in
      (omega arith, omega arith)
