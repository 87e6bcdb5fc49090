-- ===== src/Identity/Build.antt =====
-- identity/spine.py: build_spine, as its three loops over the sources' rows and the loop that audits
-- the records.
use ailending_hub.Prelude.{
  suc, not, Option, none, some, List, [], String, if◌then◌else◌, Dict, lookup, insert, values,
  foldl,
}
use ailending_hub.Identity.Keys.{Entity, Key, SpineKey, usable, rejected}
use ailending_hub.Identity.Spine.{
  Row, cbs, los, collections, key, is_active, SpineRecord, SpineAudit, orphan_collections_case,
  no_active_loan, count_rejected, fail, fail_rejected, new_record, seen_in, set_application,
  add_case, count_customer, audit_record,
}
use Prim.Native.Char.{Char}

pub record Building : Type 0 where
  pub spine : Dict SpineRecord
  pub audit : SpineAudit

abbrev pub new_audit : String → SpineAudit
new_audit track = record {
  track = track;
  loans_in_cbs = 0;
  loans_with_application = 0;
  collections_cases = 0;
  collections_cases_resolved = 0;
  loans_with_consistent_customer = 0;
  loans_with_customer_evidence = 0;
  failures = [];
  rejected_keys = [];
}

-- `spine.setdefault(loan.value, SpineRecord(loan=loan))`
abbrev pub record_or_new : SpineKey → Option SpineRecord → SpineRecord
record_or_new k none = new_record k
record_or_new k (some r) = r

-- An active row of the core system whose loan key is `k`.
unfoldable pub add_loan : Option Key → SpineKey → Building → Building
unfolding seen_in count_customer
add_loan customer_key k b =
    let r = record_or_new k (lookup k.value b.spine) in
    record {
      spine = insert k.value (seen_in cbs customer_key r) b.spine;
      audit =
          count_customer customer_key (record b.audit { loans_in_cbs = suc b.audit.loans_in_cbs });
    }

-- A row whose loan key is `k` changes the record of the loan, if the spine has one.
abbrev pub change : (SpineRecord → SpineRecord) → SpineKey → Dict SpineRecord → Dict SpineRecord
change f k spine = elim (lookup k.value spine) [
  | none ↦ spine
  | some r ↦ insert k.value (f r) spine
]

-- A collections case, with its loan key; no source lacks the column of loans.
unfoldable pub resolve_case : (SpineRecord → SpineRecord) → Option Key → Building → Building
unfolding fail_rejected
resolve_case f none b = b
resolve_case f (some (rejected r)) b = record b {
  audit = fail_rejected collections "collections." r b.audit;
}
resolve_case f (some (usable k)) b = elim (lookup k.value b.spine) [
  | none ↦ record b {
    audit =
        fail
          (record {
            cause = orphan_collections_case;
            source = "collections";
            failing_key = some k.value;
            detail = no_active_loan;
          })
          b.audit;
  }
  | some r ↦ record {
    spine = insert k.value (f r) b.spine;
    audit = record b.audit { collections_cases_resolved = suc b.audit.collections_cases_resolved };
  }
]

-- An active row of the core system, with its loan key.
unfoldable pub open_loan : Option Key → Option Key → Building → Building
unfolding fail_rejected add_loan
open_loan customer_key none b = b
open_loan customer_key (some (rejected r)) b = record b {
  audit = fail_rejected cbs "cbs." r b.audit;
}
open_loan customer_key (some (usable k)) b = add_loan customer_key k b

-- An application, with its loan key.
unfoldable pub apply_to : (SpineRecord → SpineRecord) → Option Key → Building → Building
unfolding count_rejected
apply_to f none b = b
apply_to f (some (rejected r)) b = record b { audit = count_rejected "los." r b.audit }
apply_to f (some (usable k)) b = record b { spine = change f k b.spine }

module _ (upper_beyond lower_beyond : Char → String) where
  -- The bodies of the three loops.
  unfoldable pub cbs_row : Building → Row → Building
  unfolding key is_active open_loan
  cbs_row b row =
      if not (is_active lower_beyond row)
      then b
      else open_loan (key upper_beyond row cbs Entity.customer)
          (key upper_beyond row cbs Entity.loan) b

  unfoldable pub los_row : Building → Row → Building
  unfolding key apply_to seen_in set_application
  los_row b row =
      apply_to
        (λ r.
          seen_in los (key upper_beyond row los Entity.customer)
            (set_application (key upper_beyond row los Entity.application) r))
        (key upper_beyond row los Entity.loan) b

  unfoldable pub collections_row : Building → Row → Building
  unfolding key resolve_case seen_in add_case
  collections_row b row =
      resolve_case
        (λ r.
          seen_in collections (key upper_beyond row collections Entity.customer)
            (add_case (key upper_beyond row collections Entity.case_entity) r))
        (key upper_beyond row collections Entity.loan)
        (record b { audit = record b.audit { collections_cases = suc b.audit.collections_cases } })

  -- The spine after the three loops.
  unfoldable pub join_systems : String → List Row → List Row → List Row → Building
  unfolding cbs_row los_row collections_row
  join_systems track cbs_rows los_rows collections_rows =
      foldl collections_row
        (foldl los_row (foldl cbs_row (record { spine = []; audit = new_audit track }) cbs_rows)
          los_rows)
        collections_rows

  -- `build_spine`: the track, which the readers name, is an argument.
  unfoldable pub build_spine : String → List Row → List Row → List Row → Building
  unfolding join_systems audit_record
  build_spine track cbs_rows los_rows collections_rows =
      let joined = join_systems track cbs_rows los_rows collections_rows in
      record joined { audit = foldl audit_record joined.audit (values joined.spine) }
