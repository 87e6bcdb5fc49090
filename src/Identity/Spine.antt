-- ===== src/Identity/Spine.antt =====
-- identity/spine.py and the columns of identity/ports.py: the record of a loan, the audit, and the
-- changes that one row makes. A row's cell is a text or `None`, and the case of characters beyond
-- ASCII is a parameter.
use ailending_hub.Prelude.{
  ℕ, suc, Bool, true, Option, none, some, List, [], ◌∷◌, ◌++◌, String, if◌then◌else◌, leb, length,
  all, Dict, lookup, insert, values, member, str_eq,
}
use ailending_hub.Identity.Case.{strip, lower}
use ailending_hub.Identity.Keys.{
  Entity, Key, KeyProblem, SpineKey, RejectedKey, usable, rejected, normalise, null, placeholder,
  charset, too_short,
}
use Prim.Native.Char.{Char}
use Prim.Native.String.{◌++◌ as append_text}

abbrev pub Row : Type 0
Row = Dict (Option String)

-- The systems, and how messages call them.
pub data Source : Type 0 where
  cbs los collections : Source

abbrev pub source_id : Source → String
source_id cbs = "cbs"
source_id los = "los"
source_id collections = "collections"

-- `SPINE_KEY_COLUMNS[source_id].get(entity)`
unfoldable pub spine_key_column : Source → Entity → Option String
spine_key_column s Entity.customer = some "customer_id"
spine_key_column s Entity.loan = some "loan_id"
spine_key_column cbs Entity.account = some "account_id"
spine_key_column los Entity.account = none
spine_key_column collections Entity.account = none
spine_key_column los Entity.application = some "application_id"
spine_key_column cbs Entity.application = none
spine_key_column collections Entity.application = none
spine_key_column collections Entity.case_entity = some "case_id"
spine_key_column cbs Entity.case_entity = none
spine_key_column los Entity.case_entity = none

-- `row.get(column)`
abbrev pub cell : String → Row → Option String
cell column row = elim (lookup column row) [ none ↦ none | some v ↦ v ]

-- `_key`: no key where the source has no such column.
unfoldable pub key : (Char → String) → Row → Source → Entity → Option Key
unfolding spine_key_column normalise
key upper_beyond row source entity = elim (spine_key_column source entity) [
  | none ↦ none
  | some column ↦ some (normalise upper_beyond entity (cell column row))
]

-- `str(row.get("is_active", "true"))`
abbrev pub active_text : Row → String
active_text row = elim (lookup "is_active" row) [
  | none ↦ "true"
  | some none ↦ "None"
  | some (some text) ↦ text
]

unfoldable pub is_active : (Char → String) → Row → Bool
unfolding strip lower
is_active lower_beyond row =
    member (lower lower_beyond (strip (active_text row))) ("true" ∷ "1" ∷ "y" ∷ "yes" ∷ [])

pub data FailureCause : Type 0 where
  missing_application orphan_collections_case customer_disagreement unusable_key : FailureCause

-- One loan's presence across the three systems. The set of the systems is a list without repetition.
pub record SpineRecord : Type 0 where
  pub loan : SpineKey
  pub customer_by_source : Dict String
  pub present_in : List String
  pub application : Option SpineKey
  pub cases : List SpineKey

-- The texts of the details.
pub data Detail : Type 0 where
  loan_rejected : KeyProblem → Detail
  no_active_loan no_originating_application : Detail
  customers_differ : Dict String → Detail

pub record Failure : Type 0 where
  pub cause : FailureCause
  pub source : String
  pub failing_key : Option String
  pub detail : Detail

pub record SpineAudit : Type 0 where
  pub track : String
  pub loans_in_cbs : ℕ
  pub loans_with_application : ℕ
  pub collections_cases : ℕ
  pub collections_cases_resolved : ℕ
  pub loans_with_consistent_customer : ℕ
  pub loans_with_customer_evidence : ℕ
  pub failures : List Failure
  pub rejected_keys : Dict ℕ

-- `KeyProblem.value`
abbrev pub problem_value : KeyProblem → String
problem_value p = elim p [
  | null ↦ "null_key"
  | placeholder ↦ "placeholder_key"
  | charset ↦ "charset_key"
  | too_short ↦ "too_short_key"
]

-- `audit.rejected_keys[f"{prefix}{problem.value}"] += 1`
unfoldable pub count_rejected : String → RejectedKey → SpineAudit → SpineAudit
count_rejected prefix r audit =
    let name = append_text prefix (problem_value r.problem) in
    let before : ℕ = elim (lookup name audit.rejected_keys) [ none ↦ 0 | some n ↦ n ] in
    record audit { rejected_keys = insert name (suc before) audit.rejected_keys }

abbrev pub fail : Failure → SpineAudit → SpineAudit
fail failure audit = record audit { failures = audit.failures ++ failure ∷ [] }

-- A loan key that is rejected: it is counted and it is a failure.
unfoldable pub fail_rejected : Source → String → RejectedKey → SpineAudit → SpineAudit
unfolding count_rejected
fail_rejected source prefix r audit =
    fail
      (record {
        cause = unusable_key;
        source = source_id source;
        failing_key = r.raw;
        detail = loan_rejected r.problem;
      })
      (count_rejected prefix r audit)

abbrev pub new_record : SpineKey → SpineRecord
new_record k = record {
  loan = k;
  customer_by_source = [];
  present_in = [];
  application = none;
  cases = [];
}

-- `present_in.add(source)`
abbrev pub add_source : String → List String → List String
add_source s present = if member s present then present else present ++ s ∷ []

-- The source of a record, and the customer that it names where the key is usable.
unfoldable pub seen_in : Source → Option Key → SpineRecord → SpineRecord
seen_in source none r = record r { present_in = add_source (source_id source) r.present_in }
seen_in source (some (rejected _)) r = record r {
  present_in = add_source (source_id source) r.present_in;
}
seen_in source (some (usable c)) r = record r {
  present_in = add_source (source_id source) r.present_in;
  customer_by_source = insert (source_id source) c.value r.customer_by_source;
}

unfoldable pub set_application : Option Key → SpineRecord → SpineRecord
set_application none r = r
set_application (some (rejected _)) r = r
set_application (some (usable a)) r = record r { application = some a }

unfoldable pub add_case : Option Key → SpineRecord → SpineRecord
add_case none r = r
add_case (some (rejected _)) r = r
add_case (some (usable c)) r = record r { cases = r.cases ++ c ∷ [] }

-- A rejected customer key of a loan in the core system is counted.
unfoldable pub count_customer : Option Key → SpineAudit → SpineAudit
unfolding count_rejected
count_customer none audit = audit
count_customer (some (usable _)) audit = audit
count_customer (some (rejected r)) audit = count_rejected "cbs.customer." r audit

-- The customers of the systems are one.
unfoldable pub one_customer : List String → Bool
one_customer [] = true
one_customer (c ∷ cs) = all (str_eq c) cs

-- The customer check of the last loop.
unfoldable pub audit_customer : SpineRecord → SpineAudit → SpineAudit
unfolding one_customer
audit_customer r audit =
    let counted : SpineAudit = record audit {
      loans_with_customer_evidence = suc audit.loans_with_customer_evidence;
    } in
    if leb 2 (length r.customer_by_source)
    then if one_customer (values r.customer_by_source)
      then record counted {
        loans_with_consistent_customer = suc counted.loans_with_consistent_customer;
      }
      else fail
          (record {
            cause = customer_disagreement;
            source = "spine";
            failing_key = some r.loan.value;
            detail = customers_differ r.customer_by_source;
          })
          counted
    else audit

unfoldable pub audit_application : SpineRecord → SpineAudit → SpineAudit
audit_application r audit = elim r.application [
  | some a ↦ record audit { loans_with_application = suc audit.loans_with_application }
  | none ↦
      fail
        (record {
          cause = missing_application;
          source = "cbs";
          failing_key = some r.loan.value;
          detail = no_originating_application;
        })
        audit
]

-- The body of the last loop, over the spine's records.
unfoldable pub audit_record : SpineAudit → SpineRecord → SpineAudit
unfolding audit_customer audit_application
audit_record audit r = audit_customer r (audit_application r audit)
