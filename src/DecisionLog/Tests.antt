-- ===== src/DecisionLog/Tests.antt =====
-- Runs of the decision log over a toy digest, and its theorems at them.
use native.Mathlib.Decide.{ℕ_discrete}
use ailending_hub.Prelude.{
  sym, ◌∙◌, ap, inl, inr, Bool-cases, str_eq, eq_iff, if◌then◌else◌, ℕ, ◌+◌, ◌≡◌, ◌≢◌, refl, ◌↔◌,
  ◌⊎◌, true, false, Option, none, some, List, [], ◌∷◌, String, length, map, ◌==◌, All, Dict, lookup,
  ok, is_empty,
}
use ailending_hub.DecisionLog.Json.{Json, number, arr, obj, null, str, end, get, Json-discrete}
use ailending_hub.DecisionLog.Record.{
  DecisionRecord, ModelRef, model, refer, fallback, human, decision_record, decision_record_iff,
  no_override, to_dict,
}
use ailending_hub.DecisionLog.Log.{
  Entry, valid, open_log, relink, append, verify, verify_from, tail_hash,
}
use ailending_hub.DecisionLog.Chain.{append_all, verify-append_all, Linked, verify_iff}
use ailending_hub.DecisionLog.Tamper.{text, digest_of, WritesLink, Collision, same_tail_hash}
use ailending_hub.DecisionLog.Replay.{
  Logged, spot_audit, audit_from, audit_entry, entry_mismatches, passed,
}
use ailending_hub.DecisionLog.Audit.{passed-spot_audit, Replays}

-- A digest for tests: the decision's id.
id_digest : Entry ℕ → String
id_digest e = elim (get "decision_id" e) [ str s ↦ s | _ ↦ "" ]

abbrev decision : String → DecisionRecord ℕ
decision id = record {
  decision_id = id;
  decided_at = "2026-01-05T10:00:00";
  subject_token = "tok";
  application_id = "app";
  outcome = refer;
  decided_by = fallback;
  inputs = end;
  feature_values = end;
  models = [];
  scores = end;
  reason_codes = [];
  policy_version = "p1";
  rules_fired = [];
  consent_ids = [];
  override = none;
  feature_dataset_version = "";
  prev_hash = null;
}

abbrev two : List (DecisionRecord ℕ)
two = decision "d1" ∷ decision "d2" ∷ []

log_of : List (DecisionRecord ℕ) → List (Entry ℕ)
log_of rs = (append_all ℕ_discrete id_digest rs (open_log [])).entries

verify-nil : verify ℕ_discrete id_digest [] ≡ valid 0
unfolding verify verify_from
verify-nil = refl

verify-append_all_example : verify ℕ_discrete id_digest (log_of two) ≡ valid (0 + 2)
unfolding log_of
verify-append_all_example = verify-append_all ℕ_discrete id_digest [] two verify-nil

-- A hash for tests that is one for all texts, and a text of the link alone.
abbrev one_hash : String → String
one_hash t = "h"

abbrev link_text : Json ℕ → String
link_text null = "-"
link_text (str s) = if str_eq s "h" then "h" else "?"
link_text _ = "?"

abbrev dumped : Entry ℕ → String
dumped e = link_text (get "prev_hash" e)

dumped-WritesLink : WritesLink one_hash dumped
dumped-WritesLink x y none same e = first (get "prev_hash" y) (sym same ∙ ap link_text e)
  where
    first : (v : Json ℕ) → link_text v ≡ "-" → v ≡ null
    first null h = refl
    first (str s) h = elim (Bool-cases (str_eq s "h")) [
      | inl t ↦ absurd (let b = (eq_iff "h" "-").1 (rw t at h) in cc)
      | inr f ↦ absurd (let b = (eq_iff "?" "-").1 (rw f at h) in cc)
    ]
    first (number n) h = absurd (let b = (eq_iff "?" "-").1 h in cc)
    first (arr a) h = absurd (let b = (eq_iff "?" "-").1 h in cc)
    first (obj o) h = absurd (let b = (eq_iff "?" "-").1 h in cc)
dumped-WritesLink x y (some t) same e = next (get "prev_hash" y) (sym same ∙ ap link_text e)
  where
    next : (v : Json ℕ) → link_text v ≡ "h" → v ≡ str "h"
    next null h = absurd (let b = (eq_iff "-" "h").1 h in cc)
    next (str s) h = elim (Bool-cases (str_eq s "h")) [
      | inl t ↦ ap str ((eq_iff s "h").0 t)
      | inr f ↦ absurd (let b = (eq_iff "?" "h").1 (rw f at h) in cc)
    ]
    next (number n) h = absurd (let b = (eq_iff "?" "h").1 h in cc)
    next (arr a) h = absurd (let b = (eq_iff "?" "h").1 h in cc)
    next (obj o) h = absurd (let b = (eq_iff "?" "h").1 h in cc)

hashed_log : List (DecisionRecord ℕ) → List (Entry ℕ)
hashed_log rs = (append_all ℕ_discrete (digest_of one_hash dumped) rs (open_log [])).entries

verify-hashed :
    (rs : List (DecisionRecord ℕ))
    → verify ℕ_discrete (digest_of one_hash dumped) (hashed_log rs) ≡ valid (0 + length rs)
unfolding hashed_log verify verify_from
verify-hashed rs = verify-append_all ℕ_discrete (digest_of one_hash dumped) [] rs refl

-- The second record edited, under a hash that does not see the edit.
abbrev two_edited : List (DecisionRecord ℕ)
two_edited = decision "d1" ∷ record (decision "d2") { application_id = "other" } ∷ []

verify-two :
    verify ℕ_discrete (digest_of one_hash dumped) (hashed_log two) ≡ valid (length (hashed_log two))
unfolding hashed_log append_all append open_log
verify-two = verify-hashed two

verify-two_edited :
    verify ℕ_discrete (digest_of one_hash dumped) (hashed_log two_edited)
    ≡ valid (length (hashed_log two_edited))
unfolding hashed_log append_all append open_log
verify-two_edited = verify-hashed two_edited

same_tail_hash_example :
    (map (text one_hash dumped) (hashed_log two)
      ≡ map (text one_hash dumped) (hashed_log two_edited))
    ⊎ Collision one_hash dumped (hashed_log two) (hashed_log two_edited)
unfolding hashed_log append_all append open_log tail_hash to_dict relink get lookup Json-discrete
same_tail_hash_example =
    same_tail_hash one_hash dumped dumped-WritesLink ℕ_discrete (hashed_log two)
      (hashed_log two_edited) verify-two verify-two_edited refl

decision_record_iff_example : (decision_record (decision "d1") ≡ ok (decision "d1")) ↔ (
    ((decision "d1").decided_by ≡ model → (decision "d1").models ≢ [])
    × ((decision "d1").decided_by ≡ human → no_override (decision "d1").override ≡ false)
    × (is_empty (decision "d1").policy_version ≡ false))
decision_record_iff_example = decision_record_iff (decision "d1")

abbrev model_ref : ModelRef
model_ref = record {
  name = "pd";
  version = "3";
  registry_stage = "Production";
  code_commit = "c";
  data_snapshot = "s";
  config_hash = "h";
  definitions_fingerprint = "f";
}

abbrev map_values : Dict ℕ → Dict (Option ℕ)
map_values [] = []
map_values ((name, v) ∷ rest) = (name, some v) ∷ map_values rest

-- A scorer that returns the feature values as scores, and one that has lost its model.
abbrev echo : ModelRef → Dict ℕ → Option (Dict (Option ℕ))
echo m features = some (map_values features)

abbrev lost : ModelRef → Dict ℕ → Option (Dict (Option ℕ))
lost m features = none

abbrev logged : Dict (Option ℕ) → Logged ℕ
logged scores = record {
  decision_id = "d1";
  models = model_ref ∷ [];
  feature_values = ("pd", 7) ∷ [];
  scores = scores;
}

audits :
    (passed (spot_audit ◌==◌ echo (logged (("pd", some 7) ∷ []) ∷ [])) ≡ true)
    × (passed (spot_audit ◌==◌ echo (logged (("pd", some 8) ∷ []) ∷ [])) ≡ false)
    × (passed (spot_audit ◌==◌ echo (logged [] ∷ [])) ≡ false)
    × (passed (spot_audit ◌==◌ echo (logged (("pd", some 7) ∷ ("lgd", none) ∷ []) ∷ [])) ≡ true)
    × (passed (spot_audit ◌==◌ lost (logged (("pd", some 7) ∷ []) ∷ [])) ≡ false)
    × (passed (spot_audit ◌==◌ echo []) ≡ false)
unfolding passed spot_audit audit_from audit_entry entry_mismatches lookup
audits = (refl, refl, refl, refl, refl, refl)

passed-spot_audit_example :
    (passed (spot_audit ◌==◌ echo (logged (("pd", some 7) ∷ []) ∷ [])) ≡ true) ↔ (
      (◌≢◌ {A = List (Logged ℕ)} (logged (("pd", some 7) ∷ []) ∷ []) [])
      × All (Replays ◌==◌ echo) (logged (("pd", some 7) ∷ []) ∷ []))
passed-spot_audit_example = passed-spot_audit ◌==◌ echo (logged (("pd", some 7) ∷ []) ∷ [])

verify_iff_example :
    (verify ℕ_discrete id_digest (log_of two) ≡ valid (length (log_of two)))
    ↔ Linked id_digest null (log_of two)
verify_iff_example = verify_iff ℕ_discrete id_digest (log_of two)
