-- ===== src/Serving/Tests.antt =====
-- A concrete orchestrator with bands on percentages, and the theorems at it.
use ailending_hub.Prelude.{
  ℕ, ◌≡◌, refl, false, none, some, [], ◌∷◌, String, leb, lookup, insert, ok,
}
use ailending_hub.DecisionLog.Record.{
  approve, refer, model, ModelRef, decision_record, is_model, is_human, no_override,
}
use ailending_hub.Serving.Bands.{
  BandConfig, given, pending, outcome_for, place_between, is_grounded, dual_control_satisfied,
  distinct_approvers, approver_count,
}
use ailending_hub.Serving.Decide.{
  Application, Orchestrator, DecisionResponse, decide, effective_policy_version, fired_rules,
  verdict, scored_verdict, band_verdict, decision_entry, scores_of, is_degraded, context_of, merge,
}
use ailending_hub.Serving.Precedence.{Decided, decide-Decided}
use ailending_hub.Serving.Backing.{Backs, decide-Backs}

abbrev bands : BandConfig ℕ
bands = record {
  model_name = "pd";
  owner = "committee";
  status = "approved";
  approve_below = given 5;
  decline_above = given 20;
  canary_percentage = pending;
  canary_band_low = pending;
  canary_band_high = pending;
  approvals =
      record { approver = "ana"; role = "chair"; approved_at = 1 }
      ∷ record { approver = "bob"; role = "risk"; approved_at = 2 }
      ∷ [];
  source_path = "";
}

abbrev scorer_ref : ModelRef
scorer_ref = record {
  name = "pd";
  version = "1";
  registry_stage = "production";
  code_commit = "abc";
  data_snapshot = "tag";
  config_hash = "cfg";
  definitions_fingerprint = "fp";
}

abbrev orchestrator : Orchestrator ℕ
orchestrator = record {
  scorer = some (λ values. some (("pd", 3) ∷ []));
  policy_rules =
      record {
        rule_id = "R1";
        version = "1";
        outcome = refer;
        predicate = λ c. false;
        reason_code = "MINOR";
      }
      ∷ [];
  policy_version = "p1";
  model_ref = some scorer_ref;
  bands = some bands;
}

abbrev application : Application ℕ
application = record {
  customer_token = "tok";
  decision_id = none;
  application_id = some "app-1";
  consent_ids = none;
  others = [];
}

abbrev version_of : BandConfig ℕ → String
version_of c = "v"

decide-Decided_example :
    (r : DecisionResponse ℕ) × (decide leb 0 100 version_of "id" "now" orchestrator application []
      ≡ ok r)
    × Decided leb 0 100 orchestrator []
        (fired_rules leb 0 100 version_of orchestrator application [])
        r.outcome
        r.decided_by
    × (r.entry.outcome ≡ r.outcome)
    × (r.entry.decided_by ≡ r.decided_by)
unfolding effective_policy_version
decide-Decided_example =
    decide-Decided leb 0 100 version_of "id" "now" orchestrator application [] scorer_ref refl refl

abbrev response : DecisionResponse ℕ
response = record {
  decision_id = "id";
  outcome = approve;
  decided_by = model;
  scores = ("pd", 3) ∷ [];
  reason_codes =
      record { code = "BAND_APPROVE"; contribution = some 3; source = "policy_band" } ∷ [];
  entry = decision_entry leb 0 100 version_of "id" "now" orchestrator application [];
  degraded = false;
}

decide-Backs_example :
    (c : BandConfig ℕ) × (pd : ℕ) × (orchestrator.bands ≡ some c)
    × (lookup "pd" response.scores ≡ some pd)
    × Backs leb 0 100 c pd response.outcome
unfolding decide decision_entry decision_record is_model is_human no_override verdict scored_verdict
    band_verdict outcome_for place_between is_grounded dual_control_satisfied distinct_approvers
    approver_count scores_of is_degraded context_of merge insert lookup effective_policy_version
decide-Backs_example =
    decide-Backs leb 0 100 version_of "id" "now" orchestrator application [] response refl refl
      (λ e. cc)
