-- ===== src/Serving/Decide.antt =====
-- serving/orchestrator.py: Orchestrator.decide. Parameters: the float type `F` and its `<=`, the
-- floats 0.0 and 1.0, the hash that `BandConfig.version` takes, the feature values that the store
-- returned, and the texts of a fresh id and of the present time. Timings, which a clock fills, are
-- left out.
use Prim.Native.String.{◌++◌ as joined}
use ailending_hub.Prelude.{
  Bool, true, false, Option, none, some, List, [], ◌∷◌, ◌++◌, map, String, is_empty, filter, lookup,
  Dict, insert, if◌then◌else◌, Result, ok, err, ◌>>=◌,
}
use ailending_hub.DecisionLog.Json.{Json, str, number, arr}
use ailending_hub.DecisionLog.Record.{
  Outcome, approve, decline, refer, Actor, model, policy_rule, fallback, ModelRef, ReasonCode,
  DecisionRecord, RecordError, decision_record, fields, items,
}
use ailending_hub.DecisionLog.Json.{null}
use ailending_hub.Serving.Bands.{BandConfig, BandError, ungrounded, outcome_for}

pub record PolicyRule (F : Type 0) : Type 0 where
  pub rule_id : String
  pub version : String
  pub outcome : Outcome
  pub predicate : Dict (Json F) → Bool
  pub reason_code : String

-- The entries of the dict that `decide` reads, and the others.
pub record Application (F : Type 0) : Type 0 where
  pub customer_token : String
  pub decision_id : Option String
  pub application_id : Option String
  pub consent_ids : Option (List String)
  pub others : Dict (Json F)

pub record Orchestrator (F : Type 0) : Type 0 where
  -- none where there is no scorer; a scorer gives none where it raises ModelUnavailable
  pub scorer : Option (Dict (Json F) → Option (Dict F))
  pub policy_rules : List (PolicyRule F)
  pub policy_version : String
  pub model_ref : Option ModelRef
  pub bands : Option (BandConfig F)

pub record DecisionResponse (F : Type 0) : Type 0 where
  pub decision_id : String
  pub outcome : Outcome
  pub decided_by : Actor
  pub scores : Dict F
  pub reason_codes : List (ReasonCode F)
  pub entry : DecisionRecord F
  pub degraded : Bool

pub record Verdict (F : Type 0) : Type 0 where
  pub outcome : Outcome
  pub decided_by : Actor
  pub reason_codes : List (ReasonCode F)

module _ {F : Type 0} where
  abbrev entry_of : {A : Type 0} → String → (A → Json F) → Option A → Dict (Json F)
  entry_of k f none = []
  entry_of k f (some a) = (k, f a) ∷ []

  abbrev texts : List String → Json F
  texts xs = arr (items (map str xs))

  -- The application's dict without `customer_token`.
  abbrev pub inputs_of : Application F → Dict (Json F)
  inputs_of a =
      entry_of "decision_id" str a.decision_id
      ++ (entry_of "application_id" str a.application_id
          ++ (entry_of "consent_ids" texts a.consent_ids ++ a.others))

  -- `{**a, **b}`
  unfoldable pub merge : Dict (Json F) → Dict (Json F) → Dict (Json F)
  merge a [] = a
  merge a ((k, v) ∷ b) = merge (insert k v a) b

  unfoldable pub context_of : Application F → Dict (Json F) → Dict (Json F)
  unfolding merge
  context_of a feature_values =
      merge (("customer_token", str a.customer_token) ∷ inputs_of a) feature_values

  -- The scores, empty where there is no scorer or it does not answer.
  unfoldable pub scores_of : Option (Dict (Json F) → Option (Dict F)) → Dict (Json F) → Dict F
  scores_of none values = []
  scores_of (some f) values = elim (f values) [ none ↦ [] | some s ↦ s ]

  unfoldable pub is_degraded : Option (Dict (Json F) → Option (Dict F)) → Dict (Json F) → Bool
  is_degraded none values = false
  is_degraded (some f) values = elim (f values) [ none ↦ true | some s ↦ false ]

  abbrev pub reason : String → Option F → String → ReasonCode F
  reason code contribution source = record {
    code = code;
    contribution = contribution;
    source = source;
  }

-- `BAND_` and the outcome's name in capitals.
abbrev band_code : Outcome → String
band_code approve = "BAND_APPROVE"
band_code decline = "BAND_DECLINE"
band_code refer = "BAND_REFER"

abbrev is_some_scorer : {A : Type 0} → Option A → Bool
is_some_scorer none = false
is_some_scorer (some a) = true

module _ {F : Type 0} (le : F → F → Bool) (nought one : F) where
  -- What `outcome_for` makes of the outcome and the reasons of a scored application.
  unfoldable pub band_verdict : F → Result BandError Outcome → Verdict F
  band_verdict pd (ok o) = record {
    outcome = o;
    decided_by = model;
    reason_codes = reason (band_code o) (some pd) "policy_band" ∷ [];
  }
  band_verdict pd (err ungrounded) = record {
    outcome = refer;
    decided_by = model;
    reason_codes = reason "P1_CUTOFFS_NOT_RATIFIED" none "platform" ∷ [];
  }
  band_verdict pd (err _) = record {
    outcome = refer;
    decided_by = model;
    reason_codes = reason "P1_BANDS_NOT_DUAL_APPROVED" none "platform" ∷ [];
  }

  abbrev no_cutoff : Verdict F
  no_cutoff = record {
    outcome = refer;
    decided_by = model;
    reason_codes = reason "P0_NO_CUTOFF_CONFIGURED" none "platform" ∷ [];
  }

  -- The last branch of `decide`: a scored application that no rule decides.
  unfoldable pub scored_verdict : Option (BandConfig F) → Option F → Verdict F
  unfolding band_verdict
  scored_verdict (some c) (some pd) = band_verdict pd (outcome_for le nought one c pd)
  scored_verdict _ _ = no_cutoff

  -- Outcome, actor and reasons: the policy first, then the fallback, then the bands.
  unfoldable pub verdict : Orchestrator F → List (PolicyRule F) → Dict (Json F) → Verdict F
  unfolding scored_verdict scores_of is_degraded
  verdict o (r ∷ rest) values = record {
    outcome = r.outcome;
    decided_by = policy_rule;
    reason_codes = map (λ r. reason r.reason_code none "policy") (r ∷ rest);
  }
  verdict o [] values =
      if is_degraded o.scorer values
      then record {
        outcome = refer;
        decided_by = fallback;
        reason_codes = reason "SYS_MODEL_UNAVAILABLE" none "platform" ∷ [];
      }
      else if is_some_scorer o.scorer
      then scored_verdict o.bands (lookup "pd" (scores_of o.scorer values))
      else record {
        outcome = refer;
        decided_by = fallback;
        reason_codes = reason "SYS_MODEL_UNAVAILABLE" none "platform" ∷ [];
      }

module _ {F : Type 0} (band_version : BandConfig F → String) where
  unfoldable pub effective_policy_version : Orchestrator F → String
  effective_policy_version o = elim o.bands [
    | none ↦ o.policy_version
    | some c ↦ joined o.policy_version (joined "+bands:" (band_version c))
  ]

-- `x or y` for a text that may be missing.
abbrev or_else : Option String → String → String
or_else none t = t
or_else (some s) t = if is_empty s then t else s

abbrev or_nothing : Option (List String) → List String
or_nothing none = []
or_nothing (some xs) = xs

abbrev or_empty_text : Option String → String
or_empty_text none = ""
or_empty_text (some s) = s

-- `[self.model_ref] if self.model_ref and not degraded else []`
abbrev used_models : Option ModelRef → Bool → List ModelRef
used_models (some m) false = m ∷ []
used_models _ _ = []

module _ {F : Type 0} (le : F → F → Bool) (nought one : F)
    (band_version : BandConfig F → String) where
  abbrev pub fired_rules : Orchestrator F → Application F → Dict (Json F) → List (PolicyRule F)
  fired_rules o a values = filter (λ r. r.predicate (context_of a values)) o.policy_rules

  -- The record of the decision, before its checks.
  unfoldable pub decision_entry :
      String → String → Orchestrator F → Application F → Dict (Json F) → DecisionRecord F
  unfolding verdict effective_policy_version
  decision_entry fresh_id now o a values =
      let fired = fired_rules o a values in
      let v = verdict le nought one o fired values in
      record {
        decision_id = or_else a.decision_id fresh_id;
        decided_at = now;
        subject_token = a.customer_token;
        application_id = or_empty_text a.application_id;
        outcome = v.outcome;
        decided_by = v.decided_by;
        inputs = fields (inputs_of a);
        feature_values = fields values;
        models = used_models o.model_ref (is_degraded o.scorer values);
        scores = fields (map (λ (k, x). (k, number x)) (scores_of o.scorer values));
        reason_codes = v.reason_codes;
        policy_version = effective_policy_version band_version o;
        rules_fired = map (λ r. joined r.rule_id (joined "@" r.version)) fired;
        consent_ids = or_nothing a.consent_ids;
        override = none;
        feature_dataset_version = "";
        prev_hash = null;
      }

  -- The response that is built from the record.
  abbrev pub response_of : Orchestrator F → Dict (Json F) → DecisionRecord F → DecisionResponse F
  response_of o values entry = record {
    decision_id = entry.decision_id;
    outcome = entry.outcome;
    decided_by = entry.decided_by;
    scores = scores_of o.scorer values;
    reason_codes = entry.reason_codes;
    entry = entry;
    degraded = is_degraded o.scorer values;
  }

  -- `decide`, which raises where the record of the decision does.
  unfoldable pub decide :
      String
      → String
      → Orchestrator F
      → Application F
      → Dict (Json F)
      → Result RecordError (DecisionResponse F)
  unfolding decision_entry
  decide fresh_id now o a values = do
    entry ← decision_record (decision_entry fresh_id now o a values)
    ok (response_of o values entry)
