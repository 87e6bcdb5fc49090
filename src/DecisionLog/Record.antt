-- ===== src/DecisionLog/Record.antt =====
-- decisionlog/record.py: DecisionRecord, its checks and its dict. An instant stands in a record as
-- its ISO text; dicts of inputs, feature values and scores are JSON fields.
use ailending_hub.Prelude.{
  ◌≡◌, ◌≢◌, ◌↔◌, Bool, true, false, ◌&&◌, Option, none, some, List, [], ◌∷◌, String, arith, Result,
  ok, ◌>>◌, raise_if, is_nil, is_empty, Dict, map,
}
use ailending_hub.DecisionLog.Json.{
  Json, null, str, number, arr, obj, Items, nil, cons, Fields, end, field,
}

pub data Outcome : Type 0 where
  approve decline refer : Outcome

pub data Actor : Type 0 where
  model policy_rule human fallback : Actor

pub record ModelRef : Type 0 where
  pub name : String
  pub version : String
  pub registry_stage : String
  pub code_commit : String
  pub data_snapshot : String
  pub config_hash : String
  pub definitions_fingerprint : String

pub record ReasonCode (N : Type 0) : Type 0 where
  pub code : String
  pub contribution : Option N
  pub source : String

pub record DecisionRecord (N : Type 0) : Type 0 where
  pub decision_id : String
  pub decided_at : String
  pub subject_token : String
  pub application_id : String
  pub outcome : Outcome
  pub decided_by : Actor
  pub inputs : Fields N
  pub feature_values : Fields N
  pub models : List ModelRef
  pub scores : Fields N
  pub reason_codes : List (ReasonCode N)
  pub policy_version : String
  pub rules_fired : List String
  pub consent_ids : List String
  pub override : Option (Fields N)
  pub feature_dataset_version : String
  pub prev_hash : Json N

pub data RecordError : Type 0 where
  model_without_models human_without_override no_policy_version : RecordError

unfoldable pub is_model : Actor → Bool
is_model model = true
is_model _ = false

unfoldable pub is_human : Actor → Bool
is_human human = true
is_human _ = false

module _ {N : Type 0} where
  -- `not self.override`: absent, or the empty dict.
  unfoldable pub no_override : Option (Fields N) → Bool
  no_override none = true
  no_override (some end) = true
  no_override (some (field k v fs)) = false

  -- `DecisionRecord.__post_init__`
  unfoldable pub decision_record : DecisionRecord N → Result RecordError (DecisionRecord N)
  unfolding is_model is_human no_override
  decision_record r = do
    raise_if (is_nil r.models && is_model r.decided_by) model_without_models
    raise_if (is_human r.decided_by && no_override r.override) human_without_override
    raise_if (is_empty r.policy_version) no_policy_version
    ok r

  abbrev pub items : List (Json N) → Items N
  items [] = nil
  items (x ∷ xs) = cons x (items xs)

  abbrev pub fields : Dict (Json N) → Fields N
  fields [] = end
  fields ((k, v) ∷ d) = field k v (fields d)

  abbrev or_null : Option N → Json N
  or_null none = null
  or_null (some n) = number n

  abbrev obj_or_null : Option (Fields N) → Json N
  obj_or_null none = null
  obj_or_null (some fs) = obj fs

-- The values of the enums.
abbrev pub outcome_value : Outcome → String
outcome_value approve = "approve"
outcome_value decline = "decline"
outcome_value refer = "refer"

abbrev pub actor_value : Actor → String
actor_value model = "model"
actor_value policy_rule = "policy_rule"
actor_value human = "human"
actor_value fallback = "fallback"

module _ {N : Type 0} where
  unfoldable pub model_to_dict : ModelRef → Json N
  model_to_dict m = obj (
      fields (
        ("name", str m.name)
        ∷ ("version", str m.version)
        ∷ ("registry_stage", str m.registry_stage)
        ∷ ("code_commit", str m.code_commit)
        ∷ ("data_snapshot", str m.data_snapshot)
        ∷ ("config_hash", str m.config_hash)
        ∷ ("definitions_fingerprint", str m.definitions_fingerprint)
        ∷ []))

  reason_to_dict : ReasonCode N → Json N
  reason_to_dict r = obj (
      fields (
        ("code", str r.code)
        ∷ ("contribution", or_null r.contribution)
        ∷ ("source", str r.source)
        ∷ []))

  -- `DecisionRecord.to_dict`
  unfoldable pub to_dict : DecisionRecord N → Dict (Json N)
  unfolding model_to_dict reason_to_dict
  to_dict r =
      ("decision_id", str r.decision_id)
      ∷ ("decided_at", str r.decided_at)
      ∷ ("subject_token", str r.subject_token)
      ∷ ("application_id", str r.application_id)
      ∷ ("outcome", str (outcome_value r.outcome))
      ∷ ("decided_by", str (actor_value r.decided_by))
      ∷ ("inputs", obj r.inputs)
      ∷ ("feature_values", obj r.feature_values)
      ∷ ("models", arr (items (map model_to_dict r.models)))
      ∷ ("scores", obj r.scores)
      ∷ ("reason_codes", arr (items (map reason_to_dict r.reason_codes)))
      ∷ ("policy_version", str r.policy_version)
      ∷ ("rules_fired", arr (items (map str r.rules_fired)))
      ∷ ("consent_ids", arr (items (map str r.consent_ids)))
      ∷ ("override", obj_or_null r.override)
      ∷ ("feature_dataset_version", str r.feature_dataset_version)
      ∷ ("prev_hash", r.prev_hash)
      ∷ []

  -- A record is accepted, as it is, exactly if a decision of the model names at least one model, one
  -- of a human has a non-empty override, and the policy version is not empty.
  pub decision_record_iff :
      (r : DecisionRecord N)
      → (decision_record r ≡ ok r) ↔ (
          (r.decided_by ≡ model → r.models ≢ [])
          × (r.decided_by ≡ human → no_override r.override ≡ false)
          × (is_empty r.policy_version ≡ false))
  unfolding decision_record
  decision_record_iff r =
      ((λ e. (ground arith, ground arith, ground arith)), λ (a, b, c). ground arith)
