-- ===== src/DecisionLog/Replay.antt =====
-- decisionlog/replay.py: ReplayReport and spot_audit. A score is None or a value. Parameters: `S`, the
-- type of the values, with the exact comparison of `_equal` on them (the tolerance is zero); the
-- scorer, which loads a registered model and may raise LookupError (`none`). Drawing the sample is
-- `random`'s part: the audit is stated of the sample that was drawn.
use ailending_hub.Prelude.{
  ℕ, ◌+◌, Bool, true, false, ◌&&◌, Option, none, some, List, [], ◌∷◌, ◌++◌, String, if◌then◌else◌,
  Dict, lookup, is_some, is_nil, ltb,
}
use ailending_hub.DecisionLog.Record.{ModelRef}

-- A logged decision, as far as the audit reads it.
pub record Logged (S : Type 0) : Type 0 where
  pub decision_id : String
  pub models : List ModelRef
  pub feature_values : Dict S
  pub scores : Dict (Option S)

pub record ReplayMismatch (S : Type 0) : Type 0 where
  pub decision_id : String
  pub score_name : String
  pub logged : Option S
  pub replayed : Option S

pub record ReplayReport (S : Type 0) : Type 0 where
  pub sampled : ℕ
  pub matched : ℕ
  pub mismatches : List (ReplayMismatch S)
  pub unreplayable : List String

abbrev pub empty_report : (S : Type 0) → ReplayReport S
empty_report S = record { sampled = 0; matched = 0; mismatches = []; unreplayable = [] }

module _ {S : Type 0} (equal : S → S → Bool)
    (scorer : ModelRef → Dict S → Option (Dict (Option S))) where
  -- `replayed.get(name)`
  abbrev pub get_score : String → Dict (Option S) → Option S
  get_score name scores = elim (lookup name scores) [ none ↦ none | some w ↦ w ]

  -- `_equal`: None is equal to None only.
  unfoldable pub same_score : Option S → Option S → Bool
  same_score none none = true
  same_score none (some w) = false
  same_score (some v) none = false
  same_score (some v) (some w) = equal v w

  -- The mismatches of the loop over the logged scores.
  unfoldable pub logged_mismatches :
      String → Dict (Option S) → Dict (Option S) → List (ReplayMismatch S)
  unfolding same_score
  logged_mismatches id [] replayed = []
  logged_mismatches id ((name, v) ∷ rest) replayed =
      let later = logged_mismatches id rest replayed in
      if same_score v (get_score name replayed)
      then later
      else record {
        decision_id = id;
        score_name = name;
        logged = v;
        replayed = get_score name replayed;
      }
        ∷ later

  -- The mismatches of the loop over `set(replayed) - set(logged_scores)`.
  unfoldable pub extra_mismatches :
      String → Dict (Option S) → Dict (Option S) → List (ReplayMismatch S)
  extra_mismatches id logged [] = []
  extra_mismatches id logged ((name, w) ∷ rest) =
      let later = extra_mismatches id logged rest in
      if is_some (lookup name logged)
      then later
      else record { decision_id = id; score_name = name; logged = none; replayed = w } ∷ later

  unfoldable pub entry_mismatches : Logged S → Dict (Option S) → List (ReplayMismatch S)
  unfolding logged_mismatches extra_mismatches
  entry_mismatches e replayed =
      logged_mismatches e.decision_id e.scores replayed
      ++ extra_mismatches e.decision_id e.scores replayed

  -- What one entry of the sample adds, once it has been counted.
  unfoldable pub audit_scores : Logged S → Dict (Option S) → ReplayReport S → ReplayReport S
  audit_scores e replayed r =
      let found = entry_mismatches e replayed in
      record r {
        matched = if is_nil found then r.matched + 1 else r.matched;
        mismatches = r.mismatches ++ found;
      }

  unfoldable pub audit_model : Logged S → List ModelRef → ReplayReport S → ReplayReport S
  audit_model e [] r = record r { matched = r.matched + 1 }
  audit_model e (m ∷ ms) r = elim (scorer m e.feature_values) [
    | none ↦ record r { unreplayable = r.unreplayable ++ e.decision_id ∷ [] }
    | some replayed ↦ audit_scores e replayed r
  ]

  -- The body of the loop over the sample.
  unfoldable pub audit_entry : Logged S → ReplayReport S → ReplayReport S
  unfolding audit_model audit_scores
  audit_entry e r = audit_model e e.models (record r { sampled = r.sampled + 1 })

  unfoldable pub audit_from : List (Logged S) → ReplayReport S → ReplayReport S
  audit_from [] r = r
  audit_from (e ∷ es) r = audit_from es (audit_entry e r)

  -- `spot_audit` on the sample that was drawn.
  unfoldable pub spot_audit : List (Logged S) → ReplayReport S
  spot_audit sample = audit_from sample (empty_report S)

unfoldable pub passed : {S : Type 0} → ReplayReport S → Bool
passed r = ltb 0 r.sampled && is_nil r.mismatches && is_nil r.unreplayable
