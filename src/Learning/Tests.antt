-- ===== src/Learning/Tests.antt =====
-- A promotion request whose artifact is ready and whose lift was measured in time, three activities of
-- the cadence, and the theorems at them.
use ailending_hub.Learning.Cadence.{
  Activity, weekly, monthly, quarterly, negative_grace, overdue, overdue_from, late_item,
  interval_days, is_future, is_beyond, out_of_range,
}
use ailending_hub.Learning.Overdue.{Reports, overdue_sound}
use ailending_hub.Prelude.{
  ℕ, ◌+◌, ◌≡◌, ◌↔◌, refl, true, none, some, List, [], ◌∷◌, ◌*◌, Dict, lookup, pos, negsuc, ok, err,
}
use ailending_hub.Mlops.Artifact.{staging, production, same_stage, ModelArtifact}
use ailending_hub.Mlops.Promotion.{minimum_shadow, can_promote, gate_reasons, production_reasons}
use ailending_hub.Mlops.Gate.{MayMove}
use ailending_hub.Learning.Promotion.{
  ran, day, overlap_days, is_out_of_time, PromotionRequest, evaluate_promotion, evidence_reasons,
  overlaps_training, of_evidence,
}
use ailending_hub.Learning.Standing.{IsAdmissible, evaluate_promotion_iff}

abbrev candidate : ModelArtifact
candidate = record {
  name = "pd";
  version = "2";
  origin = record { code_commit = "abc"; data_snapshot = "tag"; config_hash = "cfg" };
  definitions_fingerprint = "fp";
  stage = staging;
  model_card_path = some "card.md";
  validation_report_path = some "report.md";
  shadow_started_at = some 5;
}

-- The evaluation begins three days before training ends.
abbrev request : PromotionRequest ℕ
request = record {
  artifact = candidate;
  target = production;
  lift = some (record {
    metric = "auc";
    champion = 70;
    challenger = 72;
    window = record { train_end = 10 * day; eval_start = 7 * day; eval_end = 40 * day };
    population = "all";
  });
  rollback = some (record { trigger = "drift"; owner = "risk"; rehearsed_on = some 3 });
  ab_test = ran;
  ab_infeasible_reason = "";
  submitted_by = "analyst";
}

abbrev late : ℕ
late = minimum_shadow + 5

-- The artifact passes its gate, and the evidence alone refuses the promotion.
in_time_refused :
    ((can_promote "fp" candidate production late true true).allowed ≡ true)
    × ((evaluate_promotion "fp" request late true true).reasons
        ≡ of_evidence (overlaps_training 3) ∷ [])
unfolding evaluate_promotion can_promote gate_reasons production_reasons same_stage evidence_reasons
    is_out_of_time overlap_days
in_time_refused = (refl, refl)

evaluate_promotion_iff_example :
    ((evaluate_promotion "fp" request late true true).allowed ≡ true) ↔ (
      MayMove "fp" request.artifact request.target late true true
      × (same_stage request.target production ≡ true → IsAdmissible request))
evaluate_promotion_iff_example = evaluate_promotion_iff "fp" request late true true

-- Three days of grace and a half; the second activity is four days late, and the third never ran.
abbrev runs : Dict ℕ
runs = ("psi", 95) ∷ ("fairness", 60) ∷ []

abbrev fairness : Activity
fairness = record { name = "fairness"; frequency = monthly; owning_phase = "P1"; conditional = "" }

abbrev golden_set : Activity
golden_set = record {
  name = "golden set";
  frequency = quarterly;
  owning_phase = "P5";
  conditional = "";
}

abbrev watched : List Activity
watched =
    (record { name = "psi"; frequency = weekly; owning_phase = "P1"; conditional = "" })
    ∷ fairness
    ∷ golden_set
    ∷ []

two_are_late :
    overdue (pos 302400000000) 97 runs watched
    ≡ ok (
        (record { activity = fairness; last_run = some 60; days_late = some 4 })
        ∷ (record { activity = golden_set; last_run = none; days_late = none })
        ∷ [])
unfolding overdue overdue_from late_item interval_days is_future lookup
two_are_late = refl

-- A grace of three million days ends after the last date.
due_past_the_dates :
    overdue (pos 259200000000000000000) 700000 (("psi", 699999) ∷ []) watched ≡ err out_of_range
unfolding overdue overdue_from is_future is_beyond interval_days lookup
due_past_the_dates = refl

overdue_sound_example :
    ((n : ℕ)
      → pos 302400000000 ≡ negsuc n
      → overdue (pos 302400000000) 97 runs watched ≡ err negative_grace)
    × ((g : ℕ)
        → pos 302400000000 ≡ pos g
        → Reports g 97 runs watched (overdue (pos 302400000000) 97 runs watched))
overdue_sound_example = overdue_sound (pos 302400000000) 97 runs watched
