-- ===== src/Mlops/Tests.antt =====
-- A model that walks from registration to production, and the theorems at it.
use ailending_hub.Prelude.{ℕ, ◌+◌, ◌≡◌, ◌↔◌, refl, true, some, List, [], ◌∷◌, arith}
use ailending_hub.Mlops.Artifact.{none_stage, staging, production, same_stage, ModelArtifact}
use ailending_hub.Mlops.Promotion.{minimum_shadow, can_promote, gate_reasons, production_reasons}
use ailending_hub.Mlops.Gate.{MayMove, can_promote_iff}
use ailending_hub.Mlops.Registry.{
  Call, registering, moving, run, IsSafe, run-IsSafe, register, find, transition,
}

abbrev scorer : ModelArtifact
scorer = record {
  name = "pd";
  version = "1";
  origin = record { code_commit = "abc"; data_snapshot = "tag"; config_hash = "cfg" };
  definitions_fingerprint = "fp";
  stage = none_stage;
  model_card_path = some "card.md";
  validation_report_path = some "report.md";
  shadow_started_at = some 5;
}

abbrev late : ℕ
late = minimum_shadow + 5

abbrev calls : List Call
calls =
    registering scorer
    ∷ moving "pd" "1" staging true 6 true
    ∷ moving "pd" "1" production true 7 true
    ∷ moving "pd" "1" production true late true
    ∷ []

steps : Unit {0}
unfolding run register find transition can_promote gate_reasons production_reasons same_stage
steps = tt

-- The move on day 0 is refused, and the one after four weeks is made.
reaches_production : find "pd" "1" (run "fp" calls []) ≡ some (record scorer { stage = production })
unfolding steps
reaches_production = refl

run-IsSafe_example : IsSafe "fp" late (run "fp" calls [])
run-IsSafe_example =
    run-IsSafe "fp" late calls ((λ e. cc), (omega arith, (omega arith, (omega arith, tt))))

can_promote_iff_example :
    ((can_promote "fp" scorer production late true true).allowed ≡ true)
    ↔ MayMove "fp" scorer production late true true
can_promote_iff_example = can_promote_iff "fp" scorer production late true true
