-- ===== src/Mlops/Promotion.antt =====
-- mlops/promotion.py: can_promote. Each text of a reason is a constructor with the values that the
-- text names. The current definitions fingerprint is the parameter `fingerprint`.
use ailending_hub.Prelude.{
  ℕ, ◌+◌, ◌*◌, Bool, not, ◌||◌, Option, none, some, List, [], ◌∷◌, ◌++◌, String, ltb, str_eq,
  is_nil, reason_if, if◌then◌else◌,
}
use ailending_hub.Mlops.Artifact.{
  Stage, none_stage, staging, production, archived, same_stage, ModelArtifact, is_unset,
}

-- Four weeks, in microseconds.
abbrev pub minimum_shadow : ℕ
minimum_shadow = 28 * 86_400_000_000

-- `target in LEGAL_TRANSITIONS[stage]`
unfoldable pub is_legal : Stage → Stage → Bool
is_legal none_stage target = same_stage target staging || same_stage target archived
is_legal staging target =
    same_stage target production || same_stage target archived || same_stage target none_stage
is_legal production target = same_stage target archived || same_stage target staging
is_legal archived target = same_stage target staging

pub data Reason : Type 0 where
  illegal_transition : (from target : Stage) → Reason
  not_via_ci no_model_card no_validation_report never_in_shadow : Reason
  shadow_too_short : (started now : ℕ) → Reason
  fallback_not_warm : Reason
  stale_definitions : (trained_against current : String) → Reason

pub record PromotionDecision : Type 0 where
  pub allowed : Bool
  pub reasons : List Reason

unfoldable pub shadow_reasons : Option ℕ → ℕ → List Reason
shadow_reasons none now = never_in_shadow ∷ []
shadow_reasons (some started) now =
    reason_if (ltb now (started + minimum_shadow)) (shadow_too_short started now)

-- The conditions of a move to production.
unfoldable pub production_reasons : String → ModelArtifact → ℕ → Bool → List Reason
unfolding shadow_reasons
production_reasons fingerprint a now fallback_path_warm =
    reason_if (is_unset a.model_card_path) no_model_card
    ++ (reason_if (is_unset a.validation_report_path) no_validation_report
        ++ (shadow_reasons a.shadow_started_at now
            ++ (reason_if (not fallback_path_warm) fallback_not_warm
                ++ reason_if (not (str_eq a.definitions_fingerprint fingerprint))
                    (stale_definitions a.definitions_fingerprint fingerprint))))

unfoldable pub gate_reasons : String → ModelArtifact → Stage → ℕ → Bool → Bool → List Reason
unfolding is_legal
gate_reasons fingerprint a target now via_ci fallback_path_warm =
    reason_if (not (is_legal a.stage target)) (illegal_transition a.stage target)
    ++ (reason_if (not via_ci) not_via_ci
        ++ (if same_stage target production
            then production_reasons fingerprint a now fallback_path_warm
            else []))

unfoldable pub can_promote : String → ModelArtifact → Stage → ℕ → Bool → Bool → PromotionDecision
can_promote fingerprint a target now via_ci fallback_path_warm =
    let reasons = gate_reasons fingerprint a target now via_ci fallback_path_warm in
    record { allowed = is_nil reasons; reasons = reasons }
