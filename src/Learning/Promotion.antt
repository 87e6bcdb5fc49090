-- ===== src/Learning/Promotion.antt =====
-- learning/promotion.py: the evidence offered for a promotion, and evaluate_promotion. Metrics are
-- recorded and never compared here, so their type `M` is a parameter; their difference is its
-- operation `minus`.
use Prim.Native.Nat.{min}
use ailending_hub.Prelude.{
  ℕ, ◌-◌, ◌/◌, Bool, true, false, not, ◌&&◌, Option, none, some, List, [], ◌∷◌, ◌++◌, map, String,
  leb, is_nil, is_blank, reason_if, is_some, if◌then◌else◌, Result, ok, ◌>>◌, raise_if,
}
use ailending_hub.Mlops.Artifact.{Stage, production, same_stage, ModelArtifact}
use ailending_hub.Mlops.Promotion.{Reason, PromotionDecision, can_promote}

pub data AbTestFeasibility : Type 0 where
  ran feasible_not_run infeasible : AbTestFeasibility

pub data PromotionError : Type 0 where
  empty_window : (eval_start eval_end : ℕ) → PromotionError
  no_infeasible_reason no_submitter : PromotionError

pub record EvaluationWindow : Type 0 where
  pub train_end : ℕ
  pub eval_start : ℕ
  pub eval_end : ℕ

-- `EvaluationWindow.__post_init__`
unfoldable pub evaluation_window : EvaluationWindow → Result PromotionError EvaluationWindow
evaluation_window w = do
  raise_if (leb w.eval_end w.eval_start) (empty_window w.eval_start w.eval_end)
  ok w

unfoldable pub is_out_of_time : EvaluationWindow → Bool
is_out_of_time w = leb w.train_end w.eval_start

abbrev pub day : ℕ
day = 86_400_000_000

unfoldable pub overlap_days : EvaluationWindow → ℕ
overlap_days w = if is_out_of_time w then 0 else (min w.train_end w.eval_end - w.eval_start) / day

pub record LiftMeasurement (M : Type 0) : Type 0 where
  pub metric : String
  pub champion : M
  pub challenger : M
  pub window : EvaluationWindow
  pub population : String

-- `LiftMeasurement.lift`
unfoldable pub lift_of : {M : Type 0} → (M → M → M) → LiftMeasurement M → M
lift_of minus l = minus l.challenger l.champion

pub record RollbackPlan : Type 0 where
  pub trigger : String
  pub owner : String
  pub rehearsed_on : Option ℕ

unfoldable pub is_rehearsed : RollbackPlan → Bool
is_rehearsed p = is_some p.rehearsed_on

pub record PromotionRequest (M : Type 0) : Type 0 where
  pub artifact : ModelArtifact
  pub target : Stage
  pub lift : Option (LiftMeasurement M)
  pub rollback : Option RollbackPlan
  pub ab_test : AbTestFeasibility
  pub ab_infeasible_reason : String
  pub submitted_by : String

unfoldable pub is_infeasible : AbTestFeasibility → Bool
is_infeasible infeasible = true
is_infeasible _ = false

-- `PromotionRequest.__post_init__`
unfoldable pub promotion_request :
    {M : Type 0} → PromotionRequest M → Result PromotionError (PromotionRequest M)
unfolding is_infeasible
promotion_request r = do
  raise_if (is_infeasible r.ab_test && is_blank r.ab_infeasible_reason) no_infeasible_reason
  raise_if (is_blank r.submitted_by) no_submitter
  ok r

pub data EvidenceReason : Type 0 where
  no_measured_lift : EvidenceReason
  overlaps_training : (days : ℕ) → EvidenceReason
  no_rollback_plan : EvidenceReason
  never_rehearsed : (owner : String) → EvidenceReason
  ab_feasible_not_run : EvidenceReason

-- A reason of the artifact's gate, or one of the evidence's.
pub data StandingReason : Type 0 where
  of_artifact : Reason → StandingReason
  of_evidence : EvidenceReason → StandingReason

pub record StandingDecision : Type 0 where
  pub allowed : Bool
  pub reasons : List StandingReason
  pub artifact_decision : PromotionDecision
  pub evidence_reasons : List EvidenceReason

unfoldable pub lift_reasons : {M : Type 0} → Option (LiftMeasurement M) → List EvidenceReason
lift_reasons none = no_measured_lift ∷ []
lift_reasons (some l) =
    reason_if (not (is_out_of_time l.window)) (overlaps_training (overlap_days l.window))

unfoldable pub rollback_reasons : Option RollbackPlan → List EvidenceReason
unfolding is_rehearsed
rollback_reasons none = no_rollback_plan ∷ []
rollback_reasons (some p) = reason_if (not (is_rehearsed p)) (never_rehearsed p.owner)

unfoldable pub ab_reasons : AbTestFeasibility → List EvidenceReason
ab_reasons feasible_not_run = ab_feasible_not_run ∷ []
ab_reasons _ = []

-- `_evidence_reasons`
unfoldable pub evidence_reasons : {M : Type 0} → PromotionRequest M → List EvidenceReason
unfolding lift_reasons rollback_reasons ab_reasons
evidence_reasons r = lift_reasons r.lift ++ (rollback_reasons r.rollback ++ ab_reasons r.ab_test)

unfoldable pub evaluate_promotion :
    {M : Type 0} → String → PromotionRequest M → ℕ → Bool → Bool → StandingDecision
evaluate_promotion fingerprint r now via_ci fallback_path_warm =
    let decision = can_promote fingerprint r.artifact r.target now via_ci fallback_path_warm in
    let evidence : List EvidenceReason =
      if same_stage r.target production then evidence_reasons r else [] in
    let reasons : List StandingReason =
      map of_artifact decision.reasons ++ map of_evidence evidence in
    record {
      allowed = is_nil reasons;
      reasons = reasons;
      artifact_decision = decision;
      evidence_reasons = evidence;
    }
