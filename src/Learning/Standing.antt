-- ===== src/Learning/Standing.antt =====
-- The standing criterion composes the two gates: when a promotion is allowed, and on what evidence.
use ailending_hub.Prelude.{
  ℕ, ◌≤◌, ◌≡◌, ◌≢◌, refl, ◌↔◌, Bool, true, Option, none, some, List, [], ◌∷◌, map, String, arith,
  is_nil, is_nil-append, &&_iff, Bool-cases, inl, inr,
}
use ailending_hub.Mlops.Artifact.{production, same_stage}
use ailending_hub.Mlops.Promotion.{can_promote}
use ailending_hub.Mlops.Gate.{MayMove, can_promote_iff}
use ailending_hub.Learning.Promotion.{
  AbTestFeasibility, feasible_not_run, ran, infeasible, is_out_of_time, LiftMeasurement,
  RollbackPlan, PromotionRequest, lift_reasons, rollback_reasons, ab_reasons, evidence_reasons,
  evaluate_promotion,
}

-- Lift is measured, on a window that begins no earlier than training ends.
abbrev pub HasOutOfTimeLift : {M : Type 0} → Option (LiftMeasurement M) → Type 0
HasOutOfTimeLift none = ⊥
HasOutOfTimeLift (some l) = l.window.train_end ≤ l.window.eval_start

abbrev pub HasRehearsedPlan : Option RollbackPlan → Type 0
HasRehearsedPlan none = ⊥
HasRehearsedPlan (some p) = p.rehearsed_on ≢ none

-- The evidence that a move to production needs.
abbrev pub IsAdmissible : {M : Type 0} → PromotionRequest M → Type 0
IsAdmissible r =
    HasOutOfTimeLift r.lift × HasRehearsedPlan r.rollback × (r.ab_test ≢ feasible_not_run)

lift_iff :
    {M : Type 0} (o : Option (LiftMeasurement M))
    → (is_nil (lift_reasons o) ≡ true) ↔ HasOutOfTimeLift o
unfolding lift_reasons is_out_of_time
lift_iff none = ((λ h. cc), λ h. absurd h)
lift_iff (some l) = ground arith

rollback_iff : (o : Option RollbackPlan) → (is_nil (rollback_reasons o) ≡ true) ↔ HasRehearsedPlan o
unfolding rollback_reasons
rollback_iff none = ((λ h. cc), λ h. absurd h)
rollback_iff (some p) = ((λ h e. ground arith), λ h. ground arith)

ab_iff : (f : AbTestFeasibility) → (is_nil (ab_reasons f) ≡ true) ↔ (f ≢ feasible_not_run)
unfolding ab_reasons
ab_iff ran = ((λ h e. cc), λ h. refl)
ab_iff feasible_not_run = ((λ h. cc), λ h. absurd (h refl))
ab_iff infeasible = ((λ h e. cc), λ h. refl)

evidence_iff :
    {M : Type 0} (r : PromotionRequest M) → (is_nil (evidence_reasons r) ≡ true) ↔ IsAdmissible r
unfolding evidence_reasons
evidence_iff r =
    let (l, l') = lift_iff r.lift in
    let (b, b') = rollback_iff r.rollback in
    let (f, f') = ab_iff r.ab_test in
    simp is_nil-append (
      (λ h.
          let (p, q) = (&&_iff (is_nil (lift_reasons r.lift)) _).0 h in
          let (s, t) = (&&_iff (is_nil (rollback_reasons r.rollback)) _).0 q in (l p, b s, f t)),
      λ (p, q, s). (&&_iff _ _).1 (l' p, (&&_iff _ _).1 (b' q, f' s)),
    )

is_nil-map : {A B : Type 0} (f : A → B) (xs : List A) → is_nil (map f xs) ≡ is_nil xs
is_nil-map f [] = refl
is_nil-map f (x ∷ xs) = refl

-- A promotion is allowed exactly if the artifact passes the registry's gate and, where the target is
-- production, the evidence is admissible: out-of-time lift, a rehearsed rollback plan, and no A/B
-- test that was feasible and not run. A move to any other stage needs no evidence.
pub evaluate_promotion_iff :
    {M : Type 0} (fp : String) (r : PromotionRequest M) (now : ℕ) (via_ci warm : Bool)
    → ((evaluate_promotion fp r now via_ci warm).allowed ≡ true) ↔ (
        MayMove fp r.artifact r.target now via_ci warm
        × (same_stage r.target production ≡ true → IsAdmissible r))
unfolding evaluate_promotion can_promote
evaluate_promotion_iff fp r now via_ci warm =
    let (g, g') = can_promote_iff fp r.artifact r.target now via_ci warm in
    let (v, v') = evidence_iff r in
    elim (Bool-cases (same_stage r.target production)) [
      | inl t ↦
          simp (is_nil-append, is_nil-map)
            (
              (λ h.
                  let (p, q) =
                    (&&_iff (can_promote fp r.artifact r.target now via_ci warm).allowed _).0 h in
                  (g p, λ i. v (rw t at q))),
              λ (p, q).
                  (&&_iff (can_promote fp r.artifact r.target now via_ci warm).allowed _).1
                    (g' p, rw t (v' (q t))),
            )
      | inr f ↦
          simp (is_nil-append, is_nil-map)
            (
              (λ h.
                  let (p, q) =
                    (&&_iff (can_promote fp r.artifact r.target now via_ci warm).allowed _).0 h in
                  (g p, λ i. cc)),
              λ (p, q).
                  (&&_iff (can_promote fp r.artifact r.target now via_ci warm).allowed _).1
                    (g' p, rw f refl),
            )
    ]
