-- ===== src/Mlops/Gate.antt =====
-- Exactly when the registry's promotion gate lets a move through.
use ailending_hub.Prelude.{
  ℕ, ◌+◌, ◌≤◌, ◌≡◌, refl, ◌↔◌, Bool, true, false, not, ◌&&◌, Option, none, some, String, arith,
  str_eq, eq_iff, is_nil, Bool-cases, inl, inr, is_nil-append, is_nil-reason_if,
}
use ailending_hub.Mlops.Artifact.{Stage, production, same_stage, ModelArtifact, is_unset}
use ailending_hub.Mlops.Promotion.{
  minimum_shadow, is_legal, shadow_reasons, production_reasons, gate_reasons, can_promote,
}

-- Shadow began at least four weeks before `now`.
abbrev pub RanShadow : Option ℕ → ℕ → Type 0
RanShadow none now = ⊥
RanShadow (some started) now = started + minimum_shadow ≤ now

-- What a move to production asks of the artifact and of the platform.
abbrev pub IsReady : String → ModelArtifact → ℕ → Bool → Type 0
IsReady fingerprint a now fallback_path_warm =
    (is_unset a.model_card_path ≡ false)
    × (is_unset a.validation_report_path ≡ false)
    × RanShadow a.shadow_started_at now
    × (fallback_path_warm ≡ true)
    × (a.definitions_fingerprint ≡ fingerprint)

shadow_iff : (o : Option ℕ) (now : ℕ) → (is_nil (shadow_reasons o now) ≡ true) ↔ RanShadow o now
unfolding shadow_reasons
shadow_iff none now = ((λ h. cc), λ h. absurd h)
shadow_iff (some s) now = ground arith

all_clear :
    (a b s w f : Bool)
    → ((not a && (not b && (s && (not (not w) && not (not f))))) ≡ true)
      ↔ ((a ≡ false) × (b ≡ false) × (s ≡ true) × (w ≡ true) × (f ≡ true))
all_clear a b s w f = ((λ h. ground arith), λ (p, q, r, t, u). ground arith)

production_iff :
    (fp : String) (a : ModelArtifact) (now : ℕ) (warm : Bool)
    → (is_nil (production_reasons fp a now warm) ≡ true) ↔ IsReady fp a now warm
unfolding production_reasons
production_iff fp a now warm =
    let (down, up) = shadow_iff a.shadow_started_at now in
    let (e, e') = eq_iff a.definitions_fingerprint fp in
    let (split, join) =
      all_clear (is_unset a.model_card_path) (is_unset a.validation_report_path)
        (is_nil (shadow_reasons a.shadow_started_at now)) warm
        (str_eq a.definitions_fingerprint fp) in
    simp (is_nil-append, is_nil-reason_if)
      (
        (λ h.
            let (card, report, shadow, w, same) = split h in
            (card, report, down shadow, w, e same)),
        λ (card, report, shadow, w, same). join (card, report, up shadow, w, e' same),
      )

gate_clear :
    (l c r : Bool)
    → ((not (not l) && (not (not c) && r)) ≡ true) ↔ ((l ≡ true) × (c ≡ true) × (r ≡ true))
gate_clear l c r = ((λ h. ground arith), λ (p, q, s). ground arith)

-- What the gate asks of a move: a legal transition, made by CI, and for a move to production the
-- evidence as well.
abbrev pub MayMove : String → ModelArtifact → Stage → ℕ → Bool → Bool → Type 0
MayMove fingerprint a target now via_ci fallback_path_warm =
    (is_legal a.stage target ≡ true)
    × (via_ci ≡ true)
    × (same_stage target production ≡ true → IsReady fingerprint a now fallback_path_warm)

-- The gate allows a move exactly if the transition is legal, CI makes it and, where the target is
-- production, the model card, the validation report, four weeks of shadow, a warm fallback and the
-- current definitions are there.
pub can_promote_iff :
    (fp : String) (a : ModelArtifact) (target : Stage) (now : ℕ) (via_ci warm : Bool)
    → ((can_promote fp a target now via_ci warm).allowed ≡ true)
      ↔ MayMove fp a target now via_ci warm
unfolding can_promote gate_reasons
can_promote_iff fp a target now via_ci warm =
    let (down, up) = production_iff fp a now warm in
    elim (Bool-cases (same_stage target production)) [
      | inl t ↦
          let (split, join) =
            gate_clear (is_legal a.stage target) via_ci
              (is_nil (production_reasons fp a now warm)) in
          rw t (
            simp (is_nil-append, is_nil-reason_if)
              (
                (λ h. let (p, q, r) = split h in (p, q, λ i. down r)),
                λ (p, q, r). join (p, q, up (r refl)),
              ))
      | inr f ↦
          let (split, join) = gate_clear (is_legal a.stage target) via_ci true in
          rw f (
            simp (is_nil-append, is_nil-reason_if)
              ((λ h. let (p, q, r) = split h in (p, q, λ i. cc)), λ (p, q, r). join (p, q, refl)))
    ]
