-- ===== src/Serving/Precedence.antt =====
-- Who decides an application.
use ailending_hub.Prelude.{
  ◌≡◌, ◌≢◌, refl, ◌⊎◌, inl, inr, Bool, false, Option, none, some, List, [], ◌∷◌, String, arith,
  is_empty, lookup, Dict, Option-cases, Result, ok, err,
}
use ailending_hub.DecisionLog.Json.{Json}
use ailending_hub.DecisionLog.Record.{
  Outcome, refer, Actor, model, policy_rule, human, fallback, ModelRef, decision_record_iff,
}
use ailending_hub.Serving.Bands.{BandConfig, BandError, outcome_for}
use ailending_hub.Serving.Decide.{
  PolicyRule, Application, Orchestrator, DecisionResponse, scores_of, is_degraded, band_verdict,
  scored_verdict, verdict, effective_policy_version, fired_rules, decision_entry, response_of,
  decide,
}

module _ {F : Type 0} (le : F → F → Bool) (nought one : F) where
  -- What the scorer answers: none where there is none or it is unavailable.
  abbrev pub answer : Orchestrator F → Dict (Json F) → Option (Dict F)
  answer o values = elim o.scorer [ none ↦ none | some f ↦ f values ]

  -- The first rule that fired decides; without one, the fallback refers where no model answers, and
  -- the model decides where one does.
  abbrev pub Decided :
      Orchestrator F → Dict (Json F) → List (PolicyRule F) → Outcome → Actor → Type 0
  Decided o values (rule ∷ rest) outcome actor = (outcome ≡ rule.outcome) × (actor ≡ policy_rule)
  Decided o values [] outcome actor =
      ((answer o values ≡ none) × (outcome ≡ refer) × (actor ≡ fallback))
      ⊎ ((s : Dict F) × (answer o values ≡ some s) × (actor ≡ model))

  scored_verdict-model :
      (b : Option (BandConfig F)) (p : Option F)
      → (scored_verdict le nought one b p).decided_by ≡ model
  unfolding scored_verdict band_verdict
  scored_verdict-model none p = refl
  scored_verdict-model (some c) none = refl
  scored_verdict-model (some c) (some pd) = of_result (outcome_for le nought one c pd)
    where
      of_result :
          (r : Result BandError Outcome) → (band_verdict le nought one pd r).decided_by ≡ model
      of_result (ok o) = refl
      of_result (err e) = ground arith

  verdict-Decided :
      (o : Orchestrator F) (fired : List (PolicyRule F)) (values : Dict (Json F))
      → let v = verdict le nought one o fired values in
        Decided o values fired v.outcome v.decided_by
  unfolding verdict is_degraded scores_of
  verdict-Decided o (rule ∷ rest) values = (refl, refl)
  verdict-Decided o [] values = elim (Option-cases o.scorer) [
    | inl e ↦ rw e (inl (refl, refl, refl))
    | inr (f, e) ↦ elim (Option-cases (f values)) [
      | inl e' ↦ rw (e, e') (inl (refl, refl, refl))
      | inr (s, e') ↦ rw (e, e') (inr (s, refl, scored_verdict-model o.bands (lookup "pd" s)))
    ]
  ]

module _ {F : Type 0} (le : F → F → Bool) (nought one : F)
    (band_version : BandConfig F → String) where
  not_human :
      (o : Orchestrator F) (values : Dict (Json F)) (fired : List (PolicyRule F)) (out : Outcome)
      (actor : Actor)
      → Decided le nought one o values fired out actor
      → actor ≢ human
  not_human o values (rule ∷ rest) out actor (e, p) h = absurd (ground arith)
  not_human o values [] out actor (inl (n, e, p)) h = absurd (ground arith)
  not_human o values [] out actor (inr (s, n, p)) h = absurd (ground arith)

  answering :
      (o : Orchestrator F) (values : Dict (Json F)) (fired : List (PolicyRule F)) (out : Outcome)
      (actor : Actor)
      → Decided le nought one o values fired out actor
      → actor ≡ model
      → is_degraded o.scorer values ≡ false
  unfolding is_degraded
  answering o values (rule ∷ rest) out actor (e, p) h = absurd (ground arith)
  answering o values [] out actor (inl (n, e, p)) h = absurd (ground arith)
  answering o values [] out actor (inr (s, n, p)) h = elim (Option-cases o.scorer) [
    | inl e ↦ rw e
    | inr (f, e) ↦ elim (Option-cases (f values)) [
      | inl e' ↦ absurd (let n' = rw (e, e') at n in ground arith)
      | inr (t, e') ↦ rw (e, e')
    ]
  ]

  -- With a model reference and a policy version, every application is decided, without an error, and
  -- the outcome is that of the first policy rule that fires, whatever the model says; where none
  -- fires, a referral by the fallback if no model answers, and otherwise the model's. The logged
  -- record names the same outcome and the same actor.
  pub decide-Decided :
      (fresh_id now : String) (o : Orchestrator F) (a : Application F) (values : Dict (Json F))
      (m : ModelRef)
      → o.model_ref ≡ some m
      → is_empty (effective_policy_version band_version o) ≡ false
      → (r : DecisionResponse F) × (decide le nought one band_version fresh_id now o a values
          ≡ ok r)
        × Decided le nought one o values
            (fired_rules le nought one band_version o a values)
            r.outcome
            r.decided_by
        × (r.entry.outcome ≡ r.outcome)
        × (r.entry.decided_by ≡ r.decided_by)
  unfolding decide decision_entry
  decide-Decided fresh_id now o a values m has_model versioned =
      let fired = fired_rules le nought one band_version o a values in
      let v = verdict le nought one o fired values in
      let decided = verdict-Decided le nought one o fired values in
      let human_free = not_human o values fired v.outcome v.decided_by decided in
      let d = decision_entry le nought one band_version fresh_id now o a values in
      let accepted = (decision_record_iff d).1 (
        (λ by_model.
            let up = answering o values fired v.outcome v.decided_by decided by_model in
            rw (has_model, up) (λ e. cc)),
        (λ by_human. absurd (human_free by_human)),
        versioned,
      ) in
      (response_of le nought one band_version o values d, rw accepted refl, decided, refl, refl)
