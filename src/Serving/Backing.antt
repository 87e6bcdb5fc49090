-- ===== src/Serving/Backing.antt =====
-- What a decision of the model rests on.
use ailending_hub.Prelude.{
  ◌≤◌, ◌≡◌, ◌≢◌, refl, sym, subst, ap, ◌∙◌, inl, inr, Bool, true, Option, none, some, List, [], ◌∷◌,
  String, arith, lookup, Dict, Option-cases, Result, ok, err, ◌>>=◌,
}
use ailending_hub.DecisionLog.Json.{Json}
use ailending_hub.DecisionLog.Record.{
  Outcome, approve, decline, refer, model, DecisionRecord, RecordError, decision_record,
}
use ailending_hub.Serving.Bands.{
  Limit, pending, given, BandConfig, BandError, ungrounded, is_grounded, distinct_approvers,
  dual_control_satisfied, outcome_for, place_between,
}
use ailending_hub.Serving.Decide.{
  PolicyRule, Application, Orchestrator, DecisionResponse, scores_of, is_degraded, band_verdict,
  scored_verdict, verdict, fired_rules, decision_entry, response_of, decide,
}

module _ {F : Type 0} (le : F → F → Bool) (nought one : F) where
  -- Both cutoffs are set, two people approved them, the score is a probability, and an approval or a
  -- refusal is on the right side of its cutoff.
  abbrev pub Backs : BandConfig F → F → Outcome → Type 0
  Backs c pd o =
      (low high : F) × (c.approve_below ≡ given low)
      × (c.decline_above ≡ given high)
      × (2 ≤ distinct_approvers c)
      × (le nought pd ≡ true)
      × (le pd one ≡ true)
      × (o ≡ approve → le pd low ≡ true)
      × (o ≡ decline → le high pd ≡ true)

  outcome_for-Backs :
      (c : BandConfig F) (pd : F) (o : Outcome)
      → outcome_for le nought one c pd ≡ ok o
      → Backs c pd o
  unfolding outcome_for place_between dual_control_satisfied is_grounded
  outcome_for-Backs c pd o h = by_limits c.approve_below refl c.decline_above refl
    where
      by_limits :
          (l : Limit F) → c.approve_below ≡ l → (m : Limit F) → c.decline_above ≡ m → Backs c pd o
      by_limits pending e m e' = absurd (let h' = rw e at h in ground arith)
      by_limits (given low) e pending e' = absurd (let h' = rw (e, e') at h in ground arith)
      by_limits (given low) e (given high) e' =
          let h' = rw (e, e') at h in
          (
            low,
            high,
            e,
            e',
            ground arith,
            ground arith,
            ground arith,
            (λ p. ground arith),
            λ p. ground arith,
          )

  scored_verdict-Backs :
      (b : Option (BandConfig F)) (p : Option F)
      → (scored_verdict le nought one b p).outcome ≢ refer
      → (c : BandConfig F) × (pd : F) × (b ≡ some c)
        × (p ≡ some pd)
        × Backs c pd (scored_verdict le nought one b p).outcome
  unfolding scored_verdict band_verdict
  scored_verdict-Backs none p h = absurd (h refl)
  scored_verdict-Backs (some c) none h = absurd (h refl)
  scored_verdict-Backs (some c) (some pd) h = of_result (outcome_for le nought one c pd) refl h
    where
      of_result :
          (r : Result BandError Outcome)
          → outcome_for le nought one c pd ≡ r
          → (band_verdict le nought one pd r).outcome ≢ refer
          → (c' : BandConfig F) × (pd' : F) × (some c ≡ some c')
            × (some pd ≡ some pd')
            × Backs c' pd' (band_verdict le nought one pd r).outcome
      of_result (ok o) e k = (c, pd, refl, refl, outcome_for-Backs c pd o e)
      of_result (err ungrounded) e k = absurd (k refl)
      of_result (err _) e k = absurd (k (ground arith))

  verdict-Backs :
      (o : Orchestrator F) (fired : List (PolicyRule F)) (values : Dict (Json F))
      → let v = verdict le nought one o fired values in
        v.decided_by ≡ model
        → v.outcome ≢ refer
        → (c : BandConfig F) × (pd : F) × (o.bands ≡ some c)
          × (lookup "pd" (scores_of o.scorer values) ≡ some pd)
          × Backs c pd v.outcome
  unfolding verdict is_degraded scores_of
  verdict-Backs o (rule ∷ rest) values m h = absurd (ground arith)
  verdict-Backs o [] values m h = elim (Option-cases o.scorer) [
    | inl e ↦ absurd (let h' = rw e at h in h' refl)
    | inr (f, e) ↦ elim (Option-cases (f values)) [
      | inl e' ↦ absurd (let h' = rw (e, e') at h in h' refl)
      | inr (s, e') ↦
          let h' = rw (e, e') at h in rw (e, e') (scored_verdict-Backs o.bands (lookup "pd" s) h')
    ]
  ]

  decision_record-same : (d e : DecisionRecord F) → decision_record d ≡ ok e → e ≡ d
  unfolding decision_record
  decision_record-same d e h = ground arith

module _ {F : Type 0} (le : F → F → Bool) (nought one : F)
    (band_version : BandConfig F → String) where
  decide-entry :
      (fresh_id now : String) (o : Orchestrator F) (a : Application F) (values : Dict (Json F))
      (r : DecisionResponse F)
      → decide le nought one band_version fresh_id now o a values ≡ ok r
      → let d = decision_entry le nought one band_version fresh_id now o a values in
        (r.outcome ≡ d.outcome)
        × (r.decided_by ≡ d.decided_by)
        × (r.scores ≡ scores_of o.scorer values)
        × (r.entry ≡ d)
  unfolding decide
  decide-entry fresh_id now o a values r h =
      of_record
        (decision_record (decision_entry le nought one band_version fresh_id now o a values)) refl h
    where
      of_record :
          (e : Result RecordError (DecisionRecord F))
          → decision_record (decision_entry le nought one band_version fresh_id now o a values) ≡ e
          → (e >>= λ entry. ok (response_of le nought one band_version o values entry)) ≡ ok r
          → let d = decision_entry le nought one band_version fresh_id now o a values in
            (r.outcome ≡ d.outcome)
            × (r.decided_by ≡ d.decided_by)
            × (r.scores ≡ scores_of o.scorer values)
            × (r.entry ≡ d)
      of_record (err x) eq k = absurd (ground arith)
      of_record (ok entry) eq k =
          let same =
            decision_record-same le nought one
              (decision_entry le nought one band_version fresh_id now o a values) entry eq in
          (cc, cc, cc, cc)

  -- Where the model's decision is not a referral, it comes from the bands in force: the score `pd`
  -- is a probability, both cutoffs are set, at least two different people approved them, and an
  -- approval has a score at most the lower cutoff, a refusal one at least the upper.
  pub decide-Backs :
      (fresh_id now : String) (o : Orchestrator F) (a : Application F) (values : Dict (Json F))
      (r : DecisionResponse F)
      → decide le nought one band_version fresh_id now o a values ≡ ok r
      → r.decided_by ≡ model
      → r.outcome ≢ refer
      → (c : BandConfig F) × (pd : F) × (o.bands ≡ some c)
        × (lookup "pd" r.scores ≡ some pd)
        × Backs le nought one c pd r.outcome
  unfolding decision_entry
  decide-Backs fresh_id now o a values r h by_model decided =
      let (e_outcome, e_actor, e_scores, e_entry) = decide-entry fresh_id now o a values r h in
      let fired = fired_rules le nought one band_version o a values in
      let (c, pd, has_bands, has_pd, backed) =
        verdict-Backs le nought one o fired values (sym e_actor ∙ by_model)
          (λ e. decided (e_outcome ∙ e)) in
      (
        c,
        pd,
        has_bands,
        ap (lookup "pd") e_scores ∙ has_pd,
        subst (Backs le nought one c pd) (sym e_outcome) backed,
      )
