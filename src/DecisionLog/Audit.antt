-- ===== src/DecisionLog/Audit.antt =====
-- When the replay audit passes.
use ailending_hub.Prelude.{
  ◌+◌, ◌≡◌, ◌≢◌, ◌<◌, ◌↔◌, ◌⊎◌, refl, Bool, true, false, ◌&&◌, Option, none, some, List, [], ◌∷◌,
  ◌++◌, String, arith, Dict, lookup, is_some, is_nil, All, length, Bool-cases, inl, inr,
  Option-cases, &&_iff, is_nil-append, subst,
}
use ailending_hub.DecisionLog.Record.{ModelRef}
use ailending_hub.DecisionLog.Replay.{
  Logged, ReplayReport, empty_report, logged_mismatches, extra_mismatches, entry_mismatches,
  same_score, get_score, audit_scores, audit_model, audit_entry, audit_from, spot_audit, passed,
}

module _ {S : Type 0} (equal : S → S → Bool)
    (scorer : ModelRef → Dict S → Option (Dict (Option S))) where
  -- A logged None is replayed as None or not at all, and a logged value as an equal value.
  abbrev pub Reproduced : Dict (Option S) → String × Option S → Type 0
  Reproduced replayed (name, none) =
      (lookup name replayed ≡ none) ⊎ (lookup name replayed ≡ some none)
  Reproduced replayed (name, some v) =
      (w : S) × (lookup name replayed ≡ some (some w)) × (equal v w ≡ true)

  -- Every logged score is reproduced, and no other name is replayed.
  abbrev pub SameScores : Dict (Option S) → Dict (Option S) → Type 0
  SameScores logged replayed =
      All (Reproduced replayed) logged
      × All (λ ((name, w) : String × Option S). is_some (lookup name logged) ≡ true) replayed

  -- The decision has no model, or its first model resolves and re-scores to the logged scores.
  abbrev pub ReplaysWith : Logged S → List ModelRef → Type 0
  ReplaysWith e [] = Unit
  ReplaysWith e (m ∷ ms) =
      (replayed : Dict (Option S)) × (scorer m e.feature_values ≡ some replayed)
      × SameScores e.scores replayed

  abbrev pub Replays : Logged S → Type 0
  Replays e = ReplaysWith e e.models

  same_score-Reproduced :
      (replayed : Dict (Option S)) (name : String) (v : Option S)
      → (same_score equal scorer v (get_score equal scorer name replayed) ≡ true)
        ↔ Reproduced replayed (name, v)
  unfolding same_score
  same_score-Reproduced replayed name none = elim (Option-cases (lookup name replayed)) [
    | inl e ↦ rw (e, get_score) ((λ h. inl refl), λ h. refl)
    | inr (none, e) ↦ rw (e, get_score) ((λ h. inr refl), λ h. refl)
    | inr (some w, e) ↦ rw (e, get_score) ((λ h. cc), λ h. elim h [ inl a ↦ cc | inr a ↦ cc ])
  ]
  same_score-Reproduced replayed name (some v) = elim (Option-cases (lookup name replayed)) [
    | inl e ↦ rw (e, get_score) ((λ h. cc), λ h. cc)
    | inr (none, e) ↦ rw (e, get_score) ((λ h. cc), λ h. cc)
    | inr (some w, e) ↦ rw (e, get_score) ((λ h. (w, refl, h)), λ (w', same, h). cc)
  ]

  logged_mismatches_iff :
      (id : String) (logged replayed : Dict (Option S))
      → (is_nil (logged_mismatches equal scorer id logged replayed) ≡ true)
        ↔ All (Reproduced replayed) logged
  unfolding logged_mismatches
  logged_mismatches_iff id [] replayed = ((λ h. tt), λ h. refl)
  logged_mismatches_iff id ((name, v) ∷ rest) replayed =
      let (down, up) = logged_mismatches_iff id rest replayed in
      let (to, from) = same_score-Reproduced replayed name v in
      elim (Bool-cases (same_score equal scorer v (get_score equal scorer name replayed))) [
        | inl t ↦ rw t ((λ h. (to t, down h)), λ h. up h.1)
        | inr f ↦ rw f ((λ h. cc), λ h. let t = from h.0 in cc)
      ]

  extra_mismatches_iff :
      (id : String) (logged replayed : Dict (Option S))
      → (is_nil (extra_mismatches equal scorer id logged replayed) ≡ true)
        ↔ All (λ ((name, w) : String × Option S). is_some (lookup name logged) ≡ true) replayed
  unfolding extra_mismatches
  extra_mismatches_iff id logged [] = ((λ h. tt), λ h. refl)
  extra_mismatches_iff id logged ((name, w) ∷ rest) =
      let (down, up) = extra_mismatches_iff id logged rest in
      elim (Bool-cases (is_some (lookup name logged))) [
        | inl t ↦ rw t ((λ h. (refl, down h)), λ h. up h.1)
        | inr f ↦ rw f ((λ h. cc), λ h. cc)
      ]

  is_nil-snoc : {A : Type 0} (xs : List A) (y : A) → is_nil (xs ++ y ∷ []) ≡ false
  is_nil-snoc [] y = refl
  is_nil-snoc (x ∷ xs) y = refl

  entry_mismatches_iff :
      (e : Logged S) (replayed : Dict (Option S))
      → (is_nil (entry_mismatches equal scorer e replayed) ≡ true) ↔ SameScores e.scores replayed
  unfolding entry_mismatches
  entry_mismatches_iff e replayed =
      let (down, up) = logged_mismatches_iff e.decision_id e.scores replayed in
      let (down', up') = extra_mismatches_iff e.decision_id e.scores replayed in
      rw is_nil-append (
        (λ h. let (p, q) = (&&_iff _ _).0 h in (down p, down' q)),
        λ (p, q). (&&_iff _ _).1 (up p, up' q),
      )

  abbrev is_clean : ReplayReport S → Bool
  is_clean r = is_nil r.mismatches && is_nil r.unreplayable

  audit_model-is_clean :
      (e : Logged S) (ms : List ModelRef) (r : ReplayReport S)
      → (is_clean (audit_model equal scorer e ms r) ≡ true)
        ↔ ((is_clean r ≡ true) × ReplaysWith e ms)
  unfolding audit_model audit_scores
  audit_model-is_clean e [] r = ((λ h. (h, tt)), λ h. h.0)
  audit_model-is_clean e (m ∷ ms) r = elim (Option-cases (scorer m e.feature_values)) [
    | inl lost ↦
        rw (lost, audit_model)
          ((λ h. absurd (no_unreplayable r h)), λ (c, (replayed, found, same)). cc)
    | inr (replayed, found) ↦
        let (down, up) = entry_mismatches_iff e replayed in
        rw (found, audit_model, is_nil-append)
          (
            (λ h.
                let (p, q) = (&&_iff _ _).0 h in
                let (p0, p1) = (&&_iff _ _).0 p in
                ((&&_iff _ _).1 (p0, q), (replayed, refl, down p1))),
            λ (c, (replayed', found', same)).
                let (c0, c1) = (&&_iff _ _).0 c in
                let e' : replayed' ≡ replayed = cc in
                (&&_iff _ _).1 ((&&_iff _ _).1 (c0, up (subst (SameScores e.scores) e' same)), c1),
          )
  ]
    where
      no_unreplayable :
          (r : ReplayReport S)
          → (is_nil r.mismatches && is_nil (r.unreplayable ++ e.decision_id ∷ [])) ≡ true
          → ⊥
      no_unreplayable r h =
          let (p, q) =
            (&&_iff (is_nil r.mismatches) (is_nil (r.unreplayable ++ e.decision_id ∷ []))).0 h in
          cc (q, is_nil-snoc r.unreplayable e.decision_id)

  sampled-audit_entry :
      (e : Logged S) (r : ReplayReport S) → (audit_entry equal scorer e r).sampled ≡ r.sampled + 1
  unfolding audit_entry
  sampled-audit_entry e r = sampled-audit_model e.models
    where
      sampled-audit_model :
          (ms : List ModelRef)
          → (audit_model equal scorer e ms (record r { sampled = r.sampled + 1 })).sampled
            ≡ r.sampled + 1
      sampled-audit_model [] = refl
      sampled-audit_model (m ∷ ms) = ground arith

  audit_entry-is_clean :
      (e : Logged S) (r : ReplayReport S)
      → (is_clean (audit_entry equal scorer e r) ≡ true) ↔ ((is_clean r ≡ true) × Replays e)
  unfolding audit_entry
  audit_entry-is_clean e r = audit_model-is_clean e e.models (record r { sampled = r.sampled + 1 })

  audit_from-is_clean :
      (es : List (Logged S)) (r : ReplayReport S)
      → (is_clean (audit_from equal scorer es r) ≡ true) ↔ ((is_clean r ≡ true) × All Replays es)
  unfolding audit_from
  audit_from-is_clean [] r = ((λ h. (h, tt)), λ h. h.0)
  audit_from-is_clean (e ∷ es) r =
      let (down, up) = audit_from-is_clean es (audit_entry equal scorer e r) in
      let (down', up') = audit_entry-is_clean e r in
      (
        (λ h. let (c, rest) = down h in let (c', first) = down' c in (c', (first, rest))),
        λ (c, (first, rest)). up (up' (c, first), rest),
      )

  sampled-audit_from :
      (es : List (Logged S)) (r : ReplayReport S)
      → (audit_from equal scorer es r).sampled ≡ r.sampled + length es
  unfolding audit_from
  sampled-audit_from [] r = omega arith
  sampled-audit_from (e ∷ es) r =
      omega (arith, sampled-audit_from es (audit_entry equal scorer e r), sampled-audit_entry e r)

  -- The audit passes exactly if something was sampled and every sampled decision replays: it has no
  -- model, or its first model resolves and returns the logged scores and no others, where a logged
  -- None may also be left out.
  pub passed-spot_audit :
      (sample : List (Logged S))
      → (passed (spot_audit equal scorer sample) ≡ true) ↔ ((sample ≢ []) × All Replays sample)
  unfolding passed spot_audit audit_from
  passed-spot_audit [] = ((λ h. cc), λ (some_drawn, r). absurd (some_drawn refl))
  passed-spot_audit (e ∷ es) =
      let (down, up) = audit_from-is_clean (e ∷ es) (empty_report S) in
      let n : 0 < (audit_from equal scorer (e ∷ es) (empty_report S)).sampled =
        omega (arith, sampled-audit_from (e ∷ es) (empty_report S)) in
      (
        (λ h. ((λ e. cc), (down (ground arith)).1)),
        λ (some_drawn, r). let clean = up (refl, r) in ground arith,
      )
