-- ===== src/Serving/Agreement.antt =====
-- What a parity report says of the two paths.
use ailending_hub.Prelude.{
  ℕ, suc, ◌+◌, ◌≡◌, ◌↔◌, refl, sym, ap, ◌∙◌, inl, inr, Bool, true, false, Option, none, some, List,
  [], ◌∷◌, ◌++◌, String, arith, Bool-cases, Option-cases, eq_iff, Dict, Result, ok, err, IsIn, All,
  All-IsIn, All_of, length, length-append,
}
use ailending_hub.Serving.Parity.{
  Scored, ParityCase, ParityReport, same_outcome, both_differ, discrepancy, score_case, paths_case,
  row_key, row_case, compare_row, compare_from, compare, empty_report, parity, passed,
}

-- Both paths return: both nothing, or results of one outcome whose scores, where both have one, do not differ.
abbrev pub Agrees :
    {Score : Type 0}
    → (Score → Score → Bool)
    → Result String (Option (Scored Score))
    → Result String (Option (Scored Score))
    → Type 0
Agrees differ (ok none) (ok none) = Unit
Agrees differ (ok (some l)) (ok (some r)) =
    (l.outcome ≡ r.outcome) × (both_differ differ l.score r.score ≡ false)
Agrees differ _ _ = ⊥

same_outcome_iff : (a b : Option String) → (same_outcome a b ≡ true) ↔ (a ≡ b)
same_outcome_iff none none = ((λ h. refl), λ h. refl)
same_outcome_iff none (some b) = ((λ h. ground arith), λ h. ground arith)
same_outcome_iff (some a) none = ((λ h. ground arith), λ h. ground arith)
same_outcome_iff (some a) (some b) =
    ((λ h. ap some ((eq_iff a b).0 h)), λ h. (eq_iff a b).1 (ground arith))

score_case_iff :
    {Score : Type 0} (differ : Score → Score → Bool) (key : String) (a b : Option Score)
    → (score_case differ key a b ≡ none) ↔ (both_differ differ a b ≡ false)
unfolding score_case
score_case_iff differ key none b = ((λ h. refl), λ h. refl)
score_case_iff differ key (some a) none = ((λ h. refl), λ h. refl)
score_case_iff differ key (some a) (some b) = ((λ h. ground arith), λ h. ground arith)

paths_case_iff :
    {Score : Type 0} (differ : Score → Score → Bool) (key : String)
    (l r : Result String (Option (Scored Score)))
    → (paths_case differ key l r ≡ none) ↔ Agrees differ l r
unfolding paths_case discrepancy
paths_case_iff differ key (err e) r = ((λ h. ground arith), λ h. absurd h)
paths_case_iff differ key (ok none) (err e) = ((λ h. ground arith), λ h. absurd h)
paths_case_iff differ key (ok (some l)) (err e) = ((λ h. ground arith), λ h. absurd h)
paths_case_iff differ key (ok none) (ok none) = ((λ h. tt), λ h. refl)
paths_case_iff differ key (ok none) (ok (some r)) = ((λ h. ground arith), λ h. absurd h)
paths_case_iff differ key (ok (some l)) (ok none) = ((λ h. ground arith), λ h. absurd h)
paths_case_iff differ key (ok (some l)) (ok (some r)) =
    let (same, same') = same_outcome_iff l.outcome r.outcome in
    let (near, near') = score_case_iff differ key l.score r.score in
    elim (Bool-cases (same_outcome l.outcome r.outcome)) [
      | inl t ↦ ((λ h. (same t, near (rw t at h))), λ (_, k). rw t (near' k))
      | inr f ↦ ((λ h. absurd (ground arith)), λ (e, _). absurd (ground (arith, same' e)))
    ]

module _ {Score : Type 0} (differ : Score → Score → Bool) (repr : Dict String → String)
    (reference candidate : Dict String → Result String (Option (Scored Score))) where
  compare_row-counts :
      (report : ParityReport Score) (row : Dict String)
      → let after = compare_row differ repr reference candidate report row in
        (after.compared ≡ suc report.compared)
        × (after.agreed + length after.cases ≡ suc (report.agreed + length report.cases))
  unfolding compare_row
  compare_row-counts report row =
      elim (Option-cases (row_case differ repr reference candidate row)) [
        | inl n ↦ rw (n, compare_row) (refl, omega arith)
        | inr (c, e) ↦
            rw (e, compare_row) (refl, omega (arith, length-append report.cases (c ∷ [])))
      ]

  compare_from-counts :
      (report : ParityReport Score) (sample : List (Dict String))
      → let after = compare_from differ repr reference candidate report sample in
        (after.compared ≡ report.compared + length sample)
        × (after.agreed + length after.cases ≡ report.agreed + length report.cases + length sample)
  unfolding compare_from
  compare_from-counts report [] = (omega arith, omega arith)
  compare_from-counts report (row ∷ sample) =
      let next = compare_row differ repr reference candidate report row in
      let (here, here') = compare_row-counts report row in
      let (rest, rest') = compare_from-counts next sample in (omega arith, omega arith)

  parity_empty :
      {F : Type 0} (divide : ℕ → ℕ → F) (meets_gate : F → Bool) (sample : List (Dict String))
      → sample ≡ []
      → let report = compare differ repr reference candidate sample in
        (parity divide report ≡ none) × (passed divide meets_gate report ≡ false)
  unfolding compare compare_from parity passed
  parity_empty divide meets_gate sample e = rw e (refl, refl)

  row_case_iff :
      (row : Dict String)
      → (row_case differ repr reference candidate row ≡ none)
        ↔ Agrees differ (reference row) (candidate row)
  unfolding row_case
  row_case_iff row = paths_case_iff differ (row_key repr row) (reference row) (candidate row)

  compare_row_iff :
      (report : ParityReport Score) (row : Dict String)
      → ((compare_row differ repr reference candidate report row).cases ≡ [])
        ↔ ((report.cases ≡ []) × Agrees differ (reference row) (candidate row))
  unfolding compare_row
  compare_row_iff report row =
      let (agree, agree') = row_case_iff row in
      elim (Option-cases (row_case differ repr reference candidate row)) [
        | inl n ↦ ((λ h. (rw (n, compare_row) at h, agree n)), λ (h, _). rw (n, compare_row) h)
        | inr (c, e) ↦ (
          (λ h. absurd (append_nil c report.cases (rw (e, compare_row) at h))),
          λ (_, a). absurd (some_none c (sym e ∙ agree' a)),
        )
      ]
    where
      append_nil : (c : ParityCase Score) (cs : List (ParityCase Score)) → cs ++ c ∷ [] ≡ [] → ⊥
      append_nil c [] h = ground arith
      append_nil c (d ∷ cs) h = ground arith

      some_none : (c : ParityCase Score) → some c ≡ none → ⊥
      some_none c h = ground arith

  compare_from_iff :
      (report : ParityReport Score) (sample : List (Dict String))
      → ((compare_from differ repr reference candidate report sample).cases ≡ [])
        ↔ ((report.cases ≡ []) × All (λ row. Agrees differ (reference row) (candidate row)) sample)
  unfolding compare_from
  compare_from_iff report [] = ((λ h. (h, tt)), λ (h, _). h)
  compare_from_iff report (row ∷ sample) =
      let (here, here') = compare_row_iff report row in
      let (rest, rest') =
        compare_from_iff (compare_row differ repr reference candidate report row) sample in
      (
        (λ h.
            let (h', all_agree) = rest h in
            let (h'', agrees) = here h' in (h'', (agrees, all_agree))),
        λ (h, (agrees, all_agree)). rest' (here' (h, agrees), all_agree),
      )

  -- Every row of the sample is counted once, as agreed or as one case. There is no case exactly if
  -- the two paths agree on every row: both return, and they return nothing, or one outcome and no two
  -- scores that differ. With no row there is no rate, whatever the division and the gate are, and the
  -- comparison does not pass.
  pub compare_sound :
      {F : Type 0} (divide : ℕ → ℕ → F) (meets_gate : F → Bool) (sample : List (Dict String))
      → let report = compare differ repr reference candidate sample in
        (report.compared ≡ length sample)
        × (report.agreed + length report.cases ≡ length sample)
        × ((report.cases ≡ []) ↔ (
            (row : Dict String) → IsIn row sample → Agrees differ (reference row) (candidate row)))
        × (sample ≡ [] → (parity divide report ≡ none) × (passed divide meets_gate report ≡ false))
  unfolding compare
  compare_sound divide meets_gate sample =
      let (all_rows, split) = compare_from-counts empty_report sample in
      let (down, up) = compare_from_iff empty_report sample in
      (
        omega arith,
        omega arith,
        (
          (λ h row m.
              All-IsIn (λ r. Agrees differ (reference r) (candidate r)) row sample (down h).1 m),
          λ agree. up (refl, All_of sample agree),
        ),
        parity_empty divide meets_gate sample,
      )
