-- ===== src/Serving/Parity.antt =====
-- serving/parity.py: ParityCase, ParityReport and compare. The two paths, a row's `repr`, and the test
-- that two scores differ by more than the tolerance are parameters, and so are the floats: the scores,
-- and the division and the gate of a rate.
use ailending_hub.Prelude.{
  ℕ, suc, Bool, true, false, not, ◌==◌, Option, none, some, List, [], ◌∷◌, ◌++◌, String,
  if◌then◌else◌, str_eq, is_empty, Dict, lookup, Result, ok, err,
}

pub data Discrepancy : Type 0 where
  outcome_differs score_differs missing_in_candidate missing_in_reference error : Discrepancy

-- What a path returns for a row: the dict's `outcome` and `score`, where it has them.
pub record Scored (Score : Type 0) : Type 0 where
  pub outcome : Option String
  pub score : Option Score

-- What a case shows of a path: nothing, the whole result, its outcome or its score.
pub data Shown (Score : Type 0) : Type 0 where
  nothing : Shown Score
  a_result : Scored Score → Shown Score
  an_outcome : Option String → Shown Score
  a_score : Score → Shown Score

pub record ParityCase (Score : Type 0) : Type 0 where
  pub key : String
  pub kind : Discrepancy
  pub reference : Shown Score
  pub candidate : Shown Score
  pub detail : String

pub record ParityReport (Score : Type 0) : Type 0 where
  pub compared : ℕ
  pub agreed : ℕ
  pub cases : List (ParityCase Score)

-- `left.get("outcome") == right.get("outcome")`
abbrev pub same_outcome : Option String → Option String → Bool
same_outcome none none = true
same_outcome none (some b) = false
same_outcome (some a) none = false
same_outcome (some a) (some b) = str_eq a b

-- The scores are both there and differ.
abbrev pub both_differ :
    {Score : Type 0} → (Score → Score → Bool) → Option Score → Option Score → Bool
both_differ differ none _ = false
both_differ differ (some a) none = false
both_differ differ (some a) (some b) = differ a b

-- `x or rest`, of `dict.get`.
abbrev pub or_rest : Option String → String → String
or_rest none rest = rest
or_rest (some x) rest = if is_empty x then rest else x

abbrev pub empty_report : {Score : Type 0} → ParityReport Score
empty_report = record { compared = 0; agreed = 0; cases = [] }

-- `ParityReport.parity`: no rate without a row.
unfoldable pub parity : {Score F : Type 0} → (ℕ → ℕ → F) → ParityReport Score → Option F
parity divide report =
    if report.compared == 0 then none else some (divide report.agreed report.compared)

-- `ParityReport.passed`
unfoldable pub passed : {Score F : Type 0} → (ℕ → ℕ → F) → (F → Bool) → ParityReport Score → Bool
unfolding parity
passed divide meets_gate report = elim (parity divide report) [
  | none ↦ false
  | some p ↦ meets_gate p
]

unfoldable pub row_key : (Dict String → String) → Dict String → String
row_key repr row = or_rest (lookup "application_id" row) (or_rest (lookup "key" row) (repr row))

module _ {Score : Type 0} (differ : Score → Score → Bool) where
  -- The results have one outcome: do the scores agree?
  unfoldable pub score_case : String → Option Score → Option Score → Option (ParityCase Score)
  score_case key none _ = none
  score_case key (some a) none = none
  score_case key (some a) (some b) =
      if differ a b
      then some (record {
        key = key;
        kind = score_differs;
        reference = a_score a;
        candidate = a_score b;
        detail = "same outcome, different score — benign until the cutoff moves";
      })
      else none

  -- What the two results of a row show, where they do not agree.
  unfoldable pub discrepancy :
      String → Option (Scored Score) → Option (Scored Score) → Option (ParityCase Score)
  unfolding score_case
  discrepancy key none none = none
  discrepancy key (some l) none = some (record {
    key = key;
    kind = missing_in_candidate;
    reference = a_result l;
    candidate = nothing;
    detail = "platform produced no result — check the join";
  })
  discrepancy key none (some r) = some (record {
    key = key;
    kind = missing_in_reference;
    reference = nothing;
    candidate = a_result r;
    detail = "reference produced no result — check the sample definition";
  })
  discrepancy key (some l) (some r) =
      if not (same_outcome l.outcome r.outcome)
      then some (record {
        key = key;
        kind = outcome_differs;
        reference = an_outcome l.outcome;
        candidate = an_outcome r.outcome;
        detail = "";
      })
      else score_case key l.score r.score

  -- A path that raises, the reference first, is a case as well.
  unfoldable pub paths_case :
      String
      → Result String (Option (Scored Score))
      → Result String (Option (Scored Score))
      → Option (ParityCase Score)
  unfolding discrepancy
  paths_case key (err e) _ =
      some
        (record { key = key; kind = error; reference = nothing; candidate = nothing; detail = e })
  paths_case key (ok l) (err e) =
      some
        (record { key = key; kind = error; reference = nothing; candidate = nothing; detail = e })
  paths_case key (ok l) (ok r) = discrepancy key l r

module _ {Score : Type 0} (differ : Score → Score → Bool) (repr : Dict String → String)
    (reference candidate : Dict String → Result String (Option (Scored Score))) where
  -- The case of a row, if it has one.
  unfoldable pub row_case : Dict String → Option (ParityCase Score)
  unfolding row_key paths_case
  row_case row = paths_case differ (row_key repr row) (reference row) (candidate row)

  -- The body of the loop.
  unfoldable pub compare_row : ParityReport Score → Dict String → ParityReport Score
  unfolding row_case
  compare_row report row = elim (row_case row) [
    | none ↦ record report { compared = suc report.compared; agreed = suc report.agreed }
    | some c ↦ record report { compared = suc report.compared; cases = report.cases ++ c ∷ [] }
  ]

  unfoldable pub compare_from : ParityReport Score → List (Dict String) → ParityReport Score
  unfolding compare_row
  compare_from report [] = report
  compare_from report (row ∷ sample) = compare_from (compare_row report row) sample

  unfoldable pub compare : List (Dict String) → ParityReport Score
  unfolding compare_from
  compare sample = compare_from empty_report sample
