-- ===== src/Fraud/Queue.antt =====
-- fraud/routing.py: the dispositions and their taxonomy, Case and CaseQueue. An instant is a number
-- of microseconds. A case changes only through its queue here; `F` is the type of scores.
use Prim.Native.String.{◌++◌ as joined}
use ailending_hub.Prelude.{
  ℕ, ◌+◌, Bool, true, false, not, ◌&&◌, Option, none, some, List, [], ◌∷◌, String, str_eq, is_nil,
  is_empty, if◌then◌else◌, Result, ok, err, ◌>>=◌, ◌>>◌, raise_if, Dict, lookup, insert, contains,
  values, is_some, length, filter, count_if, ltb, ◌==◌,
}
use ailending_hub.Fraud.Bands.{
  no_reason, Action, pass, RoutingError, no_reference, passed_application, case_exists,
  no_such_case, already_closed, no_analyst, not_in_taxonomy, not_ratified, no_disposition,
  more_confirmed_than_closed,
}

pub data DispositionOutcome : Type 0 where
  confirmed_fraud not_fraud inconclusive : DispositionOutcome

pub record Disposition : Type 0 where
  pub code : String
  pub outcome : DispositionOutcome
  pub description : String

abbrev pub is_conclusive : DispositionOutcome → Bool
is_conclusive inconclusive = false
is_conclusive _ = true

-- `Disposition.is_training_label`
unfoldable pub is_training_label : Disposition → Bool
is_training_label d = is_conclusive d.outcome

abbrev pub is_confirmed : DispositionOutcome → Bool
is_confirmed confirmed_fraud = true
is_confirmed _ = false

pub record DispositionTaxonomy : Type 0 where
  pub codes : Dict Disposition
  pub ratified : Bool
  pub provenance : String

-- `{d.code: d for d in dispositions}`
unfoldable pub by_code : List Disposition → Dict Disposition → Dict Disposition
by_code [] codes = codes
by_code (d ∷ ds) codes = by_code ds (insert d.code d codes)

-- `DispositionTaxonomy.from_policy`
unfoldable pub ratified_taxonomy :
    List Disposition → String → Result RoutingError DispositionTaxonomy
unfolding by_code
ratified_taxonomy dispositions decision_reference = do
  raise_if (is_empty decision_reference) no_reference
  ok (record { codes = by_code dispositions []; ratified = true; provenance = decision_reference })

-- `DispositionTaxonomy.for_experiment`
unfoldable pub experiment_taxonomy :
    List Disposition → String → Result RoutingError DispositionTaxonomy
unfolding by_code
experiment_taxonomy dispositions reason = do
  raise_if (is_empty reason) no_reason
  ok (record {
    codes = by_code dispositions [];
    ratified = false;
    provenance = joined "stand-in, not the approved taxonomy: " reason;
  })

-- `DispositionTaxonomy.resolve`
unfoldable pub resolve_code : DispositionTaxonomy → String → Result RoutingError Disposition
resolve_code taxonomy code = elim (lookup code taxonomy.codes) [
  | none ↦ err (not_in_taxonomy code)
  | some d ↦ ok d
]

pub record Case (F : Type 0) : Type 0 where
  pub case_id : String
  pub application_id : String
  pub action : Action
  pub score : F
  pub opened_at : ℕ
  pub signal : String
  pub closed_at : Option ℕ
  pub disposition : Option Disposition
  pub analyst : String

pub record CaseQueue (F : Type 0) : Type 0 where
  pub taxonomy : DispositionTaxonomy
  pub cases : Dict (Case F)

abbrev pub is_pass : Action → Bool
is_pass pass = true
is_pass _ = false

-- definitions/appendix_a.py, `alert_precision`: its numerator and denominator; none where it is None.
unfoldable pub alert_precision : ℕ → ℕ → Result RoutingError (Option (ℕ × ℕ))
alert_precision confirmed total = do
  raise_if (ltb total confirmed) more_confirmed_than_closed
  ok (if total == 0 then none else some (confirmed, total))

module _ {F : Type 0} where
  -- `Case.open`
  unfoldable pub is_open : Case F → Bool
  is_open c = not (is_some c.closed_at)

  abbrev pub new_case : String → String → Action → F → ℕ → String → Case F
  new_case case_id application_id action score opened_at signal = record {
    case_id = case_id;
    application_id = application_id;
    action = action;
    score = score;
    opened_at = opened_at;
    signal = signal;
    closed_at = none;
    disposition = none;
    analyst = "";
  }

  -- `open_case`: the queue with the case.
  unfoldable pub open_case :
      String → String → Action → F → ℕ → String → CaseQueue F → Result RoutingError (CaseQueue F)
  open_case case_id application_id action score opened_at signal q = do
    raise_if (is_pass action) passed_application
    raise_if (contains case_id q.cases) (case_exists case_id)
    ok (record q {
      cases =
          insert case_id (new_case case_id application_id action score opened_at signal) q.cases;
    })

  -- `self.cases.get(case_id)`, or the error.
  unfoldable pub find_case : String → CaseQueue F → Result RoutingError (Case F)
  find_case case_id q = elim (lookup case_id q.cases) [
    | none ↦ err (no_such_case case_id)
    | some c ↦ ok c
  ]

  -- `close`: the queue with the case closed.
  unfoldable pub close :
      String → String → ℕ → String → CaseQueue F → Result RoutingError (CaseQueue F)
  unfolding find_case is_open resolve_code
  close case_id code closed_at analyst q = do
    c ← find_case case_id q
    raise_if (not (is_open c)) (already_closed case_id)
    raise_if (is_empty analyst) no_analyst
    d ← resolve_code q.taxonomy code
    ok (record q {
      cases =
          insert case_id
            (record c { disposition = some d; closed_at = some closed_at; analyst = analyst })
            q.cases;
    })

  unfoldable pub open_cases : CaseQueue F → List (Case F)
  unfolding is_open
  open_cases q = filter is_open (values q.cases)

  -- `completeness`: the closed cases and all cases; none for an empty queue.
  unfoldable pub completeness : CaseQueue F → Option (ℕ × ℕ)
  unfolding is_open
  completeness q =
      if is_nil q.cases
      then none
      else some (count_if (λ c. not (is_open c)) (values q.cases), length q.cases)

  -- The pair that one case adds to the labels, and whether it adds one.
  unfoldable pub label_of : Case F → Option (String × ℕ)
  unfolding is_training_label
  label_of c = elim c.disposition [
    | none ↦ none
    | some d ↦
        if is_training_label d
        then some (c.application_id, if is_confirmed d.outcome then 1 else 0)
        else none
  ]

  unfoldable pub labels_of : List (Case F) → List (String × ℕ)
  unfolding label_of
  labels_of [] = []
  labels_of (c ∷ cs) = elim (label_of c) [ none ↦ labels_of cs | some l ↦ l ∷ labels_of cs ]

  unfoldable pub training_labels : CaseQueue F → Result RoutingError (List (String × ℕ))
  unfolding labels_of
  training_labels q = do
    raise_if (not q.taxonomy.ratified) not_ratified
    ok (labels_of (values q.cases))

  -- `signal is None or case.signal == signal`
  abbrev pub has_signal : Option String → Case F → Bool
  has_signal none c = true
  has_signal (some s) c = str_eq c.signal s

  -- `closed`
  unfoldable pub closed_cases : Option String → CaseQueue F → List (Case F)
  unfolding is_open
  closed_cases signal q = filter (λ c. not (is_open c) && has_signal signal c) (values q.cases)

  -- `confirmed`: reading the outcome of a case without a disposition raises.
  unfoldable pub count_confirmed : List (Case F) → Result RoutingError ℕ
  count_confirmed [] = ok 0
  count_confirmed (c ∷ cs) = elim c.disposition [
    | none ↦ err (no_disposition c.case_id)
    | some d ↦ do n ← count_confirmed cs; ok ((if is_confirmed d.outcome then 1 else 0) + n)
  ]

  unfoldable pub precision : Option String → CaseQueue F → Result RoutingError (Option (ℕ × ℕ))
  unfolding closed_cases count_confirmed alert_precision
  precision signal q = do
    confirmed ← count_confirmed (closed_cases signal q)
    alert_precision confirmed (length (closed_cases signal q))
