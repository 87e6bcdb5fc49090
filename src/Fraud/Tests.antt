-- ===== src/Fraud/Tests.antt =====
-- Concrete bands, a taxonomy and a day at the fraud desk, and the theorems at them.
use ailending_hub.Prelude.{
  ℕ, ◌≡◌, refl, ◌↔◌, true, some, List, [], ◌∷◌, String, arith, leb, ◌==◌, IsOrder, IsIn, ok, lookup,
  values, insert, sort_by,
}
use ailending_hub.Fraud.Bands.{
  Action, pass, step_up, refer, RoutingPolicy, routing_policy, route, action_for, action_from,
}
use ailending_hub.Fraud.Actions.{Governs, route-Governs}
use ailending_hub.Fraud.Queue.{
  Disposition, confirmed_fraud, inconclusive, Case, CaseQueue, is_open, open_case, close, find_case,
  resolve_code, training_labels, labels_of, label_of, is_training_label,
}
use ailending_hub.Fraud.Cases.{
  IsSoundQueue, Call, opening, closing, call, run, run-IsSoundQueue, run-keeps_closed,
}
use ailending_hub.Fraud.Labels.{Labels, training_labels_sound}

abbrev policy : RoutingPolicy ℕ
policy = record {
  bands = record { lower = 3; action = step_up } ∷ record { lower = 7; action = refer } ∷ [];
  ratified = true;
  provenance = "LH-206";
}

nat_order : IsOrder leb
nat_order = record { trans = λ a b c p q. ground arith; total = λ a b p. ground arith }

route-Governs_example :
    (a : Action) × (route leb ◌==◌ 0 10 8 policy ≡ ok a) × Governs leb ◌==◌ 8 policy.bands a
unfolding routing_policy sort_by
route-Governs_example =
    route-Governs leb ◌==◌ nat_order (λ a b p. (ground arith, ground arith)) 0 10 8 policy policy
      refl refl refl

-- A score of 8 goes to the desk.
refers : route leb ◌==◌ 0 10 8 policy ≡ ok refer
unfolding route action_for action_from
refers = refl

abbrev fraud : Disposition
fraud = record { code = "F01"; outcome = confirmed_fraud; description = "" }

abbrev undecided : Disposition
undecided = record { code = "I01"; outcome = inconclusive; description = "" }

abbrev empty_queue : CaseQueue ℕ
empty_queue = record {
  taxonomy = record {
    codes = ("F01", fraud) ∷ ("I01", undecided) ∷ [];
    ratified = true;
    provenance = "LH-101";
  };
  cases = [];
}

abbrev day : List (Call ℕ)
day =
    opening "a" "app-1" refer 8 100 "ring"
    ∷ opening "b" "app-2" step_up 5 110 ""
    ∷ opening "c" "app-3" pass 1 120 ""
    ∷ closing "a" "free text" 200 "ana"
    ∷ closing "a" "F01" 210 "ana"
    ∷ closing "b" "I01" 220 "ana"
    ∷ []

abbrev evening : CaseQueue ℕ
evening = run day empty_queue

steps : Unit {0}
unfolding run call open_case close find_case resolve_code is_open insert lookup
steps = tt

run-IsSoundQueue_example : IsSoundQueue evening
run-IsSoundQueue_example = run-IsSoundQueue day empty_queue tt

-- One confirmed case gives a label, the undecided one gives none.
one_label : training_labels evening ≡ ok (("app-1", 1) ∷ [])
unfolding steps training_labels labels_of label_of is_training_label
one_label = refl

abbrev worked_case : Case ℕ
worked_case = record {
  case_id = "a";
  application_id = "app-1";
  action = refer;
  score = 8;
  opened_at = 100;
  signal = "ring";
  closed_at = some 210;
  disposition = some fraud;
  analyst = "ana";
}

run-keeps_closed_example :
    lookup "a" (run (closing "a" "I01" 300 "bob" ∷ []) evening).cases ≡ some worked_case
unfolding steps
run-keeps_closed_example =
    run-keeps_closed (closing "a" "I01" 300 "bob" ∷ []) evening "a" worked_case refl refl

training_labels_sound_example :
    (labels : List (String × ℕ)) × (training_labels evening ≡ ok labels)
    × ((l : String × ℕ)
        → IsIn l labels
          ↔ ((c : Case ℕ) × IsIn c (values evening.cases) × Labels evening.taxonomy c l))
unfolding steps
training_labels_sound_example =
    training_labels_sound evening (run-IsSoundQueue day empty_queue tt) refl
