-- ===== src/Ews/Tests.antt =====
-- Concrete alerts, dispositions and signals, and the theorems at them. A floor is a percentage here.
use ailending_hub.Prelude.{
  ◌&&◌, ◌<◌, ℕ, ◌+◌, ◌*◌, ◌≡◌, refl, ◌↔◌, Bool, true, false, none, some, List, [], ◌∷◌, ◌++◌, arith,
  ltb, if◌then◌else◌, IsIn, ok, lookup, insert, length, count_if,
}
use Prim.Native.Nat.{min}
use ailending_hub.Ews.Signals.{
  SignalDefinition, repayment, higher_is_worse, SignalCatalog, signal_definition, get_signal,
}
use ailending_hub.Ews.Alerts.{Alert, Disposition, amber, red}
use ailending_hub.Ews.Assignment.{
  OfficerAssignment, urgent_le, apply_officer_cap, apply_officer_cap-worst,
}
use ailending_hub.Ews.Manager.{Call, opening, disposing, run, Agrees, run-Agrees}
use ailending_hub.Ews.Retirement.{
  RetirementDecision, below_floor, retire_degraded, disable, apply_retirements,
}
use ailending_hub.Ews.Decay.{
  is_counted, off, is_condemned, retire_degraded_iff, apply_retirements-lookup,
}

abbrev watch : Alert ℕ
watch = record {
  alert_id = "a1";
  account_id = "acc-1";
  tier_of = amber;
  raised_at = 100;
  trigger_reasons = "missed" ∷ [];
  pd_delta = none;
  recommended_action = "call";
  sla_hours = 24;
  owner_id = "off-1";
  signal_ids = "emi" ∷ [];
  disposition = none;
}

abbrev act : Alert ℕ
act = record watch { alert_id = "a2"; tier_of = red; raised_at = 200 }

abbrev wrong : Disposition
wrong = record {
  alert_id = "a1";
  disposed_at = 300;
  officer_id = "off-1";
  confirmed_relevant = false;
  outcome_code = "X";
}

apply_officer_cap-worst_example :
    (r : OfficerAssignment ℕ) × (apply_officer_cap none (watch ∷ act ∷ []) "off-1" (some 1) ≡ ok r)
    × (length r.assigned ≡ min 1 (length (watch ∷ act ∷ [])))
    × (length r.assigned + length r.deferred ≡ length (watch ∷ act ∷ []))
    × ((a : Alert ℕ) → IsIn a (r.assigned ++ r.deferred) ↔ IsIn a (watch ∷ act ∷ []))
    × ((a b : Alert ℕ) → IsIn a r.assigned → IsIn b r.deferred → urgent_le a b ≡ true)
apply_officer_cap-worst_example =
    apply_officer_cap-worst none (watch ∷ act ∷ []) "off-1" 1 (omega arith)

abbrev calls : List (Call ℕ)
calls =
    opening watch
    ∷ opening watch
    ∷ disposing wrong
    ∷ disposing (record wrong { alert_id = "a9" })
    ∷ []

run-Agrees_example : Agrees (run calls (record { cases = []; dispositions = [] }))
run-Agrees_example = run-Agrees calls

abbrev missed : SignalDefinition ℕ
missed = record {
  signal_id = "emi";
  family = repayment;
  version = "1";
  description = "";
  direction = higher_is_worse;
  evaluate = λ n. some (ltb 0 n);
  srs_ref = "10.3";
  precision = none;
  enabled = true;
}

-- The confirmed ones in a hundred are fewer than the floor.
abbrev below : ℕ → ℕ → ℕ → Bool
below confirmed total floor = ltb (confirmed * 100) (floor * total)

retire_degraded_iff_example :
    let counted = is_counted "emi" 5 (("a1", watch) ∷ []) in
    let total = count_if counted (wrong ∷ []) in
    let confirmed = count_if (λ d. counted d && d.confirmed_relevant) (wrong ∷ []) in
    (d : RetirementDecision) × (retire_degraded below none missed
        (wrong ∷ [])
        (("a1", watch) ∷ [])
        5
        (some 20)
      ≡ ok d)
    × (d.alerts_in_window ≡ total)
    × ((d.retire ≡ true) ↔ ((0 < total) × (below confirmed total 20 ≡ true)))
retire_degraded_iff_example =
    retire_degraded_iff below none missed (wrong ∷ []) (("a1", watch) ∷ []) 5 20

abbrev catalog : SignalCatalog ℕ
catalog = record {
  version = "v1";
  signals = ("emi", missed) ∷ ("other", record missed { signal_id = "other" }) ∷ [];
}

abbrev verdict : RetirementDecision
verdict = record {
  signal_id = "emi";
  retire = true;
  reason = below_floor;
  measured_precision = some 0;
  alerts_in_window = 1;
}

abbrev retired_catalog : SignalCatalog ℕ
retired_catalog = record catalog {
  signals =
      ("emi", record missed { enabled = false })
      ∷ ("other", record missed { signal_id = "other" })
      ∷ [];
}

apply_retirements-lookup_example : lookup "emi" retired_catalog.signals ≡ (
    if is_condemned "emi" (verdict ∷ [])
    then off (lookup "emi" catalog.signals)
    else lookup "emi" catalog.signals)
unfolding apply_retirements disable get_signal signal_definition lookup insert
apply_retirements-lookup_example =
    apply_retirements-lookup (verdict ∷ []) catalog retired_catalog ("emi" ∷ []) "emi" refl
