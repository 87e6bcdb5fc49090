-- ===== src/Ews/Retirement.antt =====
-- ews/routing.py: rolling_precision, retire_degraded and apply_retirements. A date is a number of
-- days, and an instant a number of microseconds from the same start.
use ailending_hub.Prelude.{
  ℕ, ◌-◌, ◌/◌, Bool, false, not, ◌&&◌, Option, none, some, List, [], ◌∷◌, String, ltb, leb, ◌==◌,
  str_eq, any, is_nil, if◌then◌else◌, Result, ok, err, ◌>>=◌, ◌>>◌, raise_if, Dict, lookup, insert,
  filter, count_if, length,
}
use ailending_hub.Ews.Alerts.{Disposition, Alert, RoutingError, empty_window, ungrounded}
use ailending_hub.Ews.Signals.{
  SignalDefinition, SignalCatalog, SignalError, signal_definition, get_signal,
  alert_precision_window_days,
}

pub data Reason : Type 0 where
  quiet below_floor holds_floor : Reason

-- `measured_precision` as the confirmed dispositions, out of `alerts_in_window`.
pub record RetirementDecision : Type 0 where
  pub signal_id : String
  pub retire : Bool
  pub reason : Reason
  pub measured_precision : Option ℕ
  pub alerts_in_window : ℕ

abbrev pub day : ℕ
day = 86_400_000_000

module _ {M : Type 0} where
  -- The age of the alert, in days, is from 0 to the window.
  abbrev pub is_recent : ℕ → ℕ → Alert M → Bool
  is_recent window as_of a = leb (a.raised_at / day) as_of && ltb (as_of - a.raised_at / day) window

  -- The disposition is appended to `in_window`.
  unfoldable pub counts_for : Dict (Alert M) → String → ℕ → ℕ → Disposition → Bool
  counts_for alerts signal_id window as_of d = elim (lookup d.alert_id alerts) [
    | none ↦ false
    | some a ↦ any (λ s. str_eq s signal_id) a.signal_ids && is_recent window as_of a
  ]

  abbrev pub in_window : List Disposition → Dict (Alert M) → String → ℕ → ℕ → List Disposition
  in_window dispositions alerts signal_id window as_of =
      filter (counts_for alerts signal_id window as_of) dispositions

  -- The confirmed dispositions, none for a quiet signal, and the number of alerts.
  unfoldable pub rolling_precision :
      List Disposition → Dict (Alert M) → String → ℕ → ℕ → Result RoutingError (Option ℕ × ℕ)
  unfolding counts_for
  rolling_precision dispositions alerts signal_id as_of window = do
    raise_if (window == 0) empty_window
    ok (
        if is_nil (in_window dispositions alerts signal_id window as_of) then (none, 0) else (
          some (
              count_if (λ d. d.confirmed_relevant)
                (in_window dispositions alerts signal_id window as_of)),
          length (in_window dispositions alerts signal_id window as_of),
        ))

module _ {Floor : Type 0} where
  -- `floor`, or the ratified floor, which is none while PRECISION_FLOOR is pending.
  unfoldable pub chosen_floor : Option Floor → Option Floor → Result RoutingError Floor
  chosen_floor (some f) ratified = ok f
  chosen_floor none none = err ungrounded
  chosen_floor none (some f) = ok f

  unfoldable pub judge : (ℕ → ℕ → Floor → Bool) → String → Floor → Option ℕ × ℕ → RetirementDecision
  judge below signal_id f (none, n) = record {
    signal_id = signal_id;
    retire = false;
    reason = quiet;
    measured_precision = none;
    alerts_in_window = 0;
  }
  judge below signal_id f (some c, n) = record {
    signal_id = signal_id;
    retire = below c n f;
    reason = if below c n f then below_floor else holds_floor;
    measured_precision = some c;
    alerts_in_window = n;
  }

module _ {X M Floor : Type 0} (below : ℕ → ℕ → Floor → Bool) (ratified : Option Floor) where
  unfoldable pub retire_degraded :
      SignalDefinition X
      → List Disposition
      → Dict (Alert M)
      → ℕ
      → Option Floor
      → Result RoutingError RetirementDecision
  unfolding chosen_floor judge rolling_precision
  retire_degraded signal dispositions alerts as_of floor = do
    f ← chosen_floor floor ratified
    p ← rolling_precision dispositions alerts signal.signal_id as_of alert_precision_window_days
    ok (judge below signal.signal_id f p)

module _ {X : Type 0} where
  -- One write of `apply_retirements`: the definition is built again, disabled.
  unfoldable pub disable : String → SignalCatalog X → Result SignalError (SignalCatalog X)
  unfolding get_signal signal_definition
  disable id c = do
    signal ← get_signal c id
    s ← signal_definition (record signal { enabled = false })
    ok (record c { signals = insert id s c.signals })

  -- The catalog after the loop, or where it raised, and the ids that it returns.
  unfoldable pub apply_retirements :
      List RetirementDecision → SignalCatalog X → SignalCatalog X × Result SignalError (List String)
  apply_retirements [] c = (c, ok [])
  apply_retirements (d ∷ ds) c =
      if not d.retire then apply_retirements ds c else elim (disable d.signal_id c) [
        | err e ↦ (c, err e)
        | ok c' ↦
            let (c'', rest) = apply_retirements ds c' in
            (c'', rest >>= λ ids. ok (d.signal_id ∷ ids))
      ]
