-- ===== src/Ews/Signals.antt =====
-- ews/signals.py: PrecisionEvidence, SignalDefinition and SignalCatalog. Parameters: `X`, the
-- feature mapping that an evaluator reads; `Floor`, the type of precision floors, with the test
-- `below` that the quotient of two counts is less than a floor. The floor itself is an option: it is
-- none while PRECISION_FLOOR is not ratified.
use ailending_hub.Prelude.{
  ℕ, Bool, false, not, ◌&&◌, Option, none, some, List, [], ◌∷◌, String, ltb, ◌==◌, str_eq, is_empty,
  if◌then◌else◌, Result, ok, err, ◌>>=◌, ◌>>◌, raise_if, Dict, lookup, insert, values, filter,
}

pub data SignalFamily : Type 0 where
  repayment cash_flow bureau agri behavioral macro_local : SignalFamily

pub data Direction : Type 0 where
  higher_is_worse lower_is_worse : Direction

pub data SignalError : Type 0 where
  more_confirmed_than_raised wrong_window no_source no_id no_version no_srs_ref : SignalError
  missing_feature : (signal_id : String) → SignalError
  already_registered no_signal : (signal_id : String) → SignalError

pub record PrecisionEvidence : Type 0 where
  pub confirmed_relevant : ℕ
  pub total_alerts : ℕ
  pub window_days : ℕ
  pub measured_through : ℕ
  pub source : String

-- Appendix A's window, in days, and the alerts that an estimate needs.
abbrev pub alert_precision_window_days : ℕ
alert_precision_window_days = 90

abbrev pub min_alerts_for_precision : ℕ
min_alerts_for_precision = 100

-- `PrecisionEvidence.__post_init__`; a count here is never negative.
unfoldable pub precision_evidence : PrecisionEvidence → Result SignalError PrecisionEvidence
precision_evidence p = do
  raise_if (ltb p.total_alerts p.confirmed_relevant) more_confirmed_than_raised
  raise_if (not (p.window_days == alert_precision_window_days)) wrong_window
  raise_if (is_empty p.source) no_source
  ok p

unfoldable pub is_sufficient : PrecisionEvidence → Bool
is_sufficient p = not (ltb p.total_alerts min_alerts_for_precision)

-- `evaluate` gives none where it raises KeyError.
pub record SignalDefinition (X : Type 0) : Type 0 where
  pub signal_id : String
  pub family : SignalFamily
  pub version : String
  pub description : String
  pub direction : Direction
  pub evaluate : X → Option Bool
  pub srs_ref : String
  pub precision : Option PrecisionEvidence
  pub enabled : Bool

pub record SignalCatalog (X : Type 0) : Type 0 where
  pub version : String
  pub signals : Dict (SignalDefinition X)

module _ {X : Type 0} where
  -- `SignalDefinition.__post_init__`
  unfoldable pub signal_definition : SignalDefinition X → Result SignalError (SignalDefinition X)
  signal_definition s = do
    raise_if (is_empty s.signal_id) no_id
    raise_if (is_empty s.version) no_version
    raise_if (is_empty s.srs_ref) no_srs_ref
    ok s

  unfoldable pub fires : SignalDefinition X → X → Result SignalError Bool
  fires s features = elim (s.evaluate features) [
    | none ↦ err (missing_feature s.signal_id)
    | some b ↦ ok b
  ]

  -- `existing is not None and existing.version == signal.version`
  abbrev has_version : String → Option (SignalDefinition X) → Bool
  has_version v none = false
  has_version v (some s) = str_eq s.version v

  unfoldable pub register_signal :
      SignalDefinition X → SignalCatalog X → Result SignalError (SignalCatalog X)
  register_signal s c = do
    raise_if (has_version s.version (lookup s.signal_id c.signals)) (already_registered s.signal_id)
    ok (record c { signals = insert s.signal_id s c.signals })

  unfoldable pub get_signal : SignalCatalog X → String → Result SignalError (SignalDefinition X)
  get_signal c signal_id = elim (lookup signal_id c.signals) [
    | none ↦ err (no_signal signal_id)
    | some s ↦ ok s
  ]

  -- The ids of those of the signals that fire; the first missing feature raises.
  unfoldable pub firing : List (SignalDefinition X) → X → Result SignalError (List String)
  firing [] features = ok []
  firing (s ∷ ss) features = do
    b ← fires s features
    rest ← firing ss features
    ok (if b then s.signal_id ∷ rest else rest)

module _ {Floor : Type 0} (below : ℕ → ℕ → Floor → Bool) (floor : Option Floor) where
  unfoldable pub meets_floor : PrecisionEvidence → Bool
  meets_floor p = elim floor [
    | none ↦ false
    | some f ↦ not (below p.confirmed_relevant p.total_alerts f)
  ]

module _ {X Floor : Type 0} (below : ℕ → ℕ → Floor → Bool) (floor : Option Floor) where
  -- The Boolean of `SignalDefinition.shippable`.
  unfoldable pub is_shippable : SignalDefinition X → Bool
  unfolding meets_floor
  is_shippable s = elim s.precision [
    | none ↦ false
    | some p ↦ is_sufficient p && meets_floor below floor p
  ]

  unfoldable pub active : SignalCatalog X → List (SignalDefinition X)
  active c = filter (λ s. s.enabled && is_shippable s) (values c.signals)

  -- `SignalCatalog.evaluate`
  unfoldable pub evaluate_catalog : SignalCatalog X → X → Result SignalError (List String)
  unfolding active
  evaluate_catalog c features = firing (active c) features
