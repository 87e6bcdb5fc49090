-- ===== src/Ews/Decay.antt =====
-- When a signal is retired, and what retirement does to the catalog.
use ailending_hub.Prelude.{
  ℕ, ◌≡◌, refl, ap, ◌∙◌, inl, inr, ◌↔◌, Bool, true, false, ◌&&◌, ◌||◌, Option, none, some, List, [],
  ◌∷◌, String, arith, str_eq, eq_iff, any, is_nil, if◌then◌else◌, Bool-cases, Option-cases, Result,
  ok, err, ◌>>=◌, Dict, lookup, insert, lookup-insert, count_if, length, ◌+◌, ◌-◌, ◌/◌, ◌<◌, sym,
  ltb, leb, member, filter, length-filter_as, count_if-filter_as,
}
use ailending_hub.Ews.Alerts.{Disposition, Alert}
use ailending_hub.Ews.Signals.{
  SignalDefinition, SignalCatalog, SignalError, signal_definition, get_signal,
  alert_precision_window_days,
}
use ailending_hub.Ews.Retirement.{
  RetirementDecision, counts_for, rolling_precision, judge, retire_degraded, disable,
  apply_retirements,
}

in_ninety_days :
    (raised as_of : ℕ)
    → (leb raised as_of && ltb (as_of - raised) 90) ≡ (leb raised as_of && ltb as_of (raised + 90))
in_ninety_days raised as_of = ground arith

module _ {M : Type 0} where
  -- The disposition is of an alert that is known, carries the signal, and was raised in the ninety
  -- days up to the day of the report.
  abbrev pub is_counted : String → ℕ → Dict (Alert M) → Disposition → Bool
  is_counted signal_id as_of alerts d = elim (lookup d.alert_id alerts) [
    | none ↦ false
    | some a ↦
        member signal_id a.signal_ids
        && (leb (a.raised_at / 86_400_000_000) as_of
            && ltb as_of (a.raised_at / 86_400_000_000 + 90))
  ]

  counts_for-eq :
      (signal_id : String) (as_of : ℕ) (alerts : Dict (Alert M)) (d : Disposition)
      → counts_for alerts signal_id alert_precision_window_days as_of d
        ≡ is_counted signal_id as_of alerts d
  unfolding counts_for
  counts_for-eq signal_id as_of alerts d = elim (Option-cases (lookup d.alert_id alerts)) [
    | inl n ↦ rw (n, counts_for, is_counted) refl
    | inr (a, e) ↦
        rw (e, counts_for, is_counted)
          (ap (λ b. member signal_id a.signal_ids && b)
            (in_ninety_days (a.raised_at / 86_400_000_000) as_of))
  ]

module _ {X M Floor : Type 0} (below : ℕ → ℕ → Floor → Bool) (ratified : Option Floor) where
  -- With a floor the decision is made without an error. It counts the dispositions of the alerts of
  -- the signal from the ninety days up to the day of the report, and retires the signal exactly if
  -- there are some and the confirmed ones among them, over all of them, are below the floor. A quiet
  -- signal is not retired.
  pub retire_degraded_iff :
      (signal : SignalDefinition X) (dispositions : List Disposition) (alerts : Dict (Alert M))
      (as_of : ℕ) (f : Floor)
      → let counted = is_counted signal.signal_id as_of alerts in
        let total = count_if counted dispositions in
        let confirmed = count_if (λ d. counted d && d.confirmed_relevant) dispositions in
        (d : RetirementDecision) × (retire_degraded below ratified signal dispositions alerts as_of
            (some f)
          ≡ ok d)
        × (d.alerts_in_window ≡ total)
        × ((d.retire ≡ true) ↔ ((0 < total) × (below confirmed total f ≡ true)))
  unfolding retire_degraded rolling_precision judge
  retire_degraded_iff signal dispositions alerts as_of f =
      let about = counts_for alerts signal.signal_id alert_precision_window_days as_of in
      let counted = is_counted signal.signal_id as_of alerts in
      let same = counts_for-eq signal.signal_id as_of alerts in
      let (total, verdict) =
        decided (filter about dispositions) (length-filter_as about counted same dispositions)
          (count_if-filter_as about counted same (λ d. d.confirmed_relevant) dispositions) in
      (_, refl, total, verdict)
    where
      decided :
          (seen : List Disposition) {total confirmed : ℕ}
          → length seen ≡ total
          → count_if (λ d. d.confirmed_relevant) seen ≡ confirmed
          → let d = judge below signal.signal_id f (
              if is_nil seen
              then (none, 0)
              else (some (count_if (λ d. d.confirmed_relevant) seen), length seen)) in
            (d.alerts_in_window ≡ total)
            × ((d.retire ≡ true) ↔ ((0 < total) × (below confirmed total f ≡ true)))
      decided [] all_of right = (all_of, ((λ h. cc), λ (some_seen, b). absurd (ground arith)))
      decided (x ∷ xs) all_of right = (
        all_of,
        (
          (λ h. (omega arith, rw (sym right, sym all_of) h)),
          λ (some_seen, b). rw (right, all_of) b,
        ),
      )

-- Some decision retires the signal.
abbrev pub is_condemned : String → List RetirementDecision → Bool
is_condemned id ds = any (λ d. d.retire && str_eq d.signal_id id) ds

module _ {X : Type 0} where
  -- The definition as it was, but not enabled.
  abbrev pub off : Option (SignalDefinition X) → Option (SignalDefinition X)
  off none = none
  off (some s) = some (record s { enabled = false })

  off-off : (o : Option (SignalDefinition X)) → off (off o) ≡ off o
  off-off none = refl
  off-off (some s) = refl

  disable-lookup :
      (id k : String) (c c' : SignalCatalog X)
      → disable id c ≡ ok c'
      → lookup k c'.signals ≡ (if str_eq id k then off (lookup k c.signals) else lookup k c.signals)
  unfolding disable get_signal signal_definition
  disable-lookup id k c c' h = elim (Option-cases (lookup id c.signals)) [
    | inl absent ↦ absurd (ground arith)
    | inr (s, there) ↦
        let written : c'
            ≡ record c { signals = insert id (record s { enabled = false }) c.signals } =
          ground arith in
        rw (written, lookup-insert id k (record s { enabled = false }) c.signals)
          (elim (Bool-cases (str_eq id k)) [
            | inl same ↦
                let e = (eq_iff id k).0 same in
                let at_k : lookup k c.signals ≡ some s = cc in rw (same, at_k)
            | inr other ↦ rw other
          ])
  ]

  -- Where `apply_retirements` returns, each signal that a decision retires is what it was but
  -- disabled, and every other one is as it was: no definition is removed or added.
  pub apply_retirements-lookup :
      (ds : List RetirementDecision) (c c' : SignalCatalog X) (ids : List String) (k : String)
      → apply_retirements ds c ≡ (c', ok ids)
      → lookup k c'.signals
        ≡ (if is_condemned k ds then off (lookup k c.signals) else lookup k c.signals)
  unfolding apply_retirements
  apply_retirements-lookup [] c c' ids k h = let e : c ≡ c' = ap (λ p. p.0) h in cc
  apply_retirements-lookup (d ∷ ds) c c' ids k h = elim (Bool-cases d.retire) [
    | inl t ↦ rw t (
        retiring (λ c1 ids'. apply_retirements-lookup ds c1 c' ids' k) (disable d.signal_id c) refl
          (let h' = rw t at h in h'))
    | inr f ↦ rw f (apply_retirements-lookup ds c c' ids k (let h' = rw f at h in h'))
  ]
    where
      after : SignalCatalog X → SignalCatalog X × Result SignalError (List String)
      after c1 =
          let (c2, rest) = apply_retirements ds c1 in (c2, rest >>= λ ids. ok (d.signal_id ∷ ids))

      rest_ok :
          (r : Result SignalError (List String))
          → (r >>= λ ids. ok (d.signal_id ∷ ids)) ≡ ok ids
          → (ids' : List String) × (r ≡ ok ids')
      rest_ok (ok ids') e = (ids', refl)
      rest_ok (err x) e = absurd (ground arith)

      retiring :
          ((c1 : SignalCatalog X) (ids' : List String)
            → apply_retirements ds c1 ≡ (c', ok ids')
            → lookup k c'.signals
              ≡ (if is_condemned k ds then off (lookup k c1.signals) else lookup k c1.signals))
          → (o : Result SignalError (SignalCatalog X)) → disable d.signal_id c ≡ o
          → elim o [ err e ↦ (c, err e) | ok c1 ↦ after c1 ] ≡ (c', ok ids)
          → lookup k c'.signals ≡ (
              if str_eq d.signal_id k || is_condemned k ds
              then off (lookup k c.signals)
              else lookup k c.signals)
      retiring ih (err e) eq h = absurd (let e' = ap (λ p. p.1) h in ground arith)
      retiring ih (ok c1) eq h =
          let at_end : (apply_retirements ds c1).0 ≡ c' = ap (λ p. p.0) h in
          let (ids', went) = rest_ok (apply_retirements ds c1).1 (ap (λ p. p.1) h) in
          let later = ih c1 ids' (pair (apply_retirements ds c1) at_end went) in
          let here = disable-lookup d.signal_id k c c1 eq in
          elim (Bool-cases (str_eq d.signal_id k)) [
            | inl same ↦ elim (Bool-cases (is_condemned k ds)) [
              | inl y ↦ rw same (later ∙ rw (y, here, same) (off-off (lookup k c.signals)))
              | inr n ↦ rw same (later ∙ rw (n, here, same))
            ]
            | inr other ↦ rw other (later ∙ rw (here, other))
          ]
        where
          pair :
              (p : SignalCatalog X × Result SignalError (List String)) {a : SignalCatalog X}
              {b : Result SignalError (List String)}
              → p.0 ≡ a
              → p.1 ≡ b
              → p ≡ (a, b)
          pair (x, y) e f = rw (e, f)
