-- ===== src/Ews/Manager.antt =====
-- What any sequence of calls to the in-memory case manager keeps.
use ailending_hub.Prelude.{
  ◌≡◌, subst, inl, inr, true, some, List, [], ◌∷◌, String, arith, str_eq, eq_iff, Bool-cases,
  Result, ok, err, lookup, contains, lookup-insert,
}
use ailending_hub.Ews.Alerts.{
  Alert, Disposition, CaseManager, RoutingError, open_case, record_disposition,
}

pub data Call (M : Type 0) : Type 0 where
  opening : Alert M → Call M
  disposing : Disposition → Call M

module _ {M : Type 0} where
  -- A call that raises leaves the manager as it was.
  abbrev pub after_open :
      CaseManager M → Result RoutingError (CaseManager M × String) → CaseManager M
  after_open m (ok (m', id)) = m'
  after_open m (err e) = m

  abbrev pub after_record : CaseManager M → Result RoutingError (CaseManager M) → CaseManager M
  after_record m (ok m') = m'
  after_record m (err e) = m

  unfoldable pub run : List (Call M) → CaseManager M → CaseManager M
  run [] m = m
  run (opening a ∷ cs) m = run cs (after_open m (open_case a m))
  run (disposing d ∷ cs) m = run cs (after_record m (record_disposition d m))

  -- Cases and dispositions stand under their own ids, and what is disposed was opened.
  abbrev pub Agrees : CaseManager M → Type 0
  Agrees m =
      ((k : String) (a : Alert M) → lookup k m.cases ≡ some a → a.alert_id ≡ k)
      × ((k : String) (d : Disposition)
          → lookup k m.dispositions ≡ some d
          → (d.alert_id ≡ k) × (contains k m.cases ≡ true))

  after_open-Agrees :
      (a : Alert M) (m : CaseManager M) → Agrees m → Agrees (after_open m (open_case a m))
  unfolding open_case
  after_open-Agrees a m (own, opened) = elim (Bool-cases (contains a.alert_id m.cases)) [
    | inl t ↦ rw t (own, opened)
    | inr f ↦ rw f (
      (λ k b found.
          let w = lookup-insert a.alert_id k a m.cases in
          let before = own k b in
          elim (Bool-cases (str_eq a.alert_id k)) [
            | inl same ↦
                let e = (eq_iff a.alert_id k).0 same in let b≡a : a ≡ b = ground arith in cc
            | inr other ↦ before (ground arith)
          ]),
      λ k d found.
          let (e, there) = opened k d found in
          let w = lookup-insert a.alert_id k a m.cases in
          (
            e,
            elim (Bool-cases (str_eq a.alert_id k)) [
              | inl same ↦ ground arith
              | inr other ↦ ground arith
            ],
          ),
    )
  ]

  after_record-Agrees :
      (d : Disposition) (m : CaseManager M)
      → Agrees m
      → Agrees (after_record m (record_disposition d m))
  unfolding record_disposition
  after_record-Agrees d m (own, opened) = elim (Bool-cases (contains d.alert_id m.cases)) [
    | inl t ↦ rw t (
      own,
      λ k b found.
          let w = lookup-insert d.alert_id k d m.dispositions in
          elim (Bool-cases (str_eq d.alert_id k)) [
            | inl same ↦
                let e = (eq_iff d.alert_id k).0 same in
                let d≡b : d ≡ b = ground arith in
                (subst (λ x. x.alert_id ≡ k) d≡b e, subst (λ x. contains x m.cases ≡ true) e t)
            | inr other ↦ opened k b (ground arith)
          ],
    )
    | inr f ↦ rw f (own, opened)
  ]

  run-Agrees_from : (cs : List (Call M)) (m : CaseManager M) → Agrees m → Agrees (run cs m)
  unfolding run
  run-Agrees_from [] m h = h
  run-Agrees_from (opening a ∷ cs) m h =
      run-Agrees_from cs (after_open m (open_case a m)) (after_open-Agrees a m h)
  run-Agrees_from (disposing d ∷ cs) m h =
      run-Agrees_from cs (after_record m (record_disposition d m)) (after_record-Agrees d m h)

  -- After any calls from an empty manager, those that raise included, every disposition stands under
  -- the id of a case that was opened, and every case under its own id.
  pub run-Agrees : (cs : List (Call M)) → Agrees (run cs (record { cases = []; dispositions = [] }))
  unfolding lookup
  run-Agrees cs =
      run-Agrees_from cs (record { cases = []; dispositions = [] })
        ((λ k a h. ground arith), λ k d h. absurd (ground arith))
