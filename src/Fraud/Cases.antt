-- ===== src/Fraud/Cases.antt =====
-- What any sequence of calls to a case queue keeps: no case is closed without a disposition of the
-- taxonomy and an analyst, and no closed case is lost or written again.
use ailending_hub.Prelude.{
  ℕ, ◌≡◌, ◌≢◌, refl, sym, subst, ◌⊎◌, inl, inr, false, none, some, List, [], ◌∷◌, String, arith,
  str_eq, eq_iff, is_empty, Bool-cases, Option-cases, All, Result, ok, err, Dict, lookup, insert,
  values, lookup-insert,
}
use ailending_hub.Fraud.Bands.{Action, pass, RoutingError}
use ailending_hub.Fraud.Queue.{
  DispositionTaxonomy, Disposition, Case, CaseQueue, is_open, is_pass, new_case, open_case,
  find_case, close, resolve_code,
}

module _ {F : Type 0} where
  -- A case that is not closed has no disposition; a closed one has a disposition of the taxonomy
  -- and an analyst.
  abbrev pub IsWorked : DispositionTaxonomy → Case F → Type 0
  IsWorked taxonomy c =
      ((c.closed_at ≡ none) × (c.disposition ≡ none))
      ⊎ ((t : ℕ) × (d : Disposition) × (code : String) × (c.closed_at ≡ some t)
          × (c.disposition ≡ some d)
          × (lookup code taxonomy.codes ≡ some d)
          × (is_empty c.analyst ≡ false))

  -- A case of the queue did not pass, and is worked as it has to be.
  abbrev pub IsSound : DispositionTaxonomy → Case F → Type 0
  IsSound taxonomy c = (c.action ≢ pass) × IsWorked taxonomy c

  abbrev pub IsSoundQueue : CaseQueue F → Type 0
  IsSoundQueue q = All (IsSound q.taxonomy) (values q.cases)

-- The calls on a queue.
pub data Call (F : Type 0) : Type 0 where
  opening :
      (case_id application_id : String) (action : Action) (score : F) (opened_at : ℕ)
      (signal : String)
      → Call F
  closing : (case_id code : String) (closed_at : ℕ) (analyst : String) → Call F

not_pass : (a : Action) → is_pass a ≡ false → a ≢ pass
not_pass a h e = let h' : is_pass pass ≡ false = subst (λ b. is_pass b ≡ false) e h in cc

module _ {F : Type 0} where
  unfoldable pub call : Call F → CaseQueue F → Result RoutingError (CaseQueue F)
  call (opening k a act s t signal) q = open_case k a act s t signal q
  call (closing k code t analyst) q = close k code t analyst q

  -- A call that raises leaves the queue as it was.
  abbrev pub after : CaseQueue F → Result RoutingError (CaseQueue F) → CaseQueue F
  after q (ok q') = q'
  after q (err e) = q

  unfoldable pub run : List (Call F) → CaseQueue F → CaseQueue F
  run [] q = q
  run (c ∷ cs) q = run cs (after q (call c q))

  All-insert :
      (P : Case F → Type 0) (k : String) (c : Case F) (d : Dict (Case F))
      → P c
      → All P (values d)
      → All P (values (insert k c d))
  unfolding insert
  All-insert P k c [] h a = (h, tt)
  All-insert P k c ((j, b) ∷ d) h a = elim (Bool-cases (str_eq j k)) [
    | inl t ↦ rw t (h, a.1)
    | inr f ↦ rw f (a.0, All-insert P k c d h a.1)
  ]

  All-lookup :
      (P : Case F → Type 0) (k : String) (c : Case F) (d : Dict (Case F))
      → lookup k d ≡ some c
      → All P (values d)
      → P c
  unfolding lookup
  All-lookup P k c [] e a = absurd (ground arith)
  All-lookup P k c ((j, b) ∷ d) e a = elim (Bool-cases (str_eq j k)) [
    | inl t ↦ let same : b ≡ c = ground arith in subst P same a.0
    | inr f ↦ All-lookup P k c d (ground arith) a.1
  ]

  -- `open_case` that succeeds, as one write.
  pub open_case-ok :
      (k a : String) (act : Action) (s : F) (t : ℕ) (signal : String) (q q' : CaseQueue F)
      → open_case k a act s t signal q ≡ ok q'
      → (is_pass act ≡ false)
        × (lookup k q.cases ≡ none)
        × (q' ≡ record q { cases = insert k (new_case k a act s t signal) q.cases })
  unfolding open_case
  open_case-ok k a act s t signal q q' h = elim (Option-cases (lookup k q.cases)) [
    | inl absent ↦ (ground arith, absent, ground arith)
    | inr (c, there) ↦ absurd (ground arith)
  ]

  -- `close` that succeeds, as one write.
  pub close-ok :
      (k code : String) (t : ℕ) (analyst : String) (q q' : CaseQueue F)
      → close k code t analyst q ≡ ok q'
      → (c : Case F) × (d : Disposition) × (lookup k q.cases ≡ some c)
        × (c.closed_at ≡ none)
        × (is_empty analyst ≡ false)
        × (lookup code q.taxonomy.codes ≡ some d)
        × (q' ≡ record q {
          cases =
              insert k
                (record c { disposition = some d; closed_at = some t; analyst = analyst })
                q.cases;
        })
  unfolding close find_case is_open resolve_code
  close-ok k code t analyst q q' h = elim (Option-cases (lookup k q.cases)) [
    | inl absent ↦ absurd (ground arith)
    | inr (c, there) ↦ elim (Option-cases (lookup code q.taxonomy.codes)) [
      | inl unknown ↦ absurd (ground arith)
      | inr (d, known) ↦ (c, d, there, ground arith, ground arith, known, ground arith)
    ]
  ]

  call-taxonomy : (c : Call F) (q q' : CaseQueue F) → call c q ≡ ok q' → q'.taxonomy ≡ q.taxonomy
  unfolding call
  call-taxonomy (opening k a act s t signal) q q' h =
      let (p, absent, e) = open_case-ok k a act s t signal q q' h in rw e
  call-taxonomy (closing k code t analyst) q q' h =
      let (c, d, there, opened, named, known, e) = close-ok k code t analyst q q' h in rw e

  call-IsSoundQueue :
      (c : Call F) (q q' : CaseQueue F) → call c q ≡ ok q' → IsSoundQueue q → IsSoundQueue q'
  unfolding call
  call-IsSoundQueue (opening k a act s t signal) q q' h sound =
      let (p, absent, e) = open_case-ok k a act s t signal q q' h in
      subst IsSoundQueue (sym e) (
        All-insert (IsSound q.taxonomy) k (new_case k a act s t signal) q.cases
          (not_pass act p, inl (refl, refl)) sound)
  call-IsSoundQueue (closing k code t analyst) q q' h sound =
      let (c, d, there, opened, named, known, e) = close-ok k code t analyst q q' h in
      let (not_passed, worked) = All-lookup (IsSound q.taxonomy) k c q.cases there sound in
      subst IsSoundQueue (sym e) (
        All-insert (IsSound q.taxonomy) k
          (record c { disposition = some d; closed_at = some t; analyst = analyst }) q.cases
          (not_passed, inr (t, d, code, refl, refl, known, named)) sound)

  -- A closed case stays as it is through every call that succeeds.
  call-keeps :
      (c : Call F) (q q' : CaseQueue F) (k : String) (b : Case F)
      → call c q ≡ ok q'
      → lookup k q.cases ≡ some b
      → is_open b ≡ false
      → lookup k q'.cases ≡ some b
  unfolding call is_open
  call-keeps (opening j a act s t signal) q q' k b h there closed =
      let (p, absent, e) = open_case-ok j a act s t signal q q' h in
      let w = lookup-insert j k (new_case j a act s t signal) q.cases in
      rw e (elim (Bool-cases (str_eq j k)) [
        | inl same ↦ absurd (let j≡k = (eq_iff j k).0 same in cc)
        | inr other ↦ ground arith
      ])
  call-keeps (closing j code t analyst) q q' k b h there closed =
      let (c, d, found, opened, named, known, e) = close-ok j code t analyst q q' h in
      let w =
        lookup-insert j k (record c { disposition = some d; closed_at = some t; analyst = analyst })
          q.cases in
      rw e (elim (Bool-cases (str_eq j k)) [
        | inl same ↦ absurd (
            let j≡k = (eq_iff j k).0 same in
            let b≡c : some b ≡ some c = cc in
            let none_closed : b.closed_at ≡ none = ground arith in ground arith)
        | inr other ↦ ground arith
      ])

  after-IsSoundQueue :
      (q : CaseQueue F) (o : Result RoutingError (CaseQueue F)) (c : Call F)
      → call c q ≡ o
      → IsSoundQueue q
      → IsSoundQueue (after q o)
  after-IsSoundQueue q (ok q') c e s = call-IsSoundQueue c q q' e s
  after-IsSoundQueue q (err x) c e s = s

  after-keeps :
      (q : CaseQueue F) (o : Result RoutingError (CaseQueue F)) (c : Call F) (k : String)
      (b : Case F)
      → call c q ≡ o
      → lookup k q.cases ≡ some b
      → is_open b ≡ false
      → lookup k (after q o).cases ≡ some b
  after-keeps q (ok q') c k b e there closed = call-keeps c q q' k b e there closed
  after-keeps q (err x) c k b e there closed = there

  -- Whatever calls are made on a sound queue, those that raise included, its cases stay sound: none
  -- passed, an open one has no disposition, and a closed one has a disposition of the taxonomy and
  -- an analyst.
  pub run-IsSoundQueue :
      (cs : List (Call F)) (q : CaseQueue F) → IsSoundQueue q → IsSoundQueue (run cs q)
  unfolding run
  run-IsSoundQueue [] q s = s
  run-IsSoundQueue (c ∷ cs) q s =
      run-IsSoundQueue cs (after q (call c q)) (after-IsSoundQueue q (call c q) c refl s)

  -- A closed case is still there, unchanged, after any calls: no label is lost, reopened or
  -- written over.
  pub run-keeps_closed :
      (cs : List (Call F)) (q : CaseQueue F) (k : String) (b : Case F)
      → lookup k q.cases ≡ some b
      → is_open b ≡ false
      → lookup k (run cs q).cases ≡ some b
  unfolding run
  run-keeps_closed [] q k b there closed = there
  run-keeps_closed (c ∷ cs) q k b there closed =
      run-keeps_closed cs (after q (call c q)) k b
        (after-keeps q (call c q) c k b refl there closed) closed
