-- ===== src/Fraud/Labels.antt =====
-- What the cases of a sound queue give: training labels and the precision of alerts.
use ailending_hub.Prelude.{
  ℕ, ◌≡◌, refl, sym, subst, ap, ◌∙◌, ◌⊎◌, inl, inr, ◌↔◌, Bool, true, false, not, ◌&&◌, Option, none,
  some, List, [], ◌∷◌, String, arith, if◌then◌else◌, Bool-cases, Option-cases, IsIn, All-IsIn, ok,
  lookup, values, is_some, str_eq,
}
use ailending_hub.Fraud.Queue.{
  DispositionTaxonomy, Disposition, Case, CaseQueue, is_open, is_confirmed, is_training_label,
  label_of, labels_of, training_labels, has_signal,
}
use ailending_hub.Fraud.Cases.{IsSound, IsSoundQueue}

module _ {F : Type 0} where
  -- The case is closed, and its disposition confirms fraud.
  abbrev pub confirms : Case F → Bool
  confirms c = elim c.disposition [ none ↦ false | some d ↦ is_confirmed d.outcome ]

  abbrev is_of : Option String → Case F → Bool
  is_of signal c = not (is_open c) && has_signal signal c

  -- The case has been closed and, where a signal is named, carries that signal.
  abbrev pub is_settled : Option String → Case F → Bool
  is_settled none c = is_some c.closed_at
  is_settled (some name) c = is_some c.closed_at && str_eq c.signal name

  -- The pair is what a closed and conclusive case gives: its application, with 1 for confirmed
  -- fraud and 0 for none.
  abbrev pub Labels : DispositionTaxonomy → Case F → String × ℕ → Type 0
  Labels taxonomy c l =
      (t : ℕ) × (d : Disposition) × (code : String) × (c.closed_at ≡ some t)
      × (c.disposition ≡ some d)
      × (lookup code taxonomy.codes ≡ some d)
      × (is_training_label d ≡ true)
      × (l ≡ (c.application_id, if is_confirmed d.outcome then 1 else 0))

  label_of-Labels :
      (taxonomy : DispositionTaxonomy) (c : Case F) (l : String × ℕ)
      → IsSound taxonomy c
      → label_of c ≡ some l
      → Labels taxonomy c l
  unfolding label_of
  label_of-Labels taxonomy c l (p, inl (o, n)) h = absurd (ground arith)
  label_of-Labels taxonomy c l (p, inr (t, d, code, e, has, known, named)) h =
      elim (Bool-cases (is_training_label d)) [
        | inl y ↦ (t, d, code, e, has, known, y, let h' = rw (has, label_of, y) at h in cc)
        | inr n ↦ absurd (let h' = rw (has, label_of, n) at h in cc)
      ]

  Labels-label_of :
      (taxonomy : DispositionTaxonomy) (c : Case F) (l : String × ℕ)
      → Labels taxonomy c l
      → label_of c ≡ some l
  unfolding label_of
  Labels-label_of taxonomy c l (t, d, code, e, has, known, y, same) = rw (has, label_of, y, same)

  labels_of-IsIn :
      (l : String × ℕ) (cs : List (Case F))
      → IsIn l (labels_of cs)
      → (c : Case F) × IsIn c cs × (label_of c ≡ some l)
  unfolding labels_of
  labels_of-IsIn l [] h = absurd h
  labels_of-IsIn l (c ∷ cs) h = elim (Option-cases (label_of c)) [
    | inl n ↦
        let h' : IsIn l (labels_of cs) = rw (n, labels_of) at h in
        let (b, m, e) = labels_of-IsIn l cs h' in (b, inr m, e)
    | inr (l', e) ↦
        let h' : (l' ≡ l) ⊎ IsIn l (labels_of cs) = rw (e, labels_of) at h in
        elim h' [
          | inl same ↦ (c, inl refl, e ∙ ap some same)
          | inr later ↦ let (b, m, e') = labels_of-IsIn l cs later in (b, inr m, e')
        ]
  ]

  IsIn-labels_of :
      (l : String × ℕ) (c : Case F) (cs : List (Case F))
      → IsIn c cs
      → label_of c ≡ some l
      → IsIn l (labels_of cs)
  unfolding labels_of
  IsIn-labels_of l c [] m e = absurd m
  IsIn-labels_of l c (b ∷ cs) (inl same) e =
      let e' : label_of b ≡ some l = subst (λ x. label_of x ≡ some l) (sym same) e in
      rw (e', labels_of) (inl refl)
  IsIn-labels_of l c (b ∷ cs) (inr m) e = elim (Option-cases (label_of b)) [
    | inl n ↦ rw (n, labels_of) (IsIn-labels_of l c cs m e)
    | inr (l', e') ↦ rw (e', labels_of) (inr (IsIn-labels_of l c cs m e))
  ]

  -- The training labels of a sound queue with a ratified taxonomy are returned, and are exactly
  -- those of its closed cases whose disposition, a member of the taxonomy, is conclusive.
  pub training_labels_sound :
      (q : CaseQueue F)
      → IsSoundQueue q
      → q.taxonomy.ratified ≡ true
      → (labels : List (String × ℕ)) × (training_labels q ≡ ok labels)
        × ((l : String × ℕ)
            → IsIn l labels ↔ ((c : Case F) × IsIn c (values q.cases) × Labels q.taxonomy c l))
  unfolding training_labels
  training_labels_sound q sound ratified = (
    labels_of (values q.cases),
    rw ratified,
    λ l. (
      (λ h.
          let (c, m, e) = labels_of-IsIn l (values q.cases) h in
          (
            c,
            m,
            label_of-Labels q.taxonomy c l
                (All-IsIn (IsSound q.taxonomy) c (values q.cases) sound m) e,
          )),
      λ (c, m, has). IsIn-labels_of l c (values q.cases) m (Labels-label_of q.taxonomy c l has),
    ),
  )
