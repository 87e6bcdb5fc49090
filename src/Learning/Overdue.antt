-- ===== src/Learning/Overdue.antt =====
-- What the report of overdue activities says.
use ailending_hub.Prelude.{
  ◌<◌, ◌/◌, Result, ℕ, ◌+◌, ◌-◌, ◌≤◌, ◌≡◌, ◌↔◌, ◌⊎◌, refl, sym, ap, subst, ◌∙◌, inl, inr, true,
  false, Option, none, some, List, [], ◌∷◌, ◌++◌, arith, ltb, Dict, lookup, IsIn, IsIn-append,
  IsIn-append_left, IsIn-append_right, Bool-cases, ok, err, ℤ, pos, negsuc,
}
use ailending_hub.Learning.Cadence.{
  out_of_range, date_max, is_beyond, Activity, OverdueItem, CadenceError, negative_grace,
  ran_in_future, interval_days, due_day, late_item, is_future, overdue_from, overdue, seen_day,
}

-- Never run, or run last more than the interval and the grace ago, by as many days as the item says.
abbrev pub IsLate : ℕ → ℕ → Activity → Option ℕ → Option ℕ → Type 0
IsLate grace as_of a none days_late = days_late ≡ none
IsLate grace as_of a (some seen) days_late =
    (d : ℕ) × (days_late ≡ some d)
    × (1 ≤ d)
    × (seen + interval_days a.frequency + grace / 86400000000 + d ≡ as_of)

item_iff :
    (a : Activity) (seen days : Option ℕ) (i : OverdueItem)
    → (record { activity = a; last_run = seen; days_late = days } ≡ i)
      ↔ ((i.activity ≡ a) × (i.last_run ≡ seen) × (i.days_late ≡ days))
item_iff a seen days i = (
  (λ e.
      (sym (ap (λ x. x.activity) e), sym (ap (λ x. x.last_run) e), sym (ap (λ x. x.days_late) e))),
  λ (p, q, r) j. record { activity = sym p j; last_run = sym q j; days_late = sym r j },
)

late_item_iff :
    (grace as_of : ℕ) (a : Activity) (seen : Option ℕ) (i : OverdueItem)
    → IsIn i (late_item grace as_of a seen)
      ↔ ((i.activity ≡ a) × (i.last_run ≡ seen) × IsLate grace as_of a seen i.days_late)
unfolding late_item
late_item_iff grace as_of a none i =
    let (down, up) = item_iff a none none i in
    ((λ m. elim m [ inl e ↦ down e | inr k ↦ absurd k ]), λ h. inl (up h))
late_item_iff grace as_of a (some seen) i =
    let days : ℕ = as_of - due_day grace a seen in
    let (down, up) = item_iff a (some seen) (some days) i in
    elim (Bool-cases (ltb (due_day grace a seen) as_of)) [
      | inl t ↦ (
        (λ m. elim (rw t at m) [
          | inl e ↦ let (p, q, r) = down e in (p, q, (days, r, ground arith, ground arith))
          | inr k ↦ absurd k
        ]),
        λ (p, q, (d, r, least, sum)).
            let same : days ≡ d = omega arith in rw t (inl (up (p, q, r ∙ ap some (sym same)))),
      )
      | inr f ↦ ((λ m. absurd (rw f at m)), λ (p, q, (d, r, least, sum)). absurd (ground arith))
    ]

-- The activity ran last after the day of the report, or would be due past the last day of dates.
abbrev pub StopsAt : ℕ → ℕ → Activity → Option ℕ → Type 0
StopsAt grace as_of a none = ⊥
StopsAt grace as_of a (some seen) =
    (as_of < seen) ⊎ (3652059 < seen + interval_days a.frequency + grace / 86400000000)

-- Some activity of the list stops the report.
abbrev pub Stops : ℕ → ℕ → Dict ℕ → List Activity → Type 0
Stops grace as_of last_run activities =
    (a : Activity) × IsIn a activities × StopsAt grace as_of a (lookup a.name last_run)

-- The two tests of the loop, and whether the activity stops it.
abbrev Tested : ℕ → ℕ → Activity → Option ℕ → Type 0
Tested grace as_of a seen =
    ((is_future as_of seen ≡ true) × StopsAt grace as_of a seen)
    ⊎ (((is_future as_of seen ≡ false)
          × (is_beyond grace a seen ≡ true)
          × StopsAt grace as_of a seen)
        ⊎ ((is_future as_of seen ≡ false)
            × (is_beyond grace a seen ≡ false)
            × (¬ StopsAt grace as_of a seen)))

tested : (grace as_of : ℕ) (a : Activity) (seen : Option ℕ) → Tested grace as_of a seen
unfolding is_future is_beyond
tested grace as_of a none = inr (inr (refl, refl, λ h. h))
tested grace as_of a (some seen) = elim (Bool-cases (ltb as_of seen)) [
  | inl t ↦ inl (t, inl (ground arith))
  | inr f ↦ elim (Bool-cases (ltb date_max (due_day grace a seen))) [
    | inl t ↦ inr (inl (f, t, inr (ground arith)))
    | inr g ↦ inr (inr (f, g, λ h. elim h [ inl later ↦ ground arith | inr past ↦ ground arith ]))
  ]
]

-- The item says of the activity when it ran last and how late it is, and it is late.
abbrev pub IsDueAt : ℕ → ℕ → Dict ℕ → OverdueItem → Activity → Type 0
IsDueAt grace as_of last_run i a =
    (i.last_run ≡ lookup a.name last_run)
    × IsLate grace as_of a (lookup a.name last_run) i.days_late

-- The items are those of the activities that are late.
abbrev pub IsReport : ℕ → ℕ → Dict ℕ → List Activity → List OverdueItem → Type 0
IsReport grace as_of last_run activities items =
    (i : OverdueItem)
    → IsIn i items ↔ (IsIn i.activity activities × IsDueAt grace as_of last_run i i.activity)

add-IsReport :
    (grace as_of : ℕ) (last_run : Dict ℕ) (a : Activity) (activities : List Activity)
    (items : List OverdueItem)
    → IsReport grace as_of last_run activities items
    → IsReport grace as_of last_run
        (a ∷ activities)
        (late_item grace as_of a (lookup a.name last_run) ++ items)
add-IsReport grace as_of last_run a activities items report i =
    let (down, up) = late_item_iff grace as_of a (lookup a.name last_run) i in
    let (there, back) = report i in
    let mine = late_item grace as_of a (lookup a.name last_run) in
    (
      (λ m. elim (IsIn-append i mine items m) [
        | inl l ↦
            let (p, q, r) = down l in
            (inl (sym p), subst (λ x. IsDueAt grace as_of last_run i x) (sym p) (q, r))
        | inr k ↦ let (k', due) = there k in (inr k', due)
      ]),
      λ (m, due). elim m [
        | inl e ↦
            let (q, r) = subst (λ x. IsDueAt grace as_of last_run i x) (sym e) due in
            IsIn-append_left i mine items (up (sym e, q, r))
        | inr k ↦ IsIn-append_right i mine items (back (k, due))
      ],
    )

-- What the loop gives: an error for an activity that stops it, or a report where there is none.
abbrev pub Reports :
    ℕ → ℕ → Dict ℕ → List Activity → Result CadenceError (List OverdueItem) → Type 0
Reports grace as_of last_run activities given =
    (Stops grace as_of last_run activities × ((e : CadenceError) × (given ≡ err e)))
    ⊎ ((¬ Stops grace as_of last_run activities)
        × ((items : List OverdueItem) × (given ≡ ok items)
            × IsReport grace as_of last_run activities items))

overdue_from-Reports :
    (grace as_of : ℕ) (last_run : Dict ℕ) (activities : List Activity)
    → Reports grace as_of last_run activities (overdue_from grace as_of last_run activities)
unfolding overdue_from
overdue_from-Reports grace as_of last_run [] =
    inr ((λ (a, m, stops). m), ([], refl, λ i. ((λ m. absurd m), λ (m, _). absurd m)))
overdue_from-Reports grace as_of last_run (a ∷ activities) =
    elim (tested grace as_of a (lookup a.name last_run)) [
      | inl (t, stops) ↦ inl (
        (a, inl refl, stops),
        (ran_in_future a.name (seen_day (lookup a.name last_run)) as_of, rw t refl),
      )
      | inr (inl (f, t, stops)) ↦ inl ((a, inl refl, stops), (out_of_range, rw (f, t) refl))
      | inr (inr (f, g, goes_on)) ↦ elim (overdue_from-Reports grace as_of last_run activities) [
        | inl ((b, later, stops), (e, failed)) ↦
            inl ((b, inr later, stops), (e, rw (f, g, failed) refl))
        | inr (none_later, (items, e, report)) ↦ inr (
          (λ (b, m, stops). elim m [
            | inl same ↦
                goes_on
                  (subst (λ x. StopsAt grace as_of x (lookup x.name last_run)) (sym same) stops)
            | inr later ↦ none_later (b, later, stops)
          ]),
          (
            late_item grace as_of a (lookup a.name last_run) ++ items,
            rw (f, g, e) refl,
            add-IsReport grace as_of last_run a activities items report,
          ),
        )
      ]
    ]

-- A negative grace is an error. With another one the report is an error exactly if some activity's
-- last run lies after the day of the report, or its due day after the last day of the year 9999;
-- otherwise it has an item for exactly those activities that never ran, without days, or whose
-- interval and whole days of grace have passed since, with the number of the days beyond.
pub overdue_sound :
    (grace : ℤ) (as_of : ℕ) (last_run : Dict ℕ) (activities : List Activity)
    → ((n : ℕ) → grace ≡ negsuc n → overdue grace as_of last_run activities ≡ err negative_grace)
      × ((g : ℕ)
          → grace ≡ pos g
          → Reports g as_of last_run activities (overdue grace as_of last_run activities))
unfolding overdue
overdue_sound grace as_of last_run activities =
    ((λ n e. rw e refl), λ g e. rw e (overdue_from-Reports g as_of last_run activities))
