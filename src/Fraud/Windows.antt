-- ===== src/Fraud/Windows.antt =====
-- What a velocity counter counts.
use ailending_hub.Prelude.{
  ℕ, ◌+◌, ◌-◌, ◌≤◌, ◌<◌, ◌≡◌, refl, sym, ap, ◌∙◌, subst, inl, inr, Bool, true, false, ◌&&◌, ◌==◌,
  List, [], ◌∷◌, String, arith, if◌then◌else◌, ltb, leb, leb→le, length, count_if, All, IsSortedBy,
  lookup, lookup-insert, str_eq, eq_iff, Bool-cases, ok,
}
use ailending_hub.Fraud.Velocity.{
  Dimension, same_dimension, ApplicationEvent, Arrival, arrival, VelocityCounter, bucket_of,
  insert_arrival, taken_in, ingest, ingest_all, new_counter, datetime_max, window_slice, count_in,
  count,
}
use ailending_hub.Fraud.Buckets.{
  arrival_le, insert_arrival-IsSortedBy, count_if-insert_arrival, window_slice-count_if,
}

abbrev pub bucket : String → VelocityCounter → List Arrival
bucket key c = bucket_of (lookup key c.buckets)

-- The events of the key that pass a test on their times.
abbrev pub events_of : String → (Arrival → Bool) → List ApplicationEvent → ℕ
events_of key k events = count_if (λ e. str_eq e.key key && k (arrival e)) events

bucket-taken_in :
    (key : String) (c : VelocityCounter) (e : ApplicationEvent)
    → bucket key (taken_in c e)
      ≡ (if str_eq e.key key then insert_arrival (arrival e) (bucket key c) else bucket key c)
unfolding taken_in
bucket-taken_in key c e = elim (Bool-cases (str_eq e.key key)) [
  | inl t ↦
      rw (lookup-insert e.key key, t)
        (ap (λ x. insert_arrival (arrival e) (bucket_of (lookup x c.buckets)))
          ((eq_iff e.key key).0 t))
  | inr f ↦ rw (lookup-insert e.key key, f) refl
]

-- From one counter to another, with the events between them.
abbrev Gains : String → VelocityCounter → List ApplicationEvent → VelocityCounter → Type 0
Gains key c events c' =
    (IsSortedBy arrival_le (bucket key c) → IsSortedBy arrival_le (bucket key c'))
    × ((k : Arrival → Bool)
        → count_if k (bucket key c') ≡ count_if k (bucket key c) + events_of key k events)
    × (c'.total_events ≡ c.total_events + length events)

total_taken_in :
    (c : VelocityCounter) (e : ApplicationEvent) → (taken_in c e).total_events ≡ c.total_events + 1
unfolding taken_in
total_taken_in c e = omega arith

dimension-taken_in :
    (c : VelocityCounter) (e : ApplicationEvent) → (taken_in c e).dimension ≡ c.dimension
unfolding taken_in
dimension-taken_in c e = refl

taken_in-Gains :
    (key : String) (c : VelocityCounter) (e : ApplicationEvent)
    → Gains key c (e ∷ []) (taken_in c e)
taken_in-Gains key c e =
    let changed = bucket-taken_in key c e in
    elim (Bool-cases (str_eq e.key key)) [
      | inl t ↦
          let b : bucket key (taken_in c e) ≡ insert_arrival (arrival e) (bucket key c) =
            rw t at changed in
          (
            (λ s. rw b (insert_arrival-IsSortedBy (arrival e) (bucket key c) s)),
            (λ k.
                let one_more = count_if-insert_arrival k (arrival e) (bucket key c) in
                rw (b, one_more, t) (omega arith)),
            total_taken_in c e,
          )
      | inr f ↦
          let b : bucket key (taken_in c e) ≡ bucket key c = rw f at changed in
          ((λ s. rw b s), (λ k. rw (b, f) (omega arith)), total_taken_in c e)
    ]

-- All the events are of the dimension.
abbrev pub IsOf : Dimension → List ApplicationEvent → Type 0
IsOf d events = All (λ e. same_dimension e.dimension d ≡ true) events

-- The watermark of every event, which is its time less the lateness, is an instant.
abbrev pub IsDated : ℕ → List ApplicationEvent → Type 0
IsDated allowed_lateness events = All (λ e. allowed_lateness ≤ e.event_time) events

allowed_lateness-taken_in :
    (c : VelocityCounter) (e : ApplicationEvent)
    → (taken_in c e).allowed_lateness ≡ c.allowed_lateness
unfolding taken_in
allowed_lateness-taken_in c e = refl

ingest_all-Gains :
    (key : String) (c : VelocityCounter) (events : List ApplicationEvent)
    → IsOf c.dimension events
    → IsDated c.allowed_lateness events
    → (c' : VelocityCounter) × (ingest_all c events ≡ ok c') × Gains key c events c'
unfolding ingest_all ingest
ingest_all-Gains key c [] of_it dated = (c, refl, ((λ s. s), (λ k. omega arith), omega arith))
ingest_all-Gains key c (e ∷ events) (same, of_it) (late, dated) =
    let (c', run, (sorted, counts, total)) =
      ingest_all-Gains key (taken_in c e) events
        (subst (λ d. IsOf d events) (sym (dimension-taken_in c e)) of_it)
        (subst (λ n. IsDated n events) (sym (allowed_lateness-taken_in c e)) dated) in
    let in_range : ltb e.event_time c.allowed_lateness ≡ false = ground arith in
    let (sorted', counts', total') = taken_in-Gains key c e in
    (
      c',
      rw (same, in_range) run,
      (
        (λ s. sorted (sorted' s)),
        (λ k. let later = counts k in let here = counts' k in omega arith),
        omega arith,
      ),
    )

-- A counter takes in every sequence of events of its dimension whose times less the allowed lateness
-- are instants, without an error, and then has counted all of them in. For a
-- window that is positive and within the range of dates, at an instant of knowledge that is not before
-- the end of the window, the count of a key is the number of its events that happened in the closed
-- window and had arrived by then: the two binary searches and the order of ingestion do not matter.
pub count_sound :
    (d : Dimension) (allowed_lateness : ℕ) (events : List ApplicationEvent) (of_it : IsOf d events)
    (dated : IsDated allowed_lateness events) (key : String) (as_of known_at window : ℕ)
    → 0 < window
    → window ≤ as_of
    → as_of ≤ known_at
    → known_at ≤ datetime_max
    → (c : VelocityCounter) × (ingest_all (new_counter d allowed_lateness) events ≡ ok c)
      × (c.total_events ≡ length events)
      × (count c key as_of known_at window
          ≡ ok (
              count_if
                (λ e.
                  str_eq e.key key
                  && ((leb (as_of - window) e.event_time && leb e.event_time as_of)
                      && leb e.ingest_time known_at))
                events))
unfolding count count_in lookup
count_sound d allowed_lateness events of_it dated key as_of known_at window positive fits later
      known_date =
    let start : VelocityCounter = new_counter d allowed_lateness in
    let (c, run, (sorted, counts, total)) = ingest_all-Gains key start events of_it dated in
    let in_time : Arrival → Bool = λ e. leb e.arrived known_at in
    let in_window : Arrival → Bool =
      λ e. (leb (as_of - window) e.occurred && leb e.occurred as_of) && leb e.arrived known_at in
    let slice =
      window_slice-count_if in_time (as_of - window) as_of (bucket key c) (sorted tt) (omega arith)
        (λ e t. let a = leb→le e.arrived known_at t in omega arith) in
    let all_in = counts in_window in
    let reached = in_bucket (bucket key c) in
    let counted : count_if in_time (window_slice (bucket key c) (as_of - window) as_of)
        ≡ events_of key in_window events =
      omega arith in
    let not_zero : (window == 0) ≡ false = ground arith in
    let known : ltb known_at as_of ≡ false = ground arith in
    (c, run, omega arith, rw (not_zero, known) (reached ∙ ap ok counted))
  where
    in_bucket :
        (b : List Arrival)
        → count_in b as_of known_at window
          ≡ ok (count_if (λ e. leb e.arrived known_at) (window_slice b (as_of - window) as_of))
    in_bucket [] = refl
    in_bucket (x ∷ b) = let in_range : ltb as_of window ≡ false = ground arith in rw in_range refl
