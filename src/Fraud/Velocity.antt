-- ===== src/Fraud/Velocity.antt =====
-- fraud/velocity.py: ApplicationEvent, VelocityCounter with ingest, count and features, and skew_check.
-- An instant is a number of microseconds from `datetime.min`.
use ailending_hub.Prelude.{
  ℕ, suc, ◌-◌, Bool, true, false, not, ◌&&◌, ◌||◌, ◌==◌, Option, none, some, List, [], ◌∷◌, ◌++◌,
  String, if◌then◌else◌, ltb, leb, take, drop, count_if, Dict, lookup, insert, Result, ok, ◌>>=◌,
  ◌>>◌, raise_if,
}
use ailending_hub.Fraud.Search.{search}

pub data Dimension : Type 0 where
  device phone address : Dimension

abbrev pub same_dimension : Dimension → Dimension → Bool
same_dimension device device = true
same_dimension device phone = false
same_dimension device address = false
same_dimension phone device = false
same_dimension phone phone = true
same_dimension phone address = false
same_dimension address device = false
same_dimension address phone = false
same_dimension address address = true

pub record ApplicationEvent : Type 0 where
  pub application_id : String
  pub key : String
  pub dimension : Dimension
  pub event_time : ℕ
  pub ingest_time : ℕ

pub data VelocityError : Type 0 where
  ingested_early : (application_id : String) (ingest_time event_time : ℕ) → VelocityError
  wrong_dimension : (offered counted : Dimension) → VelocityError
  window_not_positive out_of_range : VelocityError
  known_too_early : (known_at as_of : ℕ) → VelocityError

-- `ApplicationEvent.__post_init__`
unfoldable pub application_event : ApplicationEvent → Result VelocityError ApplicationEvent
application_event e = do
  raise_if (ltb e.ingest_time e.event_time)
      (ingested_early e.application_id e.ingest_time e.event_time)
  ok e

-- A pair of a bucket.
pub record Arrival : Type 0 where
  pub occurred : ℕ
  pub arrived : ℕ

abbrev pub no_arrival : Arrival
no_arrival = record { occurred = 0; arrived = 0 }

-- The order of pairs.
abbrev pub before : Arrival → Arrival → Bool
before a b = ltb a.occurred b.occurred || a.occurred == b.occurred && ltb a.arrived b.arrived

-- `bisect_left(bucket, x)` and `bisect_right(bucket, x)`
unfoldable pub bisect_left : List Arrival → Arrival → ℕ
unfolding search
bisect_left bucket x = search (λ e. before e x) no_arrival bucket

unfoldable pub bisect_right : List Arrival → Arrival → ℕ
unfolding search
bisect_right bucket x = search (λ e. not (before x e)) no_arrival bucket

pub record VelocityCounter : Type 0 where
  pub dimension : Dimension
  pub allowed_lateness : ℕ
  pub buckets : Dict (List Arrival)
  pub watermark : Option ℕ
  pub late_events : ℕ
  pub total_events : ℕ

abbrev pub bucket_of : Option (List Arrival) → List Arrival
bucket_of none = []
bucket_of (some bucket) = bucket

-- `bucket.insert(bisect_right(bucket, pair), pair)`
unfoldable pub insert_arrival : Arrival → List Arrival → List Arrival
unfolding bisect_right
insert_arrival x bucket =
    take (bisect_right bucket x) bucket ++ x ∷ drop (bisect_right bucket x) bucket

abbrev pub is_on_time : Option ℕ → ℕ → Bool
is_on_time none event_time = true
is_on_time (some mark) event_time = leb mark event_time

-- The watermark only advances.
abbrev pub advance : Option ℕ → ℕ → ℕ
advance none candidate = candidate
advance (some mark) candidate = if leb candidate mark then mark else candidate

abbrev pub arrival : ApplicationEvent → Arrival
arrival e = record { occurred = e.event_time; arrived = e.ingest_time }

-- The counter after an event of its dimension, whose time less the lateness is an instant.
unfoldable pub taken_in : VelocityCounter → ApplicationEvent → VelocityCounter
unfolding insert_arrival
taken_in c e = record c {
  total_events = suc c.total_events;
  late_events = if is_on_time c.watermark e.event_time then c.late_events else suc c.late_events;
  buckets =
      insert e.key (insert_arrival (arrival e) (bucket_of (lookup e.key c.buckets))) c.buckets;
  watermark = some (advance c.watermark (e.event_time - c.allowed_lateness));
}

-- `VelocityCounter.ingest`: was the event on time, and the counter after it. It raises OverflowError
-- where `event_time - allowed_lateness` lies before `datetime.min`; what that event has already
-- changed in the counter is not kept here, since `ingest_all` ends with the error.
unfoldable pub ingest :
    VelocityCounter → ApplicationEvent → Result VelocityError (Bool × VelocityCounter)
unfolding taken_in
ingest c e = do
  raise_if (not (same_dimension e.dimension c.dimension)) (wrong_dimension e.dimension c.dimension)
  raise_if (ltb e.event_time c.allowed_lateness) out_of_range
  ok (is_on_time c.watermark e.event_time, taken_in c e)

unfoldable pub ingest_all :
    VelocityCounter → List ApplicationEvent → Result VelocityError VelocityCounter
unfolding ingest
ingest_all c [] = ok c
ingest_all c (e ∷ events) = ingest c e >>= λ r. ingest_all r.1 events

-- `VelocityCounter(dimension, allowed_lateness)`
abbrev pub new_counter : Dimension → ℕ → VelocityCounter
new_counter dimension allowed_lateness = record {
  dimension = dimension;
  allowed_lateness = allowed_lateness;
  buckets = [];
  watermark = none;
  late_events = 0;
  total_events = 0;
}

-- `datetime.max`, the last microsecond of the year 9999.
abbrev pub datetime_max : ℕ
datetime_max = 315537897599999999

-- `bucket[start:stop]`, and the number of its events that had arrived.
unfoldable pub window_slice : List Arrival → ℕ → ℕ → List Arrival
unfolding bisect_left bisect_right
window_slice bucket from as_of =
    drop (bisect_left bucket (record { occurred = from; arrived = 0 }))
      (take (bisect_right bucket (record { occurred = as_of; arrived = datetime_max })) bucket)

-- The count of a bucket that is not empty.
unfoldable pub count_in : List Arrival → ℕ → ℕ → ℕ → Result VelocityError ℕ
unfolding window_slice
count_in [] as_of known_at window = ok 0
count_in (e ∷ bucket) as_of known_at window = do
  raise_if (ltb as_of window) out_of_range
  ok (count_if (λ x. leb x.arrived known_at) (window_slice (e ∷ bucket) (as_of - window) as_of))

unfoldable pub count : VelocityCounter → String → ℕ → ℕ → ℕ → Result VelocityError ℕ
unfolding count_in
count c key as_of known_at window = do
  raise_if (window == 0) window_not_positive
  raise_if (ltb known_at as_of) (known_too_early known_at as_of)
  count_in (bucket_of (lookup key c.buckets)) as_of known_at window

-- The online count, the count of one that knows every event, and the skew between them.
unfoldable pub skew_check : VelocityCounter → String → ℕ → ℕ → ℕ → Result VelocityError (ℕ × ℕ × ℕ)
unfolding count
skew_check c key as_of known_at window = do
  online ← count c key as_of known_at window
  offline ← count c key as_of datetime_max window
  ok (online, offline, offline - online)
