-- ===== src/Fraud/VelocityTests.antt =====
-- Three applications from one device, the second of which arrived late, and the theorem at them.
use ailending_hub.Prelude.{
  ℕ, ◌-◌, ◌≡◌, refl, ◌&&◌, List, [], ◌∷◌, arith, leb, length, count_if, str_eq, ok,
}
use ailending_hub.Fraud.Velocity.{
  device, ApplicationEvent, VelocityCounter, new_counter, ingest_all, count,
}
use ailending_hub.Fraud.Windows.{count_sound}
use Prim.Native.String.{String}

abbrev event : String → String → ℕ → ℕ → ApplicationEvent
event id key event_time ingest_time = record {
  application_id = id;
  key = key;
  dimension = device;
  event_time = event_time;
  ingest_time = ingest_time;
}

abbrev events : List ApplicationEvent
events =
    event "a1" "phone-7" 7000000000 7000000500
    ∷ event "a3" "phone-7" 9000000000 9000000100
    ∷ event "a2" "phone-7" 8000000000 9900000000
    ∷ event "b1" "phone-8" 8500000000 8500000001
    ∷ []

count_sound_example :
    (c : VelocityCounter) × (ingest_all (new_counter device 300000000) events ≡ ok c)
    × (c.total_events ≡ length events)
    × (count c "phone-7" 9000000000 9000000100 3600000000
        ≡ ok (
            count_if
              (λ e.
                str_eq e.key "phone-7"
                && ((leb (9000000000 - 3600000000) e.event_time && leb e.event_time 9000000000)
                    && leb e.ingest_time 9000000100))
              events))
count_sound_example =
    count_sound device 300000000 events (refl, (refl, (refl, (refl, tt))))
      (omega arith, (omega arith, (omega arith, (omega arith, tt)))) "phone-7" 9000000000 9000000100
      3600000000 (omega arith) (omega arith) (omega arith) (omega arith)
