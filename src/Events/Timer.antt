-- ===== src/Events/Timer.antt =====
-- src/events/timer.cpp
use Prim.Native.String.{String}
use handystats.Prelude.{
  ℕ, ◌≡◌, refl, ◌==◌, if◌then◌else◌, Option, some, to_u64, IsInt64, of_u64-to_u64, ℤ,
}
use handystats.Machine.{Machine}
use handystats.MathUtils.{◌>>=◌}
use handystats.Chrono.Duration.{Duration, duration, convert_to}
use handystats.Chrono.TimePoint.{TimePoint}
use handystats.Events.Message.{Destination, EventMessage, word, as_int64, as_uint64}
use handystats.Metrics.Timer
use handystats.Metrics.Timer.{Timer, TimerConfig, value_unit}

-- `event_type`
abbrev pub init_type : ℕ
init_type = 0

abbrev pub start_type : ℕ
start_type = 1

abbrev pub stop_type : ℕ
stop_type = 2

abbrev pub discard_type : ℕ
discard_type = 3

abbrev pub heartbeat_type : ℕ
heartbeat_type = 4

abbrev pub set_type : ℕ
set_type = 5

module _ ⦃m : Machine⦄ where
  unfoldable pub create_init_event : String → ℕ → TimePoint → EventMessage
  create_init_event name id t = record {
    destination_type = Destination.timer;
    event_type = init_type;
    destination_name = name;
    timestamp = t;
    event_data = word id;
  }

  unfoldable pub create_start_event : String → ℕ → TimePoint → EventMessage
  create_start_event name id t = record {
    destination_type = Destination.timer;
    event_type = start_type;
    destination_name = name;
    timestamp = t;
    event_data = word id;
  }

  unfoldable pub create_stop_event : String → ℕ → TimePoint → EventMessage
  create_stop_event name id t = record {
    destination_type = Destination.timer;
    event_type = stop_type;
    destination_name = name;
    timestamp = t;
    event_data = word id;
  }

  unfoldable pub create_discard_event : String → ℕ → TimePoint → EventMessage
  create_discard_event name id t = record {
    destination_type = Destination.timer;
    event_type = discard_type;
    destination_name = name;
    timestamp = t;
    event_data = word id;
  }

  unfoldable pub create_heartbeat_event : String → ℕ → TimePoint → EventMessage
  create_heartbeat_event name id t = record {
    destination_type = Destination.timer;
    event_type = heartbeat_type;
    destination_name = name;
    timestamp = t;
    event_data = word id;
  }

  unfoldable pub create_set_event : String → Duration → TimePoint → EventMessage
  create_set_event name d t = record {
    destination_type = Destination.timer;
    event_type = set_type;
    destination_name = name;
    timestamp = t;
    event_data = word (to_u64 (convert_to value_unit d).rep);
  }

  -- `opts` is `config::metrics::timer_opts`.
  unfoldable pub process_init_event : TimerConfig → Timer → EventMessage → Option Timer
  process_init_event opts tm msg =
      as_uint64 msg.event_data >>= λ id. some (Timer.start id msg.timestamp (Timer.create opts))

  unfoldable pub process_start_event : Timer → EventMessage → Option Timer
  process_start_event tm msg =
      as_uint64 msg.event_data >>= λ id. some (Timer.start id msg.timestamp tm)

  unfoldable pub process_stop_event : Timer → EventMessage → Option Timer
  process_stop_event tm msg = as_uint64 msg.event_data >>= λ id. Timer.stop id msg.timestamp tm

  unfoldable pub process_discard_event : Timer → EventMessage → Option Timer
  process_discard_event tm msg =
      as_uint64 msg.event_data >>= λ id. some (Timer.discard id msg.timestamp tm)

  unfoldable pub process_heartbeat_event : Timer → EventMessage → Option Timer
  process_heartbeat_event tm msg =
      as_uint64 msg.event_data >>= λ id. some (Timer.heartbeat id msg.timestamp tm)

  unfoldable pub process_set_event : Timer → EventMessage → Option Timer
  process_set_event tm msg =
      as_int64 msg.event_data >>= λ rep. Timer.set (duration rep value_unit) msg.timestamp tm

  unfoldable pub process_event : TimerConfig → Timer → EventMessage → Option Timer
  process_event opts tm msg =
      if msg.event_type == init_type
      then process_init_event opts tm msg
      else if msg.event_type == start_type
      then process_start_event tm msg
      else if msg.event_type == stop_type
      then process_stop_event tm msg
      else if msg.event_type == discard_type
      then process_discard_event tm msg
      else if msg.event_type == heartbeat_type
      then process_heartbeat_event tm msg
      else if msg.event_type == set_type
      then process_set_event tm msg
      else some tm

  in_value_unit : (r : ℤ) → convert_to value_unit (duration r value_unit) ≡ duration r value_unit
  unfolding convert_to
  in_value_unit r = refl

  set-converted :
      (d : Duration) (t : TimePoint) (tm : Timer)
      → Timer.set (duration (convert_to value_unit d).rep value_unit) t tm ≡ Timer.set d t tm
  unfolding Timer.set
  set-converted d t tm = rw (in_value_unit (convert_to value_unit d).rep)

  -- A timer that gets the message that a measuring point has made does the operation of the
  -- message's kind on that instance at that time point; an init first makes a new timer with the
  -- default options. For a set, the microseconds of the duration must fit an `int64_t`.
  pub timer_events :
      (opts : TimerConfig) (name : String) (id : ℕ) (d : Duration) (t : TimePoint) (tm : Timer)
      → IsInt64 (convert_to value_unit d).rep
      → (process_event opts tm (create_init_event name id t)
          ≡ some (Timer.start id t (Timer.create opts)))
        × (process_event opts tm (create_start_event name id t) ≡ some (Timer.start id t tm))
        × (process_event opts tm (create_stop_event name id t) ≡ Timer.stop id t tm)
        × (process_event opts tm (create_discard_event name id t) ≡ some (Timer.discard id t tm))
        × (process_event opts tm (create_heartbeat_event name id t)
            ≡ some (Timer.heartbeat id t tm))
        × (process_event opts tm (create_set_event name d t) ≡ Timer.set d t tm)
  unfolding process_event create_init_event create_start_event create_stop_event
      create_discard_event create_heartbeat_event create_set_event process_init_event
      process_start_event process_stop_event process_discard_event process_heartbeat_event
      process_set_event as_int64 as_uint64
  timer_events opts name id d t tm h = (
    refl,
    refl,
    refl,
    refl,
    refl,
    rw (of_u64-to_u64 (convert_to value_unit d).rep h) (set-converted d t tm),
  )
