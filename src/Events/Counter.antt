-- ===== src/Events/Counter.antt =====
-- src/events/counter.cpp
use Prim.Native.String.{String}
use handystats.Prelude.{
  ℕ, ◌≡◌, ◌==◌, if◌then◌else◌, ℤ, Option, some, to_u64, IsInt64, of_u64-to_u64,
}
use handystats.Machine.{Machine}
use handystats.MathUtils.{◌>>=◌}
use handystats.Chrono.TimePoint.{TimePoint}
use handystats.Statistics.State.{Config}
use handystats.Events.Message.{Destination, EventMessage, word, as_int64}
use handystats.Metrics.Counter
use handystats.Metrics.Counter.{Counter}

-- `event_type`
abbrev pub init_type : ℕ
init_type = 0

abbrev pub increment_type : ℕ
increment_type = 1

abbrev pub decrement_type : ℕ
decrement_type = 2

module _ ⦃m : Machine⦄ where
  unfoldable pub create_init_event : String → ℤ → TimePoint → EventMessage
  create_init_event name v t = record {
    destination_type = Destination.counter;
    event_type = init_type;
    destination_name = name;
    timestamp = t;
    event_data = word (to_u64 v);
  }

  unfoldable pub create_increment_event : String → ℤ → TimePoint → EventMessage
  create_increment_event name v t = record {
    destination_type = Destination.counter;
    event_type = increment_type;
    destination_name = name;
    timestamp = t;
    event_data = word (to_u64 v);
  }

  unfoldable pub create_decrement_event : String → ℤ → TimePoint → EventMessage
  create_decrement_event name v t = record {
    destination_type = Destination.counter;
    event_type = decrement_type;
    destination_name = name;
    timestamp = t;
    event_data = word (to_u64 v);
  }

  -- `opts` is `config::metrics::counter_opts`.
  unfoldable pub process_init_event : Config → Counter → EventMessage → Option Counter
  process_init_event opts c msg =
      as_int64 msg.event_data >>= λ v. Counter.init v msg.timestamp (Counter.create opts)

  unfoldable pub process_increment_event : Counter → EventMessage → Option Counter
  process_increment_event c msg =
      as_int64 msg.event_data >>= λ v. Counter.increment v msg.timestamp c

  unfoldable pub process_decrement_event : Counter → EventMessage → Option Counter
  process_decrement_event c msg =
      as_int64 msg.event_data >>= λ v. Counter.decrement v msg.timestamp c

  unfoldable pub process_event : Config → Counter → EventMessage → Option Counter
  process_event opts c msg =
      if msg.event_type == init_type
      then process_init_event opts c msg
      else if msg.event_type == increment_type
      then process_increment_event c msg
      else if msg.event_type == decrement_type
      then process_decrement_event c msg
      else some c

  -- A counter that gets the message that a measuring point has made for an `int64_t` does the
  -- operation of the message's kind with that integer at that time point; an init first makes a
  -- new counter with the default options.
  pub counter_events :
      (opts : Config) (name : String) (v : ℤ) (t : TimePoint) (c : Counter)
      → IsInt64 v
      → (process_event opts c (create_init_event name v t) ≡ Counter.init v t (Counter.create opts))
        × (process_event opts c (create_increment_event name v t) ≡ Counter.increment v t c)
        × (process_event opts c (create_decrement_event name v t) ≡ Counter.decrement v t c)
  unfolding process_event create_init_event create_increment_event create_decrement_event
      process_init_event process_increment_event process_decrement_event as_int64
  counter_events opts name v t c h =
      (rw (of_u64-to_u64 v h), rw (of_u64-to_u64 v h), rw (of_u64-to_u64 v h))
