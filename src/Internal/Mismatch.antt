-- ===== src/Internal/Mismatch.antt =====
-- A message at a metric of another type: `process_event_message` creates a metric by the message's
-- type, and later processes any message by the type of the metric that has the name.
use Prim.Native.String.{String}
use handystats.Prelude.{ℕ, ◌≡◌, refl, Option, some, of_u64}
use handystats.Machine.{Machine}
use handystats.MathUtils.{◌>>=◌}
use handystats.Chrono.TimePoint.{TimePoint}
use handystats.Metrics.Counter
use handystats.Events.Message.{as_int64}
use handystats.Events.Counter as CounterEvents
use handystats.Events.Timer as TimerEvents
use handystats.Internal.{Options, Metric, counter, process_metric}

module _ ⦃m : Machine⦄ where
  -- The value that the processing leaves of a counter.
  abbrev as_metric : Option Counter.Counter → Option Metric
  as_metric o = o >>= λ c. some (counter c)

  -- A counter takes the messages of a timer of the same name for its own: a start is an increment
  -- and a stop a decrement by the instance's number, read as an `int64_t`, and a discard and a
  -- heartbeat leave it as it is.
  pub timer_message_at_counter :
      (defaults : Options) (name : String) (id : ℕ) (t : TimePoint) (c : Counter.Counter)
      → (process_metric defaults (counter c) (TimerEvents.create_start_event name id t)
          ≡ as_metric (Counter.increment (of_u64 id) t c))
        × (process_metric defaults (counter c) (TimerEvents.create_stop_event name id t)
            ≡ as_metric (Counter.decrement (of_u64 id) t c))
        × (process_metric defaults (counter c) (TimerEvents.create_discard_event name id t)
            ≡ some (counter c))
        × (process_metric defaults (counter c) (TimerEvents.create_heartbeat_event name id t)
            ≡ some (counter c))
  unfolding process_metric TimerEvents.create_start_event TimerEvents.create_stop_event
      TimerEvents.create_discard_event TimerEvents.create_heartbeat_event
      CounterEvents.process_event CounterEvents.process_increment_event
      CounterEvents.process_decrement_event as_int64
  timer_message_at_counter defaults name id t c = (refl, refl, refl, refl)
