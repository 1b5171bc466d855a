-- ===== src/Tests/Dispatching.antt =====
-- Runs of events and of their processing.
use handystats.Prelude.{◌≡◌, refl, none, some, [], ◌∷◌, inl, pos, negsuc, IsInt64, of_u64, arith}
use handystats.Machine.Milli.{milli}
use handystats.Chrono.Duration.{duration, msec, sec, convert_to, rescale}
use handystats.Chrono.TimePoint.{TimePoint}
use handystats.Chrono.TimePoint.Ticks.{at_tick}
use handystats.Statistics.Tag
use handystats.Statistics.State.{default_config, initial, is_computed}
use handystats.Metrics.Counter
use handystats.Metrics.Timer
use handystats.Metrics.Attribute
use handystats.Events.Message.{EventMessage, as_value}
use handystats.Events.Timer as TimerEvents
use handystats.Events.Attribute as AttributeEvents
use handystats.Internal.{Options, State, Metric, find, process_metric, process_event_message}
use handystats.MathUtils.{◌>>=◌}
use handystats.Internal.Mismatch.{timer_message_at_counter}
use handystats.Metrics.Plain.{IsPlain}
use handystats.Internal.Dispatch.{Dispatched, IsTarget, process_event_message_lem}

abbrev now : TimePoint
now = at_tick (pos 5_000_000)

abbrev some_counter : Counter.Counter ⦃m = milli⦄
some_counter = record {
  values = initial ⦃m = milli⦄ default_config;
  value = pos 4;
  timestamp = now;
}

small : IsInt64 (negsuc 41)
small = (omega arith, omega arith)

abbrev opts : Timer.TimerConfig
opts = record { idle_timeout = duration (pos 10) sec; values = default_config }

abbrev timer : Timer.Timer ⦃m = milli⦄
timer = record {
  idle_timeout = duration (pos 10) sec;
  values = initial ⦃m = milli⦄ default_config;
  instances = λ _. none;
  idle_check_timestamp = now;
}

fits : IsInt64 (convert_to ⦃m = milli⦄ Timer.value_unit (duration (pos 3) msec)).rep
unfolding convert_to rescale
fits = (omega arith, omega arith)

timer_events_example :
    (TimerEvents.process_event ⦃m = milli⦄ opts timer
        (TimerEvents.create_init_event ⦃m = milli⦄ "request" 8 now)
      ≡ some (Timer.start ⦃m = milli⦄ 8 now (Timer.create ⦃m = milli⦄ opts)))
    × (TimerEvents.process_event ⦃m = milli⦄ opts timer
          (TimerEvents.create_start_event ⦃m = milli⦄ "request" 8 now)
        ≡ some (Timer.start ⦃m = milli⦄ 8 now timer))
    × (TimerEvents.process_event ⦃m = milli⦄ opts timer
          (TimerEvents.create_stop_event ⦃m = milli⦄ "request" 8 now)
        ≡ Timer.stop ⦃m = milli⦄ 8 now timer)
    × (TimerEvents.process_event ⦃m = milli⦄ opts timer
          (TimerEvents.create_discard_event ⦃m = milli⦄ "request" 8 now)
        ≡ some (Timer.discard ⦃m = milli⦄ 8 now timer))
    × (TimerEvents.process_event ⦃m = milli⦄ opts timer
          (TimerEvents.create_heartbeat_event ⦃m = milli⦄ "request" 8 now)
        ≡ some (Timer.heartbeat ⦃m = milli⦄ 8 now timer))
    × (TimerEvents.process_event ⦃m = milli⦄ opts timer
          (TimerEvents.create_set_event ⦃m = milli⦄ "request" (duration (pos 3) msec) now)
        ≡ Timer.set ⦃m = milli⦄ (duration (pos 3) msec) now timer)
timer_events_example =
    TimerEvents.timer_events ⦃m = milli⦄ opts "request" 8 (duration (pos 3) msec) now timer fits

-- A message to an attribute that is known.
abbrev message : EventMessage ⦃m = milli⦄
message = AttributeEvents.create_set_event ⦃m = milli⦄ "version" (Attribute.int (pos 2)) now

abbrev version : Metric ⦃m = milli⦄
version = Metric.attribute (record { value = Attribute.int (pos 2) })

abbrev old : Metric ⦃m = milli⦄
old = Metric.attribute (record { value = Attribute.int (pos 1) })

abbrev known_state : State ⦃m = milli⦄
known_state = record {
  metrics_map = ("version", old) ∷ [];
  size = record { values = initial ⦃m = milli⦄ default_config };
  process_time = record { values = initial ⦃m = milli⦄ default_config };
}

abbrev defaults : Options
defaults = record { counter_opts = default_config; gauge_opts = default_config; timer_opts = opts }

plain : IsPlain ⦃m = milli⦄ (initial ⦃m = milli⦄ default_config)
unfolding initial is_computed default_config Tag.computed
plain = (omega arith, refl)

handled : process_metric ⦃m = milli⦄ defaults old message ≡ some version
unfolding process_metric AttributeEvents.create_set_event AttributeEvents.process_event
    AttributeEvents.process_set_event as_value Attribute.set
handled = refl

target : IsTarget ⦃m = milli⦄ (λ _. defaults) message known_state.metrics_map old
unfolding find AttributeEvents.create_set_event
target = inl refl

process_event_message_lem_example :
    (st : State ⦃m = milli⦄) × (process_event_message ⦃m = milli⦄ defaults
        (λ _. defaults)
        now
        now
        message
        known_state
      ≡ some st)
    × Dispatched ⦃m = milli⦄ message version known_state st
process_event_message_lem_example =
    process_event_message_lem ⦃m = milli⦄ defaults (λ _. defaults) now now message known_state old
      version plain plain target handled

timer_message_at_counter_example :
    (process_metric ⦃m = milli⦄ defaults
        (Metric.counter some_counter)
        (TimerEvents.create_start_event ⦃m = milli⦄ "queue" 8 now)
      ≡ (Counter.increment ⦃m = milli⦄ (of_u64 8) now some_counter >>= λ c.
          some (Metric.counter c)))
    × (process_metric ⦃m = milli⦄ defaults
          (Metric.counter some_counter)
          (TimerEvents.create_stop_event ⦃m = milli⦄ "queue" 8 now)
        ≡ (Counter.decrement ⦃m = milli⦄ (of_u64 8) now some_counter >>= λ c.
            some (Metric.counter c)))
    × (process_metric ⦃m = milli⦄ defaults
          (Metric.counter some_counter)
          (TimerEvents.create_discard_event ⦃m = milli⦄ "queue" 8 now)
        ≡ some (Metric.counter some_counter))
    × (process_metric ⦃m = milli⦄ defaults
          (Metric.counter some_counter)
          (TimerEvents.create_heartbeat_event ⦃m = milli⦄ "queue" 8 now)
        ≡ some (Metric.counter some_counter))
timer_message_at_counter_example =
    timer_message_at_counter ⦃m = milli⦄ defaults "queue" 8 now some_counter
