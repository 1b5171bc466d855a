-- ===== src/MeasuringPoints.antt =====
-- src/measuring_points: the calls by which a program reports to the library. Each makes a message and
-- pushes it, if the library is enabled; the message's address is an argument. The C functions
-- are in CFunctions, the proxies in Proxy and the helpers for scopes in Scope; the macros around
-- these functions are not modelled.
pub mod Sent
pub mod Change
pub mod CFunctions
pub mod Proxy
pub mod Scope
use Prim.Native.String.{String}
use handystats.Prelude.{ℕ, Bool, Option, some, ℤ, pos, ◌-ℤ◌, leb_ℤ, if◌then◌else◌}
use handystats.Machine.{Machine}
use handystats.Chrono.Duration.{Duration}
use handystats.Chrono.TimePoint.{TimePoint}
use handystats.Metrics.Attribute
use handystats.Events.Message.{EventMessage}
use handystats.Events.Counter as CounterEvents
use handystats.Events.Gauge as GaugeEvents
use handystats.Events.Timer as TimerEvents
use handystats.Events.Attribute as AttributeEvents
use handystats.MessageQueue.Service
use handystats.MessageQueue.Service.{store}
use handystats.Core.{Core, is_enabled}

module _ ⦃m : Machine⦄ where
  open m use {F}

  -- The message is made at the address `n`, where no message is, and pushed.
  unfoldable pub send : ℕ → EventMessage → Core → Core
  unfolding is_enabled
  send n msg c =
      if is_enabled c
      then record c {
        queue = Service.push n (record c.queue { messages = store c.queue.messages n (some msg) });
      }
      else c

  unfoldable pub counter_init : ℕ → String → ℤ → TimePoint → Core → Core
  unfolding send
  counter_init n name v t c = send n (CounterEvents.create_init_event name v t) c

  unfoldable pub counter_increment : ℕ → String → ℤ → TimePoint → Core → Core
  unfolding send
  counter_increment n name v t c = send n (CounterEvents.create_increment_event name v t) c

  unfoldable pub counter_decrement : ℕ → String → ℤ → TimePoint → Core → Core
  unfolding send
  counter_decrement n name v t c = send n (CounterEvents.create_decrement_event name v t) c

  unfoldable pub counter_change : ℕ → String → ℤ → TimePoint → Core → Core
  unfolding is_enabled counter_increment counter_decrement
  counter_change n name v t c =
      if is_enabled c
      then (if leb_ℤ (pos 0) v
          then counter_increment n name v t c
          else counter_decrement n name (pos 0 -ℤ v) t c)
      else c

  unfoldable pub gauge_init : ℕ → String → F → TimePoint → Core → Core
  unfolding send
  gauge_init n name v t c = send n (GaugeEvents.create_init_event name v t) c

  unfoldable pub gauge_set : ℕ → String → F → TimePoint → Core → Core
  unfolding send
  gauge_set n name v t c = send n (GaugeEvents.create_set_event name v t) c

  unfoldable pub timer_init : ℕ → String → ℕ → TimePoint → Core → Core
  unfolding send
  timer_init n name id t c = send n (TimerEvents.create_init_event name id t) c

  unfoldable pub timer_start : ℕ → String → ℕ → TimePoint → Core → Core
  unfolding send
  timer_start n name id t c = send n (TimerEvents.create_start_event name id t) c

  unfoldable pub timer_stop : ℕ → String → ℕ → TimePoint → Core → Core
  unfolding send
  timer_stop n name id t c = send n (TimerEvents.create_stop_event name id t) c

  unfoldable pub timer_discard : ℕ → String → ℕ → TimePoint → Core → Core
  unfolding send
  timer_discard n name id t c = send n (TimerEvents.create_discard_event name id t) c

  unfoldable pub timer_heartbeat : ℕ → String → ℕ → TimePoint → Core → Core
  unfolding send
  timer_heartbeat n name id t c = send n (TimerEvents.create_heartbeat_event name id t) c

  unfoldable pub timer_set : ℕ → String → Duration → TimePoint → Core → Core
  unfolding send
  timer_set n name d t c = send n (TimerEvents.create_set_event name d t) c

  unfoldable pub attribute_set : ℕ → String → Attribute.Value → TimePoint → Core → Core
  unfolding send
  attribute_set n name v t c = send n (AttributeEvents.create_set_event name v t) c

  unfoldable pub attribute_set_bool : ℕ → String → Bool → TimePoint → Core → Core
  unfolding send
  attribute_set_bool n name v t c =
      send n (AttributeEvents.create_set_event name (Attribute.bool v) t) c

  unfoldable pub attribute_set_int : ℕ → String → ℤ → TimePoint → Core → Core
  unfolding send
  attribute_set_int n name v t c =
      send n (AttributeEvents.create_set_event name (Attribute.int v) t) c

  unfoldable pub attribute_set_uint : ℕ → String → ℕ → TimePoint → Core → Core
  unfolding send
  attribute_set_uint n name v t c =
      send n (AttributeEvents.create_set_event name (Attribute.uint v) t) c

  unfoldable pub attribute_set_int64 : ℕ → String → ℤ → TimePoint → Core → Core
  unfolding send
  attribute_set_int64 n name v t c =
      send n (AttributeEvents.create_set_event name (Attribute.int64 v) t) c

  unfoldable pub attribute_set_uint64 : ℕ → String → ℕ → TimePoint → Core → Core
  unfolding send
  attribute_set_uint64 n name v t c =
      send n (AttributeEvents.create_set_event name (Attribute.uint64 v) t) c

  unfoldable pub attribute_set_double : ℕ → String → F → TimePoint → Core → Core
  unfolding send
  attribute_set_double n name v t c =
      send n (AttributeEvents.create_set_event name (Attribute.double v) t) c

  unfoldable pub attribute_set_string : ℕ → String → String → TimePoint → Core → Core
  unfolding send
  attribute_set_string n name v t c =
      send n (AttributeEvents.create_set_event name (Attribute.string v) t) c
