-- ===== src/Core.antt =====
-- src/core.cpp: the processor, which takes the messages off the queue one by one and renews the dump,
-- and the start and the end of the library. The processor's thread is its sequence of turns; the
-- times of the clock's reads in a turn are an argument. The name of the thread is not modelled.
pub mod Steady
pub mod Turn
pub mod Progress
pub mod Lifecycle
pub mod Spacing
use Prim.Native.String.{String}
use handystats.Prelude.{ℕ, Bool, true, false, ◌&&◌, Option, none, some, List, [], ◌∷◌, pos}
use handystats.Machine.{Machine}
use handystats.MathUtils.{◌>>=◌}
use handystats.Chrono.Duration.{duration, sec}
use handystats.Chrono.TimePoint.{TimePoint, epoch, later}
use handystats.Statistics.State.{default_config}
use handystats.Events.Message.{EventMessage}
use handystats.Internal
use handystats.Internal.{Options}
use handystats.MessageQueue.Service
use handystats.MessageQueue.Service.{Service}
use handystats.MetricsDump
use handystats.MetricsDump.{DumpConfig, default_dump_config}

-- `config::core_opts`, `config::metrics` and what its patterns give a name, and
-- `config::metrics_dump_opts`.
pub record Settings : Type 0 where
  pub enable : Bool
  pub defaults : Options
  pub configured : String → Options
  pub dump_opts : DumpConfig

abbrev pub default_options : Options
default_options = record {
  counter_opts = default_config;
  gauge_opts = default_config;
  timer_opts = record { idle_timeout = duration (pos 10) sec; values = default_config };
}

-- What `config::finalize` leaves.
unfoldable pub default_settings : Settings
unfolding default_config
default_settings = record {
  enable = true;
  defaults = default_options;
  configured = λ _. default_options;
  dump_opts = default_dump_config;
}

-- The clock's reads in a turn: after the pop, at the start and the end of the processing, of an
-- idle turn, and those of the dump.
pub record Reads : Type 0 where
  pub popped : TimePoint
  pub start : TimePoint
  pub end : TimePoint
  pub idle : TimePoint
  pub system_time : TimePoint
  pub dump_start : TimePoint
  pub dump_stamp : TimePoint
  pub dump_end : TimePoint

module _ ⦃m : Machine⦄ where
  pub record Core : Type 0 where
    pub settings : Settings
    pub enabled_flag : Bool
    pub last_message_timestamp : TimePoint
    pub internal : Internal.State
    pub queue : Service
    pub metrics_dump : MetricsDump.State

  unfoldable pub is_enabled : Core → Bool
  is_enabled c = c.settings.enable && c.enabled_flag

  -- The processing of the message at the address `n`.
  unfoldable pub process_message : Reads → ℕ → Core → Option Core
  process_message r n c = c.queue.messages n >>= λ msg.
      Internal.process_event_message c.settings.defaults c.settings.configured r.start r.end msg
        c.internal
      >>= λ st. some (record c {
        internal = st;
        last_message_timestamp = later c.last_message_timestamp msg.timestamp;
        queue = Service.delete_message (some n) c.queue;
      })

  unfoldable pub process_message_queue : Reads → Core → Option Core
  unfolding process_message
  process_message_queue r c = Service.pop r.popped c.queue >>= λ (q, message). elim message [
    | none ↦ some (record c { queue = Service.delete_message none q })
    | some n ↦ process_message r n (record c { queue = q })
  ]

  unfoldable pub update_dump : Reads → Core → Option Core
  update_dump r c =
      MetricsDump.update c.settings.dump_opts r.dump_start r.dump_stamp r.dump_end r.system_time
        c.last_message_timestamp
        (record { state = c.metrics_dump; metrics = c.internal; queue_stats = c.queue.stats })
      >>= λ d. some (record c {
        metrics_dump = d.state;
        internal = d.metrics;
        queue = record c.queue { stats = d.queue_stats };
      })

  -- One turn of the loop of `run_processor`.
  unfoldable pub turn : Reads → Core → Option Core
  unfolding process_message_queue update_dump
  turn r c =
      elim (Service.empty c.queue) [
        | false ↦ process_message_queue r c
        | true ↦ some (record c { last_message_timestamp = later c.last_message_timestamp r.idle })
      ]
      >>= update_dump r

  -- As many turns as there are reads, as long as the library is enabled.
  unfoldable pub run_processor : List Reads → Core → Option Core
  unfolding is_enabled turn
  run_processor [] c = some c
  run_processor (r ∷ rs) c = elim (is_enabled c) [
    | true ↦ turn r c >>= run_processor rs
    | false ↦ some c
  ]

  -- `now` and `queue_now` are the times of the first values of the library's own gauges, and `memory`
  -- is what the memory of the new queue's stub node held.
  unfoldable pub initialize : (ℕ → Option ℕ) → (now queue_now : TimePoint) → Core → Option Core
  initialize memory now queue_now c = elim c.enabled_flag [
    | true ↦ some c
    | false ↦ Internal.initialize now c.internal >>= λ st.
        Service.initialize memory queue_now c.queue >>= λ q.
        let c' : Core = record c {
          metrics_dump = MetricsDump.initialize c.metrics_dump;
          internal = st;
          queue = q;
        } in
        elim c.settings.enable [
          | false ↦ some c'
          | true ↦ some (record c' { enabled_flag = true; last_message_timestamp = epoch })
        ]
  ]

  -- `finalize`, after the processor's last turn; the queue's loop has its fuel and its times.
  unfoldable pub finalize : ℕ → (ℕ → TimePoint) → (now queue_now : TimePoint) → Core → Option Core
  unfolding default_settings
  finalize fuel clock now queue_now c = Internal.finalize now c.internal >>= λ st.
      Service.finalize fuel clock queue_now c.queue >>= λ q. some (record c {
        settings = default_settings;
        enabled_flag = false;
        internal = st;
        queue = q;
        metrics_dump = MetricsDump.finalize c.metrics_dump;
      })
