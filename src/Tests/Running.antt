-- ===== src/Tests/Running.antt =====
-- The library from its start to its end, with one message.
mod Reached
mod Called
mod Written
mod Dumping
use Prim.Native.String.{String}
use handystats.Prelude.{
  ℕ, ◌≡◌, ◌≢◌, refl, true, Option, none, some, [], ◌∷◌, pos, negsuc, ◌-ℤ◌, ◌*ℤ◌, ◌/ℤ◌, ◌≤ℤ◌,
  IsInt64, arith,
}
use handystats.Machine.Milli.{milli}
use handystats.Chrono.Duration as Durations
use handystats.Chrono.Duration.{convert_to, ticks_of, nsec_factor}
use handystats.Chrono.TimePoint.{TimePoint, epoch, elapsed}
use handystats.Chrono.TimePoint.Ticks.{at_tick, in_ticks}
use handystats.Statistics.Tag
use handystats.Statistics.State.{default_config, initial, is_computed}
use handystats.Metrics.Counter
use handystats.Metrics.Gauge
use handystats.Metrics.Plain.{IsPlain}
use handystats.Events.Message.{Destination, EventMessage}
use handystats.Events.Counter as CounterEvents
use handystats.Internal
use handystats.MessageQueue.Nodes
use handystats.MessageQueue.Fifo.{create-Holds}
use handystats.MessageQueue.Service
use handystats.MessageQueue.Service.{Stats, Service}
use handystats.MessageQueue.Service.Intact.{Intact, IsPlainStats}
use handystats.MessageQueue.Service.Drain.{Released, finalize-Released}
use handystats.MetricsDump.{Dumped, is_due, update, default_dump_config}
use handystats.MetricsDump.Lookup.{DistinctKeys}
use handystats.MetricsDump.Interval.{Ready}
use handystats.Core.{Core, Reads, Settings, default_options, is_enabled, run_processor, finalize}
use handystats.Core.Steady.{Steady, IsTyped, dumped}
use handystats.Core.Progress.{Handled, run_processor-Handled}
use handystats.MeasuringPoints.{send, counter_change}
use handystats.MeasuringPoints.Sent.{send-Steady}
use handystats.MeasuringPoints.Change.{counter_change_adds}

abbrev now : TimePoint
now = at_tick (pos 5_000_000)

abbrev gauge : Gauge.Gauge ⦃m = milli⦄
gauge = record { values = initial ⦃m = milli⦄ default_config }

abbrev counter : Counter.Counter ⦃m = milli⦄
counter = record { values = initial ⦃m = milli⦄ default_config; value = pos 4; timestamp = now }

abbrev memory : ℕ → Option ℕ
memory _ = none

abbrev service : Service ⦃m = milli⦄
service = record {
  event_message_queue = some (Nodes.create memory);
  mq_size = 0;
  stats = record { size = gauge; message_wait_time = gauge; pop_count = counter };
  messages = λ _. none;
}

abbrev settings : Settings
settings = record {
  enable = true;
  defaults = default_options;
  configured = λ _. default_options;
  dump_opts = default_dump_config;
}

abbrev core : Core ⦃m = milli⦄
core = record {
  settings = settings;
  enabled_flag = true;
  last_message_timestamp = epoch;
  internal = record { metrics_map = []; size = gauge; process_time = gauge };
  queue = service;
  metrics_dump = record { dump = []; dump_timestamp = epoch; dump_time = gauge };
}

plain : IsPlain ⦃m = milli⦄ (initial ⦃m = milli⦄ default_config)
unfolding initial is_computed default_config Tag.computed
plain = (omega arith, refl)

service-Intact : Intact ⦃m = milli⦄ service []
service-Intact = record {
  queue = Nodes.create memory;
  queue_eq = refl;
  holds = create-Holds memory;
  size_eq = refl;
  bounded = omega arith;
  distinct = tt;
  allocated = tt;
  plain = (plain, plain, plain);
}

core-Ready : Ready ⦃m = milli⦄ (dumped ⦃m = milli⦄ core)
unfolding DistinctKeys
core-Ready = record {
  distinct = tt;
  plain_metrics = (plain, plain);
  plain_stats = (plain, plain, plain);
  plain_time = plain;
}

abbrev kind : String → Destination
kind _ = Destination.counter

core-Steady : Steady ⦃m = milli⦄ kind core []
unfolding is_enabled Internal.find default_config Tag.computed
core-Steady = record {
  enabled = refl;
  intact = service-Intact;
  typed = tt;
  kinds = λ _. tt;
  ready = core-Ready;
  quiet = (refl, refl, refl);
  quiet_names = λ _. (refl, refl, refl);
  writable = tt;
}

abbrev five : ℕ
five = 5

five_new : five ≢ 0
five_new = ground arith

abbrev message : EventMessage ⦃m = milli⦄
message = CounterEvents.create_increment_event ⦃m = milli⦄ "queue" (pos 7) now

message-IsTyped : IsTyped ⦃m = milli⦄ kind message
unfolding CounterEvents.create_increment_event
message-IsTyped = (refl, (_, refl))

abbrev sent : Core ⦃m = milli⦄
sent = send ⦃m = milli⦄ five message core

sent-Steady : Steady ⦃m = milli⦄ kind sent (five ∷ [])
sent-Steady =
    (send-Steady ⦃m = milli⦄ kind five message [] core core-Steady five_new tt message-IsTyped
      (omega arith)).0

abbrev reads : Reads
reads = record {
  popped = now;
  start = now;
  end = now;
  idle = now;
  system_time = now;
  dump_start = now;
  dump_stamp = now;
  dump_end = now;
}

run_processor-Handled_example :
    (c : Core ⦃m = milli⦄) × (run_processor ⦃m = milli⦄ (reads ∷ []) sent ≡ some c)
    × Handled ⦃m = milli⦄ kind (five ∷ []) sent c
run_processor-Handled_example =
    run_processor-Handled ⦃m = milli⦄ kind (reads ∷ []) (five ∷ []) sent sent-Steady refl

abbrev clock : ℕ → TimePoint
clock _ = now

finalize-Released_example :
    (s : Service ⦃m = milli⦄) × (Service.finalize ⦃m = milli⦄ 2 clock now sent.queue ≡ some s)
    × (s.event_message_queue ≡ none)
    × (s.mq_size ≡ 0)
    × IsPlainStats ⦃m = milli⦄ s.stats
    × Released ⦃m = milli⦄ (five ∷ []) sent.queue s
finalize-Released_example =
    finalize-Released ⦃m = milli⦄ 2 clock now sent.queue (five ∷ []) sent-Steady.intact
      (omega arith)

abbrev later_tick : TimePoint
later_tick = at_tick (pos 9_000_000_000_000)

fits : IsInt64 (negsuc 6)
fits = (omega arith, omega arith)

fits_neg : IsInt64 (pos 0 -ℤ negsuc 6)
unfolding ◌-ℤ◌
fits_neg = (omega arith, omega arith)

on : is_enabled ⦃m = milli⦄ core ≡ true
unfolding is_enabled
on = refl
