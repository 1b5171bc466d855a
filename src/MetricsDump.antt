-- ===== src/MetricsDump.antt =====
-- src/metrics_dump.cpp: the copy of all metrics that is made at intervals, as a map from names. The
-- times of the clock's reads are arguments; the mutex around the pointer to the dump is not modelled.
pub mod Lookup
pub mod Interval
pub mod Writable
use Prim.Native.String.{String}
use handystats.Prelude.{
  Bool, true, false, not, ◌==◌, Option, none, some, List, [], ◌∷◌, pos, if◌then◌else◌, eqb_ℤ,
}
use handystats.Machine.{Machine}
use handystats.MathUtils.{◌>>=◌}
use handystats.Chrono.Duration as Durations
use handystats.Chrono.Duration.{Duration, duration, msec, sec, convert_to}
use handystats.Chrono.TimePoint.{TimePoint, epoch, elapsed, system, convert_clock}
use handystats.Statistics.State.{Statistics, default_config}
use handystats.Statistics.Tag
use handystats.Statistics.Tag.{bit}
use handystats.Metrics.Attribute
use handystats.Metrics.Gauge
use handystats.Metrics.Timer
use handystats.Internal
use handystats.Internal.{
  Metric, MetricsMap, counter, gauge, timer, attribute, find, put, update_metrics,
}
use handystats.MessageQueue.Service
use handystats.MessageQueue.Service.{Stats}

-- `config::metrics_dump`
pub record DumpConfig : Type 0 where
  pub interval : Duration

abbrev pub default_dump_config : DumpConfig
default_dump_config = record { interval = duration (pos 750) msec }

-- `std::map::insert` leaves a name that is there as it is.
module _ ⦃m : Machine⦄ where
  open m use {of_ℤ}

  unfoldable pub insert : String → Metric → MetricsMap → MetricsMap
  insert name x xs = elim (find name xs) [ none ↦ put name x xs | some _ ↦ xs ]

  unfoldable pub insert_all : MetricsMap → MetricsMap → MetricsMap
  unfolding insert
  insert_all [] xs = xs
  insert_all ((name, x) ∷ entries) xs = insert_all entries (insert name x xs)

  -- `dump`, `dump_timestamp` and the gauge of `stats`.
  pub record State : Type 0 where
    pub dump : MetricsMap
    pub dump_timestamp : TimePoint
    pub dump_time : Gauge.Gauge

  -- The option for the gauge is `statistics::tag::moving_avg` over one second.
  unfoldable pub reset_stats : State → State
  unfolding default_config bit
  reset_stats s = record s {
    dump_time = Gauge.create (record default_config {
      tags = bit Tag.moving_avg;
      moving_interval = duration (pos 1) sec;
    });
  }

  abbrev has_tags : Statistics → Bool
  has_tags s = not (s.config.tags == 0)

  -- Whether a metric is copied.
  unfoldable pub is_dumped : Metric → Bool
  is_dumped (gauge g) = has_tags g.values
  is_dumped (counter c) = has_tags c.values
  is_dumped (timer t) = has_tags t.values
  is_dumped (attribute a) = true

  -- The loop over the metrics.
  unfoldable pub copy_metrics : MetricsMap → MetricsMap → MetricsMap
  unfolding insert is_dumped
  copy_metrics [] xs = xs
  copy_metrics ((name, x) ∷ metrics) xs =
      copy_metrics metrics (if is_dumped x then insert name x xs else xs)

  -- The statistics of the library itself.
  unfoldable pub own_stats : Internal.State → Stats → MetricsMap
  own_stats st mq =
      ("handystats.internal.size", gauge st.size)
      ∷ ("handystats.internal.process_time", gauge st.process_time)
      ∷ ("handystats.message_queue.size", gauge mq.size)
      ∷ ("handystats.message_queue.message_wait_time", gauge mq.message_wait_time)
      ∷ ("handystats.message_queue.pop_count", counter mq.pop_count)
      ∷ []

  -- An attribute of a count of milliseconds.
  unfoldable pub millis : Duration → Metric
  unfolding convert_to Attribute.set Attribute.create
  millis d = attribute (Attribute.set (Attribute.int64 (convert_to msec d).rep) Attribute.create)

  -- `create_dump` with the reads of its clock at the start, for the time stamp, and at the end; it
  -- also gives the new value of `stats::dump_time`.
  unfoldable pub create_dump :
      DumpConfig
      → (start stamp end : TimePoint) → Internal.State
      → Stats
      → Gauge.Gauge
      → Option (MetricsMap × Gauge.Gauge)
  unfolding copy_metrics insert insert_all own_stats millis
  create_dump opts start stamp end st mq dump_time = convert_clock system stamp >>= λ stamp'.
      Gauge.set (of_ℤ (convert_to Timer.value_unit (elapsed end start)).rep) end dump_time
      >>= λ time. some (
        insert_all
            (("handystats.config.dump_interval", millis opts.interval)
              ∷ ("handystats.dump_timestamp", millis stamp'.since_epoch)
              ∷ ("handystats.metrics_dump.dump_time", gauge time)
              ∷ [])
            (insert_all (own_stats st mq) (copy_metrics st.metrics_map [])),
        time,
      )

  -- What `update` reads and changes.
  pub record Dumped : Type 0 where
    pub state : State
    pub metrics : Internal.State
    pub queue_stats : Stats

  -- The condition of `update`.
  unfoldable pub is_due : DumpConfig → TimePoint → State → Bool
  is_due opts system_time s =
      if eqb_ℤ opts.interval.rep (pos 0)
      then false
      else Durations.gt (elapsed system_time s.dump_timestamp) opts.interval

  -- The body of `update`, when a dump is due.
  unfoldable pub renew :
      DumpConfig → (start stamp end system_time internal_time : TimePoint) → Dumped → Option Dumped
  unfolding create_dump
  renew opts start stamp end system_time internal_time d =
      let st =
        Internal.update_stats system_time
          (record d.metrics { metrics_map = update_metrics internal_time d.metrics.metrics_map }) in
      let mq = Service.update_stats system_time d.queue_stats in
      let time = Gauge.update_statistics system_time d.state.dump_time in
      create_dump opts start stamp end st mq time >>= λ (dump, dump_time). some (record {
        state = record { dump = dump; dump_timestamp = system_time; dump_time = dump_time };
        metrics = st;
        queue_stats = mq;
      })

  unfoldable pub update :
      DumpConfig → (start stamp end system_time internal_time : TimePoint) → Dumped → Option Dumped
  unfolding is_due renew
  update opts start stamp end system_time internal_time d = elim (is_due opts system_time d.state) [
    | true ↦ renew opts start stamp end system_time internal_time d
    | false ↦ some d
  ]

  -- `initialize` and `finalize` do the same.
  unfoldable pub initialize : State → State
  unfolding reset_stats
  initialize s = record (reset_stats s) { dump = []; dump_timestamp = epoch }

  unfoldable pub finalize : State → State
  unfolding reset_stats
  finalize s = record (reset_stats s) { dump = []; dump_timestamp = epoch }
