-- ===== src/Internal.antt =====
-- src/internal.cpp: the map of metrics and the processing of one message, with the library's own
-- gauges for the size of the map and the processing time. The options that `config::select_pattern`
-- and `configure` give a new metric are a parameter, as are the times at the start and the end of
-- the processing.
pub mod Dispatch
pub mod Progress
pub mod Mismatch
use Prim.Native.String.{String}
use text.Mathlib.Text.{◌==◌ as str_eq}
use handystats.Prelude.{ℕ, Bool, Option, none, some, List, [], ◌∷◌, length, pos, if◌then◌else◌}
use handystats.Machine.{Machine}
use handystats.MathUtils.{num, ◌>>=◌}
use handystats.Chrono.Duration.{duration, sec, convert_to}
use handystats.Chrono.TimePoint.{TimePoint, elapsed}
use handystats.Statistics.State.{Config, default_config}
use handystats.Statistics.Tag.{bit}
use handystats.Statistics.Tag
use handystats.Metrics.Counter
use handystats.Metrics.Gauge
use handystats.Metrics.Timer
use handystats.Metrics.Attribute
use handystats.Events.Message.{Destination, EventMessage}
use handystats.Events.Counter as CounterEvents
use handystats.Events.Gauge as GaugeEvents
use handystats.Events.Timer as TimerEvents
use handystats.Events.Attribute as AttributeEvents

-- The default options of the metrics, `config::metrics`, or those for one name.
pub record Options : Type 0 where
  pub counter_opts : Config
  pub gauge_opts : Config
  pub timer_opts : Timer.TimerConfig

module _ ⦃m : Machine⦄ where
  open m use {F, of_ℤ}

  -- `metrics::metric_ptr_variant`
  pub data Metric : Type 0 where
    counter : Counter.Counter → Metric
    gauge : Gauge.Gauge → Metric
    timer : Timer.Timer → Metric
    attribute : Attribute.Attribute → Metric

  abbrev pub MetricsMap : Type 0
  MetricsMap = List (String × Metric)

  unfoldable pub find : String → MetricsMap → Option Metric
  find name [] = none
  find name ((key, x) ∷ xs) = if str_eq key name then some x else find name xs

  -- An assignment through `metrics_map[name]`.
  unfoldable pub put : String → Metric → MetricsMap → MetricsMap
  put name x [] = (name, x) ∷ []
  put name x ((key, y) ∷ xs) = if str_eq key name then (key, x) ∷ xs else (key, y) ∷ put name x xs

  unfoldable pub update_metric : TimePoint → Metric → Metric
  update_metric t (counter c) = counter (Counter.update_statistics t c)
  update_metric t (gauge g) = gauge (Gauge.update_statistics t g)
  update_metric t (timer tm) = timer (Timer.update_statistics t tm)
  update_metric t (attribute a) = attribute a

  unfoldable pub update_metrics : TimePoint → MetricsMap → MetricsMap
  update_metrics t [] = []
  update_metrics t ((key, x) ∷ xs) = (key, update_metric t x) ∷ update_metrics t xs

  -- `process_event_message` on one metric: the type of the metric selects the handler.
  unfoldable pub process_metric : Options → Metric → EventMessage → Option Metric
  process_metric defaults (counter c) msg =
      CounterEvents.process_event defaults.counter_opts c msg >>= λ c'. some (counter c')
  process_metric defaults (gauge g) msg =
      GaugeEvents.process_event defaults.gauge_opts g msg >>= λ g'. some (gauge g')
  process_metric defaults (timer tm) msg =
      TimerEvents.process_event defaults.timer_opts tm msg >>= λ tm'. some (timer tm')
  process_metric defaults (attribute a) msg =
      AttributeEvents.process_event a msg >>= λ a'. some (attribute a')

  -- The new metric for a name that has none: the destination type of the message selects it.
  unfoldable pub new_metric : Options → Destination → Metric
  new_metric opts Destination.counter = counter (Counter.create opts.counter_opts)
  new_metric opts Destination.gauge = gauge (Gauge.create opts.gauge_opts)
  new_metric opts Destination.timer = timer (Timer.create opts.timer_opts)
  new_metric opts Destination.attribute = attribute Attribute.create

  -- `metrics_map` and the gauges of `stats`.
  pub record State : Type 0 where
    pub metrics_map : MetricsMap
    pub size : Gauge.Gauge
    pub process_time : Gauge.Gauge

  -- The metric that a message goes to.
  unfoldable pub destination : (String → Options) → EventMessage → MetricsMap → Metric
  destination configured msg xs = elim (find msg.destination_name xs) [
    | none ↦ new_metric (configured msg.destination_name) msg.destination_type
    | some x ↦ x
  ]

  unfoldable pub process_event_message :
      Options → (String → Options) → TimePoint → TimePoint → EventMessage → State → Option State
  process_event_message defaults configured start end msg st =
      process_metric defaults (destination configured msg st.metrics_map) msg >>= λ x.
      let xs = put msg.destination_name x st.metrics_map in
      Gauge.set (of_ℤ (convert_to Timer.value_unit (elapsed end start)).rep) end st.process_time
      >>= λ time. Gauge.set (num (length xs)) end st.size >>= λ size.
          some (record { metrics_map = xs; size = size; process_time = time })

  -- `stats::update`
  unfoldable pub update_stats : TimePoint → State → State
  update_stats t st = record st {
    size = Gauge.update_statistics t st.size;
    process_time = Gauge.update_statistics t st.process_time;
  }

  -- `stats::reset`, which `initialize` and `finalize` call; `now` is the time of the first value.
  unfoldable pub reset_stats : TimePoint → State → Option State
  unfolding default_config bit
  reset_stats now st =
      Gauge.set (num 0) now (Gauge.create (record default_config { tags = bit Tag.value }))
      >>= λ size. some (record st {
        size = size;
        process_time = Gauge.create (record default_config {
          tags = bit Tag.moving_avg;
          moving_interval = duration (pos 1) sec;
        });
      })

  unfoldable pub initialize : TimePoint → State → Option State
  unfolding reset_stats
  initialize now st = reset_stats now st

  unfoldable pub finalize : TimePoint → State → Option State
  unfolding reset_stats
  finalize now st = reset_stats now (record st { metrics_map = [] })
