-- ===== src/MetricsDump/Interval.antt =====
-- `update` of src/metrics_dump.cpp: when a dump is renewed, and what it is then.
use Prim.Native.String.{String}
use text.Mathlib.Text.{◌==◌ as str_eq}
use handystats.Prelude.{
  or_else, ◌≡◌, refl, ap, ◌∙◌, Bool, true, false, Bool-cases, inl, inr, Option, none, some, [], ◌∷◌,
  ℤ, pos, ◌-ℤ◌, ◌≤ℤ◌, ltb_ℤ, eqb_ℤ, arith,
}
use handystats.Machine.{Machine}
use handystats.Chrono.Duration as Durations
use handystats.Chrono.Duration.{
  Duration, duration, TimeUnit, tick, common, unit_eq, min_unit, finer, precision_class, convert_to,
}
use handystats.Chrono.TimePoint.{TimePoint, elapsed, system, convert_clock}
use handystats.Chrono.TimePoint.Ticks.{at_tick, in_ticks, elapsed-at_tick}
use handystats.Metrics.Gauge
use handystats.Metrics.Counter
use handystats.Metrics.Plain.{IsPlain, update_gauge-IsPlain, update_counter-IsPlain}
use handystats.Internal
use handystats.Internal.{Metric, MetricsMap, find, update_metric, update_metrics}
use handystats.MessageQueue.Service
use handystats.MessageQueue.Service.{Stats}
use handystats.MessageQueue.Service.Intact.{IsPlainStats}
use handystats.MetricsDump.{DumpConfig, State, Dumped, is_due, renew, update}
use handystats.MetricsDump.Lookup.{DistinctKeys, shown, own_entries, create_dump-lookup}

not_before : (x y : ℤ) → y ≤ℤ x → ltb_ℤ x y ≡ false
not_before x y h = ground arith

module _ ⦃m : Machine⦄ where
  -- A metric after `update_metrics`, if there is one.
  abbrev pub updated : TimePoint → Option Metric → Option Metric
  updated t none = none
  updated t (some x) = some (update_metric t x)

  pub find-update_metrics :
      (t : TimePoint) (name : String) (xs : MetricsMap)
      → find name (update_metrics t xs) ≡ updated t (find name xs)
  unfolding find update_metrics
  find-update_metrics t name [] = refl
  find-update_metrics t name ((key, x) ∷ xs) = elim (Bool-cases (str_eq key name)) [
    | inl e ↦ rw (e, find) refl
    | inr e ↦ rw (e, find) (find-update_metrics t name xs)
  ]

  pub update_metrics-DistinctKeys :
      (t : TimePoint) (xs : MetricsMap) → DistinctKeys xs → DistinctKeys (update_metrics t xs)
  unfolding DistinctKeys update_metrics
  update_metrics-DistinctKeys t [] h = tt
  update_metrics-DistinctKeys t ((key, x) ∷ xs) (out, h) =
      (find-update_metrics t key xs ∙ ap (updated t) out, update_metrics-DistinctKeys t xs h)

  -- Each name stands once in the map of metrics, and the library's own metrics have no histogram.
  pub record Ready (d : Dumped) : Type 0 where
    pub distinct : DistinctKeys d.metrics.metrics_map
    pub plain_metrics : IsPlain d.metrics.size.values × IsPlain d.metrics.process_time.values
    pub plain_stats : IsPlainStats d.queue_stats
    pub plain_time : IsPlain d.state.dump_time.values

  -- What an update leaves of `d`: all of it, when no dump is due; and otherwise a dump of the
  -- metrics, which are updated to the internal time, with the time stamp of the system time.
  abbrev pub Updated :
      DumpConfig → (stamp system_time internal_time : TimePoint) → Dumped → Dumped → Bool → Type 0
  Updated opts stamp system_time internal_time d d' false = d' ≡ d
  Updated opts stamp system_time internal_time d d' true =
      (stamp' : TimePoint) × (convert_clock system stamp ≡ some stamp')
      × (d'.state.dump_timestamp ≡ system_time)
      × (d'.metrics.metrics_map ≡ update_metrics internal_time d.metrics.metrics_map)
      × ((name : String)
          → find name d'.state.dump
            ≡ or_else (shown (updated internal_time (find name d.metrics.metrics_map)))
                (find name (own_entries opts stamp' d'.metrics d'.queue_stats d'.state.dump_time)))

  renew-Ready :
      (opts : DumpConfig) (start stamp end system_time internal_time : TimePoint) (d : Dumped)
      → Ready d
      → (d' : Dumped) × (renew opts start stamp end system_time internal_time d ≡ some d')
        × Ready d'
        × Updated opts stamp system_time internal_time d d' true
  unfolding renew Internal.update_stats Service.update_stats
  renew-Ready opts start stamp end system_time internal_time d h =
      let metrics = update_metrics internal_time d.metrics.metrics_map in
      let st : Internal.State = record {
        metrics_map = metrics;
        size = Gauge.update_statistics system_time d.metrics.size;
        process_time = Gauge.update_statistics system_time d.metrics.process_time;
      } in
      let mq : Stats = record {
        size = Gauge.update_statistics system_time d.queue_stats.size;
        message_wait_time = Gauge.update_statistics system_time d.queue_stats.message_wait_time;
        pop_count = Counter.update_statistics system_time d.queue_stats.pop_count;
      } in
      let distinct = update_metrics-DistinctKeys internal_time d.metrics.metrics_map h.distinct in
      let (dump, time, stamp', e, e', p, look) =
        create_dump-lookup opts start stamp end st mq
          (Gauge.update_statistics system_time d.state.dump_time) distinct
          (update_gauge-IsPlain system_time d.state.dump_time h.plain_time) in
      (
        record {
          state = record { dump = dump; dump_timestamp = system_time; dump_time = time };
          metrics = st;
          queue_stats = mq;
        },
        rw e refl,
        record {
          distinct = distinct;
          plain_metrics = (
            update_gauge-IsPlain system_time d.metrics.size h.plain_metrics.0,
            update_gauge-IsPlain system_time d.metrics.process_time h.plain_metrics.1,
          );
          plain_stats = (
            update_gauge-IsPlain system_time d.queue_stats.size h.plain_stats.0,
            update_gauge-IsPlain system_time d.queue_stats.message_wait_time h.plain_stats.1,
            update_counter-IsPlain system_time d.queue_stats.pop_count h.plain_stats.2,
          );
          plain_time = p;
        },
        (
          stamp',
          e',
          refl,
          refl,
          λ name.
              look name
              ∙ ap (λ o. or_else (shown o) (find name (own_entries opts stamp' st mq time)))
                  (find-update_metrics internal_time name d.metrics.metrics_map),
        ),
      )

  -- `update` returns and keeps the invariant; it leaves everything as it is when no dump is due, and
  -- otherwise updates the metrics to the internal time and makes a dump, with the system time as its
  -- time stamp: under each name it has the updated metric, if this is an attribute or has a tag, or
  -- else the library's own entry of that name, and nothing under other names.
  pub update-Ready :
      (opts : DumpConfig) (start stamp end system_time internal_time : TimePoint) (d : Dumped)
      → Ready d
      → (d' : Dumped) × (update opts start stamp end system_time internal_time d ≡ some d')
        × Ready d'
        × Updated opts stamp system_time internal_time d d' (is_due opts system_time d.state)
  unfolding update
  update-Ready opts start stamp end system_time internal_time d h =
      elim (Bool-cases (is_due opts system_time d.state)) [
        | inl e ↦ rw (e, update) (renew-Ready opts start stamp end system_time internal_time d h)
        | inr e ↦ rw (e, update) (d, refl, h, refl)
      ]

  -- The comparison of ticks with a duration of any unit is made in ticks.
  gt-tick :
      (x r : ℤ) (u : TimeUnit)
      → Durations.gt (duration x tick) (duration r u) ≡ ltb_ℤ (in_ticks (duration r u)) x
  unfolding Durations.gt common unit_eq min_unit finer precision_class convert_to
  gt-tick x r tick = refl
  gt-tick x r _ = refl

  pub is_due-at_tick :
      (opts : DumpConfig) (a b : ℤ) (s : State)
      → s.dump_timestamp ≡ at_tick a
      → b -ℤ a ≤ℤ in_ticks opts.interval
      → is_due opts (at_tick b) s ≡ false
  unfolding is_due
  is_due-at_tick opts a b s e close = elim (Bool-cases (eqb_ℤ opts.interval.rep (pos 0))) [
    | inl z ↦ rw (z, is_due) refl
    | inr z ↦
        rw (z, is_due)
          (ap (λ t. Durations.gt (elapsed (at_tick b) t) opts.interval) e
            ∙ ap (λ x. Durations.gt x opts.interval) (elapsed-at_tick b a)
            ∙ gt-tick (b -ℤ a) opts.interval.rep opts.interval.unit
            ∙ not_before (in_ticks opts.interval) (b -ℤ a) close)
  ]

  pub update-idle :
      (opts : DumpConfig) (start stamp end system_time internal_time : TimePoint) (d : Dumped)
      → is_due opts system_time d.state ≡ false
      → update opts start stamp end system_time internal_time d ≡ some d
  unfolding update
  update-idle opts start stamp end system_time internal_time d e = rw (e, update) refl
