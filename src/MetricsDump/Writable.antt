-- ===== src/MetricsDump/Writable.antt =====
-- The dumps of src/metrics_dump.cpp that hold no metric with quantiles.
use Prim.Native.String.{String}
use text.Mathlib.Text.{◌==◌ as str_eq}
use handystats.Prelude.{
  ℕ, ◌≡◌, refl, Bool, false, Bool-cases, Option-cases, inl, inr, [], ◌∷◌, All, arith,
}
use handystats.Machine.{Machine}
use handystats.MathUtils.{IfSome, IfSome-bind, anything}
use handystats.Chrono.TimePoint.{TimePoint, convert_clock, system}
use handystats.Statistics.Tag
use handystats.Statistics.Tag.{enabled, computed}
use handystats.Statistics.State.{is_computed, Statistics}
use handystats.Metrics.Gauge
use handystats.Metrics.Plain.{IsPlain, set-IsPlain, update_gauge-IsPlain, update_counter-IsPlain}
use handystats.Internal
use handystats.Internal.{Metric, MetricsMap, counter, gauge, timer, attribute, put, update_metrics}
use handystats.MessageQueue.Service
use handystats.MessageQueue.Service.{Stats}
use handystats.MessageQueue.Service.Intact.{IsPlainStats}
use handystats.MetricsDump.{
  DumpConfig, Dumped, insert, insert_all, is_dumped, copy_metrics, own_stats, millis, create_dump,
  is_due, renew, update,
}
use handystats.MetricsDump.Interval.{Ready}

no_quantile : (tags : ℕ) → computed tags Tag.histogram ≡ false → enabled tags Tag.quantile ≡ false
unfolding computed
no_quantile tags h = ground arith

module _ ⦃m : Machine⦄ where
  -- Whether a metric asks for quantiles.
  abbrev pub asks_quantiles : Metric → Bool
  asks_quantiles (counter c) = enabled c.values.config.tags Tag.quantile
  asks_quantiles (gauge g) = enabled g.values.config.tags Tag.quantile
  asks_quantiles (timer t) = enabled t.values.config.tags Tag.quantile
  asks_quantiles (attribute a) = false

  abbrev pub Writable : MetricsMap → Type 0
  Writable = All λ (p : String × Metric). asks_quantiles p.1 ≡ false

  pub IsPlain-quantile : (s : Statistics) → IsPlain s → enabled s.config.tags Tag.quantile ≡ false
  unfolding is_computed
  IsPlain-quantile s (small, off) = no_quantile s.config.tags off

  put-Writable :
      (name : String) (x : Metric) (xs : MetricsMap)
      → asks_quantiles x ≡ false
      → Writable xs
      → Writable (put name x xs)
  unfolding put
  put-Writable name x [] h a = (h, tt)
  put-Writable name x ((key, y) ∷ xs) h (k, a) = elim (Bool-cases (str_eq key name)) [
    | inl e ↦ rw (e, put) (h, a)
    | inr e ↦ rw (e, put) (k, put-Writable name x xs h a)
  ]

  insert-Writable :
      (name : String) (x : Metric) (xs : MetricsMap)
      → asks_quantiles x ≡ false
      → Writable xs
      → Writable (insert name x xs)
  unfolding insert
  insert-Writable name x xs h a = elim (Option-cases (Internal.find name xs)) [
    | inl e ↦ rw (e, insert) (put-Writable name x xs h a)
    | inr (y, e) ↦ rw (e, insert) a
  ]

  insert_all-Writable :
      (entries xs : MetricsMap) → Writable entries → Writable xs → Writable (insert_all entries xs)
  unfolding insert_all
  insert_all-Writable [] xs b a = a
  insert_all-Writable ((name, x) ∷ entries) xs (h, b) a =
      insert_all-Writable entries (insert name x xs) b (insert-Writable name x xs h a)

  copy_metrics-Writable :
      (metrics xs : MetricsMap)
      → Writable metrics
      → Writable xs
      → Writable (copy_metrics metrics xs)
  unfolding copy_metrics
  copy_metrics-Writable [] xs b a = a
  copy_metrics-Writable ((name, x) ∷ metrics) xs (h, b) a = elim (Bool-cases (is_dumped x)) [
    | inl e ↦
        rw e (copy_metrics-Writable metrics (insert name x xs) b (insert-Writable name x xs h a))
    | inr e ↦ rw e (copy_metrics-Writable metrics xs b a)
  ]

  own_stats-Writable :
      (st : Internal.State) (mq : Stats)
      → IsPlain st.size.values
      → IsPlain st.process_time.values
      → IsPlainStats mq
      → Writable (own_stats st mq)
  unfolding own_stats
  own_stats-Writable st mq p q (a, b, c) = (
    IsPlain-quantile st.size.values p,
    (
      IsPlain-quantile st.process_time.values q,
      (
        IsPlain-quantile mq.size.values a,
        (
          IsPlain-quantile mq.message_wait_time.values b,
          (IsPlain-quantile mq.pop_count.values c, tt),
        ),
      ),
    ),
  )

  set-IfSome :
      (v : m.F) (t : TimePoint) (g : Gauge.Gauge)
      → IsPlain g.values
      → IfSome (λ (x : Gauge.Gauge). IsPlain x.values) (Gauge.set v t g)
  set-IfSome v t g p = let (g', e, q) = set-IsPlain v t g p in rw e q

  create_dump-Writable :
      (opts : DumpConfig) (start stamp end : TimePoint) (st : Internal.State) (mq : Stats)
      (dump_time : Gauge.Gauge)
      → Writable st.metrics_map
      → IsPlain st.size.values
      → IsPlain st.process_time.values
      → IsPlainStats mq
      → IsPlain dump_time.values
      → IfSome
          (λ (r : MetricsMap × Gauge.Gauge). Writable r.0)
          (create_dump opts start stamp end st mq dump_time)
  unfolding create_dump millis
  create_dump-Writable opts start stamp end st mq dump_time metrics p q stats time =
      IfSome-bind (λ _. Unit {0}) (λ (r : MetricsMap × Gauge.Gauge). Writable r.0)
        (convert_clock system stamp) _ (anything (convert_clock system stamp))
        λ stamp' _.
          IfSome-bind (λ (x : Gauge.Gauge). IsPlain x.values)
            (λ (r : MetricsMap × Gauge.Gauge). Writable r.0) (Gauge.set _ end dump_time) _
            (set-IfSome _ end dump_time time)
            λ time' plain.
              let last : MetricsMap =
                ("handystats.config.dump_interval", millis opts.interval)
                ∷ ("handystats.dump_timestamp", millis stamp'.since_epoch)
                ∷ ("handystats.metrics_dump.dump_time", gauge time')
                ∷ [] in
              insert_all-Writable last
                (insert_all (own_stats st mq) (copy_metrics st.metrics_map []))
                (refl, (refl, (IsPlain-quantile time'.values plain, tt)))
                (insert_all-Writable (own_stats st mq) (copy_metrics st.metrics_map [])
                  (own_stats-Writable st mq p q stats)
                  (copy_metrics-Writable st.metrics_map [] metrics tt))

  renew-Writable :
      (opts : DumpConfig) (start stamp end system_time internal_time : TimePoint) (d : Dumped)
      → Ready d
      → Writable (update_metrics internal_time d.metrics.metrics_map)
      → IfSome
          (λ (r : Dumped). Writable r.state.dump)
          (renew opts start stamp end system_time internal_time d)
  unfolding renew Internal.update_stats Service.update_stats
  renew-Writable opts start stamp end system_time internal_time d h metrics =
      let (p, q) = h.plain_metrics in
      let (a, b, c) = h.plain_stats in
      IfSome-bind (λ (r : MetricsMap × Gauge.Gauge). Writable r.0)
        (λ (r : Dumped). Writable r.state.dump) _ _
        (create_dump-Writable opts start stamp end _ _ _ metrics
          (update_gauge-IsPlain system_time d.metrics.size p)
          (update_gauge-IsPlain system_time d.metrics.process_time q)
          (
            update_gauge-IsPlain system_time d.queue_stats.size a,
            update_gauge-IsPlain system_time d.queue_stats.message_wait_time b,
            update_counter-IsPlain system_time d.queue_stats.pop_count c,
          )
          (update_gauge-IsPlain system_time d.state.dump_time h.plain_time))
        λ (dump, time) k. k

  -- An update of the dump keeps it free of quantiles, if the metrics are.
  pub update-Writable :
      (opts : DumpConfig) (start stamp end system_time internal_time : TimePoint) (d : Dumped)
      → Ready d
      → Writable (update_metrics internal_time d.metrics.metrics_map)
      → Writable d.state.dump
      → IfSome
          (λ (r : Dumped). Writable r.state.dump)
          (update opts start stamp end system_time internal_time d)
  unfolding update
  update-Writable opts start stamp end system_time internal_time d h metrics old =
      elim (Bool-cases (is_due opts system_time d.state)) [
        | inl e ↦
            rw (e, update)
              (renew-Writable opts start stamp end system_time internal_time d h metrics)
        | inr e ↦ rw (e, update) old
      ]
