-- ===== src/Core/Steady.antt =====
-- The states of src/core.cpp in which each name has one kind of metric, as its messages have, and
-- no metric keeps a histogram.
use Prim.Native.String.{String}
use text.Mathlib.Text.{◌==◌ as str_eq}
use text.Mathlib.TextEquality.{eq_iff}
use mathlib.Core.Path.{subst}
use handystats.Prelude.{
  ℕ, ◌≡◌, true, false, Bool-cases, Option-cases, inl, inr, Option, none, some, List, [], ◌∷◌, All,
  refl, if◌then◌else◌,
}
use handystats.Machine.{Machine}
use handystats.Chrono.TimePoint.{TimePoint}
use handystats.Events.Message.{Destination, EventMessage}
use handystats.Internal.{
  Options, Metric, MetricsMap, counter, gauge, timer, attribute, find, update_metric,
  update_metrics, new_metric, destination,
}
use handystats.Internal.Progress.{HasData, IsKind, IsQuietOptions, new_metric-IsKind}
use handystats.Metrics.Counter
use handystats.Metrics.Gauge
use handystats.Metrics.Timer
use handystats.Metrics.Plain.{update_time-IsPlain}
use handystats.MessageQueue.Service.Intact.{Intact}
use handystats.MetricsDump.{Dumped}
use handystats.MetricsDump.Interval.{Ready, updated, find-update_metrics}
use handystats.MetricsDump.Lookup.{DistinctKeys}
use handystats.MetricsDump.Writable.{asks_quantiles, Writable, IsPlain-quantile}
use text.Mathlib.TextPositions.{eq_refl}
use handystats.Core.{Core, is_enabled}

module _ ⦃m : Machine⦄ where
  -- A metric of this kind, if there is one.
  abbrev pub IfKind : Destination → Option Metric → Type 0
  IfKind d none = Unit
  IfKind d (some x) = IsKind d x

  -- A message of the kind that its name has.
  abbrev pub IsTyped : (String → Destination) → EventMessage → Type 0
  IsTyped kind msg =
      (msg.destination_type ≡ kind msg.destination_name)
      × HasData (kind msg.destination_name) msg.event_data

  abbrev pub TypedAt : (String → Destination) → (ℕ → Option EventMessage) → ℕ → Type 0
  TypedAt kind messages n = (msg : EventMessage) × (messages n ≡ some msg) × IsTyped kind msg

  -- The parts of the state that the dump reads.
  abbrev pub dumped : Core → Dumped
  dumped c = record { state = c.metrics_dump; metrics = c.internal; queue_stats = c.queue.stats }

  -- The library is enabled, its queue holds the messages `xs`, each of the kind of its name, and so
  -- are the metrics; no options ask for a histogram, and no metric of the dump for quantiles.
  pub record Steady (kind : String → Destination) (c : Core) (xs : List ℕ) : Type 0 where
    pub enabled : is_enabled c ≡ true
    pub intact : Intact c.queue xs
    pub typed : All (TypedAt kind c.queue.messages) xs
    pub kinds : (name : String) → IfKind (kind name) (find name c.internal.metrics_map)
    pub ready : Ready (dumped c)
    pub quiet : IsQuietOptions c.settings.defaults
    pub quiet_names : (name : String) → IsQuietOptions (c.settings.configured name)
    pub writable : Writable c.metrics_dump.dump

  pub destination-IsKind :
      (kind : String → Destination) (configured : String → Options) (msg : EventMessage)
      (xs : MetricsMap)
      → IsTyped kind msg
      → IsQuietOptions (configured msg.destination_name)
      → IfKind (kind msg.destination_name) (find msg.destination_name xs)
      → IsKind (kind msg.destination_name) (destination configured msg xs)
  unfolding destination
  destination-IsKind kind configured msg xs (same, _) quiet h =
      elim (Option-cases (find msg.destination_name xs)) [
        | inl e ↦
            rw (e, destination)
              (subst
                (λ d. IsKind d (new_metric (configured msg.destination_name) msg.destination_type))
                same
                (new_metric-IsKind (configured msg.destination_name) msg.destination_type quiet))
        | inr (x, e) ↦ rw (e, destination) (subst (IfKind (kind msg.destination_name)) e h)
      ]

  pub put-IfKind :
      (kind : String → Destination) (name other : String) (x : Metric) (o : Option Metric)
      → IsKind (kind name) x
      → IfKind (kind other) o
      → IfKind (kind other) (if str_eq name other then some x else o)
  put-IfKind kind name other x o h k = elim (Bool-cases (str_eq name other)) [
    | inl e ↦ rw e (subst (λ n. IsKind (kind n) x) ((eq_iff name other).0 e) h)
    | inr e ↦ rw e k
  ]

  update_metric-IsKind :
      (t : TimePoint) (d : Destination) (x : Metric) → IsKind d x → IsKind d (update_metric t x)
  unfolding update_metric Counter.update_statistics Gauge.update_statistics Timer.update_statistics
  update_metric-IsKind t Destination.counter (counter c) h = update_time-IsPlain t c.values h
  update_metric-IsKind t Destination.gauge (gauge g) h = update_time-IsPlain t g.values h
  update_metric-IsKind t Destination.timer (timer tm) h = update_time-IsPlain t tm.values h
  update_metric-IsKind t Destination.attribute (attribute a) h = tt
  update_metric-IsKind t _ _ h = elim h [ ]

  updated-IfKind :
      (t : TimePoint) (d : Destination) (o : Option Metric) → IfKind d o → IfKind d (updated t o)
  updated-IfKind t d none h = tt
  updated-IfKind t d (some x) h = update_metric-IsKind t d x h

  pub update_metrics-IfKind :
      (t : TimePoint) (d : Destination) (name : String) (xs : MetricsMap)
      → IfKind d (find name xs)
      → IfKind d (find name (update_metrics t xs))
  update_metrics-IfKind t d name xs h =
      rw (find-update_metrics t name xs) (updated-IfKind t d (find name xs) h)

  IsKind-quantile : (d : Destination) (x : Metric) → IsKind d x → asks_quantiles x ≡ false
  IsKind-quantile Destination.counter (counter c) h = IsPlain-quantile c.values h
  IsKind-quantile Destination.gauge (gauge g) h = IsPlain-quantile g.values h
  IsKind-quantile Destination.timer (timer t) h = IsPlain-quantile t.values h
  IsKind-quantile Destination.attribute (attribute a) h = refl
  IsKind-quantile _ _ h = elim h [ ]

  -- Metrics of the kinds of their names ask for no quantiles.
  pub kinds-Writable :
      (kind : String → Destination) (xs : MetricsMap)
      → DistinctKeys xs
      → ((name : String) → IfKind (kind name) (find name xs))
      → Writable xs
  unfolding DistinctKeys find
  kinds-Writable kind [] d k = tt
  kinds-Writable kind ((name, x) ∷ xs) (out, d) k = (
    IsKind-quantile (kind name) x (
        subst (λ b. IfKind (kind name) (if b then some x else find name xs)) (eq_refl name)
          (k name)),
    kinds-Writable kind xs d λ n. elim (Bool-cases (str_eq name n)) [
      | inl e ↦ rw (← (eq_iff name n).0 e) (rw out tt)
      | inr e ↦ subst (λ b. IfKind (kind n) (if b then some x else find n xs)) e (k n)
    ],
  )
