-- ===== src/Internal/Dispatch.antt =====
-- What the processing of one message does to the map of metrics.
use Prim.Native.String.{String}
use text.Mathlib.Text.{◌==◌ as str_eq}
use text.Mathlib.TextPositions.{eq_refl}
use text.Mathlib.TextEquality.{eq_iff}
use handystats.Prelude.{
  ℕ, ◌+◌, ◌≡◌, ◌≢◌, refl, ap, ◌∙◌, sym, false, Bool-cases, inl, inr, Option, none, some,
  Option-cases, ◌⊎◌, [], ◌∷◌, length, pos, if◌then◌else◌, arith,
}
use mathlib.Core.Bool.{false≢true}
use handystats.Machine.{Machine}
use handystats.MathUtils.{num}
use handystats.Chrono.Duration.{convert_to, duration, sec}
use handystats.Chrono.TimePoint.{TimePoint, elapsed}
use handystats.Statistics.State.{default_config}
use handystats.Statistics.Tag
use handystats.Metrics.Gauge
use handystats.Metrics.Plain.{IsPlain, set-IsPlain, create-IsPlain}
use handystats.Metrics.Timer
use handystats.Events.Message.{EventMessage}
use handystats.Internal.{
  Options, Metric, MetricsMap, find, put, State, destination, new_metric, process_metric,
  process_event_message, reset_stats, initialize, finalize,
}

pub differ : (a b : String) → a ≢ b → str_eq a b ≡ false
differ a b h = elim (Bool-cases (str_eq a b)) [
  | inl e ↦ elim (h ((eq_iff a b).0 e)) [ ]
  | inr e ↦ e
]

module _ ⦃m : Machine⦄ where
  open m use {F, of_ℤ}

  abbrev added : Option Metric → ℕ
  added none = 1
  added (some x) = 0

  pub find-put : (name : String) (x : Metric) (xs : MetricsMap) → find name (put name x xs) ≡ some x
  unfolding find put
  find-put name x [] = rw (eq_refl name)
  find-put name x ((key, y) ∷ xs) = elim (Bool-cases (str_eq key name)) [
    | inl e ↦ rw (e, find) (rw e)
    | inr e ↦ rw (e, find) (rw e (find-put name x xs))
  ]

  pub find-put_other :
      (name other : String) (x : Metric) (xs : MetricsMap)
      → name ≢ other
      → find other (put name x xs) ≡ find other xs
  unfolding find put
  find-put_other name other x [] h = rw (differ name other h)
  find-put_other name other x ((key, y) ∷ xs) h = elim (Bool-cases (str_eq key name)) [
    | inl e ↦ rw (e, find) (rw (differ key other (λ q. h (sym ((eq_iff key name).0 e) ∙ q))))
    | inr e ↦
        rw (e, find)
          (ap (λ r. if str_eq key other then some y else r) (find-put_other name other x xs h))
  ]

  pub find-put_if :
      (name other : String) (x : Metric) (xs : MetricsMap)
      → find other (put name x xs) ≡ (if str_eq name other then some x else find other xs)
  find-put_if name other x xs = elim (Bool-cases (str_eq name other)) [
    | inl e ↦ rw (← (eq_iff name other).0 e) (rw (eq_refl name) (find-put name x xs))
    | inr e ↦
        rw e
          (find-put_other name other x xs (λ same. false≢true (sym e ∙ (eq_iff name other).1 same)))
  ]

  length-put :
      (name : String) (x : Metric) (xs : MetricsMap)
      → length (put name x xs) ≡ length xs + added (find name xs)
  unfolding find put
  length-put name x [] = refl
  length-put name x ((key, y) ∷ xs) = elim (Bool-cases (str_eq key name)) [
    | inl e ↦ rw (e, put, find) (omega arith)
    | inr e ↦ rw (e, put, find) (omega (arith, length-put name x xs))
  ]

  -- What a processed message leaves: the metric `x` at its destination, every other metric as it
  -- was, and one more metric just when the destination had none.
  pub record Dispatched (msg : EventMessage) (x : Metric) (st st' : State) : Type 0 where
    pub lookup :
        (name : String)
        → find name st'.metrics_map
          ≡ (if str_eq msg.destination_name name then some x else find name st.metrics_map)
    pub map_eq : st'.metrics_map ≡ put msg.destination_name x st.metrics_map
    pub known :
        length st'.metrics_map
        ≡ length st.metrics_map + added (find msg.destination_name st.metrics_map)
    pub plain : IsPlain st'.size.values × IsPlain st'.process_time.values

  -- `old` is the metric of the message's name, or, if there is none, a new one of its type.
  abbrev pub IsTarget : (String → Options) → EventMessage → MetricsMap → Metric → Type 0
  IsTarget configured msg xs old =
      (find msg.destination_name xs ≡ some old)
      ⊎ ((find msg.destination_name xs ≡ none)
          × (old ≡ new_metric (configured msg.destination_name) msg.destination_type))

  pub destination-IsTarget :
      (configured : String → Options) (msg : EventMessage) (xs : MetricsMap)
      → IsTarget configured msg xs (destination configured msg xs)
  unfolding destination
  destination-IsTarget configured msg xs = elim (Option-cases (find msg.destination_name xs)) [
    | inl e ↦ inr (e, rw (destination, e) refl)
    | inr (x, e) ↦ inl (rw (destination, e) refl)
  ]

  IsTarget-destination :
      (configured : String → Options) (msg : EventMessage) (xs : MetricsMap) (old : Metric)
      → IsTarget configured msg xs old
      → destination configured msg xs ≡ old
  unfolding destination
  IsTarget-destination configured msg xs old (inl e) = rw (destination, e) refl
  IsTarget-destination configured msg xs old (inr (e, new)) = rw (destination, e) (sym new)

  -- When the handler gives a new value `x` of the message's target, which is the metric that has its
  -- name, as it is, or else a new one of its type with the options of its name, the processing
  -- returns: the map holds `x` at that name, every other metric is as it was, the map has grown by
  -- one just when the name was new, and the library's own gauges still keep no histogram.
  pub process_event_message_lem :
      (defaults : Options) (configured : String → Options) (start end : TimePoint)
      (msg : EventMessage) (st : State) (old x : Metric)
      → IsPlain st.size.values
      → IsPlain st.process_time.values
      → IsTarget configured msg st.metrics_map old
      → process_metric defaults old msg ≡ some x
      → (st' : State) × (process_event_message defaults configured start end msg st ≡ some st')
        × Dispatched msg x st st'
  unfolding process_event_message
  process_event_message_lem defaults configured start end msg st old x plain_size plain_time target
        e =
      let same = IsTarget-destination configured msg st.metrics_map old target in
      let name = msg.destination_name in
      let xs = put name x st.metrics_map in
      let (time, e1, p1) =
        set-IsPlain (of_ℤ (convert_to Timer.value_unit (elapsed end start)).rep) end st.process_time
          plain_time in
      let (size, e2, p2) = set-IsPlain (num (length xs)) end st.size plain_size in
      (
        record { metrics_map = xs; size = size; process_time = time },
        rw (same, e, e1, e2),
        record {
          lookup = λ other. find-put_if name other x st.metrics_map;
          map_eq = refl;
          known = length-put name x st.metrics_map;
          plain = (p2, p1);
        },
      )

  value_quiet : Tag.computed (Tag.bit Tag.value) Tag.histogram ≡ false
  unfolding Tag.computed Tag.bit
  value_quiet = refl

  pub moving_avg_quiet : Tag.computed (Tag.bit Tag.moving_avg) Tag.histogram ≡ false
  unfolding Tag.computed Tag.bit
  moving_avg_quiet = refl

  abbrev pub Ready : MetricsMap → Option State → Type 0
  Ready xs o =
      (a : State) × (o ≡ some a)
      × (a.metrics_map ≡ xs)
      × IsPlain a.size.values
      × IsPlain a.process_time.values

  pub reset-Ready : (now : TimePoint) (st : State) → Ready st.metrics_map (reset_stats now st)
  unfolding reset_stats
  reset-Ready now st =
      let size_opts = record default_config { tags = Tag.bit Tag.value } in
      let time_opts = record default_config {
        tags = Tag.bit Tag.moving_avg;
        moving_interval = duration (pos 1) sec;
      } in
      let (size, e, p) =
        set-IsPlain (num 0) now (Gauge.create size_opts) (create-IsPlain size_opts value_quiet) in
      (
        record st { size = size; process_time = Gauge.create time_opts },
        rw e,
        refl,
        p,
        create-IsPlain time_opts moving_avg_quiet,
      )

  -- After `initialize` and after `finalize`, which both return, the library's own gauges keep no
  -- histogram, as the processing of messages relies on. `initialize` keeps the metrics and
  -- `finalize` removes all of them.
  pub initialize-finalize :
      (now : TimePoint) (st : State)
      → ((a : State) × (initialize now st ≡ some a)
          × (a.metrics_map ≡ st.metrics_map)
          × IsPlain a.size.values
          × IsPlain a.process_time.values)
        × ((b : State) × (finalize now st ≡ some b)
            × (b.metrics_map ≡ [])
            × IsPlain b.size.values
            × IsPlain b.process_time.values)
  unfolding initialize finalize
  initialize-finalize now st =
      (reset-Ready now st, reset-Ready now (record st { metrics_map = [] }))
