-- ===== src/Internal/Progress.antt =====
-- The handlers of src/events on a message with the data of its kind, at a metric of this kind
-- without a histogram.
use handystats.Prelude.{ℕ, ◌==◌, ◌≡◌, refl, false, some, of_u64}
use handystats.Machine.{Machine}
use handystats.Chrono.Duration.{duration}
use handystats.Statistics.Tag
use handystats.Statistics.State.{Config}
use handystats.Metrics.Counter
use handystats.Metrics.Gauge
use handystats.Metrics.Timer
use handystats.Metrics.Attribute
use handystats.Metrics.Plain.{
  IsPlain, Returns, Returns-if, initial-IsPlain, create-IsPlain, set-IsPlain, init-IsPlain,
  increment-IsPlain, decrement-IsPlain,
}
use handystats.Metrics.Plain.Timers.{
  timer_set-IsPlain, stop-IsPlain, start-IsPlain, discard-IsPlain, heartbeat-IsPlain,
}
use handystats.Events.Message.{
  Destination, EventData, EventMessage, word, number, boxed, as_int64, as_uint64, as_double,
  as_value,
}
use handystats.Events.Counter as CounterEvents
use handystats.Events.Gauge as GaugeEvents
use handystats.Events.Timer as TimerEvents
use handystats.Events.Attribute as AttributeEvents
use handystats.Internal.{
  Options, Metric, counter, gauge, timer, attribute, process_metric, new_metric,
}

module _ ⦃m : Machine⦄ where
  open m use {F}

  -- The data of a message is what the measuring points of this kind store there.
  abbrev pub HasData : Destination → EventData → Type 0
  HasData Destination.counter d = (w : ℕ) × (d ≡ word w)
  HasData Destination.gauge d = (x : F) × (d ≡ number x)
  HasData Destination.timer d = (w : ℕ) × (d ≡ word w)
  HasData Destination.attribute d = (v : Attribute.Value) × (d ≡ boxed v)

  -- A metric of this kind, without a histogram.
  abbrev pub IsKind : Destination → Metric → Type 0
  IsKind Destination.counter (counter c) = IsPlain c.values
  IsKind Destination.gauge (gauge g) = IsPlain g.values
  IsKind Destination.timer (timer tm) = IsPlain tm.values
  IsKind Destination.attribute (attribute a) = Unit
  IsKind _ _ = ⊥

  abbrev IsQuiet : Config → Type 0
  IsQuiet c = Tag.computed c.tags Tag.histogram ≡ false

  -- Options without a histogram.
  abbrev pub IsQuietOptions : Options → Type 0
  IsQuietOptions o = IsQuiet o.counter_opts × IsQuiet o.gauge_opts × IsQuiet o.timer_opts.values

  int64_word : (d : EventData) (w : ℕ) → d ≡ word w → as_int64 d ≡ some (of_u64 w)
  unfolding as_int64
  int64_word d w e = rw e refl

  uint64_word : (d : EventData) (w : ℕ) → d ≡ word w → as_uint64 d ≡ some w
  unfolding as_uint64
  uint64_word d w e = rw e refl

  double_number : (d : EventData) (x : F) → d ≡ number x → as_double d ≡ some x
  unfolding as_double
  double_number d x e = rw e refl

  value_boxed : (d : EventData) (v : Attribute.Value) → d ≡ boxed v → as_value d ≡ some v
  unfolding as_value
  value_boxed d v e = rw e refl

  counter-create : (c : Config) → IsQuiet c → IsPlain (Counter.create c).values
  unfolding Counter.create
  counter-create c h = initial-IsPlain c h

  timer-create : (o : Timer.TimerConfig) → IsQuiet o.values → IsPlain (Timer.create o).values
  unfolding Timer.create
  timer-create o h = initial-IsPlain o.values h

  counter-Returns :
      (o : Config) (c : Counter.Counter) (msg : EventMessage)
      → IsQuiet o
      → IsPlain c.values
      → HasData Destination.counter msg.event_data
      → Returns (λ x. IsPlain x.values) (CounterEvents.process_event o c msg)
  unfolding CounterEvents.process_event CounterEvents.process_init_event
      CounterEvents.process_increment_event CounterEvents.process_decrement_event
  counter-Returns o c msg quiet h (w, e) =
      let P : Counter.Counter → Type 0 = λ x. IsPlain x.values in
      let v = of_u64 w in
      let t = msg.timestamp in
      let got = int64_word msg.event_data w e in
      Returns-if P (msg.event_type == CounterEvents.init_type) _ _
        (rw got (init-IsPlain v t (Counter.create o) (counter-create o quiet)))
        (Returns-if P (msg.event_type == CounterEvents.increment_type) _ _
          (rw got (increment-IsPlain v t c h))
          (Returns-if P (msg.event_type == CounterEvents.decrement_type) _ _
            (rw got (decrement-IsPlain v t c h)) (c, refl, h)))

  gauge-Returns :
      (o : Config) (g : Gauge.Gauge) (msg : EventMessage)
      → IsQuiet o
      → IsPlain g.values
      → HasData Destination.gauge msg.event_data
      → Returns (λ x. IsPlain x.values) (GaugeEvents.process_event o g msg)
  unfolding GaugeEvents.process_event GaugeEvents.process_init_event GaugeEvents.process_set_event
  gauge-Returns o g msg quiet h (v, e) =
      let P : Gauge.Gauge → Type 0 = λ x. IsPlain x.values in
      let t = msg.timestamp in
      let got = double_number msg.event_data v e in
      Returns-if P (msg.event_type == GaugeEvents.init_type) _ _
        (rw got (set-IsPlain v t (Gauge.create o) (create-IsPlain o quiet)))
        (Returns-if P (msg.event_type == GaugeEvents.set_type) _ _ (rw got (set-IsPlain v t g h))
          (g, refl, h))

  timer-Returns :
      (o : Timer.TimerConfig) (tm : Timer.Timer) (msg : EventMessage)
      → IsQuiet o.values
      → IsPlain tm.values
      → HasData Destination.timer msg.event_data
      → Returns (λ x. IsPlain x.values) (TimerEvents.process_event o tm msg)
  unfolding TimerEvents.process_event TimerEvents.process_init_event TimerEvents.process_start_event
      TimerEvents.process_stop_event TimerEvents.process_discard_event
      TimerEvents.process_heartbeat_event TimerEvents.process_set_event
  timer-Returns o tm msg quiet h (w, e) =
      let P : Timer.Timer → Type 0 = λ x. IsPlain x.values in
      let t = msg.timestamp in
      let id = uint64_word msg.event_data w e in
      let rep = int64_word msg.event_data w e in
      let new = Timer.create o in
      let of_set = timer_set-IsPlain (duration (of_u64 w) Timer.value_unit) t tm h in
      Returns-if P (msg.event_type == TimerEvents.init_type) _ _
        (rw id (Timer.start w t new, refl, start-IsPlain w t new (timer-create o quiet)))
        (Returns-if P (msg.event_type == TimerEvents.start_type) _ _
          (rw id (Timer.start w t tm, refl, start-IsPlain w t tm h))
          (Returns-if P (msg.event_type == TimerEvents.stop_type) _ _
            (rw id (stop-IsPlain w t tm h))
            (Returns-if P (msg.event_type == TimerEvents.discard_type) _ _
              (rw id (Timer.discard w t tm, refl, discard-IsPlain w t tm h))
              (Returns-if P (msg.event_type == TimerEvents.heartbeat_type) _ _
                (rw id (Timer.heartbeat w t tm, refl, heartbeat-IsPlain w t tm h))
                (Returns-if P (msg.event_type == TimerEvents.set_type) _ _ (rw rep of_set)
                  (tm, refl, h))))))

  attribute-Returns :
      (a : Attribute.Attribute) (msg : EventMessage)
      → HasData Destination.attribute msg.event_data
      → Returns {0, 0} (λ _. Unit {0}) (AttributeEvents.process_event a msg)
  unfolding AttributeEvents.process_event AttributeEvents.process_set_event
  attribute-Returns a msg (v, e) =
      Returns-if {0, 0} (λ _. Unit {0}) (msg.event_type == AttributeEvents.set_type) _ _
        (rw (value_boxed msg.event_data v e) (Attribute.set v a, refl, tt)) (a, refl, tt)

  pub new_metric-IsKind :
      (o : Options) (d : Destination) → IsQuietOptions o → IsKind d (new_metric o d)
  unfolding new_metric
  new_metric-IsKind o Destination.counter (c, g, t) = counter-create o.counter_opts c
  new_metric-IsKind o Destination.gauge (c, g, t) = create-IsPlain o.gauge_opts g
  new_metric-IsKind o Destination.timer (c, g, t) = timer-create o.timer_opts t
  new_metric-IsKind o Destination.attribute _ = tt

  -- The handler of a message with the data of a kind returns at a metric of this kind without a
  -- histogram, and leaves one.
  pub process_metric-Returns :
      (o : Options) (d : Destination) (x : Metric) (msg : EventMessage)
      → IsQuietOptions o
      → IsKind d x
      → HasData d msg.event_data
      → Returns (IsKind d) (process_metric o x msg)
  unfolding process_metric
  process_metric-Returns o Destination.counter (counter c) msg (quiet, _, _) h payload =
      let (c', e, p) = counter-Returns o.counter_opts c msg quiet h payload in
      (counter c', rw e refl, p)
  process_metric-Returns o Destination.gauge (gauge g) msg (_, quiet, _) h payload =
      let (g', e, p) = gauge-Returns o.gauge_opts g msg quiet h payload in (gauge g', rw e refl, p)
  process_metric-Returns o Destination.timer (timer tm) msg (_, _, quiet) h payload =
      let (tm', e, p) = timer-Returns o.timer_opts tm msg quiet h payload in
      (timer tm', rw e refl, p)
  process_metric-Returns o Destination.attribute (attribute a) msg _ h payload =
      let (a', e, p) = attribute-Returns a msg payload in (attribute a', rw e refl, tt)
  process_metric-Returns o _ _ msg _ h payload = elim h [ ]
