-- ===== src/MeasuringPoints/Scope.antt =====
-- The helpers for scopes in include/handystats/measuring_points: what their constructors and
-- destructors do. The times of the clock's reads are arguments.
use Prim.Native.String.{String}
use handystats.Prelude.{
  ℕ, ◌≡◌, refl, ap, ◌∙◌, Bool, true, false, if◌then◌else◌, some, ℤ, pos, ◌+ℤ◌, ◌-ℤ◌, +ℤ_parts,
  -ℤ_parts, eq_of_parts, IsInt64, arith,
}
use handystats.Machine.{Machine}
use handystats.Chrono.TimePoint.{TimePoint, elapsed, epoch, eq, lt}
use handystats.Statistics.State.{Config}
use handystats.Statistics.Tag
use handystats.Statistics.Update.Totals.{update_lem, is_computed-config}
use handystats.Metrics.Plain.{IsPlain}
use handystats.Metrics.Counter
use handystats.Metrics.Counter.{Counter}
use handystats.Events.Message.{EventMessage}
use handystats.Events.Counter as CounterEvents
use handystats.Core.{Core, is_enabled}
use handystats.MeasuringPoints.{send, counter_change, timer_set}
use handystats.MeasuringPoints.Change.{counter_change_adds}

module _ ⦃m : Machine⦄ where
  -- `scoped_counter_helper`
  pub record ScopedCounter : Type 0 where
    pub counter_name : String
    pub delta_value : ℤ

  unfoldable pub enter_counter : ℕ → String → ℤ → TimePoint → Core → ScopedCounter × Core
  unfolding counter_change
  enter_counter n name delta t c =
      (record { counter_name = name; delta_value = delta }, counter_change n name delta t c)

  unfoldable pub leave_counter : ℕ → ScopedCounter → TimePoint → Core → Core
  unfolding counter_change
  leave_counter n s t c = counter_change n s.counter_name (pos 0 -ℤ s.delta_value) t c

  -- `scoped_timer_helper`
  pub record ScopedTimer : Type 0 where
    pub timer_name : String
    pub start_time : TimePoint

  unfoldable pub enter_timer : String → TimePoint → ScopedTimer
  enter_timer name start = record { timer_name = name; start_time = start }

  -- `now` is the default time of the message.
  unfoldable pub leave_timer : ℕ → ScopedTimer → (end_time now : TimePoint) → Core → Core
  unfolding timer_set elapsed
  leave_timer n s end_time now c = timer_set n s.timer_name (elapsed end_time s.start_time) now c

  -- What an increment makes of a counter that has a value.
  record Moved (d : ℤ) (t : TimePoint) (k k' : Counter) : Type 0 where
    pub plain : IsPlain k'.values
    pub value_eq : k'.value ≡ k.value +ℤ d
    pub timestamp_eq : k'.timestamp ≡ (if lt k.timestamp t then t else k.timestamp)

  increment-Moved :
      (d : ℤ) (t : TimePoint) (k : Counter)
      → IsPlain k.values
      → eq k.timestamp epoch ≡ false
      → (k' : Counter) × (Counter.increment d t k ≡ some k') × Moved d t k k'
  unfolding Counter.increment Counter.started Counter.moved
  increment-Moved d t k (small, off) e =
      let t' = if lt k.timestamp t then t else k.timestamp in
      let (s, f, tot) = update_lem (m.of_ℤ (k.value +ℤ d)) t' k.values small off in
      (
        record { values = s; value = k.value +ℤ d; timestamp = t' },
        rw (e, f) refl,
        record {
          plain = (tot.count_lt, is_computed-config k.values s Tag.histogram tot.config_eq ∙ off);
          value_eq = refl;
          timestamp_eq = refl;
        },
      )

  later-started :
      (b : Bool) (s t : TimePoint)
      → eq s epoch ≡ false
      → eq t epoch ≡ false
      → eq (if b then t else s) epoch ≡ false
  later-started true s t h k = k
  later-started false s t h k = h

  neg_neg : (d : ℤ) → pos 0 -ℤ (pos 0 -ℤ d) ≡ d
  neg_neg d =
      let z = pos 0 -ℤ d in
      eq_of_parts (pos 0 -ℤ z) d (omega (arith, -ℤ_parts (pos 0) d, -ℤ_parts (pos 0) z))

  add_neg : (a d : ℤ) → (a +ℤ d) +ℤ (pos 0 -ℤ d) ≡ a
  add_neg a d =
      let z = pos 0 -ℤ d in
      eq_of_parts ((a +ℤ d) +ℤ z) a
        (omega (arith, +ℤ_parts a d, -ℤ_parts (pos 0) d, +ℤ_parts (a +ℤ d) z))

  -- A scope of a counter sends one message at its start and one at its end, while the library is
  -- enabled. The processing of both at a counter that has a value and keeps no histogram returns:
  -- the first adds the change, and the second brings the value back to what it was. The change and
  -- its opposite must fit an `int64_t`.
  pub scope_restores :
      (opts : Config) (k : Counter) (n1 n2 : ℕ) (name : String) (d : ℤ) (t1 t2 : TimePoint)
      (c c' : Core)
      → is_enabled c ≡ true
      → is_enabled c' ≡ true
      → IsInt64 d
      → IsInt64 (pos 0 -ℤ d)
      → IsPlain k.values
      → eq k.timestamp epoch ≡ false
      → eq t1 epoch ≡ false
      → (msg1 msg2 : EventMessage) × (k1 k2 : Counter) × ((enter_counter n1 name d t1 c).1
          ≡ send n1 msg1 c)
        × (leave_counter n2 (enter_counter n1 name d t1 c).0 t2 c' ≡ send n2 msg2 c')
        × (msg1.destination_name ≡ name)
        × (msg2.destination_name ≡ name)
        × (CounterEvents.process_event opts k msg1 ≡ some k1)
        × (CounterEvents.process_event opts k1 msg2 ≡ some k2)
        × (k1.value ≡ k.value +ℤ d)
        × (k2.value ≡ k.value)
  unfolding enter_counter leave_counter
  scope_restores opts k n1 n2 name d t1 t2 c c' on on' fits fits' plain old new =
      let z = pos 0 -ℤ d in
      let back : IsInt64 (pos 0 -ℤ z) = rw (neg_neg d) fits in
      let (msg1, s1, name1, p1) = counter_change_adds opts k n1 name d t1 c on fits fits' in
      let (k1, e1, v1) = increment-Moved d t1 k plain old in
      let (msg2, s2, name2, p2) = counter_change_adds opts k1 n2 name z t2 c' on' fits' back in
      let started : eq k1.timestamp epoch ≡ false =
        rw (v1.timestamp_eq) (later-started (lt k.timestamp t1) k.timestamp t1 old new) in
      let (k2, e2, v2) = increment-Moved z t2 k1 v1.plain started in
      (
        msg1,
        msg2,
        k1,
        k2,
        s1,
        s2,
        name1,
        name2,
        p1 ∙ e1,
        p2 ∙ e2,
        v1.value_eq,
        v2.value_eq ∙ ap (λ v. v +ℤ z) v1.value_eq ∙ add_neg k.value d,
      )
