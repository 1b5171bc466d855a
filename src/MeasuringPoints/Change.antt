-- ===== src/MeasuringPoints/Change.antt =====
-- A change of a counter by an integer of either sign.
use Prim.Native.String.{String}
use mathlib.Core.Path.{fun_ext}
use handystats.Prelude.{
  ℕ, ◌≡◌, refl, ap, ◌∙◌, true, Bool-cases, inl, inr, Option, ℤ, pos, ◌+ℤ◌, ◌-ℤ◌, +ℤ_parts, -ℤ_parts,
  eq_of_parts, leb_ℤ, IsInt64, arith,
}
use handystats.Machine.{Machine}
use handystats.MathUtils.{◌>>=◌}
use handystats.Chrono.TimePoint.{TimePoint}
use handystats.Statistics.State.{Config}
use handystats.Metrics.Counter
use handystats.Metrics.Counter.{Counter}
use handystats.Events.Message.{EventMessage}
use handystats.Events.Counter as CounterEvents
use handystats.Events.Counter.{counter_events}
use handystats.Core.{Core, is_enabled}
use handystats.MeasuringPoints.{send, counter_increment, counter_decrement, counter_change}

sub_neg : (a v : ℤ) → a -ℤ (pos 0 -ℤ v) ≡ a +ℤ v
sub_neg a v =
    let d = pos 0 -ℤ v in
    eq_of_parts (a -ℤ d) (a +ℤ v) (omega (arith, -ℤ_parts a d, -ℤ_parts (pos 0) v, +ℤ_parts a v))

module _ ⦃m : Machine⦄ where
  decrement_neg :
      (v : ℤ) (t : TimePoint) (k : Counter)
      → Counter.decrement (pos 0 -ℤ v) t k ≡ Counter.increment v t k
  unfolding Counter.decrement Counter.increment
  decrement_neg v t k =
      ap (λ (f : Counter → Option Counter). Counter.started t k >>= f)
        (fun_ext λ k'. ap (λ x. Counter.moved x t k') (sub_neg k'.value v))

  -- A change of a counter, while the library is enabled, pushes one message for it, and the
  -- processing of this message at any counter has the effect of an increment by the change, also
  -- where the change is negative. The change and its opposite must fit an `int64_t`.
  pub counter_change_adds :
      (opts : Config) (k : Counter) (n : ℕ) (name : String) (v : ℤ) (t : TimePoint) (c : Core)
      → is_enabled c ≡ true
      → IsInt64 v
      → IsInt64 (pos 0 -ℤ v)
      → (msg : EventMessage) × (counter_change n name v t c ≡ send n msg c)
        × (msg.destination_name ≡ name)
        × (CounterEvents.process_event opts k msg ≡ Counter.increment v t k)
  unfolding counter_change counter_increment counter_decrement CounterEvents.create_increment_event
      CounterEvents.create_decrement_event
  counter_change_adds opts k n name v t c on fits fits_neg = elim (Bool-cases (leb_ℤ (pos 0) v)) [
    | inl e ↦ (
      CounterEvents.create_increment_event name v t,
      rw (on, e) refl,
      refl,
      (counter_events opts name v t k fits).1,
    )
    | inr e ↦ (
      CounterEvents.create_decrement_event name (pos 0 -ℤ v) t,
      rw (on, e) refl,
      refl,
      (counter_events opts name (pos 0 -ℤ v) t k fits_neg).2 ∙ decrement_neg v t k,
    )
  ]
