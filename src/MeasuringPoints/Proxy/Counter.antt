-- ===== src/MeasuringPoints/Proxy/Counter.antt =====
-- `counter_proxy` of include/handystats/measuring_points/counter_proxy.hpp. Default arguments are
-- written out by the caller, and the macros are those of a build without HANDYSTATS_DISABLE.
use Prim.Native.String.{String}
use handystats.Prelude.{ℕ, ℤ}
use handystats.Machine.{Machine}
use handystats.Chrono.TimePoint.{TimePoint}
use handystats.Core.{Core}
use handystats.MeasuringPoints.{counter_init, counter_increment, counter_decrement, counter_change}

module _ ⦃m : Machine⦄ where
  open m use {F}

  pub record CounterProxy : Type 0 where
    pub name : String

  -- The constructors with a name alone send nothing.
  unfoldable pub create : String → CounterProxy
  create name = record { name = name }

  unfoldable pub create_init : ℕ → String → ℤ → TimePoint → Core → CounterProxy × Core
  unfolding create counter_init
  create_init n name v t c = (create name, counter_init n name v t c)

  unfoldable pub init : CounterProxy → ℕ → ℤ → TimePoint → Core → Core
  unfolding counter_init
  init p n v t c = counter_init n p.name v t c

  unfoldable pub increment : CounterProxy → ℕ → ℤ → TimePoint → Core → Core
  unfolding counter_increment
  increment p n v t c = counter_increment n p.name v t c

  unfoldable pub decrement : CounterProxy → ℕ → ℤ → TimePoint → Core → Core
  unfolding counter_decrement
  decrement p n v t c = counter_decrement n p.name v t c

  unfoldable pub change : CounterProxy → ℕ → ℤ → TimePoint → Core → Core
  unfolding counter_change
  change p n v t c = counter_change n p.name v t c
