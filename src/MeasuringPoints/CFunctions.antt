-- ===== src/MeasuringPoints/CFunctions.antt =====
-- The C functions of src/measuring_points. They call the C++ ones with the present time, which is an
-- argument here, like the address of the message.
use Prim.Native.String.{String}
use handystats.Prelude.{ℕ, not, ℤ, pos, eqb_ℤ}
use handystats.Machine.{Machine}
use handystats.Chrono.Duration.{TimeUnit, duration}
use handystats.Chrono.TimePoint.{TimePoint}
use handystats.Chrono.Clock.{ClockSource, Hardware, tsc_now}
use handystats.Core.{Core}
use handystats.MeasuringPoints.{
  counter_init, counter_increment, counter_decrement, counter_change, gauge_init, gauge_set,
  timer_init, timer_start, timer_stop, timer_discard, timer_heartbeat, timer_set,
  attribute_set_bool, attribute_set_int, attribute_set_uint, attribute_set_int64,
  attribute_set_uint64, attribute_set_double, attribute_set_string,
}

module _ ⦃m : Machine⦄ where
  open m use {F}

  unfoldable pub handystats_counter_init : ℕ → String → ℤ → TimePoint → Core → Core
  unfolding counter_init
  handystats_counter_init n name v t c = counter_init n name v t c

  unfoldable pub handystats_counter_increment : ℕ → String → ℤ → TimePoint → Core → Core
  unfolding counter_increment
  handystats_counter_increment n name v t c = counter_increment n name v t c

  unfoldable pub handystats_counter_decrement : ℕ → String → ℤ → TimePoint → Core → Core
  unfolding counter_decrement
  handystats_counter_decrement n name v t c = counter_decrement n name v t c

  unfoldable pub handystats_counter_change : ℕ → String → ℤ → TimePoint → Core → Core
  unfolding counter_change
  handystats_counter_change n name v t c = counter_change n name v t c

  unfoldable pub handystats_gauge_init : ℕ → String → F → TimePoint → Core → Core
  unfolding gauge_init
  handystats_gauge_init n name v t c = gauge_init n name v t c

  unfoldable pub handystats_gauge_set : ℕ → String → F → TimePoint → Core → Core
  unfolding gauge_set
  handystats_gauge_set n name v t c = gauge_set n name v t c

  unfoldable pub handystats_timer_init : ℕ → String → ℕ → TimePoint → Core → Core
  unfolding timer_init
  handystats_timer_init n name id t c = timer_init n name id t c

  unfoldable pub handystats_timer_start : ℕ → String → ℕ → TimePoint → Core → Core
  unfolding timer_start
  handystats_timer_start n name id t c = timer_start n name id t c

  unfoldable pub handystats_timer_stop : ℕ → String → ℕ → TimePoint → Core → Core
  unfolding timer_stop
  handystats_timer_stop n name id t c = timer_stop n name id t c

  unfoldable pub handystats_timer_discard : ℕ → String → ℕ → TimePoint → Core → Core
  unfolding timer_discard
  handystats_timer_discard n name id t c = timer_discard n name id t c

  unfoldable pub handystats_timer_heartbeat : ℕ → String → ℕ → TimePoint → Core → Core
  unfolding timer_heartbeat
  handystats_timer_heartbeat n name id t c = timer_heartbeat n name id t c

  -- The unit that `tsc_clock` counts in, found out when the program starts.
  unfoldable pub init_tsc_clock_unit : ClockSource → Hardware → TimeUnit
  unfolding tsc_now
  init_tsc_clock_unit source h = (tsc_now source h).since_epoch.unit

  unfoldable pub handystats_timer_set : TimeUnit → ℕ → String → ℤ → TimePoint → Core → Core
  unfolding timer_set
  handystats_timer_set tsc_clock_unit n name measurement t c =
      timer_set n name (duration measurement tsc_clock_unit) t c

  unfoldable pub handystats_attribute_set_bool : ℕ → String → ℤ → TimePoint → Core → Core
  unfolding attribute_set_bool
  handystats_attribute_set_bool n name b t c = attribute_set_bool n name (not (eqb_ℤ b (pos 0))) t c

  unfoldable pub handystats_attribute_set_int : ℕ → String → ℤ → TimePoint → Core → Core
  unfolding attribute_set_int
  handystats_attribute_set_int n name v t c = attribute_set_int n name v t c

  unfoldable pub handystats_attribute_set_uint : ℕ → String → ℕ → TimePoint → Core → Core
  unfolding attribute_set_uint
  handystats_attribute_set_uint n name v t c = attribute_set_uint n name v t c

  unfoldable pub handystats_attribute_set_int64 : ℕ → String → ℤ → TimePoint → Core → Core
  unfolding attribute_set_int64
  handystats_attribute_set_int64 n name v t c = attribute_set_int64 n name v t c

  unfoldable pub handystats_attribute_set_uint64 : ℕ → String → ℕ → TimePoint → Core → Core
  unfolding attribute_set_uint64
  handystats_attribute_set_uint64 n name v t c = attribute_set_uint64 n name v t c

  unfoldable pub handystats_attribute_set_double : ℕ → String → F → TimePoint → Core → Core
  unfolding attribute_set_double
  handystats_attribute_set_double n name v t c = attribute_set_double n name v t c

  unfoldable pub handystats_attribute_set_string : ℕ → String → String → TimePoint → Core → Core
  unfolding attribute_set_string
  handystats_attribute_set_string n name v t c = attribute_set_string n name v t c
