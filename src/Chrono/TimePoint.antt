-- ===== src/Chrono/TimePoint.antt =====
-- `clock_type` and `time_point` of include/handystats/chrono.hpp, with `time_point::convert_to` and
-- the result of `to_system_time` of src/chrono.cpp. The offset between the two clocks is the
-- machine's `ns_offset`; how `to_system_time` renews it is in Chrono/Clock/Offset.
pub mod Ticks
use handystats.Prelude.{Bool, true, false, Option, none, some, if◌then◌else◌}
use handystats.Machine.{Machine}
use handystats.Chrono.Duration
use handystats.Chrono.Duration.{
  Duration, duration, zero_duration, TimeUnit, tick, nsec, unit_eq, convert_to, plus, minus,
  add_assign, sub_assign,
}

pub data ClockType : Type 0 where
  tsc system : ClockType

pub record TimePoint : Type 0 where
  pub since_epoch : Duration
  pub clock : ClockType

-- `time_point()`
abbrev pub epoch : TimePoint
epoch = record { since_epoch = zero_duration; clock = tsc }

unfoldable pub clock_eq : ClockType → ClockType → Bool
clock_eq tsc tsc = true
clock_eq system system = true
clock_eq _ _ = false

module _ ⦃m : Machine⦄ where
  -- The value that `to_system_time` returns.
  unfoldable pub to_system_time : TimePoint → TimePoint
  unfolding convert_to plus
  to_system_time t = record {
    since_epoch = convert_to nsec (plus t.since_epoch (duration m.ns_offset nsec));
    clock = system;
  }

  -- `time_point::convert_to`; `none` is the exception.
  unfoldable pub convert_clock : ClockType → TimePoint → Option TimePoint
  unfolding clock_eq to_system_time
  convert_clock to t =
      if clock_eq t.clock to
      then some t
      else if clock_eq to system
      then some (to_system_time t)
      else none

  -- The duration that `+=` and `-=` apply: on the system clock, ticks are converted first.
  unfoldable pub operand : TimePoint → Duration → Duration
  unfolding clock_eq convert_to unit_eq
  operand t d =
      if clock_eq t.clock tsc
      then d
      else if unit_eq d.unit tick
      then convert_to t.since_epoch.unit d
      else d

  -- `+=` and `+` with a duration.
  unfoldable pub advance : TimePoint → Duration → TimePoint
  unfolding operand add_assign
  advance t d = record t { since_epoch = add_assign t.since_epoch (operand t d) }

  -- `-=` and `-` with a duration.
  unfoldable pub retreat : TimePoint → Duration → TimePoint
  unfolding operand sub_assign
  retreat t d = record t { since_epoch = sub_assign t.since_epoch (operand t d) }

  -- The scheme of the operators on two time points: a point of the other clock is converted to
  -- system time first.
  unfoldable pub aligned : {A : Type 0} → (Duration → Duration → A) → TimePoint → TimePoint → A
  unfolding clock_eq to_system_time
  aligned f s t =
      if clock_eq s.clock t.clock
      then f s.since_epoch t.since_epoch
      else if clock_eq s.clock tsc
      then f (to_system_time s).since_epoch t.since_epoch
      else f s.since_epoch (to_system_time t).since_epoch

  -- The difference of two time points.
  unfoldable pub elapsed : TimePoint → TimePoint → Duration
  unfolding aligned minus
  elapsed = aligned minus

  unfoldable pub eq : TimePoint → TimePoint → Bool
  unfolding aligned Duration.eq
  eq = aligned Duration.eq

  unfoldable pub ne : TimePoint → TimePoint → Bool
  unfolding aligned Duration.ne
  ne = aligned Duration.ne

  unfoldable pub lt : TimePoint → TimePoint → Bool
  unfolding aligned Duration.lt
  lt = aligned Duration.lt

  unfoldable pub le : TimePoint → TimePoint → Bool
  unfolding aligned Duration.le
  le = aligned Duration.le

  unfoldable pub gt : TimePoint → TimePoint → Bool
  unfolding aligned Duration.gt
  gt = aligned Duration.gt

  unfoldable pub ge : TimePoint → TimePoint → Bool
  unfolding aligned Duration.ge
  ge = aligned Duration.ge

  -- `std::max`
  unfoldable pub later : TimePoint → TimePoint → TimePoint
  unfolding lt
  later s t = if lt s t then t else s
