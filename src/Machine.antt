-- ===== src/Machine.antt =====
-- What the program takes from the machine: `double`, and the clock calibration that
-- src/chrono/tsc_clock.cpp measures and include/handystats/chrono.hpp's conversions read.
pub mod Milli
pub mod Laws
pub mod MilliLaws
use handystats.Prelude.{ℕ, ◌≡◌, Bool, ℤ}

-- The floating-point operations that the code uses, on one type for `double` and `long double`.
pub record Machine : Type 1 where
  pub F : Type 0
  pub add : F → F → F
  pub sub : F → F → F
  pub mul : F → F → F
  pub div : F → F → F
  pub neg : F → F
  pub lt : F → F → Bool
  -- the conversions `double(i)` and `int64_t(x)`
  pub of_ℤ : ℤ → F
  pub to_ℤ : F → ℤ
  -- `std::sqrt`
  pub root : F → F
  -- `4 * std::numeric_limits<double>::epsilon()`, `max()` and `min()`
  pub tolerance : F
  pub largest : F
  pub smallest_normal : F
  -- the calibration of the time stamp counter
  pub cycles_per_nanosec : F
  -- the nanoseconds between the epochs of the two clocks, as last measured
  pub ns_offset : ℤ
