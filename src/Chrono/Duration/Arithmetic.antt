-- ===== src/Chrono/Duration/Arithmetic.antt =====
-- The operators of `duration` with one operand or with a number, and the remainder by a duration, of
-- include/handystats/chrono.hpp. An operator that assigns is a function to the new value; the
-- postfix operators also give the old one.
pub mod Quotient
use handystats.Prelude.{ℤ, pos, ◌+ℤ◌, ◌-ℤ◌, ◌*ℤ◌, ◌/ℤ◌, ◌%ℤ◌, if◌then◌else◌}
use handystats.Machine.{Machine}
use handystats.Chrono.Duration.{Duration, duration, unit_eq, convert_to}

unfoldable pub negate : Duration → Duration
negate a = duration (pos 0 -ℤ a.rep) a.unit

unfoldable pub increment : Duration → Duration
increment a = duration (a.rep +ℤ pos 1) a.unit

unfoldable pub increment_after : Duration → Duration × Duration
unfolding increment
increment_after a = (increment a, a)

unfoldable pub decrement : Duration → Duration
decrement a = duration (a.rep -ℤ pos 1) a.unit

unfoldable pub decrement_after : Duration → Duration × Duration
unfolding decrement
decrement_after a = (decrement a, a)

unfoldable pub add_count : Duration → ℤ → Duration
add_count a n = duration (a.rep +ℤ n) a.unit

unfoldable pub sub_count : Duration → ℤ → Duration
sub_count a n = duration (a.rep -ℤ n) a.unit

unfoldable pub mul_count : Duration → ℤ → Duration
mul_count a n = duration (a.rep *ℤ n) a.unit

unfoldable pub div_count : Duration → ℤ → Duration
div_count a n = duration (a.rep /ℤ n) a.unit

unfoldable pub rem_count : Duration → ℤ → Duration
rem_count a n = duration (a.rep %ℤ n) a.unit

unfoldable pub add_assign_count : Duration → ℤ → Duration
unfolding add_count
add_assign_count a n = add_count a n

unfoldable pub sub_assign_count : Duration → ℤ → Duration
unfolding sub_count
sub_assign_count a n = sub_count a n

unfoldable pub mul_assign_count : Duration → ℤ → Duration
unfolding mul_count
mul_assign_count a n = mul_count a n

unfoldable pub div_assign_count : Duration → ℤ → Duration
unfolding div_count
div_assign_count a n = div_count a n

unfoldable pub rem_assign_count : Duration → ℤ → Duration
unfolding rem_count
rem_assign_count a n = rem_count a n

module _ ⦃m : Machine⦄ where
  unfoldable pub rem_assign : Duration → Duration → Duration
  unfolding unit_eq convert_to
  rem_assign a d =
      if unit_eq a.unit d.unit
      then duration (a.rep %ℤ d.rep) a.unit
      else duration (a.rep %ℤ (convert_to a.unit d).rep) a.unit
