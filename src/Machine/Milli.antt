-- ===== src/Machine/Milli.antt =====
-- A machine on which the model runs: fixed-point numbers in thousandths, one tick to a nanosecond.
use handystats.Prelude.{ℤ, pos, ◌+ℤ◌, ◌-ℤ◌, ◌*ℤ◌, ◌/ℤ◌, ltb_ℤ}
use handystats.Machine.{Machine}

abbrev pub thousand : ℤ
thousand = pos 1000

instance abbrev pub milli : Machine
milli = record {
  F = ℤ;
  add = ◌+ℤ◌;
  sub = ◌-ℤ◌;
  mul = λ a b. a *ℤ b /ℤ thousand;
  div = λ a b. a *ℤ thousand /ℤ b;
  neg = λ a. pos 0 -ℤ a;
  lt = ltb_ℤ;
  of_ℤ = λ a. a *ℤ thousand;
  to_ℤ = λ a. a /ℤ thousand;
  root = λ a. a;
  tolerance = pos 0;
  largest = pos 1_000_000_000;
  smallest_normal = pos 1;
  cycles_per_nanosec = thousand;
  ns_offset = pos 0;
}
