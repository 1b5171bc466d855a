-- ===== src/Machine/MilliLaws.antt =====
-- `Milli` is an ordered machine.
use handystats.Prelude.{ℤ, pos, arith, ◌+ℤ◌, ◌-ℤ◌, ◌*ℤ◌, ◌/ℤ◌}
use handystats.Machine.Milli.{milli}
use handystats.Machine.Laws.{AtMost, IsOrdered}

mul_nonneg :
    (a b : ℤ)
    → AtMost milli (pos 0) a
    → AtMost milli (pos 0) b
    → AtMost milli (pos 0) (milli.mul a b)
unfolding ◌+ℤ◌ ◌-ℤ◌ ◌*ℤ◌ ◌/ℤ◌
mul_nonneg a b = ground arith

pub milli-IsOrdered : IsOrdered milli
unfolding ◌+ℤ◌ ◌-ℤ◌ ◌*ℤ◌ ◌/ℤ◌
milli-IsOrdered = record {
  at_most_refl = ground arith;
  at_most_trans = ground arith;
  at_most_of_lt = ground arith;
  add_right_grows = ground arith;
  add_left_grows = ground arith;
  sub_mono = ground arith;
  one_is_full = ground arith;
  tolerance_small = ground arith;
  of_ℤ_nonneg = ground arith;
  mul_nonneg = mul_nonneg;
  div_nonneg = ground arith;
}
