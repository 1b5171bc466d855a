-- ===== src/Chrono/Duration.antt =====
-- `time_unit`, `std::less<time_unit>` and `duration` of include/handystats/chrono.hpp, and
-- `nsec_factor` and `duration::convert_to` of src/chrono.cpp. A count is an exact integer: signed
-- overflow is undefined in C++, so the model describes the runs in which every count fits
-- `int64_t`. The unsigned product inside `convert_to` wraps, and the wrap is written out.
pub mod Convert
pub mod Order
pub mod Arithmetic
use handystats.Prelude.{
  ℕ, ◌*◌, ◌/◌, ◌%◌, Bool, ltb, ◌==◌, if◌then◌else◌, not, ℤ, pos, negsuc, pos_part, neg_part, ◌+ℤ◌,
  ◌-ℤ◌, ltb_ℤ, leb_ℤ, eqb_ℤ, to_u64, of_u64, u64_mod,
}
use handystats.Machine.{Machine}

pub data TimeUnit : Type 0 where
  tick nsec usec msec sec min hour day : TimeUnit

unfoldable pub precision_class : TimeUnit → ℕ
precision_class tick = 1
precision_class nsec = 2
precision_class usec = 4
precision_class msec = 8
precision_class sec = 16
precision_class min = 32
precision_class hour = 64
precision_class day = 128

-- `std::less<time_unit>`
unfoldable pub finer : TimeUnit → TimeUnit → Bool
unfolding precision_class
finer x y = ltb (precision_class x) (precision_class y)

-- `==` on the enumeration: its values are the positions in its declaration.
unfoldable pub unit_eq : TimeUnit → TimeUnit → Bool
unfolding precision_class
unit_eq x y = precision_class x == precision_class y

unfoldable pub nsec_factor : TimeUnit → ℕ
nsec_factor tick = 0
nsec_factor nsec = 1
nsec_factor usec = 1000
nsec_factor msec = 1000 * 1000
nsec_factor sec = 1000 * 1000 * 1000
nsec_factor min = 60 * 1000 * 1000 * 1000
nsec_factor hour = 60 * 60 * 1000 * 1000 * 1000
nsec_factor day = 24 * 60 * 60 * 1000 * 1000 * 1000

pub record Duration : Type 0 where
  pub rep : ℤ
  pub unit : TimeUnit

abbrev pub duration : ℤ → TimeUnit → Duration
duration d u = record { rep = d; unit = u }

-- `duration()`
abbrev pub zero_duration : Duration
zero_duration = duration (pos 0) tick

-- `std::min(x, y, std::less<time_unit>())`
unfoldable pub min_unit : TimeUnit → TimeUnit → TimeUnit
unfolding finer
min_unit x y = if finer y x then y else x

module _ ⦃m : Machine⦄ where
  open m use {mul, div, of_ℤ, to_ℤ, cycles_per_nanosec}

  -- The branch of `convert_to` with TICK as its target.
  unfoldable pub ticks_of : Duration → ℤ
  unfolding nsec_factor
  ticks_of d = to_ℤ (mul (mul cycles_per_nanosec (of_ℤ (pos (nsec_factor d.unit)))) (of_ℤ d.rep))

  -- The branch of `convert_to` with a TICK source.
  unfoldable pub of_ticks : TimeUnit → ℤ → ℤ
  unfolding nsec_factor
  of_ticks u r = to_ℤ (div (div (of_ℤ r) (of_ℤ (pos (nsec_factor u)))) cycles_per_nanosec)

-- The branch of `convert_to` between units of real time, in unsigned 64-bit arithmetic.
unfoldable pub rescale : TimeUnit → TimeUnit → ℤ → ℤ
unfolding nsec_factor to_u64 of_u64
rescale from to r = of_u64 (nsec_factor from * to_u64 r % u64_mod / nsec_factor to)

module _ ⦃m : Machine⦄ where
  unfoldable pub convert_to : TimeUnit → Duration → Duration
  unfolding unit_eq
  convert_to to d =
      if unit_eq d.unit to
      then d
      else if unit_eq to tick
      then duration (ticks_of d) to
      else if unit_eq d.unit tick
      then duration (of_ticks to d.rep) to
      else duration (rescale d.unit to d.rep) to

  unfoldable pub add_assign : Duration → Duration → Duration
  unfolding unit_eq ◌+ℤ◌
  add_assign a d =
      if unit_eq a.unit d.unit
      then duration (a.rep +ℤ d.rep) a.unit
      else duration (a.rep +ℤ (convert_to a.unit d).rep) a.unit

  unfoldable pub sub_assign : Duration → Duration → Duration
  unfolding unit_eq ◌-ℤ◌
  sub_assign a d =
      if unit_eq a.unit d.unit
      then duration (a.rep -ℤ d.rep) a.unit
      else duration (a.rep -ℤ (convert_to a.unit d).rep) a.unit

  -- Both counts in the finer of the two units.
  unfoldable pub common : {A : Type 0} → (ℤ → ℤ → A) → Duration → Duration → A
  unfolding unit_eq min_unit
  common f a d =
      if unit_eq a.unit d.unit
      then f a.rep d.rep
      else (let u = min_unit a.unit d.unit in f (convert_to u a).rep (convert_to u d).rep)

  unfoldable pub common_unit : Duration → Duration → TimeUnit
  unfolding unit_eq min_unit
  common_unit a d = if unit_eq a.unit d.unit then a.unit else min_unit a.unit d.unit

  unfoldable pub plus : Duration → Duration → Duration
  unfolding common common_unit ◌+ℤ◌
  plus a d = duration (common ◌+ℤ◌ a d) (common_unit a d)

  unfoldable pub minus : Duration → Duration → Duration
  unfolding common common_unit ◌-ℤ◌
  minus a d = duration (common ◌-ℤ◌ a d) (common_unit a d)

  unfoldable pub eq : Duration → Duration → Bool
  unfolding common
  eq = common eqb_ℤ

  unfoldable pub ne : Duration → Duration → Bool
  unfolding common
  ne = common λ x y. not (eqb_ℤ x y)

  unfoldable pub lt : Duration → Duration → Bool
  unfolding common
  lt = common ltb_ℤ

  unfoldable pub le : Duration → Duration → Bool
  unfolding common
  le = common leb_ℤ

  unfoldable pub gt : Duration → Duration → Bool
  unfolding common
  gt = common λ x y. ltb_ℤ y x

  unfoldable pub ge : Duration → Duration → Bool
  unfolding common
  ge = common λ x y. leb_ℤ y x
