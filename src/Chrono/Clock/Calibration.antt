-- ===== src/Chrono/Clock/Calibration.antt =====
-- The calibration of the time stamp counter in src/chrono/tsc_clock.cpp. The loop of
-- `get_simultaneous_pair` has no bound; here the reads of its rounds are a list, and `none` is that
-- the list ends before the loop. The sleep between two pairs is not modelled.
use handystats.Prelude.{
  ℕ, ◌+◌, ◌-◌, ◌/◌, ◌%◌, Option, none, some, List, [], ◌∷◌, ltb, get_elem?, u64_mod, Bool,
  if◌then◌else◌,
}
use handystats.Machine.{Machine}
use handystats.MathUtils.{num, ◌>>=◌}
use handystats.Chrono.Clock.{
  ClockSource, rdtsc, rdtscp, Hardware, get_cycles_count, get_nanoseconds,
}

abbrev pub cycles_delta : ℕ
cycles_delta = 15000

-- The three reads of one round: before, at and after the read of the clock.
pub record Round : Type 0 where
  pub before : Hardware
  pub between : Hardware
  pub after : Hardware

-- The counts of the reads around the one of the clock, and their difference, which wraps.
abbrev pub gap : ClockSource → Round → ℕ
gap source r =
    (get_cycles_count source r.after + u64_mod - get_cycles_count source r.before) % u64_mod

-- The count of cycles and the nanoseconds.
unfoldable pub get_simultaneous_pair :
    ClockSource → (monotonic : Bool) → List Round → Option (ℕ × ℕ)
unfolding get_cycles_count get_nanoseconds
get_simultaneous_pair source monotonic [] = none
get_simultaneous_pair source monotonic (r ∷ rs) =
    let rest = get_simultaneous_pair source monotonic rs in
    if ltb (gap source r) cycles_delta
    then some (
      (get_cycles_count source r.before + gap source r / 2) % u64_mod,
      get_nanoseconds monotonic r.between,
    )
    else rest

module _ ⦃m : Machine⦄ where
  open m use {F, div, lt}

  -- One measurement, with the rounds of its two pairs.
  unfoldable pub get_cycles_frequency :
      ClockSource → (monotonic : Bool) → (start end : List Round) → Option F
  unfolding get_simultaneous_pair
  get_cycles_frequency source monotonic start end =
      get_simultaneous_pair source monotonic start >>= λ (cycles_start, nanoseconds_start).
      get_simultaneous_pair source monotonic end >>= λ (cycles_end, nanoseconds_end). some (
        div (num ((cycles_end + u64_mod - cycles_start) % u64_mod))
          (num ((nanoseconds_end + u64_mod - nanoseconds_start) % u64_mod)))

  -- `std::sort`
  unfoldable pub insert : F → List F → List F
  insert x [] = x ∷ []
  insert x (y ∷ ys) = let rest = insert x ys in if lt y x then y ∷ rest else x ∷ y ∷ ys

  unfoldable pub sort : List F → List F
  unfolding insert
  sort [] = []
  sort (x ∷ xs) = insert x (sort xs)

  abbrev pub tests_count : ℕ
  tests_count = 15

  -- The element in the middle of the sorted measurements.
  unfoldable pub middle : List F → Option F
  unfolding sort
  middle tests = get_elem? (sort tests) (tests_count / 2)

  -- The measurements, one after the other.
  unfoldable pub measure_all :
      ClockSource → (monotonic : Bool) → List (List Round × List Round) → Option (List F)
  unfolding get_cycles_frequency
  measure_all source monotonic [] = some []
  measure_all source monotonic ((start, end) ∷ rest) =
      get_cycles_frequency source monotonic start end >>= λ x.
      measure_all source monotonic rest >>= λ xs. some (x ∷ xs)

  unfoldable pub estimate_cycles_frequency :
      ClockSource → (monotonic : Bool) → List (List Round × List Round) → Option F
  unfolding measure_all middle
  estimate_cycles_frequency source monotonic tests = measure_all source monotonic tests >>= middle

  unfoldable pub init_cycles_per_nanosec :
      ClockSource → (monotonic : Bool) → List (List Round × List Round) → Option F
  unfolding estimate_cycles_frequency
  init_cycles_per_nanosec rdtsc monotonic tests = estimate_cycles_frequency rdtsc monotonic tests
  init_cycles_per_nanosec rdtscp monotonic tests = estimate_cycles_frequency rdtscp monotonic tests
  init_cycles_per_nanosec _ monotonic tests = some (num 3)
