-- ===== src/Tests/Clocks.antt =====
-- The clocks: their sources, the calibration and the offset between them.
use handystats.Prelude.{
  ℕ, zero, suc, ◌+◌, ◌^◌, ◌≤◌, ◌≡◌, refl, true, false, some, none, List, [], ◌∷◌, ℤ, pos, ◌+ℤ◌,
  ◌-ℤ◌, ◌*ℤ◌, ◌/ℤ◌, arith, if◌then◌else◌,
}
use handystats.Machine.Laws.{AtMost}
use handystats.Machine.Milli.{milli}
use handystats.Machine.MilliLaws.{milli-IsOrdered}
use handystats.Chrono.TimePoint.{tsc, system}
use handystats.Chrono.Clock.{
  rdtsc, rdtscp, clock_monotonic, Hardware, get_available_clock_source, get_cycles_count,
  get_nanoseconds, system_now,
}
use handystats.Chrono.Clock.Calibration.{
  Round, get_simultaneous_pair, measure_all, estimate_cycles_frequency,
}
use handystats.Chrono.Clock.Median.{estimate_within}
use handystats.Chrono.Clock.Pair.{pair_close}
use handystats.Chrono.Clock.Offset.{Offset, is_stale, to_system_time}
use handystats.Chrono.Clock.Accuracy.{
  Reading, Within, at_nsec, try_of, renews, to_system_time-Within,
}

-- A processor with every feature, and one with none.
source_of_new : get_available_clock_source none (λ _. some (2 ^ 4 + 2 ^ 8 + 2 ^ 27)) true ≡ rdtscp
unfolding get_available_clock_source
source_of_new = refl

source_of_old : get_available_clock_source none (λ _. none) true ≡ clock_monotonic
unfolding get_available_clock_source
source_of_old = refl

abbrev hardware : ℕ → ℕ → Hardware
hardware cycles nanoseconds = record {
  counter = cycles;
  counter_p = cycles;
  monotonic_time = record { tv_sec = pos 1; tv_nsec = pos nanoseconds };
  realtime = record { tv_sec = pos 1; tv_nsec = pos nanoseconds };
}

system_at : system_now (hardware 5 7) ≡ at_nsec system (pos 1_000_000_007)
unfolding system_now
system_at = refl

-- A round in which the clock is read between the counts `c` and `c + 100`.
abbrev round : ℕ → ℕ → Round
round c n = record {
  before = hardware c n;
  between = hardware (c + 50) n;
  after = hardware (c + 100) n;
}

abbrev slow : Round
slow = record { before = hardware 10 0; between = hardware 20 0; after = hardware 90_000 0 }

pair_close_example :
    (k : ℕ) × (get_simultaneous_pair rdtsc true (slow ∷ round 100_000 9 ∷ [])
      ≡ some (k, get_nanoseconds true (hardware 100_050 9)))
    × (get_cycles_count rdtsc (hardware 100_050 9) ≤ k + 7500)
    × (k ≤ get_cycles_count rdtsc (hardware 100_050 9) + 7500)
unfolding get_cycles_count
pair_close_example =
    pair_close rdtsc true (slow ∷ round 100_000 9 ∷ []) (round 100_000 9)
      ((omega arith, omega arith, omega arith), ((omega arith, omega arith, omega arith), tt)) refl

abbrev repeated {ℓ} : {A : Type ℓ} → ℕ → A → List A
repeated zero x = []
repeated (suc n) x = x ∷ repeated n x

-- Fifteen measurements of three cycles to the nanosecond.
abbrev tests : List (List Round × List Round)
tests = repeated 15 (round 0 0 ∷ [], round 3_000_000 1_000_000 ∷ [])

measured : measure_all ⦃m = milli⦄ rdtsc true tests ≡ some (repeated 15 (pos 3000))
unfolding measure_all ◌*ℤ◌ ◌/ℤ◌
measured = refl

estimate_within_example :
    (x : ℤ) × (estimate_cycles_frequency ⦃m = milli⦄ rdtsc true tests ≡ some x)
    × AtMost milli (pos 3000) x
    × AtMost milli x (pos 3000)
estimate_within_example =
    estimate_within ⦃m = milli⦄ milli-IsOrdered rdtsc true tests (repeated 15 (pos 3000)) (pos 3000)
      (pos 3000) measured refl (omega arith, omega arith)

abbrev fresh : Offset
fresh = record { ns_offset = pos 0; offset_timestamp = pos 0; locked = false }

abbrev readings : ℕ → Reading
readings _ = record { start = pos 1000; moment = pos 3000; end = pos 9000 }

to_system_time-Within_example :
    (x : ℤ) × (o : Offset) × (to_system_time milli
        (at_nsec tsc (pos 500))
        (λ k. try_of (pos 70_000) (readings k))
        (at_nsec tsc (pos 600))
        fresh
      ≡ (at_nsec system x, o))
    × (x ≡ pos 600 +ℤ o.ns_offset)
    × (if renews ⦃m = milli⦄ (at_nsec tsc (pos 500)) readings fresh
        then Within x (pos 600 +ℤ pos 70_000)
        else o ≡ fresh)
to_system_time-Within_example =
    to_system_time-Within milli (at_nsec tsc (pos 500)) (pos 70_000) (pos 600) readings fresh
      (λ _. omega arith) (λ _. omega arith)

-- The offset of that call is renewed.
renewed : renews ⦃m = milli⦄ (at_nsec tsc (pos 500)) readings fresh ≡ true
unfolding is_stale ◌-ℤ◌
renewed = refl
