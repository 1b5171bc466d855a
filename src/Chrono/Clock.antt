-- ===== src/Chrono/Clock.antt =====
-- src/chrono/tsc_clock.cpp without the calibration, src/chrono/system_clock.cpp, src/cpuid_impl.hpp
-- and the C functions of src/chrono.cpp. What the processor, the operating system and the
-- environment give are arguments.
pub mod Calibration
pub mod Median
pub mod Pair
pub mod Offset
pub mod Accuracy
use Prim.Native.String.{String}
use text.Mathlib.Text.{◌==◌ as str_eq}
use handystats.Prelude.{
  ℕ, ◌+◌, ◌*◌, ◌/◌, ◌%◌, ◌^◌, ◌==◌, Bool, false, ◌&&◌, Option, none, some, ℤ, pos, ◌+ℤ◌, ◌-ℤ◌, ◌*ℤ◌,
  u64_mod, to_u64, of_u64, if◌then◌else◌,
}
use handystats.Machine.{Machine}
use handystats.Chrono.Duration.{duration, tick, nsec, convert_to}
use handystats.Chrono.TimePoint.{TimePoint, tsc, system}

-- `__get_cpuid` at a leaf: the EDX register, if the processor has the leaf.
abbrev pub Cpuid : Type 0
Cpuid = ℕ → Option ℕ

-- `(edx >> k) & 1`
abbrev bit_of : ℕ → Option ℕ → Bool
bit_of k none = false
bit_of k (some edx) = edx / 2 ^ k % 2 == 1

unfoldable pub tsc_supported : Cpuid → Bool
tsc_supported cpuid = bit_of 4 (cpuid 1)

unfoldable pub invariant_tsc : Cpuid → Bool
invariant_tsc cpuid = bit_of 8 (cpuid 0x80000007)

unfoldable pub rdtscp_supported : Cpuid → Bool
rdtscp_supported cpuid = bit_of 27 (cpuid 0x80000001)

-- `clock_source_t`
pub data ClockSource : Type 0 where
  rdtsc rdtscp clock_monotonic clock_realtime : ClockSource

-- The values of HANDY_CLOCK_SOURCE.
unfoldable pub named_source : String → ClockSource
named_source env =
    if str_eq env "RDTSCP"
    then rdtscp
    else if str_eq env "RDTSC"
    then rdtsc
    else if str_eq env "CLOCK_MONOTONIC"
    then clock_monotonic
    else clock_realtime

-- `monotonic` is whether `sysconf` knows the monotonic clock.
unfoldable pub detected_source : Cpuid → (monotonic : Bool) → ClockSource
unfolding tsc_supported invariant_tsc rdtscp_supported
detected_source cpuid monotonic =
    if tsc_supported cpuid && invariant_tsc cpuid
    then (if rdtscp_supported cpuid then rdtscp else rdtsc)
    else if monotonic
    then clock_monotonic
    else clock_realtime

-- `env` is the variable HANDY_CLOCK_SOURCE, if it is set.
unfoldable pub get_available_clock_source : Option String → Cpuid → (monotonic : Bool) → ClockSource
unfolding named_source detected_source
get_available_clock_source none cpuid monotonic = detected_source cpuid monotonic
get_available_clock_source (some env) cpuid monotonic = named_source env

-- `timespec`
pub record Timespec : Type 0 where
  pub tv_sec : ℤ
  pub tv_nsec : ℤ

-- What the instructions and `clock_gettime` give at one time.
pub record Hardware : Type 0 where
  pub counter : ℕ
  pub counter_p : ℕ
  pub monotonic_time : Timespec
  pub realtime : Timespec

-- The sum of seconds and nanoseconds in unsigned 64-bit arithmetic.
unfoldable pub unsigned_nanoseconds : Timespec → ℕ
unfolding to_u64
unsigned_nanoseconds ts = (to_u64 ts.tv_sec * 10 ^ 9 + to_u64 ts.tv_nsec) % u64_mod

-- The same in signed arithmetic.
unfoldable pub signed_nanoseconds : Timespec → ℤ
unfolding ◌+ℤ◌ ◌*ℤ◌
signed_nanoseconds ts = ts.tv_sec *ℤ pos (10 ^ 9) +ℤ ts.tv_nsec

unfoldable pub get_nanoseconds : (monotonic : Bool) → Hardware → ℕ
unfolding unsigned_nanoseconds
get_nanoseconds monotonic h =
    unsigned_nanoseconds (if monotonic then h.monotonic_time else h.realtime)

unfoldable pub get_cycles_count : ClockSource → Hardware → ℕ
get_cycles_count rdtsc h = h.counter
get_cycles_count _ h = h.counter_p

-- `tsc_clock::now`
unfoldable pub tsc_now : ClockSource → Hardware → TimePoint
unfolding of_u64 signed_nanoseconds
tsc_now rdtsc h = record { since_epoch = duration (of_u64 h.counter) tick; clock = tsc }
tsc_now rdtscp h = record { since_epoch = duration (of_u64 h.counter_p) tick; clock = tsc }
tsc_now clock_monotonic h = record {
  since_epoch = duration (signed_nanoseconds h.monotonic_time) nsec;
  clock = tsc;
}
tsc_now clock_realtime h = record {
  since_epoch = duration (signed_nanoseconds h.realtime) nsec;
  clock = tsc;
}

-- `system_clock::now`
unfoldable pub system_now : Hardware → TimePoint
unfolding unsigned_nanoseconds of_u64
system_now h = record {
  since_epoch = duration (of_u64 (unsigned_nanoseconds h.realtime)) nsec;
  clock = system;
}

-- `handystats_now`
unfoldable pub handystats_now : ClockSource → Hardware → ℤ
unfolding tsc_now
handystats_now source h = (tsc_now source h).since_epoch.rep

module _ ⦃m : Machine⦄ where
  open m use {F, div, of_ℤ}

  -- `handystats_difftime`, in seconds.
  unfoldable pub handystats_difftime : ClockSource → Hardware → (end start : ℤ) → F
  unfolding tsc_now convert_to ◌-ℤ◌
  handystats_difftime source h end start =
      let unit = (tsc_now source h).since_epoch.unit in
      div (of_ℤ (convert_to nsec (duration (end -ℤ start) unit)).rep) (of_ℤ (pos (10 ^ 9)))
