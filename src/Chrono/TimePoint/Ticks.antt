-- ===== src/Chrono/TimePoint/Ticks.antt =====
-- Time points of the time stamp counter. Where the counter is the source of `tsc_clock::now`, all
-- time points of the metrics are such points, so their operators are the integer ones on the counts
-- of ticks.
use handystats.Prelude.{◌≡◌, ℤ, ◌+ℤ◌, ◌-ℤ◌, ltb_ℤ, leb_ℤ, eqb_ℤ, if◌then◌else◌, arith}
use handystats.Machine.{Machine}
use handystats.Chrono.Duration.{Duration, duration, tick, convert_to}
use handystats.Chrono.TimePoint.{TimePoint, tsc, advance, retreat, elapsed, eq, lt, le, gt, later}

-- `time_point(duration(n, TICK), TSC)`, as `tsc_clock::now` returns it from the counter.
abbrev pub at_tick : ℤ → TimePoint
at_tick n = record { since_epoch = duration n tick; clock = tsc }

module _ ⦃m : Machine⦄ where
  -- The count of ticks that a duration is converted to.
  abbrev pub in_ticks : Duration → ℤ
  in_ticks d = (convert_to tick d).rep

  -- The operators on points of the time stamp counter are those of their counts, for a duration of
  -- any unit: each adds or subtracts the duration's ticks, and differences are in ticks.
  pub tick_operators :
      (a b : ℤ) (d : Duration)
      → (advance (at_tick a) d ≡ at_tick (a +ℤ in_ticks d))
        × (retreat (at_tick a) d ≡ at_tick (a -ℤ in_ticks d))
        × (elapsed (at_tick a) (at_tick b) ≡ duration (a -ℤ b) tick)
        × (lt (at_tick a) (at_tick b) ≡ ltb_ℤ a b)
        × (le (at_tick a) (at_tick b) ≡ leb_ℤ a b)
        × (gt (at_tick a) (at_tick b) ≡ ltb_ℤ b a)
        × (eq (at_tick a) (at_tick b) ≡ eqb_ℤ a b)
        × (later (at_tick a) (at_tick b) ≡ at_tick (if ltb_ℤ a b then b else a))
  unfolding advance retreat elapsed lt le gt eq later
  tick_operators a b d = ground arith

  -- The halves of `tick_operators` by name, for rewriting.
  pub retreat-at_tick : (a : ℤ) (d : Duration) → retreat (at_tick a) d ≡ at_tick (a -ℤ in_ticks d)
  retreat-at_tick a d = (tick_operators a a d).1

  pub elapsed-at_tick : (a b : ℤ) → elapsed (at_tick a) (at_tick b) ≡ duration (a -ℤ b) tick
  elapsed-at_tick a b = (tick_operators a b (duration a tick)).2

  pub lt-at_tick : (a b : ℤ) → lt (at_tick a) (at_tick b) ≡ ltb_ℤ a b
  lt-at_tick a b = (tick_operators a b (duration a tick)).3

  pub le-at_tick : (a b : ℤ) → le (at_tick a) (at_tick b) ≡ leb_ℤ a b
  le-at_tick a b = (tick_operators a b (duration a tick)).4

  pub gt-at_tick : (a b : ℤ) → gt (at_tick a) (at_tick b) ≡ ltb_ℤ b a
  gt-at_tick a b = (tick_operators a b (duration a tick)).5

  pub later-at_tick :
      (a b : ℤ) → later (at_tick a) (at_tick b) ≡ at_tick (if ltb_ℤ a b then b else a)
  later-at_tick a b = (tick_operators a b (duration a tick)).7
