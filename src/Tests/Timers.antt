-- ===== src/Tests/Timers.antt =====
-- Runs of timers and counters.
use handystats.Prelude.{
  ◌≡◌, refl, true, false, none, some, List, [], ◌∷◌, ℤ, pos, negsuc, ◌+ℤ◌, ◌-ℤ◌, ◌*ℤ◌, ◌/ℤ◌, arith,
}
use mathlib.Core.Option
use handystats.Machine.Milli.{milli}
use handystats.Chrono.Duration
use handystats.Chrono.Duration.{duration, tick, usec, sec, convert_to}
use handystats.Chrono.TimePoint.{TimePoint, gt, elapsed}
use handystats.Chrono.TimePoint.Ticks.{at_tick}
use handystats.Statistics.Tag
use handystats.Statistics.State.{default_config, initial}
use handystats.Statistics.Update.{update}
use handystats.Statistics.Update.Totals.{Totals}
use handystats.Metrics.Timer.{Timer, TimerConfig, start, stop, heartbeat, discard, expired}
use handystats.Metrics.Timer.Check.{fresh}
use handystats.Metrics.Timer.Measure.{Alive, beats, stop_measures}
use handystats.Metrics.Timer.Idle.{Ends, expired_unmeasured}
use handystats.Metrics.Counter
use handystats.Metrics.Counter.Total.{up, down, replay, counter_total}

-- A timeout of ten seconds.
abbrev opts : TimerConfig
opts = record { idle_timeout = duration (pos 10) sec; values = default_config }

abbrev empty_timer : Timer ⦃m = milli⦄
empty_timer = record {
  idle_timeout = duration (pos 10) sec;
  values = initial ⦃m = milli⦄ default_config;
  instances = λ _. none;
  idle_check_timestamp = at_tick (pos 0);
}

abbrev beat_times : List ℤ
beat_times = pos 8_000_000_000 ∷ pos 16_000_000_000 ∷ []

-- Started at 1 s, with beats at 8 s and 16 s, and stopped at 20 s.
beats-Alive :
    Alive ⦃m = milli⦄ (duration (pos 10) sec) (pos 1_000_000_000) beat_times (pos 20_000_000_000)
unfolding convert_to Duration.ticks_of ◌-ℤ◌ ◌*ℤ◌ ◌/ℤ◌
beats-Alive = (omega arith, (omega arith, omega arith))

stop_measures_example :
    Option.map
      (λ (x : Timer ⦃m = milli⦄). x.values)
      (stop ⦃m = milli⦄ 3 (at_tick (pos 20_000_000_000)) (
        beats ⦃m = milli⦄ 3 beat_times
          (start ⦃m = milli⦄ 3 (at_tick (pos 1_000_000_000)) empty_timer)))
    ≡ update ⦃m = milli⦄
        (milli.of_ℤ
          (convert_to ⦃m = milli⦄ usec
            (duration (pos 20_000_000_000 -ℤ pos 1_000_000_000) tick)).rep)
        (at_tick (pos 20_000_000_000))
        empty_timer.values
stop_measures_example =
    stop_measures ⦃m = milli⦄ 3 (pos 1_000_000_000) (pos 20_000_000_000) beat_times empty_timer
      beats-Alive

abbrev late : TimePoint
late = at_tick (pos 30_000_000_000)

-- Instance 3 has been started at 1 s, and nothing has happened since.
abbrev idle_timer : Timer ⦃m = milli⦄
idle_timer = record empty_timer { instances = λ _. some (fresh (at_tick (pos 1_000_000_000))) }

expired_here :
    expired ⦃m = milli⦄ (fresh (at_tick (pos 1_000_000_000))) (duration (pos 10) sec) late ≡ true
unfolding expired gt elapsed Duration.gt convert_to Duration.ticks_of ◌-ℤ◌ ◌*ℤ◌ ◌/ℤ◌
expired_here = refl

expired_unmeasured_example :
    Ends ⦃m = milli⦄ 3 idle_timer (stop ⦃m = milli⦄ 3 late idle_timer)
    × Ends ⦃m = milli⦄ 3 idle_timer (some (heartbeat ⦃m = milli⦄ 3 late idle_timer))
    × Ends ⦃m = milli⦄ 3 idle_timer (some (discard ⦃m = milli⦄ 3 late idle_timer))
expired_unmeasured_example =
    expired_unmeasured ⦃m = milli⦄ 3 late idle_timer (fresh (at_tick (pos 1_000_000_000))) refl
      expired_here

no_histogram_tag : Tag.computed default_config.tags Tag.histogram ≡ false
unfolding default_config Tag.computed
no_histogram_tag = refl

counter_total_example :
    (c : Counter.Counter ⦃m = milli⦄) × (replay ⦃m = milli⦄
        (up (pos 5) (pos 10) ∷ down (pos 7) (pos 20) ∷ [])
        (Counter.create ⦃m = milli⦄ default_config)
      ≡ some c)
    × (c.value ≡ negsuc 1)
    × Totals ⦃m = milli⦄
        (initial ⦃m = milli⦄ default_config)
        (milli.of_ℤ (pos 0) ∷ milli.of_ℤ (pos 5) ∷ milli.of_ℤ (negsuc 1) ∷ [])
        c.values
unfolding ◌-ℤ◌ ◌+ℤ◌
counter_total_example =
    counter_total ⦃m = milli⦄ default_config (up (pos 5) (pos 10)) (down (pos 7) (pos 20) ∷ [])
      no_histogram_tag (refl, (refl, tt))
