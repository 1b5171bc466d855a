-- ===== src/Statistics/Window/Decay.antt =====
-- The data of the moving interval on the time stamp counter.
use handystats.Prelude.{◌≡◌, refl, ℤ, pos, ◌-ℤ◌, leb_ℤ, if◌then◌else◌}
use handystats.Machine.{Machine}
use handystats.MathUtils.{num}
use handystats.Chrono.Duration.{duration, minus, tick, TimeUnit, convert_to}
use handystats.Chrono.TimePoint.Ticks.{
  at_tick, in_ticks, retreat-at_tick, elapsed-at_tick, le-at_tick,
}
use handystats.Statistics.State.{Statistics}
use handystats.Statistics.Window.{shift_interval_data}

module _ ⦃m : Machine⦄ where
  open m use {F, add, mul, div, of_ℤ}

  minus_ticks :
      (u : TimeUnit) (r a : ℤ)
      → (minus (duration r u) (duration a tick)).rep ≡ in_ticks (duration r u) -ℤ a
  unfolding minus convert_to
  minus_ticks tick r a = refl
  minus_ticks _ r a = refl

  -- `shift_interval_data` by ticks: data are unchanged up to the current time of the statistics,
  -- gone once they are as old as the moving interval, and otherwise scaled by the ticks that they
  -- stay in it over those that they had.
  pub shift_interval_data_lem :
      (s : Statistics) (x : F) (current data_time now : ℤ)
      → s.timestamp ≡ at_tick current
      → let interval = in_ticks s.config.moving_interval in
        shift_interval_data s x (at_tick data_time) (at_tick now) ≡ (
          if leb_ℤ now current
          then x
          else if leb_ℤ (data_time -ℤ (now -ℤ interval)) (pos 0)
          then num 0
          else div
              (mul x (of_ℤ (data_time -ℤ (now -ℤ interval))))
              (of_ℤ (interval -ℤ (current -ℤ data_time))))
  unfolding shift_interval_data
  shift_interval_data_lem s x current data_time now e =
      let interval = s.config.moving_interval in
      rw (
        e,
        le-at_tick now current,
        retreat-at_tick now interval,
        elapsed-at_tick data_time (now -ℤ in_ticks interval),
        elapsed-at_tick current data_time,
        minus_ticks interval.unit interval.rep (current -ℤ data_time),
      )
