-- ===== src/Statistics/Window.antt =====
-- The data of the moving interval: `shift_interval_data` and `update_interval_data`.
pub mod Decay
use handystats.Prelude.{ℕ, pos, leb_ℤ, if◌then◌else◌}
use handystats.Machine.{Machine}
use handystats.MathUtils.{num}
use handystats.Chrono.Duration.{minus}
use handystats.Chrono.TimePoint.{TimePoint, le, lt, elapsed, retreat}
use handystats.Statistics.State.{Statistics}

module _ ⦃m : Machine⦄ where
  open m use {F, add, mul, div, of_ℤ}

  unfoldable pub shift_interval_data : Statistics → F → TimePoint → TimePoint → F
  shift_interval_data s x data_timestamp timestamp =
      let interval = s.config.moving_interval in
      let stale = elapsed data_timestamp (retreat timestamp interval) in
      if le timestamp s.timestamp
      then x
      else if leb_ℤ stale.rep (pos 0)
      then num 0
      else div (mul x (of_ℤ stale.rep))
          (of_ℤ (minus interval (elapsed s.timestamp data_timestamp)).rep)

  unfoldable pub update_interval_data : Statistics → F → TimePoint → F → TimePoint → F
  update_interval_data s x data_timestamp value timestamp =
      if le timestamp s.timestamp
      then (if lt timestamp (retreat s.timestamp s.config.moving_interval) then x else add x value)
      else add value (shift_interval_data s x data_timestamp timestamp)
