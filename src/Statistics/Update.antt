-- ===== src/Statistics/Update.antt =====
-- `statistics::update` and `update_time`.
pub mod Core
pub mod Totals
pub mod Aging
pub mod Extrema
use handystats.Prelude.{ℕ, ◌+◌, ◌%◌, u64_mod, Bool, Option, some, if◌then◌else◌}
use handystats.Machine.{Machine}
use handystats.MathUtils.{num, ◌>>=◌}
use handystats.Chrono.TimePoint.{TimePoint, le, later}
use handystats.Statistics.Tag
use handystats.Statistics.State.{Statistics, is_computed}
use handystats.Statistics.Window.{shift_interval_data, update_interval_data}
use handystats.Statistics.Histogram.{shift_histogram, update_histogram}

module _ ⦃m : Machine⦄ where
  open m use {F, add, sub, lt}

  -- `std::min` and `std::max`
  unfoldable pub lesser : F → F → F
  lesser a b = if lt b a then b else a

  unfoldable pub greater : F → F → F
  greater a b = if lt a b then b else a

  unfoldable pub update_rate : F → TimePoint → Statistics → Statistics
  update_rate v t s =
      if is_computed s Tag.rate
      then record s { rate = update_interval_data s s.rate s.data_timestamp (sub v s.value) t }
      else s

  unfoldable pub update_value : F → Statistics → Statistics
  update_value v s = if is_computed s Tag.value then record s { value = v } else s

  unfoldable pub update_min : F → Statistics → Statistics
  update_min v s = if is_computed s Tag.min then record s { min = lesser s.min v } else s

  unfoldable pub update_max : F → Statistics → Statistics
  update_max v s = if is_computed s Tag.max then record s { max = greater s.max v } else s

  unfoldable pub update_sum : F → Statistics → Statistics
  update_sum v s = if is_computed s Tag.sum then record s { sum = add s.sum v } else s

  unfoldable pub update_count : Statistics → Statistics
  update_count s =
      if is_computed s Tag.count then record s { count = (s.count + 1) % u64_mod } else s

  unfoldable pub update_moving_count : TimePoint → Statistics → Statistics
  update_moving_count t s =
      if is_computed s Tag.moving_count
      then record s {
        moving_count = update_interval_data s s.moving_count s.data_timestamp (num 1) t;
      }
      else s

  unfoldable pub update_moving_sum : F → TimePoint → Statistics → Statistics
  update_moving_sum v t s =
      if is_computed s Tag.moving_sum
      then record s { moving_sum = update_interval_data s s.moving_sum s.data_timestamp v t }
      else s

  unfoldable pub update_bins : F → TimePoint → Statistics → Option Statistics
  update_bins v t s = if is_computed s Tag.histogram then update_histogram s v t else some s

  unfoldable pub update_timestamp : TimePoint → Statistics → Statistics
  update_timestamp t s =
      if is_computed s Tag.timestamp
      then record s { timestamp = later s.timestamp t; data_timestamp = later s.data_timestamp t }
      else s

  -- The numbers that `update` keeps, in its order, before the histogram.
  unfoldable pub update_numbers : F → TimePoint → Statistics → Statistics
  update_numbers v t s = update_moving_sum v t (
      update_moving_count t (
        update_count
          (update_sum v (update_max v (update_min v (update_value v (update_rate v t s)))))))

  unfoldable pub update : F → TimePoint → Statistics → Option Statistics
  update v t s = update_bins v t (update_numbers v t s) >>= λ s'. some (update_timestamp t s')

  unfoldable pub shift_data : TimePoint → Statistics → Statistics
  shift_data t s =
      let shifted = λ (x : F). shift_interval_data s x s.data_timestamp t in
      let s1 = if is_computed s Tag.rate then record s { rate = shifted s.rate } else s in
      let s2 =
        if is_computed s Tag.moving_count
        then record s1 { moving_count = shifted s.moving_count }
        else s1 in
      let s3 =
        if is_computed s Tag.moving_sum
        then record s2 { moving_sum = shifted s.moving_sum }
        else s2 in
      if is_computed s Tag.histogram then shift_histogram s3 t else s3

  unfoldable pub update_time : TimePoint → Statistics → Statistics
  update_time t s =
      let s' = shift_data t s in
      if le t s.timestamp
      then s
      else if is_computed s Tag.timestamp
      then record s' { timestamp = later s.timestamp t }
      else s'
