-- ===== src/Statistics/Interface.antt =====
-- The members of `statistics` that get one value, of include/handystats/statistics.hpp and
-- src/statistics.cpp. `none` is `invalid_tag_error`, or an exception of the quantile.
use handystats.Prelude.{ℕ, Option, none, some, List, if◌then◌else◌}
use handystats.Machine.{Machine}
use handystats.Chrono.TimePoint.{TimePoint}
use handystats.Statistics.Tag
use handystats.Statistics.State.{Statistics, Bin, is_computed}
use handystats.Statistics.Access.{
  get_value, get_min, get_max, get_count, get_sum, get_avg, get_moving_count, get_moving_sum,
  get_moving_avg, get_histogram, get_timestamp,
}
use handystats.Statistics.Quantile.{at}

module _ ⦃m : Machine⦄ where
  open m use {F}

  -- `get_safe`, for the getter of a tag.
  unfoldable pub get_safe : {A : Type 0} → (Statistics → Option A) → A → Statistics → A
  get_safe getter default_value s = elim (getter s) [ none ↦ default_value | some x ↦ x ]

  unfoldable pub value : Statistics → Option F
  unfolding get_value
  value = get_value

  unfoldable pub min : Statistics → Option F
  unfolding get_min
  min = get_min

  unfoldable pub max : Statistics → Option F
  unfolding get_max
  max = get_max

  unfoldable pub sum : Statistics → Option F
  unfolding get_sum
  sum = get_sum

  unfoldable pub count : Statistics → Option ℕ
  unfolding get_count
  count = get_count

  unfoldable pub avg : Statistics → Option F
  unfolding get_avg
  avg = get_avg

  unfoldable pub moving_count : Statistics → Option F
  unfolding get_moving_count
  moving_count = get_moving_count

  unfoldable pub moving_sum : Statistics → Option F
  unfolding get_moving_sum
  moving_sum = get_moving_sum

  unfoldable pub moving_avg : Statistics → Option F
  unfolding get_moving_avg
  moving_avg = get_moving_avg

  unfoldable pub histogram : Statistics → Option (List Bin)
  unfolding get_histogram
  histogram = get_histogram

  unfoldable pub timestamp : Statistics → Option TimePoint
  unfolding get_timestamp
  timestamp = get_timestamp

  unfoldable pub quantile : F → Statistics → Option F
  unfolding at
  quantile probability s = if is_computed s Tag.quantile then at s.histogram probability else none
