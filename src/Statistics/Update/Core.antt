-- ===== src/Statistics/Update/Core.antt =====
-- What one update makes of the part of the statistics that no window and no histogram touches.
use handystats.Prelude.{ℕ, ◌+◌, ◌%◌, ◌≡◌, Bool, arith, u64_mod, if◌then◌else◌}
use handystats.Machine.{Machine}
use handystats.Chrono.TimePoint.{TimePoint}
use handystats.Statistics.Tag
use handystats.Statistics.State.{Statistics, is_computed, Config}
use handystats.Statistics.Update.{
  update_numbers, lesser, greater, update_rate, update_value, update_min, update_max, update_sum,
  update_count, update_moving_count, update_moving_sum,
}

module _ ⦃m : Machine⦄ where
  open m use {F, add, lt, largest, smallest_normal}

  -- The part of the state that no window and no histogram touches.
  abbrev pub Core : Type 0
  Core = record {
    config : Config;
    value : F;
    min : F;
    max : F;
    sum : F;
    count : ℕ;
    timestamp : TimePoint;
    data_timestamp : TimePoint;
  }

  unfoldable pub core : Statistics → Core
  core s = record {
    config = s.config;
    value = s.value;
    min = s.min;
    max = s.max;
    sum = s.sum;
    count = s.count;
    timestamp = s.timestamp;
    data_timestamp = s.data_timestamp;
  }

  abbrev pub has : Core → Tag.Tag → Bool
  has c t = Tag.computed c.config.tags t

  core-rate : (v : F) (t : TimePoint) (s : Statistics) → core (update_rate v t s) ≡ core s
  unfolding core update_rate
  core-rate v t s = ground arith

  core-moving_count : (t : TimePoint) (s : Statistics) → core (update_moving_count t s) ≡ core s
  unfolding core update_moving_count
  core-moving_count t s = ground arith

  core-moving_sum :
      (v : F) (t : TimePoint) (s : Statistics) → core (update_moving_sum v t s) ≡ core s
  unfolding core update_moving_sum
  core-moving_sum v t s = ground arith

  core-value :
      (v : F) (s : Statistics)
      → core (update_value v s)
        ≡ (let c = core s in record c { value = if has c Tag.value then v else c.value })
  unfolding core update_value is_computed
  core-value v s = ground arith

  core-min :
      (v : F) (s : Statistics)
      → core (update_min v s)
        ≡ (let c = core s in record c { min = if has c Tag.min then lesser c.min v else c.min })
  unfolding core update_min is_computed
  core-min v s = ground arith

  core-max :
      (v : F) (s : Statistics)
      → core (update_max v s)
        ≡ (let c = core s in record c { max = if has c Tag.max then greater c.max v else c.max })
  unfolding core update_max is_computed
  core-max v s = ground arith

  core-sum :
      (v : F) (s : Statistics)
      → core (update_sum v s)
        ≡ (let c = core s in record c { sum = if has c Tag.sum then add c.sum v else c.sum })
  unfolding core update_sum is_computed
  core-sum v s = ground arith

  core-count :
      (s : Statistics)
      → core (update_count s) ≡ (
          let c = core s in
          record c { count = if has c Tag.count then (c.count + 1) % u64_mod else c.count })
  unfolding core update_count is_computed
  core-count s = ground arith

  -- One update of the totals.
  abbrev pub step : F → Core → Core
  step v c = record c {
    value = if has c Tag.value then v else c.value;
    min = if has c Tag.min then lesser c.min v else c.min;
    max = if has c Tag.max then greater c.max v else c.max;
    sum = if has c Tag.sum then add c.sum v else c.sum;
    count = if has c Tag.count then (c.count + 1) % u64_mod else c.count;
  }

  pub core-numbers :
      (v : F) (t : TimePoint) (s : Statistics) → core (update_numbers v t s) ≡ step v (core s)
  unfolding update_numbers
  core-numbers v t s = rw (
    core-moving_sum v t _,
    core-moving_count t _,
    core-count _,
    core-sum v _,
    core-max v _,
    core-min v _,
    core-value v _,
    core-rate v t s,
  )
