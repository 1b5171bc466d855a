-- ===== src/Statistics/State.antt =====
-- The configuration and the state of `statistics`, its constructor and `reset`.
use handystats.Prelude.{ℕ, ◌+◌, Bool, List, [], pos}
use handystats.Machine.{Machine}
use handystats.MathUtils.{num}
use handystats.Chrono.Duration.{Duration, TimeUnit, duration, sec}
use handystats.Chrono.TimePoint.{TimePoint, epoch}
use handystats.Statistics.Tag
use handystats.Statistics.Tag.{Tag}

-- `config::statistics`
pub record Config : Type 0 where
  pub moving_interval : Duration
  pub histogram_bins : ℕ
  pub tags : ℕ
  pub rate_unit : TimeUnit

-- The constructor of `config::statistics`. The bits of the tags are distinct, so their sum is
-- their union.
unfoldable pub default_config : Config
unfolding Tag.bit
default_config = record {
  moving_interval = duration (pos 1) sec;
  histogram_bins = 30;
  tags =
      Tag.bit Tag.value
      + Tag.bit Tag.min
      + Tag.bit Tag.max
      + Tag.bit Tag.count
      + Tag.bit Tag.sum
      + Tag.bit Tag.avg
      + Tag.bit Tag.moving_count
      + Tag.bit Tag.moving_sum
      + Tag.bit Tag.moving_avg
      + Tag.bit Tag.timestamp;
  rate_unit = sec;
}

module _ ⦃m : Machine⦄ where
  open m use {F, largest, smallest_normal}

  pub record Bin : Type 0 where
    pub center : F
    pub weight : F
    pub stamp : TimePoint

  pub record Statistics : Type 0 where
    pub config : Config
    pub value : F
    pub min : F
    pub max : F
    pub sum : F
    pub count : ℕ
    pub moving_count : F
    pub moving_sum : F
    pub histogram : List Bin
    pub timestamp : TimePoint
    pub rate : F
    pub data_timestamp : TimePoint

  -- The state that `reset` leaves, whatever it was before: every field but the configuration is
  -- assigned, and the members that the constructor leaves to `reset` get their values there.
  unfoldable pub initial : Config → Statistics
  initial c = record {
    config = c;
    value = num 0;
    min = largest;
    max = smallest_normal;
    sum = num 0;
    count = 0;
    moving_count = num 0;
    moving_sum = num 0;
    histogram = [];
    timestamp = epoch;
    rate = num 0;
    data_timestamp = epoch;
  }

  unfoldable pub reset : Statistics → Statistics
  reset s = initial s.config

  -- `statistics::computed`
  unfoldable pub is_computed : Statistics → Tag → Bool
  is_computed s t = Tag.computed s.config.tags t
