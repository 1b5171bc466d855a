-- ===== src/Metrics/Gauge.antt =====
-- src/metrics/gauge.cpp: statistics of the values that are set.
use handystats.Prelude.{Option}
use handystats.Machine.{Machine}
use handystats.MathUtils.{◌>>=◌}
use handystats.Prelude.{some}
use handystats.Chrono.TimePoint.{TimePoint}
use handystats.Statistics.State.{Config, Statistics, initial}
use handystats.Statistics.Update.{update, update_time}

module _ ⦃m : Machine⦄ where
  open m use {F}

  pub record Gauge : Type 0 where
    pub values : Statistics

  -- The constructor, from `config::metrics::gauge`.
  unfoldable pub create : Config → Gauge
  create opts = record { values = initial opts }

  unfoldable pub set : F → TimePoint → Gauge → Option Gauge
  set v t g = update v t g.values >>= λ s. some (record { values = s })

  unfoldable pub update_statistics : TimePoint → Gauge → Gauge
  update_statistics t g = record { values = update_time t g.values }
