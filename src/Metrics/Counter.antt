-- ===== src/Metrics/Counter.antt =====
-- src/metrics/counter.cpp: a running integer and the statistics of its values. The integer is
-- exact: signed overflow is undefined in C++.
pub mod Total
use handystats.Prelude.{Bool, Option, some, ℤ, pos, ◌+ℤ◌, ◌-ℤ◌, if◌then◌else◌}
use handystats.Machine.{Machine}
use handystats.MathUtils.{◌>>=◌}
use handystats.Chrono.TimePoint.{TimePoint, epoch, eq, lt}
use handystats.Statistics.State.{Config, Statistics, initial, reset}
use handystats.Statistics.Update.{update, update_time}

module _ ⦃m : Machine⦄ where
  open m use {of_ℤ}

  pub record Counter : Type 0 where
    pub values : Statistics
    pub value : ℤ
    pub timestamp : TimePoint

  -- The constructor, from `config::metrics::counter`.
  unfoldable pub create : Config → Counter
  create opts = record { values = initial opts; value = pos 0; timestamp = epoch }

  unfoldable pub init : ℤ → TimePoint → Counter → Option Counter
  init v t c = update (of_ℤ v) t (reset c.values) >>= λ s.
      some (record { values = s; value = v; timestamp = t })

  -- The first lines of `increment` and `decrement`.
  unfoldable pub started : TimePoint → Counter → Option Counter
  started t c = if eq c.timestamp epoch then init (pos 0) t c else some c

  -- The last lines of both, with the new value.
  unfoldable pub moved : ℤ → TimePoint → Counter → Option Counter
  moved v t c =
      let t' = if lt c.timestamp t then t else c.timestamp in
      update (of_ℤ v) t' c.values >>= λ s. some (record { values = s; value = v; timestamp = t' })

  unfoldable pub increment : ℤ → TimePoint → Counter → Option Counter
  increment d t c = started t c >>= λ c'. moved (c'.value +ℤ d) t c'

  unfoldable pub decrement : ℤ → TimePoint → Counter → Option Counter
  decrement d t c = started t c >>= λ c'. moved (c'.value -ℤ d) t c'

  unfoldable pub update_statistics : TimePoint → Counter → Counter
  update_statistics t c = record c { values = update_time t c.values }
