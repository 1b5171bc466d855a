-- ===== src/Metrics/Timer.antt =====
-- src/metrics/timer.cpp: measurements between the start and the stop of instances, and the removal
-- of instances that have been idle too long. The map of instances is a function.
pub mod Check
pub mod Measure
pub mod Idle
use handystats.Prelude.{ℕ, ◌==◌, Bool, true, false, not, ◌&&◌, Option, some, none, ℤ, if◌then◌else◌}
use handystats.Machine.{Machine}
use handystats.MathUtils.{◌>>=◌}
use handystats.Chrono.Duration
use handystats.Chrono.Duration.{Duration, TimeUnit, usec, convert_to}
use handystats.Chrono.TimePoint.{TimePoint, epoch, lt, gt, elapsed, advance}
use handystats.Statistics.State.{Config, Statistics, initial}
use handystats.Statistics.Update.{update, update_time}

-- `timer::value_unit`
abbrev pub value_unit : TimeUnit
value_unit = usec

-- `config::metrics::timer`
pub record TimerConfig : Type 0 where
  pub idle_timeout : Duration
  pub values : Config

pub record InstanceState : Type 0 where
  pub start_timestamp : TimePoint
  pub heartbeat_timestamp : TimePoint

abbrev pub Instances : Type 0
Instances = ℕ → Option InstanceState

unfoldable pub assign : Instances → ℕ → Option InstanceState → Instances
assign f id v j = if j == id then v else f j

module _ ⦃m : Machine⦄ where
  open m use {of_ℤ}

  unfoldable pub expired : InstanceState → Duration → TimePoint → Bool
  expired i idle_timeout t =
      gt t i.heartbeat_timestamp && Duration.gt (elapsed t i.heartbeat_timestamp) idle_timeout

  pub record Timer : Type 0 where
    pub idle_timeout : Duration
    pub values : Statistics
    pub instances : Instances
    pub idle_check_timestamp : TimePoint

  unfoldable pub create : TimerConfig → Timer
  create opts = record {
    idle_timeout = opts.idle_timeout;
    values = initial opts.values;
    instances = λ _. none;
    idle_check_timestamp = epoch;
  }

  -- The loop of `check_idle_timeout`: every expired instance is erased.
  unfoldable pub sweep : Duration → TimePoint → Instances → Instances
  sweep idle_timeout t f id = elim (f id) [
    | none ↦ none
    | some i ↦ if expired i idle_timeout t then none else some i
  ]

  unfoldable pub check_idle_timeout : TimePoint → Bool → Timer → Timer
  check_idle_timeout t force tm =
      if not force && lt t (advance tm.idle_check_timestamp tm.idle_timeout)
      then tm
      else record tm {
        instances = sweep tm.idle_timeout t tm.instances;
        idle_check_timestamp = if lt tm.idle_check_timestamp t then t else tm.idle_check_timestamp;
      }

  unfoldable pub start : ℕ → TimePoint → Timer → Timer
  start id t tm =
      let tm' = check_idle_timeout t false tm in
      record tm' {
        instances =
            assign tm'.instances id
              (some (record { start_timestamp = t; heartbeat_timestamp = t }));
      }

  -- The measurement of an instance at its stop.
  unfoldable pub measured : InstanceState → TimePoint → Duration
  measured i t = convert_to value_unit (elapsed t i.start_timestamp)

  unfoldable pub stop : ℕ → TimePoint → Timer → Option Timer
  stop id t tm =
      let tm' = check_idle_timeout t false tm in
      let erased = assign tm'.instances id none in
      elim (tm'.instances id) [
        | none ↦ some tm'
        | some i ↦
            if expired i tm'.idle_timeout t
            then some (record tm' { instances = erased })
            else (update (of_ℤ (measured i t).rep) t tm'.values >>= λ s.
                some (record tm' { values = s; instances = erased }))
      ]

  unfoldable pub heartbeat : ℕ → TimePoint → Timer → Timer
  heartbeat id t tm =
      let tm' = check_idle_timeout t false tm in
      elim (tm'.instances id) [
        | none ↦ tm'
        | some i ↦
            if expired i tm'.idle_timeout t
            then record tm' { instances = assign tm'.instances id none }
            else record tm' {
              instances = assign tm'.instances id (some (record i { heartbeat_timestamp = t }));
            }
      ]

  unfoldable pub discard : ℕ → TimePoint → Timer → Timer
  discard id t tm =
      let tm' = check_idle_timeout t false tm in
      record tm' { instances = assign tm'.instances id none }

  unfoldable pub set : Duration → TimePoint → Timer → Option Timer
  set d t tm = update (of_ℤ (convert_to value_unit d).rep) t tm.values >>= λ s.
      some (record tm { values = s })

  unfoldable pub update_statistics : TimePoint → Timer → Timer
  update_statistics t tm = record tm { values = update_time t tm.values }
