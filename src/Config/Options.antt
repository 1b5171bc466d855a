-- ===== src/Config/Options.antt =====
-- The options of the metrics and how a configuration changes them: src/config and the part of
-- `process_event_message` of src/internal.cpp that finds the options of a new metric.
pub mod Usable
pub mod Refused
use Prim.Native.Nat.{bit_or}
use Prim.Native.String.{String}
use text.Mathlib.Text.{◌==◌ as str_eq}
use handystats.Prelude.{
  ℕ, Bool, true, false, Option, none, some, List, [], ◌∷◌, ltb, of_u64, if◌then◌else◌,
}
use handystats.MathUtils.{◌>>=◌}
use handystats.Chrono.Duration.{
  Duration, duration, TimeUnit, nsec, usec, msec, sec, min, hour, tick, unit_eq,
}
use handystats.Statistics.State.{Config}
use handystats.Statistics.Tag.{bit, from_string}
use handystats.Events.Message.{Destination}
use handystats.Metrics.Timer.{TimerConfig}
use handystats.MetricsDump.{DumpConfig}
use handystats.Internal.{Options}
use handystats.Config.Pattern.{Text, select_pattern}

-- What the code uses of the rapidjson library: parsed values, the tests of their types together
-- with the reads of these types (`none` is a value of another type), and the members of an object.
-- `bytes` is the text of a string, as `GetString` gives it.
pub record Rapidjson : Type 1 where
  pub Value : Type 0
  pub parse : String → Option Value
  pub is_object : Value → Bool
  pub members : Value → List (String × Value)
  pub member : Value → String → Option Value
  pub as_uint64 : Value → Option ℕ
  pub as_bool : Value → Option Bool
  pub as_string : Value → Option String
  pub as_array : Value → Option (List Value)
  pub bytes : String → Text

module _ ⦃json : Rapidjson⦄ where
  open json use {Value, is_object, member, as_uint64, as_bool, as_string, as_array, bytes}

  -- A positive integer at this member.
  unfoldable pub positive_at : String → Value → Option ℕ
  positive_at name v = member v name >>= λ x. as_uint64 x >>= λ n. if ltb 0 n then some n else none

  unfoldable pub configure_interval : Value → Config → Config
  unfolding positive_at
  configure_interval v c = elim (positive_at "moving-interval" v) [
    | none ↦ c
    | some n ↦ record c { moving_interval = duration (of_u64 n) msec }
  ]

  unfoldable pub configure_bins : Value → Config → Config
  unfolding positive_at
  configure_bins v c = elim (positive_at "histogram-bins" v) [
    | none ↦ c
    | some n ↦ record c { histogram_bins = n }
  ]

  -- One turn of the loop over the tags; `none` is the exception of `from_string`.
  unfoldable pub add_tag : Value → ℕ → Option ℕ
  unfolding from_string bit
  add_tag v tags = elim (as_string v) [
    | none ↦ some tags
    | some s ↦ from_string s >>= λ t. some (bit_or tags (bit t))
  ]

  unfoldable pub add_tags : List Value → ℕ → Option ℕ
  unfolding add_tag
  add_tags [] tags = some tags
  add_tags (v ∷ vs) tags = add_tag v tags >>= add_tags vs

  unfoldable pub configure_tags : Value → Config → Option Config
  unfolding add_tags
  configure_tags v c = elim (member v "tags" >>= as_array) [
    | none ↦ some c
    | some vs ↦ add_tags vs 0 >>= λ tags. some (record c { tags = tags })
  ]

  -- TICK stands for a name of no unit.
  unfoldable pub unit_of : String → TimeUnit
  unit_of s =
      if str_eq s "ns"
      then nsec
      else if str_eq s "us"
      then usec
      else if str_eq s "ms"
      then msec
      else if str_eq s "s"
      then sec
      else if str_eq s "m"
      then min
      else if str_eq s "h"
      then hour
      else tick

  unfoldable pub configure_unit : Value → Config → Config
  unfolding unit_of unit_eq
  configure_unit v c = elim (member v "rate-unit" >>= as_string) [
    | none ↦ c
    | some s ↦ if unit_eq (unit_of s) tick then c else record c { rate_unit = unit_of s }
  ]

  -- `configure` of `config::statistics`, and that of a gauge and of a counter, which add nothing.
  unfoldable pub configure : Value → Config → Option Config
  unfolding configure_interval configure_bins configure_tags configure_unit
  configure v c =
      if is_object v
      then (configure_tags v (configure_bins v (configure_interval v c)) >>= λ c'.
          some (configure_unit v c'))
      else some c

  unfoldable pub configure_timer : Value → TimerConfig → Option TimerConfig
  unfolding configure
  configure_timer v o =
      let timeout : Duration = elim (member v "idle-timeout" >>= as_uint64) [
        | none ↦ o.idle_timeout
        | some n ↦ duration (of_u64 n) msec
      ] in
      if is_object v
      then (configure v o.values >>= λ c. some (record { idle_timeout = timeout; values = c }))
      else some o

  -- The interval of an object's member of this name.
  unfoldable pub configure_dump_interval : String → Value → DumpConfig → DumpConfig
  configure_dump_interval name v o = elim (member v name >>= as_uint64) [
    | none ↦ o
    | some n ↦ record o { interval = duration (of_u64 n) msec }
  ]

  unfoldable pub configure_metrics_dump : Value → DumpConfig → DumpConfig
  unfolding configure_dump_interval
  configure_metrics_dump v o = if is_object v then configure_dump_interval "interval" v o else o

  unfoldable pub configure_enable : Value → Bool → Bool
  configure_enable v enable = elim (member v "enable" >>= as_bool) [ none ↦ enable | some b ↦ b ]

  unfoldable pub configure_core : Value → Bool → Bool
  unfolding configure_enable
  configure_core v enable = if is_object v then configure_enable v enable else enable

  -- The options of a new metric of this kind, changed by the value of a pattern.
  unfoldable pub configure_for : Destination → Value → Options → Option Options
  unfolding configure configure_timer
  configure_for Destination.counter v o =
      configure v o.counter_opts >>= λ c. some (record o { counter_opts = c })
  configure_for Destination.gauge v o =
      configure v o.gauge_opts >>= λ c. some (record o { gauge_opts = c })
  configure_for Destination.timer v o =
      configure_timer v o.timer_opts >>= λ t. some (record o { timer_opts = t })
  configure_for Destination.attribute v o = some o

  -- The options of a new metric: the default ones, changed by the value of the first group of
  -- patterns that its name matches.
  unfoldable pub options_for :
      (Text → Text → Bool)
      → List (List Text × Value)
      → Options
      → Destination
      → String
      → Option Options
  unfolding configure_for select_pattern
  options_for fnmatch patterns o kind name = elim (select_pattern fnmatch (bytes name) patterns) [
    | none ↦ some o
    | some v ↦ configure_for kind v o
  ]
