-- ===== src/Config/Json.antt =====
-- `config_json` of src/config.cpp: the sections of a configuration, in both formats, and its
-- patterns. Reading them from a file is in File.
pub mod Usable
pub mod NewMetric
use Prim.Native.String.{String}
use text.Mathlib.Text.{◌==◌ as str_eq}
use handystats.Prelude.{
  Bool, true, false, ◌||◌, Option, none, some, List, [], ◌∷◌, ◌++◌, if◌then◌else◌,
}
use handystats.MathUtils.{◌>>=◌}
use handystats.Statistics.State.{Config, default_config}
use handystats.MetricsDump.{DumpConfig, default_dump_config}
use handystats.Internal.{Options}
use handystats.Core.{default_options}
use handystats.Config.Pattern.{Text, ok, expand_pattern}
use handystats.Config.Options.{
  Rapidjson, configure, configure_timer, configure_dump_interval, configure_metrics_dump,
  configure_enable, configure_core,
}

module _ ⦃json : Rapidjson⦄ where
  open json use {Value, parse, is_object, members, member, bytes}

  -- The options of the library and the patterns with their values.
  pub record Configuration : Type 0 where
    pub statistics_opts : Config
    pub options : Options
    pub dump_opts : DumpConfig
    pub enable : Bool
    pub pattern_opts : List (List Text × Value)

  -- A section, if the configuration has it.
  abbrev pub section : {A : Type 0} → String → Value → (Value → A → Option A) → A → Option A
  section name v f a = elim (member v name) [ none ↦ some a | some x ↦ f x a ]

  -- The section for the statistics of all metrics.
  unfoldable pub configure_statistics : Value → Configuration → Option Configuration
  unfolding configure
  configure_statistics v c = configure v c.statistics_opts >>= λ s.
      configure v c.options.gauge_opts >>= λ g. configure v c.options.counter_opts >>= λ k.
      configure v c.options.timer_opts.values >>= λ t. some (record c {
        statistics_opts = s;
        options = record {
          counter_opts = k;
          gauge_opts = g;
          timer_opts = record c.options.timer_opts { values = t };
        };
      })

  unfoldable pub configure_gauge : Value → Configuration → Option Configuration
  unfolding configure
  configure_gauge v c = configure v c.options.gauge_opts >>= λ g.
      some (record c { options = record c.options { gauge_opts = g } })

  unfoldable pub configure_counter : Value → Configuration → Option Configuration
  unfolding configure
  configure_counter v c = configure v c.options.counter_opts >>= λ k.
      some (record c { options = record c.options { counter_opts = k } })

  unfoldable pub configure_timers : Value → Configuration → Option Configuration
  unfolding configure_timer
  configure_timers v c = configure_timer v c.options.timer_opts >>= λ t.
      some (record c { options = record c.options { timer_opts = t } })

  -- The sections of the three kinds of metrics, in one object.
  unfoldable pub configure_kinds : Value → Configuration → Option Configuration
  unfolding configure_gauge configure_counter configure_timers
  configure_kinds v c = section "gauge" v configure_gauge c >>= λ c.
      section "counter" v configure_counter c >>= λ c. section "timer" v configure_timers c

  abbrev pub dump_section : Value → Configuration → Option Configuration
  unfolding configure_metrics_dump
  dump_section v c = some (record c { dump_opts = configure_metrics_dump v c.dump_opts })

  abbrev pub core_section : Value → Configuration → Option Configuration
  unfolding configure_core
  core_section v c = some (record c { enable = configure_core v c.enable })

  unfoldable pub configure_old : Value → Configuration → Option Configuration
  unfolding configure_statistics configure_kinds dump_section core_section
  configure_old v c = section "statistics" v configure_statistics c >>= λ c.
      section "metrics" v configure_kinds c >>= λ c.
      section "metrics-dump" v dump_section c >>= λ c. section "core" v core_section c

  unfoldable pub configure_new : Value → Configuration → Option Configuration
  unfolding configure_statistics configure_kinds configure_dump_interval configure_enable
  configure_new v c = section "defaults" v configure_statistics c >>= λ c.
      configure_kinds v c >>= λ c. some (record c {
        dump_opts = configure_dump_interval "dump-interval" v c.dump_opts;
        enable = configure_enable v c.enable;
      })

  unfoldable pub is_reserved : String → Bool
  is_reserved name =
      str_eq name "statistics"
      || str_eq name "metrics"
      || str_eq name "metrics-dump"
      || str_eq name "core"
      || str_eq name "defaults"
      || str_eq name "gauge"
      || str_eq name "counter"
      || str_eq name "timer"
      || str_eq name "dump-interval"
      || str_eq name "enable"

  -- The pattern of one member; `none` is the exception that ends `config_json` with false.
  unfoldable pub add_pattern : String → Value → Configuration → Option Configuration
  unfolding is_reserved expand_pattern
  add_pattern name v c = if is_reserved name then some c else elim (expand_pattern (bytes name)) [
    | ok names ↦ some (record c { pattern_opts = c.pattern_opts ++ (names, v) ∷ [] })
    | _ ↦ none
  ]

  -- The loop over the members, with the result of `config_json`.
  unfoldable pub add_patterns : List (String × Value) → Configuration → Configuration × Bool
  unfolding add_pattern
  add_patterns [] c = (c, true)
  add_patterns ((name, v) ∷ vs) c = elim (add_pattern name v c) [
    | none ↦ (c, false)
    | some c' ↦ add_patterns vs c'
  ]

  -- On a parsed value; `none` is an exception.
  unfoldable pub configure_value : Value → Configuration → Option (Configuration × Bool)
  unfolding configure_old configure_new add_patterns
  configure_value v c =
      configure_old v c >>= λ c. configure_new v c >>= λ c. some (add_patterns (members v) c)

  -- `config_json`, with what `is_enabled` gives.
  unfoldable pub config_json : Bool → String → Configuration → Option (Configuration × Bool)
  unfolding configure_value
  config_json enabled text c = if enabled then some (c, true) else elim (parse text) [
    | none ↦ some (c, false)
    | some v ↦ if is_object v then configure_value v c else some (c, false)
  ]

  -- `reset`, which `initialize` and `finalize` call.
  unfoldable pub default_configuration : Configuration
  unfolding default_config
  default_configuration = record {
    statistics_opts = default_config;
    options = default_options;
    dump_opts = default_dump_config;
    enable = true;
    pattern_opts = [];
  }
