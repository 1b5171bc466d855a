-- ===== src/Config/Json/NewMetric.antt =====
-- The options that a metric gets when it is made, by `config_json` of src/config.cpp and
-- `process_event_message` of src/internal.cpp.
use Prim.Native.String.{String}
use handystats.Prelude.{◌<◌, Bool, List, u64_mod, Option-cases, inl, inr}
use handystats.MathUtils.{IfSome, IfSome-bind, IfSome-map}
use handystats.Events.Message.{Destination}
use handystats.Internal.{Options}
use handystats.Metrics.Timer.{TimerConfig}
use handystats.Config.Pattern.{Text, select_pattern}
use handystats.Config.Options.{Rapidjson, configure, configure_timer, configure_for, options_for}
use handystats.Config.Options.Usable.{Usable, configure-Usable, configure_timer-Usable}
use handystats.Config.Json.{Configuration, config_json}
use handystats.Config.Json.Usable.{AllUsable, config_json-AllUsable}

abbrev pub IsUsable : Options → Type 0
IsUsable o = Usable o.counter_opts × Usable o.gauge_opts × Usable o.timer_opts.values

module _ ⦃json : Rapidjson⦄ where
  open json use {Value, as_uint64, bytes}

  module _ (small : (v : Value) → IfSome (λ n. n < u64_mod) (as_uint64 v)) where
    configure_for-Usable :
        (kind : Destination) (v : Value) (o : Options)
        → IsUsable o
        → IfSome IsUsable (configure_for kind v o)
    unfolding configure_for
    configure_for-Usable Destination.counter v o (k, g, t) =
        IfSome-bind Usable IsUsable (configure v o.counter_opts) _
          (configure-Usable small v o.counter_opts k) λ c h. (h, g, t)
    configure_for-Usable Destination.gauge v o (k, g, t) =
        IfSome-bind Usable IsUsable (configure v o.gauge_opts) _
          (configure-Usable small v o.gauge_opts g) λ c h. (k, h, t)
    configure_for-Usable Destination.timer v o (k, g, t) =
        IfSome-bind (λ (c : TimerConfig). Usable c.values) IsUsable (configure_timer v o.timer_opts)
          _ (configure_timer-Usable small v o.timer_opts t) λ c h. (k, g, h)
    configure_for-Usable Destination.attribute v o h = h

    options_for-Usable :
        (fnmatch : Text → Text → Bool) (patterns : List (List Text × Value)) (o : Options)
        (kind : Destination) (name : String)
        → IsUsable o
        → IfSome IsUsable (options_for fnmatch patterns o kind name)
    unfolding options_for
    options_for-Usable fnmatch patterns o kind name h =
        elim (Option-cases (select_pattern fnmatch (bytes name) patterns)) [
          | inl e ↦ rw (e, options_for) h
          | inr (v, e) ↦ rw (e, options_for) (configure_for-Usable kind v o h)
        ]

  abbrev pub NewUsable : (Text → Text → Bool) → Destination → String → Configuration × Bool → Type 0
  NewUsable fnmatch kind name (c, _) =
      IfSome IsUsable (options_for fnmatch c.pattern_opts c.options kind name)

  -- Let `config_json` return, from usable options and with whatever text, also one that it refuses.
  -- It does not return where a section has a tag that is unknown. Then a new metric of any kind and
  -- name, whatever patterns its name matches, gets options by which its statistics can be kept, if
  -- its pattern's value has no unknown tag either: at least one bin, a moving interval that is not
  -- zero, and a rate's unit of real time. This holds if rapidjson's integers fit `uint64_t`.
  pub config_json-options_for :
      ((v : Value) → IfSome (λ n. n < u64_mod) (as_uint64 v))
      → (fnmatch : Text → Text → Bool) (enabled : Bool) (text : String) (kind : Destination)
        (name : String) (c : Configuration)
      → AllUsable c
      → IfSome (NewUsable fnmatch kind name) (config_json enabled text c)
  config_json-options_for small fnmatch enabled text kind name c h =
      IfSome-map (λ (r : Configuration × Bool). AllUsable r.0) (NewUsable fnmatch kind name)
        (config_json enabled text c) (config_json-AllUsable small enabled text c h)
        λ (c', b) (s, g, k, t).
          options_for-Usable small fnmatch c'.pattern_opts c'.options kind name (k, g, t)
