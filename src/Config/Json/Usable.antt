-- ===== src/Config/Json/Usable.antt =====
-- What `config_json` of src/config.cpp leaves of the options.
use Prim.Native.String.{String}
use mathlib.Core.Path.{subst}
use handystats.Prelude.{
  ◌<◌, refl, Bool, true, false, Bool-cases, Option-cases, inl, inr, Option, none, some, List, [],
  ◌∷◌, ◌++◌, u64_mod, if◌then◌else◌,
}
use handystats.MathUtils.{IfSome, IfSome-bind}
use handystats.Chrono.Duration.{unit_eq}
use handystats.Statistics.State.{default_config}
use handystats.Metrics.Timer.{TimerConfig}
use handystats.Config.Pattern.{Text, Outcome, ok, expand_pattern}
use handystats.Config.Options.{Rapidjson, configure, configure_timer}
use handystats.Config.Options.Usable.{Usable, configure-Usable, configure_timer-Usable}
use handystats.Config.Json.{
  Configuration, section, configure_statistics, configure_gauge, configure_counter,
  configure_timers, configure_kinds, dump_section, core_section, configure_old, configure_new,
  is_reserved, add_pattern, add_patterns, configure_value, config_json, default_configuration,
}

module _ ⦃json : Rapidjson⦄ where
  open json use {Value, parse, is_object, members, member, as_uint64, bytes}

  -- All options that the library keeps are usable.
  abbrev pub AllUsable : Configuration → Type 0
  AllUsable c =
      Usable c.statistics_opts
      × Usable c.options.gauge_opts
      × Usable c.options.counter_opts
      × Usable c.options.timer_opts.values

  by_member :
      (o : Option Value) (f : Value → Configuration → Option Configuration) (c : Configuration)
      → AllUsable c
      → ((x : Value) → IfSome AllUsable (f x c))
      → IfSome AllUsable (elim o [ none ↦ some c | some x ↦ f x c ])
  by_member none f c h k = h
  by_member (some x) f c h k = k x

  section-AllUsable :
      (name : String) (v : Value) (f : Value → Configuration → Option Configuration)
      (c : Configuration)
      → AllUsable c
      → ((x : Value) → IfSome AllUsable (f x c))
      → IfSome AllUsable (section name v f c)
  section-AllUsable name v f c h k = by_member (member v name) f c h k

  by_outcome :
      (o : Outcome (List Text)) (v : Value) (c : Configuration)
      → AllUsable c
      → IfSome AllUsable (elim o [
        | ok names ↦ some (record c { pattern_opts = c.pattern_opts ++ (names, v) ∷ [] })
        | _ ↦ none
      ])
  by_outcome (ok names) v c h = h
  by_outcome _ v c h = tt

  -- Integers of rapidjson fit `uint64_t`.
  module _ (small : (v : Value) → IfSome (λ n. n < u64_mod) (as_uint64 v)) where
    statistics-AllUsable :
        (v : Value) (c : Configuration) → AllUsable c → IfSome AllUsable (configure_statistics v c)
    unfolding configure_statistics
    statistics-AllUsable v c (s, g, k, t) =
        IfSome-bind Usable AllUsable (configure v c.statistics_opts) _
          (configure-Usable small v c.statistics_opts s)
          λ s' hs.
            IfSome-bind Usable AllUsable (configure v c.options.gauge_opts) _
              (configure-Usable small v c.options.gauge_opts g)
              λ g' hg.
                IfSome-bind Usable AllUsable (configure v c.options.counter_opts) _
                  (configure-Usable small v c.options.counter_opts k)
                  λ k' hk.
                    IfSome-bind Usable AllUsable (configure v c.options.timer_opts.values) _
                      (configure-Usable small v c.options.timer_opts.values t)
                      λ t' ht. (hs, hg, hk, ht)

    gauge-AllUsable :
        (v : Value) (c : Configuration) → AllUsable c → IfSome AllUsable (configure_gauge v c)
    unfolding configure_gauge
    gauge-AllUsable v c (s, g, k, t) =
        IfSome-bind Usable AllUsable (configure v c.options.gauge_opts) _
          (configure-Usable small v c.options.gauge_opts g) λ g' hg. (s, hg, k, t)

    counter-AllUsable :
        (v : Value) (c : Configuration) → AllUsable c → IfSome AllUsable (configure_counter v c)
    unfolding configure_counter
    counter-AllUsable v c (s, g, k, t) =
        IfSome-bind Usable AllUsable (configure v c.options.counter_opts) _
          (configure-Usable small v c.options.counter_opts k) λ k' hk. (s, g, hk, t)

    timers-AllUsable :
        (v : Value) (c : Configuration) → AllUsable c → IfSome AllUsable (configure_timers v c)
    unfolding configure_timers
    timers-AllUsable v c (s, g, k, t) =
        IfSome-bind (λ (o : TimerConfig). Usable o.values) AllUsable
          (configure_timer v c.options.timer_opts) _
          (configure_timer-Usable small v c.options.timer_opts t) λ o ho. (s, g, k, ho)

    kinds-AllUsable :
        (v : Value) (c : Configuration) → AllUsable c → IfSome AllUsable (configure_kinds v c)
    unfolding configure_kinds
    kinds-AllUsable v c h =
        IfSome-bind AllUsable AllUsable (section "gauge" v configure_gauge c) _
          (section-AllUsable "gauge" v configure_gauge c h λ x. gauge-AllUsable x c h)
          λ c1 h1.
            IfSome-bind AllUsable AllUsable (section "counter" v configure_counter c1) _
              (section-AllUsable "counter" v configure_counter c1 h1 λ x. counter-AllUsable x c1 h1)
              λ c2 h2.
                section-AllUsable "timer" v configure_timers c2 h2 λ x. timers-AllUsable x c2 h2

    old-AllUsable :
        (v : Value) (c : Configuration) → AllUsable c → IfSome AllUsable (configure_old v c)
    unfolding configure_old
    old-AllUsable v c h =
        IfSome-bind AllUsable AllUsable (section "statistics" v configure_statistics c) _
          (section-AllUsable "statistics" v configure_statistics c h
            λ x. statistics-AllUsable x c h)
          λ c1 h1.
            IfSome-bind AllUsable AllUsable (section "metrics" v configure_kinds c1) _
              (section-AllUsable "metrics" v configure_kinds c1 h1 λ x. kinds-AllUsable x c1 h1)
              λ c2 h2.
                IfSome-bind AllUsable AllUsable (section "metrics-dump" v dump_section c2) _
                  (section-AllUsable "metrics-dump" v dump_section c2 h2 λ x. h2)
                  λ c3 h3. section-AllUsable "core" v core_section c3 h3 λ x. h3

    new-AllUsable :
        (v : Value) (c : Configuration) → AllUsable c → IfSome AllUsable (configure_new v c)
    unfolding configure_new
    new-AllUsable v c h =
        IfSome-bind AllUsable AllUsable (section "defaults" v configure_statistics c) _
          (section-AllUsable "defaults" v configure_statistics c h λ x. statistics-AllUsable x c h)
          λ c1 h1.
            IfSome-bind AllUsable AllUsable (configure_kinds v c1) _ (kinds-AllUsable v c1 h1)
              λ c2 h2. h2

    pattern-AllUsable :
        (name : String) (v : Value) (c : Configuration)
        → AllUsable c
        → IfSome AllUsable (add_pattern name v c)
    unfolding add_pattern
    pattern-AllUsable name v c h = elim (Bool-cases (is_reserved name)) [
      | inl e ↦ rw (e, add_pattern) h
      | inr e ↦ rw (e, add_pattern) (by_outcome (expand_pattern (bytes name)) v c h)
    ]

    patterns-AllUsable :
        (vs : List (String × Value)) (c : Configuration)
        → AllUsable c
        → AllUsable (add_patterns vs c).0
    unfolding add_patterns
    patterns-AllUsable [] c h = h
    patterns-AllUsable ((name, v) ∷ vs) c h = elim (Option-cases (add_pattern name v c)) [
      | inl e ↦ rw (e, add_patterns) h
      | inr (c', e) ↦
          rw (e, add_patterns)
            (patterns-AllUsable vs c' (subst (IfSome AllUsable) e (pattern-AllUsable name v c h)))
    ]

    value-AllUsable :
        (v : Value) (c : Configuration)
        → AllUsable c
        → IfSome (λ (r : Configuration × Bool). AllUsable r.0) (configure_value v c)
    unfolding configure_value
    value-AllUsable v c h =
        IfSome-bind AllUsable (λ (r : Configuration × Bool). AllUsable r.0) (configure_old v c) _
          (old-AllUsable v c h)
          λ c1 h1.
            IfSome-bind AllUsable (λ (r : Configuration × Bool). AllUsable r.0) (configure_new v c1)
              _ (new-AllUsable v c1 h1) λ c2 h2. patterns-AllUsable (members v) c2 h2

  by_parse :
      (o : Option Value) (f : Value → Option (Configuration × Bool)) (c : Configuration)
      → AllUsable c
      → ((v : Value) → IfSome (λ (r : Configuration × Bool). AllUsable r.0) (f v))
      → IfSome
          (λ (r : Configuration × Bool). AllUsable r.0)
          (elim o [
            | none ↦ some (c, false)
            | some v ↦ if is_object v then f v else some (c, false)
          ])
  by_parse none f c h k = h
  by_parse (some v) f c h k = elim (Bool-cases (is_object v)) [
    | inl e ↦ rw e (k v)
    | inr e ↦ rw e h
  ]

  -- Whatever text is given to `config_json`, options that are usable stay usable, also where it
  -- returns false: there is at least one bin, the moving interval is not zero and the rate's unit
  -- is one of real time. This holds if the integers that rapidjson reads fit `uint64_t`.
  pub config_json-AllUsable :
      ((v : Value) → IfSome (λ n. n < u64_mod) (as_uint64 v))
      → (enabled : Bool) (text : String) (c : Configuration) → AllUsable c
      → IfSome (λ (r : Configuration × Bool). AllUsable r.0) (config_json enabled text c)
  unfolding config_json
  config_json-AllUsable small true text c h = h
  config_json-AllUsable small false text c h =
      by_parse (parse text) (λ v. configure_value v c) c h (λ v. value-AllUsable small v c h)

  default-Usable : Usable default_config
  unfolding default_config unit_eq
  default-Usable = record { bins = refl; interval = refl; unit = refl }

  pub default-AllUsable : AllUsable default_configuration
  unfolding default_configuration
  default-AllUsable = (default-Usable, default-Usable, default-Usable, default-Usable)
