-- ===== src/Core/Lifecycle.antt =====
-- `initialize` and `finalize` of src/core.cpp.
use Prim.Native.String.{String}
use handystats.Prelude.{
  ℕ, ◌<◌, ◌≡◌, refl, ap, ◌∙◌, Bool, true, false, Option, none, some, List, [], length, pos,
}
use mathlib.Core.Bool.{false≢true}
use handystats.Machine.{Machine}
use handystats.Chrono.Duration.{duration, msec, sec}
use handystats.Chrono.TimePoint.{TimePoint, epoch}
use handystats.Statistics.State.{default_config}
use handystats.Statistics.Tag
use handystats.Events.Message.{Destination, EventMessage}
use handystats.Internal.{MetricsMap, find}
use handystats.Internal.Dispatch.{initialize-finalize, moving_avg_quiet}
use handystats.Internal.Progress.{IsQuietOptions}
use handystats.Metrics.Plain.{IsPlain, create-IsPlain}
use handystats.MessageQueue.Service.Intact.{initialize-Intact}
use handystats.MessageQueue.Service.Drain.{Released, finalize-Released}
use handystats.MetricsDump
use handystats.MetricsDump.Lookup.{DistinctKeys}
use handystats.Core.{
  Core, Settings, default_settings, default_options, is_enabled, initialize, finalize,
}
use handystats.Core.Steady.{IfKind, Steady}

module _ ⦃m : Machine⦄ where
  -- The library is not running: no queue, no metrics, no dump.
  pub record Idle (c : Core) : Type 0 where
    pub disabled : c.enabled_flag ≡ false
    pub no_queue : c.queue.event_message_queue ≡ none
    pub no_metrics : c.internal.metrics_map ≡ []

  by_enable : {A : Type 0} (b : Bool) (x y : A) → b ≡ true → elim b [ false ↦ x | true ↦ y ] ≡ y
  by_enable true x y e = refl
  by_enable false x y e = elim (false≢true e) [ ]

  dump_time-IsPlain : (s : MetricsDump.State) → IsPlain (MetricsDump.initialize s).dump_time.values
  unfolding MetricsDump.initialize MetricsDump.reset_stats
  dump_time-IsPlain s =
      create-IsPlain
        (record default_config {
          tags = Tag.bit Tag.moving_avg;
          moving_interval = duration (pos 1) sec;
        })
        moving_avg_quiet

  empty-IfKind :
      (d : Destination) (name : String) (xs : MetricsMap) → xs ≡ [] → IfKind d (find name xs)
  unfolding find
  empty-IfKind d name xs e = rw e tt

  empty-DistinctKeys : (xs : MetricsMap) → xs ≡ [] → DistinctKeys xs
  unfolding DistinctKeys
  empty-DistinctKeys xs e = rw e tt

  -- `initialize` of a library that is not running and is not disabled, with options that ask for no
  -- histogram, returns: it is enabled then, with an empty queue and no metrics.
  pub initialize-Steady :
      (kind : String → Destination) (memory : ℕ → Option ℕ) (now queue_now : TimePoint) (c : Core)
      → Idle c
      → c.settings.enable ≡ true
      → IsQuietOptions c.settings.defaults
      → ((name : String) → IsQuietOptions (c.settings.configured name))
      → (c' : Core) × (initialize memory now queue_now c ≡ some c')
        × Steady kind c' []
        × (c'.queue.messages ≡ c.queue.messages)
  unfolding initialize is_enabled MetricsDump.initialize
  initialize-Steady kind memory now queue_now c idle on quiet quiet_names =
      let (st, e, kept, p1, p2) = (initialize-finalize now c.internal).0 in
      let (q, f, intact, same) = initialize-Intact memory queue_now c.queue idle.no_queue in
      let gone = kept ∙ idle.no_metrics in
      (
        record c {
          metrics_dump = MetricsDump.initialize c.metrics_dump;
          internal = st;
          queue = q;
          enabled_flag = true;
          last_message_timestamp = epoch;
        },
        rw (idle.disabled, initialize) (rw (e, f) (by_enable c.settings.enable _ _ on)),
        record {
          enabled = rw on refl;
          intact = intact;
          typed = tt;
          kinds = λ name. empty-IfKind (kind name) name st.metrics_map gone;
          ready = record {
            distinct = empty-DistinctKeys st.metrics_map gone;
            plain_metrics = (p1, p2);
            plain_stats = intact.plain;
            plain_time = dump_time-IsPlain c.metrics_dump;
          };
          quiet = quiet;
          quiet_names = quiet_names;
          writable = tt;
        },
        same,
      )

  -- `finalize` of a steady library, whose queue holds `xs`, returns when the queue's loop has one
  -- turn more than there are messages. The library is not running then, its settings are the
  -- default ones, the dump is empty, and the messages `xs` are released and no other.
  pub finalize-Idle :
      (kind : String → Destination) (fuel : ℕ) (clock : ℕ → TimePoint) (now queue_now : TimePoint)
      (xs : List ℕ) (c : Core)
      → Steady kind c xs
      → length xs < fuel
      → (c' : Core) × (finalize fuel clock now queue_now c ≡ some c')
        × Idle c'
        × (c'.settings ≡ default_settings)
        × (c'.metrics_dump.dump ≡ [])
        × Released xs c.queue c'.queue
  unfolding finalize MetricsDump.finalize MetricsDump.reset_stats
  finalize-Idle kind fuel clock now queue_now xs c h enough =
      let (st, e, gone, p1, p2) = (initialize-finalize now c.internal).1 in
      let (q, f, no_queue, zero, plain, r) =
        finalize-Released fuel clock queue_now c.queue xs h.intact enough in
      (
        record c {
          settings = default_settings;
          enabled_flag = false;
          internal = st;
          queue = q;
          metrics_dump = MetricsDump.finalize c.metrics_dump;
        },
        rw (e, f) refl,
        record { disabled = refl; no_queue = no_queue; no_metrics = gone },
        refl,
        refl,
        r,
      )

  default-quiet : IsQuietOptions default_options
  unfolding default_config Tag.computed Tag.bit
  default-quiet = (refl, refl, refl)

  -- The settings that a library has before any configuration.
  abbrev pub IsDefault : Settings → Type 0
  IsDefault s =
      (s.enable ≡ true)
      × (s.dump_opts.interval ≡ duration (pos 750) msec)
      × (s.defaults ≡ default_options)
      × ((name : String) → s.configured name ≡ default_options)

  pub initialize-finalize_again :
      (kind kind' : String → Destination) (fuel : ℕ) (clock : ℕ → TimePoint)
      (now queue_now now' queue_now' : TimePoint) (memory : ℕ → Option ℕ) (xs : List ℕ) (c : Core)
      → Steady kind c xs
      → length xs < fuel
      → (c1 : Core) × (c2 : Core) × (finalize fuel clock now queue_now c ≡ some c1)
        × (initialize memory now' queue_now' c1 ≡ some c2)
        × Idle c1
        × IsDefault c1.settings
        × Steady kind' c2 []
        × Released xs c.queue c2.queue
  unfolding default_settings
  initialize-finalize_again kind kind' fuel clock now queue_now now' queue_now' memory xs c h
        enough =
      let (c1, e, idle, settings, _, r) =
        finalize-Idle kind fuel clock now queue_now xs c h enough in
      let quiet = default-quiet in
      let (c2, f, steady, same) =
        initialize-Steady kind' memory now' queue_now' c1 idle (rw settings refl)
          (rw settings quiet) (λ name. rw settings quiet) in
      (
        c1,
        c2,
        e,
        f,
        idle,
        rw settings (refl, refl, refl, λ name. refl),
        steady,
        λ k. ap (λ (g : ℕ → Option EventMessage). g k) same ∙ r k,
      )
