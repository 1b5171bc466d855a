-- ===== src/Tests/Running/Dumping.antt =====
-- Dumps that are due, and turns that are too early for one.
use handystats.Prelude.{◌≡◌, refl, true, some, [], ◌∷◌, pos, ◌-ℤ◌, ◌*ℤ◌, ◌/ℤ◌, ◌≤ℤ◌, arith}
use handystats.Machine.Milli.{milli}
use handystats.Chrono.Duration as Durations
use handystats.Chrono.Duration.{convert_to, ticks_of, nsec_factor}
use handystats.Chrono.TimePoint.{elapsed}
use handystats.Chrono.TimePoint.Ticks.{in_ticks}
use handystats.Metrics.Attribute
use handystats.Internal
use handystats.MetricsDump.{Dumped, is_due, update, default_dump_config}
use handystats.MetricsDump.Lookup.{DistinctKeys}
use handystats.MetricsDump.Interval.{Ready, Updated, update-Ready}
use handystats.Core.{Core, run_processor}
use handystats.MeasuringPoints.{send}
use handystats.Core.Steady.{dumped}
use handystats.Core.Progress.{Handled}
use handystats.Core.Spacing.{dump_stays}
use handystats.Tests.Running.{
  core, kind, five, sent, sent-Steady, reads, now, later_tick, counter, plain,
}

-- A counter without tags and an attribute.
abbrev full : Dumped ⦃m = milli⦄
full = record (dumped ⦃m = milli⦄ core) {
  metrics = record core.internal {
    metrics_map =
        ("queue", Internal.counter counter)
        ∷ ("version", Internal.attribute (record { value = Attribute.int (pos 2) }))
        ∷ [];
  };
}

full-Ready : Ready ⦃m = milli⦄ full
unfolding DistinctKeys Internal.find
full-Ready = record {
  distinct = (refl, (refl, tt));
  plain_metrics = (plain, plain);
  plain_stats = (plain, plain, plain);
  plain_time = plain;
}

due : is_due ⦃m = milli⦄ default_dump_config later_tick core.metrics_dump ≡ true
unfolding is_due Durations.gt elapsed ticks_of ◌/ℤ◌ ◌*ℤ◌
due = refl

update-Ready_example :
    (d : Dumped ⦃m = milli⦄) × (update ⦃m = milli⦄ default_dump_config now now now later_tick now
        full
      ≡ some d)
    × Ready ⦃m = milli⦄ d
    × Updated ⦃m = milli⦄ default_dump_config now later_tick now full d
        (is_due ⦃m = milli⦄ default_dump_config later_tick full.state)
update-Ready_example =
    update-Ready ⦃m = milli⦄ default_dump_config now now now later_tick now full full-Ready

early : pos 5_000_000 -ℤ pos 0 ≤ℤ in_ticks ⦃m = milli⦄ default_dump_config.interval
unfolding ◌-ℤ◌ convert_to ticks_of nsec_factor ◌/ℤ◌ ◌*ℤ◌
early = omega arith

dump_stays_example :
    (c : Core ⦃m = milli⦄) × (run_processor ⦃m = milli⦄ (reads ∷ []) sent ≡ some c)
    × Handled ⦃m = milli⦄ kind (five ∷ []) sent c
    × (c.metrics_dump ≡ sent.metrics_dump)
unfolding send
dump_stays_example =
    dump_stays ⦃m = milli⦄ kind (pos 0) (reads ∷ []) (five ∷ []) sent sent-Steady refl refl
      ((pos 5_000_000, refl, early), tt)
