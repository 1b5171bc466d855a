-- ===== src/Tests/Values.antt =====
-- Runs of the statistics.
use handystats.Prelude.{
  none, ◌≤◌, ◌<◌, ◌≡◌, refl, true, false, some, List, [], ◌∷◌, length, All, ℤ, pos, negsuc, ◌+ℤ◌,
  ◌<ℤ◌, ◌-ℤ◌, ◌*ℤ◌, ◌/ℤ◌, leb_ℤ, arith, u64_mod,
}
use handystats.Machine.Milli.{milli}
use handystats.Machine.Laws.{AtMost}
use handystats.Machine.MilliLaws.{milli-IsOrdered}
use handystats.MathUtils.{num, cmp}
use handystats.Statistics.Quantile.{at, locate, segment}
use handystats.Chrono.Duration.{duration, sec, convert_to, ticks_of}
use handystats.Chrono.TimePoint
use handystats.Chrono.TimePoint.{TimePoint}
use handystats.Chrono.TimePoint.Ticks.{at_tick, in_ticks}
use handystats.Statistics.Tag
use handystats.Statistics.State.{default_config, Bin, Statistics, initial, is_computed}
use handystats.Statistics.Window.{shift_interval_data}
use handystats.Statistics.Histogram.{
  remove_empty_bins, update_histogram, is_empty_bin, shift_bins, insert_bin, bin_lt,
}
use handystats.Statistics.Histogram.Thin.{full_bins, remove_empty_bins_lem}
use handystats.Statistics.Histogram.Fresh.{Contains, scaled, fresh_bin_scaled}
use handystats.Statistics.Histogram.Bound.{IsWeighted, shifted_bins, update_histogram_bound}
use handystats.Statistics.Update.Totals.{run, Totals, run-Totals}
use handystats.Statistics.Update.Extrema.{extrema_bound, max_of_small}
use handystats.Statistics.Access.{total_weight, get_count, get_sum, get_avg}
use handystats.Statistics.Access.Average.{average_of_run}

-- 2, 5 and 3 at three times.
abbrev calls : List (ℤ × TimePoint)
calls =
    (pos 2000, at_tick (pos 1_000_000))
    ∷ (pos 5000, at_tick (pos 2_000_000))
    ∷ (pos 3000, at_tick (pos 3_000_000))
    ∷ []

abbrev fresh_values : Statistics ⦃m = milli⦄
fresh_values = initial ⦃m = milli⦄ default_config

no_histogram : is_computed ⦃m = milli⦄ fresh_values Tag.histogram ≡ false
unfolding is_computed initial default_config Tag.computed
no_histogram = refl

keeps_min : is_computed ⦃m = milli⦄ fresh_values Tag.min ≡ true
unfolding is_computed initial default_config Tag.computed
keeps_min = refl

keeps_max : is_computed ⦃m = milli⦄ fresh_values Tag.max ≡ true
unfolding is_computed initial default_config Tag.computed
keeps_max = refl

enabled_avg : Tag.enabled default_config.tags Tag.avg ≡ true
unfolding Tag.enabled default_config
enabled_avg = refl

no_histogram_tag : Tag.computed default_config.tags Tag.histogram ≡ false
unfolding default_config Tag.computed
no_histogram_tag = refl

starts_at_zero : fresh_values.count < u64_mod
unfolding initial
starts_at_zero = omega arith

run-Totals_example :
    (s : Statistics ⦃m = milli⦄) × (run ⦃m = milli⦄ calls fresh_values ≡ some s)
    × Totals ⦃m = milli⦄ fresh_values (pos 2000 ∷ pos 5000 ∷ pos 3000 ∷ []) s
run-Totals_example = run-Totals ⦃m = milli⦄ calls fresh_values starts_at_zero no_histogram

extrema_bound_example :
    (s : Statistics ⦃m = milli⦄) × (run ⦃m = milli⦄ calls fresh_values ≡ some s)
    × All (λ v. AtMost milli s.min v) (pos 2000 ∷ pos 5000 ∷ pos 3000 ∷ [])
    × All (λ v. AtMost milli v s.max) (pos 2000 ∷ pos 5000 ∷ pos 3000 ∷ [])
extrema_bound_example =
    extrema_bound ⦃m = milli⦄ milli-IsOrdered calls default_config no_histogram keeps_min keeps_max

-- -2 and -5.
abbrev negative_calls : List (ℤ × TimePoint)
negative_calls =
    (negsuc 1999, at_tick (pos 1_000_000)) ∷ (negsuc 4999, at_tick (pos 2_000_000)) ∷ []

max_of_small_example :
    (s : Statistics ⦃m = milli⦄) × (run ⦃m = milli⦄ negative_calls fresh_values ≡ some s)
    × (s.max ≡ pos 1)
max_of_small_example =
    max_of_small ⦃m = milli⦄ negative_calls default_config no_histogram keeps_max (refl, (refl, tt))

average_of_run_example :
    (s : Statistics ⦃m = milli⦄) × (run ⦃m = milli⦄ calls fresh_values ≡ some s)
    × (get_count ⦃m = milli⦄ s ≡ some 3)
    × (get_sum ⦃m = milli⦄ s ≡ some (pos 10_000))
    × (get_avg ⦃m = milli⦄ s ≡ some (pos 3333))
unfolding ◌+ℤ◌ ◌/ℤ◌ ◌*ℤ◌
average_of_run_example =
    average_of_run ⦃m = milli⦄ default_config (pos 2000, at_tick (pos 1_000_000))
      ((pos 5000, at_tick (pos 2_000_000)) ∷ (pos 3000, at_tick (pos 3_000_000)) ∷ []) enabled_avg
      no_histogram_tag (omega arith)

abbrev bin : ℤ → ℤ → Bin ⦃m = milli⦄
bin c w = record { center = c; weight = w; stamp = at_tick (pos 1_000_000_000) }

abbrev bins : List (Bin ⦃m = milli⦄)
bins = bin (pos 1000) (pos 1000) ∷ bin (pos 2000) (pos 0) ∷ bin (pos 3000) (pos 1000) ∷ []

bins_full : 1 ≤ length (full_bins ⦃m = milli⦄ bins)
unfolding full_bins is_empty_bin ◌+ℤ◌ ◌*ℤ◌ ◌-ℤ◌
bins_full = omega arith

remove_empty_bins_lem_example :
    (h : List (Bin ⦃m = milli⦄)) × (remove_empty_bins ⦃m = milli⦄ bins ≡ some h)
    × (length h ≤ 3)
    × (full_bins ⦃m = milli⦄ h ≡ full_bins ⦃m = milli⦄ bins)
    × All (λ (b : Bin ⦃m = milli⦄). leb_ℤ (pos 0) b.weight ≡ true) h
remove_empty_bins_lem_example =
    remove_empty_bins_lem ⦃m = milli⦄ (λ b. leb_ℤ (pos 0) b.weight ≡ true) bins bins_full
      (omega arith) (refl, (refl, (refl, tt)))

-- Two bins at most, both taken.
abbrev full_histogram : Statistics ⦃m = milli⦄
full_histogram = record fresh_values {
  config = record {
    moving_interval = duration (pos 1) sec;
    histogram_bins = 2;
    tags = 1024;
    rate_unit = sec;
  };
  histogram = bin (pos 1000) (pos 1000) ∷ bin (pos 3000) (pos 1000) ∷ [];
  timestamp = at_tick (pos 1_000_000_000);
}

now-IsWeighted :
    IsWeighted ⦃m = milli⦄
      (shifted_bins ⦃m = milli⦄ full_histogram (pos 4000) (at_tick (pos 1_000_000_000)))
unfolding shift_bins insert_bin bin_lt shift_interval_data TimePoint.le TimePoint.lt
    TimePoint.elapsed ◌+ℤ◌ ◌-ℤ◌ ◌*ℤ◌ ◌/ℤ◌ full_bins is_empty_bin
now-IsWeighted = (refl, (refl, (refl, tt)))

now_full :
    1
    ≤ length (
        full_bins ⦃m = milli⦄
          (shifted_bins ⦃m = milli⦄ full_histogram (pos 4000) (at_tick (pos 1_000_000_000))))
unfolding shift_bins insert_bin bin_lt shift_interval_data TimePoint.le TimePoint.lt
    TimePoint.elapsed ◌+ℤ◌ ◌-ℤ◌ ◌*ℤ◌ ◌/ℤ◌ full_bins is_empty_bin
now_full = omega arith

update_histogram_bound_example :
    (h : List (Bin ⦃m = milli⦄)) × (update_histogram ⦃m = milli⦄ full_histogram
        (pos 4000)
        (at_tick (pos 1_000_000_000))
      ≡ some (record full_histogram { histogram = h }))
    × (length h ≤ 2)
update_histogram_bound_example =
    update_histogram_bound ⦃m = milli⦄ milli-IsOrdered full_histogram (pos 4000)
      (at_tick (pos 1_000_000_000)) (omega arith) (omega arith) (omega arith) now-IsWeighted
      now_full

-- Half a second after the time stamp, with an interval of one second: two thirds.
half_second_later : pos 1_000_000_000 <ℤ pos 1_500_000_000
half_second_later = omega arith

interval_positive : pos 0 <ℤ in_ticks ⦃m = milli⦄ full_histogram.config.moving_interval
unfolding convert_to ticks_of ◌*ℤ◌ ◌/ℤ◌
interval_positive = omega arith

abbrev half_full : Statistics ⦃m = milli⦄
half_full = record full_histogram { histogram = bin (pos 1000) (pos 1000) ∷ [] }

fresh_bin_scaled_example :
    (s : Statistics ⦃m = milli⦄) × (update_histogram ⦃m = milli⦄ half_full
        (pos 4000)
        (at_tick (pos 1_500_000_000))
      ≡ some s)
    × (length s.histogram ≡ 2)
    × Contains ⦃m = milli⦄
        (scaled ⦃m = milli⦄ half_full (pos 4000) (pos 1_000_000_000) (pos 1_500_000_000))
        s.histogram
fresh_bin_scaled_example =
    fresh_bin_scaled ⦃m = milli⦄ half_full (pos 4000) (pos 1_000_000_000) (pos 1_500_000_000) refl
      half_second_later interval_positive (omega arith)

-- The quantile of probability 1 reads past the last bin.
quantile_of_one :
    at ⦃m = milli⦄ (bin (pos 1000) (pos 1000) ∷ bin (pos 3000) (pos 1000) ∷ []) (num ⦃m = milli⦄ 1)
    ≡ none
unfolding at total_weight locate segment cmp ◌+ℤ◌ ◌-ℤ◌ ◌*ℤ◌ ◌/ℤ◌
quantile_of_one = refl
