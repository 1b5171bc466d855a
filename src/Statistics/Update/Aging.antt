-- ===== src/Statistics/Update/Aging.antt =====
-- What the passing of time leaves of the statistics.
use handystats.Prelude.{◌≡◌, refl, ◌∙◌, ◌==◌, if◌then◌else◌, Bool, true, false, length}
use handystats.Machine.{Machine}
use handystats.Chrono.TimePoint.{TimePoint, le, later}
use handystats.Statistics.State.{Statistics, is_computed}
use handystats.Statistics.Tag
use handystats.Statistics.Histogram.{shift_bins, shift_histogram}
use handystats.Statistics.Histogram.Bound.{length-shift_bins}
use handystats.Statistics.Update.{shift_data, update_time}

module _ ⦃m : Machine⦄ where
  open m use {F}

  -- The totals, the configuration, the time stamp of the data and the number of bins.
  pub record SameTotals (s s' : Statistics) : Type 0 where
    pub config_eq : s'.config ≡ s.config
    pub value_eq : s'.value ≡ s.value
    pub min_eq : s'.min ≡ s.min
    pub max_eq : s'.max ≡ s.max
    pub sum_eq : s'.sum ≡ s.sum
    pub count_eq : s'.count ≡ s.count
    pub data_timestamp_eq : s'.data_timestamp ≡ s.data_timestamp
    pub bins_eq : length s'.histogram ≡ length s.histogram

  same : (s : Statistics) → SameTotals s s
  same s = record {
    config_eq = refl;
    value_eq = refl;
    min_eq = refl;
    max_eq = refl;
    sum_eq = refl;
    count_eq = refl;
    data_timestamp_eq = refl;
    bins_eq = refl;
  }

  -- The other fields do not matter.
  frame :
      (s x : Statistics) (rate count sum : F) (t : TimePoint)
      → SameTotals s x
      → SameTotals s
          (record x { rate = rate; moving_count = count; moving_sum = sum; timestamp = t })
  frame s x rate count sum t h = record {
    config_eq = h.config_eq;
    value_eq = h.value_eq;
    min_eq = h.min_eq;
    max_eq = h.max_eq;
    sum_eq = h.sum_eq;
    count_eq = h.count_eq;
    data_timestamp_eq = h.data_timestamp_eq;
    bins_eq = h.bins_eq;
  }

  shift_bins_frame :
      (s x : Statistics) (t : TimePoint)
      → SameTotals s x
      → SameTotals s (record x { histogram = shift_bins x t x.histogram })
  shift_bins_frame s x t h = record {
    config_eq = h.config_eq;
    value_eq = h.value_eq;
    min_eq = h.min_eq;
    max_eq = h.max_eq;
    sum_eq = h.sum_eq;
    count_eq = h.count_eq;
    data_timestamp_eq = h.data_timestamp_eq;
    bins_eq = length-shift_bins x t x.histogram ∙ h.bins_eq;
  }

  either_way :
      (s x y : Statistics) (b : Bool)
      → SameTotals s x
      → SameTotals s y
      → SameTotals s (if b then x else y)
  either_way s x y true h k = h
  either_way s x y false h k = k

  shift_histogram-SameTotals :
      (s x : Statistics) (t : TimePoint) → SameTotals s x → SameTotals s (shift_histogram x t)
  unfolding shift_histogram
  shift_histogram-SameTotals s x t h =
      either_way s x (record x { histogram = shift_bins x t x.histogram })
        (x.config.histogram_bins == 0) h (shift_bins_frame s x t h)

  shift_data-SameTotals : (t : TimePoint) (s : Statistics) → SameTotals s (shift_data t s)
  unfolding shift_data
  shift_data-SameTotals t s =
      let h1 =
        either_way s _ _ (is_computed s Tag.rate)
          (frame s s _ s.moving_count s.moving_sum s.timestamp (same s)) (same s) in
      let h2 = either_way s _ _ (is_computed s Tag.moving_count) (frame s _ _ _ _ _ h1) h1 in
      let h3 = either_way s _ _ (is_computed s Tag.moving_sum) (frame s _ _ _ _ _ h2) h2 in
      either_way s _ _ (is_computed s Tag.histogram) (shift_histogram-SameTotals s _ t h3) h3

  -- `update_time` changes neither the totals nor the time of the last data, and adds or removes no
  -- bin.
  pub update_time-SameTotals : (t : TimePoint) (s : Statistics) → SameTotals s (update_time t s)
  unfolding update_time
  update_time-SameTotals t s =
      let h = shift_data-SameTotals t s in
      let s' = shift_data t s in
      either_way s _ _ (le t s.timestamp) (same s) (
        either_way s _ _ (is_computed s Tag.timestamp)
          (frame s s' s'.rate s'.moving_count s'.moving_sum (later s.timestamp t) h) h)
