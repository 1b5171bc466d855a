-- ===== src/Statistics/Histogram/Fresh.antt =====
-- The weight of a value that `update_histogram` has just inserted.
use handystats.Prelude.{
  ◌≡◌, refl, ◌∙◌, ap, Bool-cases, inl, inr, false, some, List, [], ◌∷◌, ◌++◌, length, ◌+◌, ◌<◌, ℤ,
  pos, ◌+ℤ◌, ◌-ℤ◌, ◌<ℤ◌, leb_ℤ, arith, int_laws,
}
use handystats.Machine.{Machine}
use handystats.MathUtils.{num}
use handystats.Chrono.TimePoint.{TimePoint}
use handystats.Chrono.TimePoint.Ticks.{at_tick, in_ticks}
use handystats.Statistics.State.{Statistics, Bin}
use handystats.Statistics.Window.Decay.{shift_interval_data_lem}
use handystats.Statistics.Histogram.{insert_bin, bin_lt, shift_bins, update_histogram}
use handystats.Statistics.Histogram.Bound.{shifted_bins, length-shifted_bins, update_histogram-eq}
use handystats.Statistics.Window.{shift_interval_data}

later_than : (current now : ℤ) → current <ℤ now → leb_ℤ now current ≡ false
later_than current now h = grind arith

whole : (now interval : ℤ) → now -ℤ (now -ℤ interval) ≡ interval
whole now interval = grind int_laws

positive : (interval : ℤ) → pos 0 <ℤ interval → leb_ℤ interval (pos 0) ≡ false
positive interval h = grind arith

gap : (interval current now : ℤ) → interval -ℤ (current -ℤ now) ≡ interval +ℤ (now -ℤ current)
gap interval current now = grind int_laws

module _ ⦃m : Machine⦄ where
  open m use {F, mul, div, of_ℤ}

  -- The bin that a new value gets: its weight is the moving interval over the interval and the time
  -- since the statistics' time stamp, in ticks.
  abbrev pub scaled : Statistics → F → (current now : ℤ) → Bin
  scaled s value current now =
      let interval = in_ticks s.config.moving_interval in
      record {
        center = value;
        weight = div (mul (num 1) (of_ℤ interval)) (of_ℤ (interval +ℤ (now -ℤ current)));
        stamp = at_tick now;
      }

  shift_new :
      (s : Statistics) (value : F) (current now : ℤ)
      → s.timestamp ≡ at_tick current
      → current <ℤ now
      → pos 0 <ℤ in_ticks s.config.moving_interval
      → shift_interval_data s (num 1) (at_tick now) (at_tick now)
        ≡ (scaled s value current now).weight
  shift_new s value current now e later some_time =
      let interval = in_ticks s.config.moving_interval in
      shift_interval_data_lem s (num 1) current now now e
      ∙ rw (
        later_than current now later,
        whole now interval,
        positive interval some_time,
        gap interval current now,
      )

  -- A list of bins with this bin somewhere.
  abbrev pub Contains : Bin → List Bin → Type 0
  Contains b h = (before : List Bin) × (after : List Bin) × (h ≡ before ++ b ∷ after)

  insert_bin-Contains : (b : Bin) (h : List Bin) → Contains b (insert_bin b h)
  unfolding insert_bin
  insert_bin-Contains b [] = ([], [], refl)
  insert_bin-Contains b (x ∷ h) = elim (Bool-cases (bin_lt x b)) [
    | inl e ↦
        (let (before, after, f) = insert_bin-Contains b h in
          (x ∷ before, after, rw (insert_bin, e) (ap (◌∷◌ x) f)))
    | inr e ↦ ([], x ∷ h, rw (insert_bin, e) refl)
  ]

  shift_bins-append :
      (s : Statistics) (t : TimePoint) (xs ys : List Bin)
      → shift_bins s t (xs ++ ys) ≡ shift_bins s t xs ++ shift_bins s t ys
  unfolding shift_bins
  shift_bins-append s t [] ys = refl
  shift_bins-append s t (x ∷ xs) ys = rw (shift_bins-append s t xs ys) refl

  shift-Contains :
      (s : Statistics) (t : TimePoint) (b : Bin) (h : List Bin)
      → Contains b h
      → Contains (record b { weight = shift_interval_data s b.weight b.stamp t }) (shift_bins s t h)
  unfolding shift_bins
  shift-Contains s t b h (before, after, e) = (
    shift_bins s t before,
    shift_bins s t after,
    ap (shift_bins s t) e ∙ shift_bins-append s t before (b ∷ after),
  )

  -- A value that `update_histogram` puts in a histogram with room for it, at a time of the time stamp
  -- counter later than the statistics' time stamp: the update returns, with one bin more, and the
  -- value's own bin is scaled from 1 like those of old data, to the moving interval, which is not
  -- zero, over the interval and the time since that time stamp, in ticks.
  pub fresh_bin_scaled :
      (s : Statistics) (value : F) (current now : ℤ)
      → s.timestamp ≡ at_tick current
      → current <ℤ now
      → pos 0 <ℤ in_ticks s.config.moving_interval
      → length s.histogram < s.config.histogram_bins
      → (s' : Statistics) × (update_histogram s value (at_tick now) ≡ some s')
        × (length s'.histogram ≡ length s.histogram + 1)
        × Contains (scaled s value current now) s'.histogram
  fresh_bin_scaled s value current now e later some_time room =
      let t = at_tick now in
      let new : Bin = record { center = value; weight = num 1; stamp = t } in
      let size = length-shifted_bins s value t in
      (
        record s { histogram = shifted_bins s value t },
        rw (update_histogram-eq s value t) (ground (arith, size)),
        size,
        rw⁻¹ (shift_new s value current now e later some_time) (
            shift-Contains s t new (insert_bin new s.histogram)
              (insert_bin-Contains new s.histogram)),
      )
