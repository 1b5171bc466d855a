-- ===== src/Statistics/Access.antt =====
-- `get_impl` of src/statistics.cpp, one function per tag. `none` is `invalid_tag_error`.
pub mod Average
use handystats.Prelude.{ℕ, ◌==◌, Bool, Option, none, some, List, [], ◌∷◌, pos, leb_ℤ, if◌then◌else◌}
use handystats.Machine.{Machine}
use handystats.MathUtils.{num, cmp, ◌>>=◌}
use handystats.Chrono.Duration.{duration, finer, convert_to}
use handystats.Chrono.TimePoint.{TimePoint}
use handystats.Statistics.Tag
use handystats.Statistics.Tag.{Tag}
use handystats.Statistics.State.{Statistics, Bin, is_computed}

module _ ⦃m : Machine⦄ where
  open m use {F, add, sub, mul, div, of_ℤ}

  -- The scheme of every getter.
  abbrev when_computed : {A : Type 0} → Tag → (Statistics → A) → Statistics → Option A
  when_computed t f s = if is_computed s t then some (f s) else none

  unfoldable pub get_value : Statistics → Option F
  get_value = when_computed Tag.value λ s. s.value

  unfoldable pub get_min : Statistics → Option F
  get_min = when_computed Tag.min λ s. s.min

  unfoldable pub get_max : Statistics → Option F
  get_max = when_computed Tag.max λ s. s.max

  unfoldable pub get_count : Statistics → Option ℕ
  get_count = when_computed Tag.count λ s. s.count

  unfoldable pub get_sum : Statistics → Option F
  get_sum = when_computed Tag.sum λ s. s.sum

  unfoldable pub get_avg : Statistics → Option F
  get_avg = when_computed Tag.avg λ s. if s.count == 0 then num 0 else div s.sum (num s.count)

  unfoldable pub get_moving_count : Statistics → Option F
  get_moving_count = when_computed Tag.moving_count λ s. s.moving_count

  unfoldable pub get_moving_sum : Statistics → Option F
  get_moving_sum = when_computed Tag.moving_sum λ s. s.moving_sum

  unfoldable pub get_moving_avg : Statistics → Option F
  get_moving_avg = when_computed Tag.moving_avg λ s.
      if leb_ℤ (cmp s.moving_count (num 0)) (pos 0) then num 0 else div s.moving_sum s.moving_count

  unfoldable pub get_histogram : Statistics → Option (List Bin)
  get_histogram = when_computed Tag.histogram λ s. s.histogram

  unfoldable pub get_timestamp : Statistics → Option TimePoint
  get_timestamp = when_computed Tag.timestamp λ s. s.timestamp

  unfoldable pub get_rate : Statistics → Option F
  get_rate = when_computed Tag.rate λ s.
      let interval = s.config.moving_interval in
      let unit = s.config.rate_unit in
      if finer unit interval.unit
      then div s.rate (of_ℤ (convert_to unit interval).rep)
      else div (mul s.rate (of_ℤ (convert_to interval.unit (duration (pos 1) unit)).rep))
          (of_ℤ interval.rep)

  -- The sum of the weights.
  unfoldable pub total_weight : F → List Bin → F
  total_weight acc [] = acc
  total_weight acc (b ∷ bs) = total_weight (add acc b.weight) bs

  -- The share of the gap between two neighbours that goes to the bin `b`.
  unfoldable pub share : F → F → F → F → F
  share far near weight other = div (mul (sub far near) weight) (add weight other)

  -- The width of the bin `b` between its neighbours.
  unfoldable pub bin_width : Option Bin → Bin → List Bin → F
  bin_width none b [] = mul (num 0) (num 2)
  bin_width none b (n ∷ ns) = mul (add (num 0) (share n.center b.center b.weight n.weight)) (num 2)
  bin_width (some p) b [] = mul (add (num 0) (share b.center p.center b.weight p.weight)) (num 2)
  bin_width (some p) b (n ∷ ns) =
      add (add (num 0) (share b.center p.center b.weight p.weight))
        (share n.center b.center b.weight n.weight)

  -- The loop over the bins, from the bin after `prev`. `log` is the logarithm of the C library.
  unfoldable pub entropy_from : (F → F) → F → Option Bin → List Bin → F → F
  entropy_from log total prev [] h = h
  entropy_from log total prev (b ∷ bs) h =
      let width = bin_width prev b bs in
      entropy_from log total (some b) bs (
        if leb_ℤ (cmp b.weight (num 0)) (pos 0)
        then h
        else sub h (div (mul b.weight (log (div (div b.weight total) width))) total))

  unfoldable pub entropy_of : (F → F) → List Bin → F
  entropy_of log [] = num 0
  entropy_of log (b ∷ []) = num 0
  entropy_of log (b ∷ c ∷ bs) =
      let total = total_weight (num 0) (b ∷ c ∷ bs) in
      if leb_ℤ (cmp total (num 0)) (pos 0)
      then num 0
      else entropy_from log total none (b ∷ c ∷ bs) (num 0)

  unfoldable pub get_entropy : (F → F) → Statistics → Option F
  get_entropy log = when_computed Tag.entropy λ s. entropy_of log s.histogram
