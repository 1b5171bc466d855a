-- ===== src/Statistics/Quantile.antt =====
-- `quantile_extractor::at` of src/statistics.cpp. `none` is an exception, or the read of a bin that
-- is not there.
use handystats.Prelude.{
  ℕ, zero, suc, ◌+◌, ◌==◌, ltb, Option, none, some, List, [], ◌∷◌, pos, leb_ℤ, ltb_ℤ, length,
  get_elem?, if◌then◌else◌,
}
use handystats.Machine.{Machine}
use handystats.MathUtils.{num, cmp, weighted_average, find_z, ◌>>=◌}
use handystats.Chrono.TimePoint.{epoch}
use handystats.Statistics.State.{Bin}
use handystats.Statistics.Access.{total_weight}

module _ ⦃m : Machine⦄ where
  open m use {F, add, sub, mul, div, neg}

  -- The loop over `bin_index`, with `k = bin_index + 1`, the weight of the bin before (0 before the
  -- first one) and the bins from `k` on: the final `k` and `required_count`. The last round is at
  -- the last bin; a loop that does not break there leaves `bin_index` at the number of bins.
  unfoldable pub locate : ℕ → F → List Bin → F → ℕ × F
  locate k before [] required =
      let volume = div (add before (num 0)) (num 2) in
      if ltb_ℤ (pos 0) (cmp volume required) then (k, required) else (k + 1, sub required volume)
  locate k before (b ∷ bs) required =
      let volume = div (add before b.weight) (num 2) in
      let rest = locate (k + 1) b.weight bs (sub required volume) in
      if ltb_ℤ (pos 0) (cmp volume required) then (k, required) else rest

  -- A bin of weight 0 on the other side of `b` from `other`.
  unfoldable pub mirror : Bin → Bin → Bin → Option Bin
  mirror b x y = weighted_average x.center x.weight y.center y.weight >>= λ mean.
      some (record { center = sub (mul (num 2) b.center) mean; weight = num 0; stamp = epoch })

  abbrev pub bin_before : ℕ → List Bin → Option Bin
  bin_before zero bins = none
  bin_before (suc j) bins = get_elem? bins j

  -- `left_bin` and `right_bin`.
  unfoldable pub segment : List Bin → ℕ → Option (Bin × Bin)
  segment bins zero = get_elem? bins 0 >>= λ b0.
      get_elem? bins 1 >>= λ b1. mirror b0 b0 b1 >>= λ left. some (left, b0)
  segment bins (suc i) =
      if ltb (i + 1) (length bins)
      then (get_elem? bins i >>= λ left. get_elem? bins (i + 1) >>= λ right. some (left, right))
      else (get_elem? bins i >>= λ left.
          bin_before i bins >>= λ b. mirror left b left >>= λ right. some (left, right))

  -- The point between the two bins at which the required weight is reached.
  unfoldable pub interpolate : F → Bin × Bin → Option F
  interpolate required (left, right) =
      find_z (sub right.weight left.weight) (mul (num 2) left.weight) (mul (neg (num 2)) required)
      >>= λ z. some (add left.center (mul (sub right.center left.center) z))

  unfoldable pub at : List Bin → F → Option F
  at [] probability = some (num 0)
  at (b ∷ bs) probability =
      let total = total_weight (num 0) (b ∷ bs) in
      let (k, required) = locate 0 (num 0) (b ∷ bs) (mul total probability) in
      if leb_ℤ (cmp total (num 0)) (pos 0)
      then some (num 0)
      else if length bs == 0
      then some b.center
      else (segment (b ∷ bs) k >>= interpolate required)
