-- ===== src/Statistics/Histogram.antt =====
-- The histogram: `shift_histogram`, `remove_empty_bins`, `bin_merge_criteria` and
-- `update_histogram`. A read out of bounds and an exception are `none`.
pub mod Thin
pub mod Fresh
pub mod Bound
use handystats.Prelude.{
  ℕ, zero, suc, ◌+◌, ◌-◌, ◌%◌, Bool, true, false, not, ◌==◌, ltb, leb, ◌&&◌, ◌||◌, Option, none,
  some, List, [], ◌∷◌, ◌++◌, map, length, get_elem?, pos, leb_ℤ, ltb_ℤ, u64_mod, if◌then◌else◌,
}
use mathlib.Core.List.{reverse}
use handystats.Machine.{Machine}
use handystats.MathUtils.{num, cmp, weighted_average, ◌>>=◌}
use handystats.Chrono.TimePoint
use handystats.Chrono.TimePoint.{TimePoint, epoch, later}
use handystats.Statistics.State.{Statistics, Bin}
use handystats.Statistics.Window.{shift_interval_data}

-- `histogram.erase(histogram.begin() + i)`
unfoldable pub erase {ℓ} : {A : Type ℓ} → ℕ → List A → List A
erase i [] = []
erase zero (x ∷ xs) = xs
erase (suc i) (x ∷ xs) = x ∷ erase i xs

pub data Scan : Type 0 where
  skip : ℕ → Scan
  erase_here : Scan

module _ ⦃m : Machine⦄ where
  open m use {F, lt, sub, add}

  unfoldable pub shift_bins : Statistics → TimePoint → List Bin → List Bin
  unfolding shift_interval_data
  shift_bins s timestamp [] = []
  shift_bins s timestamp (b ∷ bs) =
      record b { weight = shift_interval_data s b.weight b.stamp timestamp }
      ∷ shift_bins s timestamp bs

  unfoldable pub shift_histogram : Statistics → TimePoint → Statistics
  unfolding shift_bins
  shift_histogram s timestamp =
      if s.config.histogram_bins == 0
      then s
      else record s { histogram = shift_bins s timestamp s.histogram }

  unfoldable pub is_empty_bin : Bin → Bool
  unfolding cmp
  is_empty_bin b = leb_ℤ (cmp b.weight (num 0)) (pos 0)

  -- The bins from the first one that is not empty.
  unfoldable pub drop_empty : List Bin → List Bin
  unfolding is_empty_bin
  drop_empty [] = []
  drop_empty (b ∷ bs) = if is_empty_bin b then drop_empty bs else b ∷ bs

  -- What the third loop does at an index: whether it erases the bin, or how far it skips.
  unfoldable pub scan : ℕ → List Bin → Option Scan
  unfolding is_empty_bin
  scan i h = get_elem? h i >>= λ here.
      if not (is_empty_bin here)
      then some (skip 2)
      else (get_elem? h (i + 1) >>= λ right.
          if not (is_empty_bin right)
          then some (skip 3)
          else (get_elem? h (i - 1) >>= λ left.
              if not (is_empty_bin left) then some (skip 1) else some erase_here))

  -- The third loop, on fuel. `size_t` wraps in its bound.
  unfoldable pub thin : ℕ → ℕ → List Bin → Option (List Bin)
  unfolding scan erase
  thin zero i h = none
  thin (suc fuel) i h =
      if ltb i ((length h + u64_mod - 1) % u64_mod)
      then (scan i h >>= λ a. elim a [
        | skip k ↦ thin fuel (i + k) h
        | erase_here ↦ thin fuel i (erase i h)
      ])
      else some h

  -- Leading and trailing empty bins go, then those between empty bins.
  unfoldable pub remove_empty_bins : List Bin → Option (List Bin)
  unfolding drop_empty thin
  remove_empty_bins h =
      let trimmed = reverse (drop_empty (reverse (drop_empty h))) in
      thin (length trimmed + 1) 1 trimmed

  unfoldable pub bin_merge_criteria : Bin → Bin → F
  bin_merge_criteria left right = sub right.center left.center

  -- `std::tuple`'s `<`: by center, then weight, then time stamp.
  unfoldable pub bin_lt : Bin → Bin → Bool
  unfolding TimePoint.lt
  bin_lt a b =
      if lt a.center b.center
      then true
      else if lt b.center a.center
      then false
      else if lt a.weight b.weight
      then true
      else if lt b.weight a.weight
      then false
      else TimePoint.lt a.stamp b.stamp

  -- `insert` at `std::lower_bound`: before the first bin that is not less than the new one.
  unfoldable pub insert_bin : Bin → List Bin → List Bin
  unfolding bin_lt
  insert_bin new [] = new ∷ []
  insert_bin new (b ∷ bs) = if bin_lt b new then b ∷ insert_bin new bs else new ∷ b ∷ bs

  -- The loop that looks for the best pair: `none` stands for the index -1.
  unfoldable pub best_merge : ℕ → Option (ℕ × F) → List Bin → Option (ℕ × F)
  unfolding bin_merge_criteria cmp
  best_merge i best (left ∷ right ∷ bs) =
      let criteria = bin_merge_criteria left right in
      best_merge (i + 1)
        (elim best [
          | none ↦ some (i, criteria)
          | some (j, c) ↦ if ltb_ℤ (cmp criteria c) (pos 0) then some (i, criteria) else some (j, c)
        ])
        (right ∷ bs)
  best_merge i best _ = best

  -- The bin that replaces a pair.
  unfoldable pub merge_bins : Bin → Bin → Option Bin
  unfolding is_empty_bin weighted_average later
  merge_bins left right =
      if is_empty_bin left && is_empty_bin right
      then (weighted_average left.center (num 1) right.center (num 1) >>= λ c.
          some (record { center = c; weight = num 0; stamp = epoch }))
      else (weighted_average left.center left.weight right.center right.weight >>= λ c.
          some (record {
            center = c;
            weight = add left.weight right.weight;
            stamp = later left.stamp right.stamp;
          }))

  -- The pair at an index is replaced by one bin, and the right one erased.
  unfoldable pub merge_at : ℕ → List Bin → Option (List Bin)
  unfolding merge_bins
  merge_at zero (left ∷ right ∷ bs) = merge_bins left right >>= λ b. some (b ∷ bs)
  merge_at (suc i) (b ∷ bs) = merge_at i bs >>= λ rest. some (b ∷ rest)
  merge_at _ _ = none

  unfoldable pub merge_best : List Bin → Option (List Bin)
  unfolding best_merge merge_at
  merge_best h = best_merge 0 none h >>= λ best. merge_at best.0 h

  unfoldable pub update_histogram : Statistics → F → TimePoint → Option Statistics
  unfolding insert_bin shift_histogram remove_empty_bins merge_best
  update_histogram s value timestamp =
      let bins = s.config.histogram_bins in
      let new : Bin = record { center = value; weight = num 1; stamp = timestamp } in
      let shifted =
        shift_histogram (record s { histogram = insert_bin new s.histogram }) timestamp in
      if bins == 0
      then some s
      else if leb (length shifted.histogram) bins
      then some shifted
      else (remove_empty_bins shifted.histogram >>= λ h.
          if leb (length h) bins
          then some (record shifted { histogram = h })
          else (merge_best h >>= λ h'. some (record shifted { histogram = h' })))
