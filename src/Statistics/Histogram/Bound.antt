-- ===== src/Statistics/Histogram/Bound.antt =====
-- How many bins the histogram holds, and that its update returns.
use handystats.Prelude.{
  ℕ, zero, suc, ◌+◌, ◌≤◌, ◌<◌, ◌≡◌, refl, ◌∙◌, true, false, Bool-cases, inl, inr, ◌⊎◌, ◌==◌, ◌&&◌,
  Option, some, none, List, [], ◌∷◌, length, All, arith, tests, leb, u64_mod, if◌then◌else◌,
}
use handystats.Machine.{Machine}
use handystats.Machine.Laws.{AtMost, IsOrdered}
use handystats.MathUtils.{num, weighted_average, ◌>>=◌}
use handystats.Chrono.TimePoint.{TimePoint, epoch, later}
use handystats.Statistics.State.{Statistics, Bin}
use handystats.Statistics.Histogram.{
  is_empty_bin, insert_bin, shift_bins, best_merge, bin_merge_criteria, merge_bins, merge_at,
  merge_best, remove_empty_bins, update_histogram,
}
use handystats.Statistics.Histogram.Thin.{full_bins, remove_empty_bins_lem}

module _ ⦃m : Machine⦄ where
  open m use {F, add, sub, mul, div, lt, of_ℤ, tolerance}

  -- No weight is negative.
  abbrev pub IsWeighted : List Bin → Type 0
  IsWeighted = All λ b. AtMost m (num 0) b.weight

  pub length-insert_bin : (b : Bin) (h : List Bin) → length (insert_bin b h) ≡ length h + 1
  unfolding insert_bin
  length-insert_bin b [] = omega arith
  length-insert_bin b (x ∷ h) = ground (arith, length-insert_bin b h)

  pub length-shift_bins :
      (s : Statistics) (t : TimePoint) (h : List Bin) → length (shift_bins s t h) ≡ length h
  unfolding shift_bins
  length-shift_bins s t [] = refl
  length-shift_bins s t (b ∷ h) = omega (arith, length-shift_bins s t h)

  -- The best index has a right neighbour.
  abbrev InRange : ℕ → Option (ℕ × F) → Type 0
  InRange n none = ⊥
  InRange n (some (j, c)) = j + 1 < n

  best_merge-InRange :
      (n i : ℕ) (best : ℕ × F) (h : List Bin)
      → i + length h ≤ n
      → best.0 + 1 < n
      → InRange n (best_merge i (some best) h)
  unfolding best_merge
  best_merge-InRange n i best [] fits ok = ok
  best_merge-InRange n i best (b ∷ []) fits ok = ok
  best_merge-InRange n i (j, c) (l ∷ r ∷ h) fits ok = ground (
    arith,
    best_merge-InRange n (i + 1) (i, bin_merge_criteria l r) (r ∷ h),
    best_merge-InRange n (i + 1) (j, c) (r ∷ h),
  )

  merge_bins-eq :
      (l r : Bin)
      → merge_bins l r ≡ (
          if is_empty_bin l && is_empty_bin r
          then (weighted_average l.center (num 1) r.center (num 1) >>= λ c.
              some (record { center = c; weight = num 0; stamp = epoch }))
          else (weighted_average l.center l.weight r.center r.weight >>= λ c. some (record {
            center = c;
            weight = add l.weight r.weight;
            stamp = later l.stamp r.stamp;
          })))
  unfolding merge_bins
  merge_bins-eq l r = refl

  module _ (laws : IsOrdered m) where
    open laws use {
      at_most_trans, add_right_grows, add_left_grows, sub_mono, one_is_full, of_ℤ_nonneg,
      at_most_of_lt,
    }

    lt-AtMost : (a b c : F) → lt a b ≡ true → AtMost m b c → lt a c ≡ true
    lt-AtMost a b c l e = elim (Bool-cases (lt a c)) [
      | inl yes' ↦ yes'
      | inr no' ↦ cc (at_most_trans b c a e no')
    ]

    -- A sum with a part that is clearly positive can be divided by.
    average_some :
        (v1 w1 v2 w2 : F)
        → lt (num 0) (sub (add w1 w2) tolerance) ≡ true
        → (c : F) × (weighted_average v1 w1 v2 w2 ≡ some c)
    unfolding weighted_average
    average_some v1 w1 v2 w2 p = (div (add (mul v1 w1) (mul v2 w2)) (add w1 w2), ground arith)

    full_weight : (b : Bin) → is_empty_bin b ≡ false → lt (num 0) (sub b.weight tolerance) ≡ true
    unfolding is_empty_bin
    full_weight b e = ground arith

    total_full :
        (l r : Bin)
        → AtMost m (num 0) l.weight
        → AtMost m (num 0) r.weight
        → (is_empty_bin l ≡ false) ⊎ (is_empty_bin r ≡ false)
        → lt (num 0) (sub (add l.weight r.weight) tolerance) ≡ true
    total_full l r pl pr (inl e) =
        lt-AtMost _ _ _ (full_weight l e)
          (sub_mono _ _ tolerance (add_right_grows l.weight r.weight pr))
    total_full l r pl pr (inr e) =
        lt-AtMost _ _ _ (full_weight r e)
          (sub_mono _ _ tolerance (add_left_grows l.weight r.weight pl))

    both_full : lt (num 0) (sub (add (num 1) (num 1)) tolerance) ≡ true
    both_full =
        lt-AtMost _ _ _ one_is_full
          (sub_mono _ _ tolerance (add_right_grows (num 1) (num 1) (of_ℤ_nonneg 1)))

    add_nonneg : (a b : F) → AtMost m (num 0) a → AtMost m (num 0) b → AtMost m (num 0) (add a b)
    add_nonneg a b pa pb = at_most_trans _ _ _ pa (add_right_grows a b pb)

    -- Two bins of weights that are not negative are merged without an exception.
    merge_bins_lem :
        (l r : Bin)
        → AtMost m (num 0) l.weight
        → AtMost m (num 0) r.weight
        → (b : Bin) × (merge_bins l r ≡ some b) × AtMost m (num 0) b.weight
    merge_bins_lem l r pl pr = elim (Bool-cases (is_empty_bin l && is_empty_bin r)) [
      | inl empty ↦
          let (c, e) = average_some l.center (num 1) r.center (num 1) both_full in
          (
            record { center = c; weight = num 0; stamp = epoch },
            rw (merge_bins-eq l r, empty, e),
            of_ℤ_nonneg 0,
          )
      | inr full ↦
          let p = total_full l r pl pr (ground arith) in
          let (c, e) = average_some l.center l.weight r.center r.weight p in
          (
            record { center = c; weight = add l.weight r.weight; stamp = later l.stamp r.stamp },
            rw (merge_bins-eq l r, full, e),
            add_nonneg l.weight r.weight pl pr,
          )
    ]

    merge_at_lem :
        (i : ℕ) (h : List Bin)
        → i + 1 < length h
        → IsWeighted h
        → (h' : List Bin) × (merge_at i h ≡ some h') × (length h' + 1 ≡ length h) × IsWeighted h'
    unfolding merge_at
    merge_at_lem i [] high w = elim high [ ]
    merge_at_lem i (b ∷ []) high w = absurd (omega arith)
    merge_at_lem zero (l ∷ r ∷ h) high (pl, (pr, w)) =
        let (b, e, pb) = merge_bins_lem l r pl pr in (b ∷ h, rw e, omega arith, (pb, w))
    merge_at_lem (suc i) (l ∷ r ∷ h) high (pl, w) =
        let (h', e, short, w') = merge_at_lem i (r ∷ h) (omega arith) w in
        (l ∷ h', rw e, omega arith, (pl, w'))

    merge_best_lem :
        (h : List Bin)
        → 1 < length h
        → IsWeighted h
        → (h' : List Bin) × (merge_best h ≡ some h') × (length h' + 1 ≡ length h) × IsWeighted h'
    unfolding merge_best best_merge
    merge_best_lem [] high w = elim high [ ]
    merge_best_lem (b ∷ []) high w = absurd (omega arith)
    merge_best_lem (l ∷ r ∷ h) high w =
        go (best_merge 1 (some (0, bin_merge_criteria l r)) (r ∷ h)) (
          best_merge-InRange (length (l ∷ r ∷ h)) 1 (0, bin_merge_criteria l r) (r ∷ h)
            (omega arith) (omega arith))
      where
        go :
            (best : Option (ℕ × F))
            → InRange (length (l ∷ r ∷ h)) best
            → (h' : List Bin) × ((best >>= λ p. merge_at p.0 (l ∷ r ∷ h)) ≡ some h')
              × (length h' + 1 ≡ length (l ∷ r ∷ h))
              × IsWeighted h'
        go none range = absurd range
        go (some (j, c)) range = merge_at_lem j (l ∷ r ∷ h) range w

  -- The histogram after the insertion and the shift of `update_histogram`.
  abbrev pub shifted_bins : Statistics → F → TimePoint → List Bin
  shifted_bins s v t =
      shift_bins s t (insert_bin (record { center = v; weight = num 1; stamp = t }) s.histogram)

  pub length-shifted_bins :
      (s : Statistics) (v : F) (t : TimePoint)
      → length (shifted_bins s v t) ≡ length s.histogram + 1
  length-shifted_bins s v t =
      length-shift_bins s t
        (insert_bin (record { center = v; weight = num 1; stamp = t }) s.histogram)
      ∙ length-insert_bin (record { center = v; weight = num 1; stamp = t }) s.histogram

  shift_bins-frame :
      (s : Statistics) (g : List Bin) (t : TimePoint) (h : List Bin)
      → shift_bins (record s { histogram = g }) t h ≡ shift_bins s t h
  unfolding shift_bins
  shift_bins-frame s g t [] = refl
  shift_bins-frame s g t (b ∷ h) = rw (shift_bins-frame s g t h)

  pub update_histogram-eq :
      (s : Statistics) (v : F) (t : TimePoint)
      → update_histogram s v t ≡ (
          if s.config.histogram_bins == 0
          then some s
          else if leb (length (shifted_bins s v t)) s.config.histogram_bins
          then some (record s { histogram = shifted_bins s v t })
          else (remove_empty_bins (shifted_bins s v t) >>= λ h.
              if leb (length h) s.config.histogram_bins
              then some (record s { histogram = h })
              else (merge_best h >>= λ h'. some (record s { histogram = h' }))))
  unfolding update_histogram
  update_histogram-eq s v t =
      let new : Bin = record { center = v; weight = num 1; stamp = t } in
      rw (shift_bins-frame s (insert_bin new s.histogram) t (insert_bin new s.histogram))
        (ground arith)

  -- The update of a histogram within its limit, of weights that are not negative and with a bin
  -- that is not empty once all are shifted to the new time: it returns, touches no other field, and
  -- leaves at most the configured number of bins.
  pub update_histogram_bound :
      IsOrdered m
      → (s : Statistics) (v : F) (t : TimePoint) → 1 ≤ s.config.histogram_bins
      → s.config.histogram_bins + 1 < u64_mod
      → length s.histogram ≤ s.config.histogram_bins
      → IsWeighted (shifted_bins s v t)
      → 1 ≤ length (full_bins (shifted_bins s v t))
      → (h : List Bin) × (update_histogram s v t ≡ some (record s { histogram = h }))
        × (length h ≤ s.config.histogram_bins)
  update_histogram_bound laws s v t some_bin few fits w full =
      let P = λ (b : Bin). AtMost m (num 0) b.weight in
      let size = length-shifted_bins s v t in
      let (g, eg, short, _, kept) =
        remove_empty_bins_lem P (shifted_bins s v t) full (omega arith) w in
      elim (Bool-cases (leb (length (shifted_bins s v t)) s.config.histogram_bins)) [
        | inl inside ↦
            (shifted_bins s v t, rw (update_histogram-eq s v t) (ground arith), omega tests)
        | inr over ↦ elim (Bool-cases (leb (length g) s.config.histogram_bins)) [
          | inl enough ↦ (g, rw (update_histogram-eq s v t, eg) (ground arith), omega tests)
          | inr more ↦
              let wide : s.config.histogram_bins < length g = ground arith in
              let (h, eh, less, _) = merge_best_lem laws g (omega arith) kept in
              (h, rw (update_histogram-eq s v t, eg, eh) (ground arith), omega arith)
        ]
      ]
