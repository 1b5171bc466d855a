-- ===== src/Statistics/Update/Extrema.antt =====
-- The minimum and the maximum of a sequence of values.
use handystats.Prelude.{
  ◌≡◌, ◌<◌, u64_mod, refl, ◌∙◌, true, false, some, List, [], ◌∷◌, map, foldl, All, arith,
}
use handystats.Machine.{Machine}
use handystats.Machine.Laws.{AtMost, IsOrdered}
use handystats.Chrono.TimePoint.{TimePoint}
use handystats.Statistics.Tag
use handystats.Statistics.State.{Statistics, is_computed, Config, initial}
use handystats.Statistics.Update.{lesser, greater}
use handystats.Statistics.Update.Totals.{run, run-Totals}

module _ ⦃m : Machine⦄ where
  open m use {F, lt, smallest_normal}

  initial-count : (c : Config) → (initial c).count < u64_mod
  unfolding initial
  initial-count c = omega arith

  module _ (laws : IsOrdered m) where
    open laws use {at_most_refl, at_most_trans, at_most_of_lt}

    greater_bounds : (a b : F) → AtMost m a (greater a b) × AtMost m b (greater a b)
    unfolding greater
    greater_bounds a b = ground (arith, at_most_of_lt a b, at_most_refl a, at_most_refl b)

    lesser_bounds : (a b : F) → AtMost m (lesser a b) a × AtMost m (lesser a b) b
    unfolding lesser
    lesser_bounds a b = ground (arith, at_most_of_lt b a, at_most_refl a, at_most_refl b)

    foldl-greater :
        (vs : List F) (a : F)
        → AtMost m a (foldl greater a vs) × All (λ v. AtMost m v (foldl greater a vs)) vs
    foldl-greater [] a = (at_most_refl a, tt)
    foldl-greater (v ∷ vs) a =
        let (pa, pv) = greater_bounds a v in
        let (up, rest) = foldl-greater vs (greater a v) in
        (at_most_trans _ _ _ pa up, (at_most_trans _ _ _ pv up, rest))

    foldl-lesser :
        (vs : List F) (a : F)
        → AtMost m (foldl lesser a vs) a × All (λ v. AtMost m (foldl lesser a vs) v) vs
    foldl-lesser [] a = (at_most_refl a, tt)
    foldl-lesser (v ∷ vs) a =
        let (pa, pv) = lesser_bounds a v in
        let (down, rest) = foldl-lesser vs (lesser a v) in
        (at_most_trans _ _ _ down pa, (at_most_trans _ _ _ down pv, rest))

    -- After any sequence of updates of new statistics that keep the minimum, the maximum and no
    -- histogram, the minimum is at most every value, and the maximum at least every value.
    pub extrema_bound :
        (calls : List (F × TimePoint)) (c : Config)
        → is_computed (initial c) Tag.histogram ≡ false
        → is_computed (initial c) Tag.min ≡ true
        → is_computed (initial c) Tag.max ≡ true
        → (s : Statistics) × (run calls (initial c) ≡ some s)
          × All (λ v. AtMost m s.min v) (map (λ k. k.0) calls)
          × All (λ v. AtMost m v s.max) (map (λ k. k.0) calls)
    extrema_bound calls c off lo hi =
        let values = map (λ k. k.0) calls in
        let (s, e, h) = run-Totals calls (initial c) (initial-count c) off in
        (
          s,
          e,
          rw (h.min_eq, lo) (foldl-lesser values (initial c).min).1,
          rw (h.max_eq, hi) (foldl-greater values (initial c).max).1,
        )

  foldl-greater-small : (a : F) (vs : List F) → All (λ v. AtMost m v a) vs → foldl greater a vs ≡ a
  unfolding greater
  foldl-greater-small a [] h = refl
  foldl-greater-small a (v ∷ vs) h = rw h.0 (foldl-greater-small a vs h.1)

  -- The maximum starts at the smallest positive normal number: after values that are all at most
  -- this, such as negative ones, the maximum is that number and not one of the values.
  pub max_of_small :
      (calls : List (F × TimePoint)) (c : Config)
      → is_computed (initial c) Tag.histogram ≡ false
      → is_computed (initial c) Tag.max ≡ true
      → All (λ v. AtMost m v smallest_normal) (map (λ k. k.0) calls)
      → (s : Statistics) × (run calls (initial c) ≡ some s) × (s.max ≡ smallest_normal)
  unfolding initial
  max_of_small calls c off hi small =
      let (s, e, h) = run-Totals calls (initial c) (initial-count c) off in
      (s, e, h.max_eq ∙ rw hi (foldl-greater-small smallest_normal (map (λ k. k.0) calls) small))
