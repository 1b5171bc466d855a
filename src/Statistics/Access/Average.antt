-- ===== src/Statistics/Access/Average.antt =====
-- The average that the statistics report.
use handystats.Prelude.{
  ℕ, suc, ◌≡◌, ◌<◌, ◌+◌, ◌%◌, refl, ap, ◌∙◌, true, false, some, List, [], ◌∷◌, map, foldl, length,
  arith, u64_mod, ◌==◌,
}
use handystats.Machine.{Machine}
use handystats.MathUtils.{num}
use handystats.Chrono.TimePoint.{TimePoint}
use handystats.Statistics.Tag
use handystats.Statistics.Tag.Closed.{computed_closed, computed-enabled}
use handystats.Statistics.State.{Config, Statistics, initial, is_computed}
use handystats.Statistics.Access.{get_avg, get_count, get_sum}
use handystats.Statistics.Update.Totals.{run, run-Totals, is_computed-config}

module _ ⦃m : Machine⦄ where
  open m use {F, add, div}

  length-map : {A B : Type 0} → (f : A → B) (xs : List A) → length (map f xs) ≡ length xs
  length-map f [] = refl
  length-map f (x ∷ xs) = omega (arith, length-map f xs)

  nonzero : (n : ℕ) → suc n == 0 ≡ false
  nonzero n = ground arith

  reported :
      (s : Statistics) (n : ℕ) (total : F)
      → is_computed s Tag.count ≡ true
      → is_computed s Tag.sum ≡ true
      → is_computed s Tag.avg ≡ true
      → s.count ≡ suc n
      → s.sum ≡ total
      → (get_count s ≡ some (suc n))
        × (get_sum s ≡ some total)
        × (get_avg s ≡ some (div total (num (suc n))))
  unfolding get_count get_sum get_avg
  reported s n total c1 c2 c3 e1 e2 =
      (rw c1 (ap some e1), rw c2 (ap some e2), rw c3 (ap some (rw (e1, e2) (rw (nonzero n)))))

  -- New statistics that compute the average and keep no histogram: after any calls of `update`,
  -- fewer than 2 ^ 64 and at least one, the count is the number of calls, the sum adds the values
  -- in order from 0, and the average is that sum divided by that count.
  pub average_of_run :
      (c : Config) (call : F × TimePoint) (calls : List (F × TimePoint))
      → Tag.enabled c.tags Tag.avg ≡ true
      → Tag.computed c.tags Tag.histogram ≡ false
      → length (call ∷ calls) < u64_mod
      → let total = foldl add (num 0) (map (λ x. x.0) (call ∷ calls)) in
        (s : Statistics) × (run (call ∷ calls) (initial c) ≡ some s)
        × (get_count s ≡ some (length (call ∷ calls)))
        × (get_sum s ≡ some total)
        × (get_avg s ≡ some (div total (num (length (call ∷ calls)))))
  unfolding initial is_computed
  average_of_run c call calls on off few =
      let (s, e, tot) = run-Totals (call ∷ calls) (initial c) (omega arith) off in
      let avg = computed-enabled c.tags Tag.avg on in
      let sum = computed_closed c.tags Tag.avg Tag.sum refl avg in
      let count = computed_closed c.tags Tag.avg Tag.count refl avg in
      let same = λ (t : Tag.Tag). is_computed-config (initial c) s t tot.config_eq in
      let n : s.count ≡ (0 + length (map (λ (x : F × TimePoint). x.0) (call ∷ calls))) % u64_mod =
        tot.count_eq ∙ rw count in
      let (count_is, sum_is, avg_is) =
        reported s (length calls) (foldl add (num 0) (map (λ x. x.0) (call ∷ calls)))
          (same Tag.count ∙ count) (same Tag.sum ∙ sum) (same Tag.avg ∙ avg)
          (omega (arith, n, length-map (λ (x : F × TimePoint). x.0) calls, few))
          (tot.sum_eq ∙ rw sum) in
      (s, e, count_is, sum_is, avg_is)
