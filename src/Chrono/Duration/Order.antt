-- ===== src/Chrono/Duration/Order.antt =====
-- The comparison operators of durations, across units.
use mathlib.Core.Path.{fun_ext}
use handystats.Prelude.{
  ℕ, suc, ◌*◌, ◌^◌, ◌<◌, ◌≡◌, ap, ◌∙◌, ◌≢◌, ◌⊎◌, Bool, true, false, not, arith, ℤ, pos, negsuc,
  ltb_ℤ, eqb_ℤ,
}
use handystats.Machine.{Machine}
use handystats.Chrono.Duration.{
  TimeUnit, tick, nsec, Duration, duration, nsec_factor, finer, min_unit, common, eq, ne, lt, le,
  gt, ge,
}
use handystats.Chrono.Duration.Convert.{
  unit_eq_ne, convert_to-same, convert_to_negative, not_tick_of_finer,
}

eqb_ℤ_comm : (x y : ℤ) → eqb_ℤ x y ≡ eqb_ℤ y x
eqb_ℤ_comm x y = ground arith

eqb_ℤ_flip : ◌≡◌ {A = ℤ → ℤ → Bool} (λ x y. eqb_ℤ y x) eqb_ℤ
eqb_ℤ_flip = fun_ext λ x. fun_ext λ y. eqb_ℤ_comm y x

module _ ⦃m : Machine⦄ where
  -- The six comparisons of two durations of any units agree with one another: exactly one of `<`,
  -- `==` and `>` holds, and `<=`, `>=` and `!=` are their negations.
  pub comparisons_agree :
      (a d : Duration)
      → (le a d ≡ not (gt a d))
        × (ge a d ≡ not (lt a d))
        × (ne a d ≡ not (eq a d))
        × (((lt a d ≡ true) × (eq a d ≡ false) × (gt a d ≡ false))
            ⊎ ((lt a d ≡ false) × (eq a d ≡ true) × (gt a d ≡ false))
            ⊎ ((lt a d ≡ false) × (eq a d ≡ false) × (gt a d ≡ true)))
  unfolding lt le gt ge eq ne common
  comparisons_agree a d = ground arith

  common-flip :
      {A : Type 0} (f : ℤ → ℤ → A) (a d : Duration) → common f a d ≡ common (λ x y. f y x) d a
  unfolding common
  common-flip f a d = ground arith

  -- Exchanging the operands mirrors the comparison: `a > b` is `b < a`, and `==` is symmetric.
  pub comparisons_mirror : (a d : Duration) → (gt a d ≡ lt d a) × (eq a d ≡ eq d a)
  unfolding lt gt eq common
  comparisons_mirror a d = (
    common-flip (λ x y. ltb_ℤ y x) a d,
    common-flip eqb_ℤ a d ∙ ap (λ (f : ℤ → ℤ → Bool). common f d a) eqb_ℤ_flip,
  )

  ne_of_finer : (x y : TimeUnit) → finer x y ≡ true → y ≢ x
  unfolding finer
  ne_of_finer x y h e = ground arith

  min_unit-eq : (x y : TimeUnit) → finer y x ≡ true → min_unit x y ≡ y
  unfolding min_unit
  min_unit-eq x y h = ground arith

  -- A negative duration of whole units is not less than zero in a finer unit other than
  -- nanoseconds, if its nanoseconds fit `int64_t`: the comparison converts it by `convert_to`.
  pub lt_negative :
      (coarse fine : TimeUnit) (n : ℕ)
      → fine ≢ tick
      → fine ≢ nsec
      → finer fine coarse ≡ true
      → nsec_factor coarse * suc n < 2 ^ 63
      → lt (duration (negsuc n) coarse) (duration (pos 0) fine) ≡ false
  unfolding lt common
  lt_negative coarse fine n rf cf below fits =
      let real = not_tick_of_finer fine coarse below in
      let apart = ne_of_finer fine coarse below in
      rw (unit_eq_ne coarse fine apart, min_unit-eq coarse fine below, convert_to-same)
        (ground (arith, convert_to_negative coarse fine n real rf cf apart fits))
