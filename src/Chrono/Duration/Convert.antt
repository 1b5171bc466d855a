-- ===== src/Chrono/Duration/Convert.antt =====
-- Conversions between units of real time (src/chrono.cpp).
use native.Mathlib.Nat.{
  div-le_of_le-mul, mul-le-mul_right, mul-div_cancel_left, le-div_iff_mul-le, mul-div-le,
  lt-mul-div-succ, mul_assoc, div-eq_of_eq-mul_right,
}
use handystats.Prelude.{
  ℕ, zero, suc, ◌+◌, ◌-◌, ◌*◌, ◌/◌, ◌%◌, ◌^◌, ◌≤◌, ◌<◌, ◌≡◌, sym, ap, ◌∙◌, ◌≢◌, inl, inr, true,
  false, Bool-cases, arith, pos, negsuc, ◌≤ℤ◌, to_u64, of_u64, u64_mod,
}
use handystats.Machine.{Machine}
use handystats.Chrono.Duration.{
  TimeUnit, tick, nsec, nsec_factor, Duration, duration, unit_eq, finer, rescale, convert_to,
}

-- The unsigned computation, for any two factors.
scale_pos :
    (f g n : ℕ)
    → 1 ≤ f
    → f * n < 2 ^ 63
    → of_u64 (f * to_u64 (pos n) % u64_mod / g) ≡ pos (f * n / g)
unfolding of_u64 to_u64
scale_pos f g n one fits =
    let small : n ≤ f * n = grind arith in
    let same : n % u64_mod ≡ n = omega arith in rw same (ground arith)

-- Modulo 2 ^ 64 a negative product is its complement.
wrap-mul :
    (f k n : ℕ)
    → k + suc n ≡ u64_mod
    → 1 ≤ f
    → f * suc n < 2 ^ 63
    → f * k % u64_mod ≡ u64_mod - f * suc n
wrap-mul zero k n e one fits = absurd (omega arith)
wrap-mul (suc f) k n e one fits =
    let total : suc f * k + suc f * suc n ≡ suc f * u64_mod =
      omega (arith, ap (λ (t : ℕ). suc f * t) e) in
    omega arith

scale_neg :
    (f g n : ℕ)
    → 1 ≤ f
    → 1000 ≤ g
    → f * suc n < 2 ^ 63
    → of_u64 (f * to_u64 (negsuc n) % u64_mod / g) ≡ pos ((u64_mod - f * suc n) / g)
unfolding of_u64 to_u64
scale_neg f g n one big fits =
    let small : suc n ≤ f * suc n = grind arith in
    let same : n % u64_mod ≡ n = omega arith in
    let wrapped : f * (u64_mod - 1 - n) % u64_mod ≡ u64_mod - f * suc n =
      wrap-mul f (u64_mod - 1 - n) n (omega arith) one fits in
    let few : (u64_mod - f * suc n) / g < 2 ^ 63 = omega (
      arith,
      div-le_of_le-mul g {m = u64_mod - f * suc n} {n = 2 ^ 63 - 1}
          (omega (arith, mul-le-mul_right (2 ^ 63 - 1) big)),
    ) in
    rw (same, wrapped) (ground arith)

pub unit_eq_sound : (x y : TimeUnit) → unit_eq x y ≡ true → x ≡ y
unfolding unit_eq
unit_eq_sound x y h = ground arith

pub unit_eq_refl : (x : TimeUnit) → unit_eq x x ≡ true
unfolding unit_eq
unit_eq_refl x = ground arith

pub unit_eq_ne : (x y : TimeUnit) → x ≢ y → unit_eq x y ≡ false
unit_eq_ne x y d = elim (Bool-cases (unit_eq x y)) [
  | inl same ↦ absurd (d (unit_eq_sound x y same))
  | inr other ↦ other
]

factor_pos : (u : TimeUnit) → u ≢ tick → 1 ≤ nsec_factor u
unfolding nsec_factor
factor_pos u real = ground arith

factor_big : (u : TimeUnit) → u ≢ tick → u ≢ nsec → 1000 ≤ nsec_factor u
unfolding nsec_factor
factor_big u real coarse = ground arith

factor_max : (u : TimeUnit) → nsec_factor u ≤ 86_400_000_000_000
unfolding nsec_factor
factor_max u = ground arith

-- A later unit is a whole number of an earlier one.
factor-divides :
    (x y : TimeUnit)
    → x ≢ tick
    → finer x y ≡ true
    → nsec_factor y ≡ nsec_factor x * (nsec_factor y / nsec_factor x)
unfolding nsec_factor finer
factor-divides x y real h = ground arith

pub not_tick_of_finer : (x y : TimeUnit) → finer x y ≡ true → y ≢ tick
unfolding finer
not_tick_of_finer x y h = ground arith

module _ ⦃m : Machine⦄ where
  pub convert_to-same : (d : Duration) → convert_to d.unit d ≡ d
  unfolding convert_to
  convert_to-same d = rw (unit_eq_refl d.unit)

  -- Away from ticks, a conversion is the unsigned computation, also between equal units.
  convert_to-pos :
      (from to : TimeUnit) (n : ℕ)
      → from ≢ tick
      → to ≢ tick
      → nsec_factor from * n < 2 ^ 63
      → convert_to to (duration (pos n) from)
        ≡ duration (pos (nsec_factor from * n / nsec_factor to)) to
  unfolding convert_to rescale
  convert_to-pos from to n rf rt fits = elim (Bool-cases (unit_eq from to)) [
    | inl same ↦
        let e = unit_eq_sound from to same in
        rw same (
          rw (← e)
            (ap (λ k. duration (pos k) from) (sym (mul-div_cancel_left n (factor_pos from rf)))))
    | inr other ↦
        rw (other, unit_eq_ne to tick rt, unit_eq_ne from tick rf)
          (ap (λ r. duration r to) (scale_pos _ _ n (factor_pos from rf) fits))
  ]

  convert_to-negsuc :
      (from to : TimeUnit) (n : ℕ)
      → from ≢ tick
      → to ≢ tick
      → to ≢ nsec
      → from ≢ to
      → nsec_factor from * suc n < 2 ^ 63
      → convert_to to (duration (negsuc n) from)
        ≡ duration (pos ((u64_mod - nsec_factor from * suc n) / nsec_factor to)) to
  unfolding convert_to rescale
  convert_to-negsuc from to n rf rt coarse other fits =
      rw (unit_eq_ne from to other, unit_eq_ne to tick rt, unit_eq_ne from tick rf)
        (ap (λ r. duration r to)
          (scale_neg _ _ n (factor_pos from rf) (factor_big to rt coarse) fits))

  -- Between units of real time, a count that is not negative and whose nanoseconds fit `int64_t` is
  -- converted to the whole part of the exact quotient: the result is at most the duration, and one
  -- unit more is beyond it.
  pub convert_to_floor :
      (from to : TimeUnit) (n : ℕ)
      → from ≢ tick
      → to ≢ tick
      → nsec_factor from * n < 2 ^ 63
      → (k : ℕ) × (convert_to to (duration (pos n) from) ≡ duration (pos k) to)
        × (nsec_factor to * k ≤ nsec_factor from * n)
        × (nsec_factor from * n < nsec_factor to * (k + 1))
  convert_to_floor from to n rf rt fits =
      let f = nsec_factor from in
      let g = nsec_factor to in
      (
        f * n / g,
        convert_to-pos from to n rf rt fits,
        mul-div-le (f * n) g,
        lt-mul-div-succ (f * n) (factor_pos to rt),
      )

  -- Converting to a finer unit of real time and back gives the same duration, if its nanoseconds
  -- fit `int64_t` and it is not negative.
  pub convert_to_round_trip :
      (from to : TimeUnit) (n : ℕ)
      → to ≢ tick
      → finer to from ≡ true
      → nsec_factor from * n < 2 ^ 63
      → convert_to from (convert_to to (duration (pos n) from)) ≡ duration (pos n) from
  convert_to_round_trip from to n rt fine fits =
      let rf = not_tick_of_finer to from fine in
      let f = nsec_factor from in
      let g = nsec_factor to in
      let whole : f ≡ g * (f / g) = factor-divides to from rt fine in
      let back : g * (f / g * n) ≡ f * n =
        sym (mul_assoc g (f / g) n) ∙ ap (λ (t : ℕ). t * n) (sym whole) in
      let exact : f * n / g ≡ f / g * n = div-eq_of_eq-mul_right (factor_pos to rt) (sym back) in
      rw (convert_to-pos from to n rf rt fits, exact)
        (convert_to-pos to from (f / g * n) rt rf (rw back fits)
          ∙ ap (λ k. duration (pos k) from) (rw back (mul-div_cancel_left n (factor_pos from rf))))

  -- A negative duration converted to another unit of real time than nanoseconds comes out positive,
  -- as at least 106751 units, if its nanoseconds fit `int64_t`: the division is unsigned.
  pub convert_to_negative :
      (from to : TimeUnit) (n : ℕ)
      → from ≢ tick
      → to ≢ tick
      → to ≢ nsec
      → from ≢ to
      → nsec_factor from * suc n < 2 ^ 63
      → pos 106751 ≤ℤ (convert_to to (duration (negsuc n) from)).rep
  convert_to_negative from to n rf rt coarse other fits =
      rw (convert_to-negsuc from to n rf rt coarse other fits) (
        let top = factor_max to in
        let fill : 106751 ≤ (u64_mod - nsec_factor from * suc n) / nsec_factor to =
          (le-div_iff_mul-le (factor_pos to rt)).1 (omega arith) in
        omega arith)
