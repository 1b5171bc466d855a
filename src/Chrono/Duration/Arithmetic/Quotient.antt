-- ===== src/Chrono/Duration/Arithmetic/Quotient.antt =====
-- The quotient and the remainder of a duration by a number.
use native.Mathlib.Omega.{div_any}
use handystats.Prelude.{
  ℕ, zero, suc, ◌+◌, ◌*◌, ◌/◌, ◌%◌, ◌≡◌, refl, ap, ◌∙◌, ℤ, pos, negsuc, sub_ℕ, ◌+ℤ◌, ◌*ℤ◌, ◌/ℤ◌,
  ◌%ℤ◌, arith, true,
}
use handystats.Machine.{Machine}
use handystats.Chrono.Duration.{Duration, duration, TimeUnit, unit_eq, plus, common, common_unit}
use handystats.Chrono.Duration.Arithmetic.{mul_count, div_count, rem_count}

sub_ℕ-suc : (q : ℕ) → sub_ℕ 0 (suc q) ≡ negsuc q
sub_ℕ-suc q = ground arith

neg_mul : (q b : ℕ) → sub_ℕ 0 q *ℤ pos b ≡ sub_ℕ 0 (b * q)
unfolding ◌*ℤ◌
neg_mul zero b = ground arith
neg_mul (suc q) b = rw (sub_ℕ-suc q) (ground arith)

pos_mul : (q b : ℕ) → pos q *ℤ pos b ≡ pos (b * q)
unfolding ◌*ℤ◌
pos_mul q b = ground arith

pos_mul_neg : (q b : ℕ) → sub_ℕ 0 q *ℤ negsuc b ≡ pos (suc b * q)
unfolding ◌*ℤ◌
pos_mul_neg zero b = ground arith
pos_mul_neg (suc q) b = rw (sub_ℕ-suc q) (ground arith)

neg_mul_neg : (q b : ℕ) → pos q *ℤ negsuc b ≡ sub_ℕ 0 (suc b * q)
unfolding ◌*ℤ◌
neg_mul_neg q b = ground arith

pos_sum : (x y a : ℕ) → x + y ≡ a → pos x +ℤ pos y ≡ pos a
unfolding ◌+ℤ◌
pos_sum x y a h = ground arith

neg_sum : (x y a : ℕ) → x + y ≡ suc a → sub_ℕ 0 x +ℤ sub_ℕ 0 y ≡ negsuc a
unfolding ◌+ℤ◌
neg_sum x y a h = ground arith

-- The quotient and the remainder by any number give the integer back.
division_lem : (a b : ℤ) → (a /ℤ b) *ℤ b +ℤ (a %ℤ b) ≡ a
unfolding ◌/ℤ◌ ◌%ℤ◌
division_lem (pos a) (pos b) =
    rw (pos_mul (a / b) b) (pos_sum (b * (a / b)) (a % b) a (div_any a b))
division_lem (pos a) (negsuc b) =
    rw (pos_mul_neg (a / suc b) b) (pos_sum (suc b * (a / suc b)) (a % suc b) a (div_any a (suc b)))
division_lem (negsuc a) (pos b) =
    rw (neg_mul (suc a / b) b) (neg_sum (b * (suc a / b)) (suc a % b) a (div_any (suc a) b))
division_lem (negsuc a) (negsuc b) =
    rw (neg_mul_neg (suc a / suc b) b)
      (neg_sum (suc b * (suc a / suc b)) (suc a % suc b) a (div_any (suc a) (suc b)))

unit_eq_refl : (u : TimeUnit) → unit_eq u u ≡ true
unfolding unit_eq
unit_eq_refl u = ground arith

module _ ⦃m : Machine⦄ where
  plus-unit : (x y : ℤ) (u : TimeUnit) → plus (duration x u) (duration y u) ≡ duration (x +ℤ y) u
  unfolding plus common common_unit
  plus-unit x y u = rw (unit_eq_refl u) refl

  -- The quotient of a duration by a number, multiplied by this number, and the remainder make up the
  -- duration, for numbers of either sign.
  pub quotient_remainder :
      (d : Duration) (k : ℤ) → plus (mul_count (div_count d k) k) (rem_count d k) ≡ d
  unfolding mul_count div_count rem_count
  quotient_remainder d k =
      plus-unit ((d.rep /ℤ k) *ℤ k) (d.rep %ℤ k) d.unit
      ∙ ap (λ r. duration r d.unit) (division_lem d.rep k)
