-- ===== src/Machine/Laws.antt =====
-- What the proofs use of floating-point numbers other than NaN and infinities: the order is total,
-- and rounding is monotone. `Milli` meets these laws.
use handystats.Prelude.{ℕ, ◌≡◌, true, false, pos}
use handystats.Machine.{Machine}
use handystats.Machine.Milli.{milli}

module _ (m : Machine) where
  open m use {F, add, sub, mul, div, lt, of_ℤ, tolerance}

  -- `a <= b` for numbers.
  abbrev pub AtMost : F → F → Type 0
  AtMost a b = lt b a ≡ false

  pub record IsOrdered : Type 0 where
    pub at_most_refl : (a : F) → AtMost a a
    pub at_most_trans : (a b c : F) → AtMost a b → AtMost b c → AtMost a c
    pub at_most_of_lt : (a b : F) → lt a b ≡ true → AtMost a b
    pub add_right_grows : (a b : F) → AtMost (of_ℤ (pos 0)) b → AtMost a (add a b)
    pub add_left_grows : (a b : F) → AtMost (of_ℤ (pos 0)) a → AtMost b (add a b)
    pub sub_mono : (a b c : F) → AtMost a b → AtMost (sub a c) (sub b c)
    pub one_is_full : lt (of_ℤ (pos 0)) (sub (of_ℤ (pos 1)) tolerance) ≡ true
    pub tolerance_small : AtMost (sub (of_ℤ (pos 0)) tolerance) (of_ℤ (pos 0))
    pub of_ℤ_nonneg : (n : ℕ) → AtMost (of_ℤ (pos 0)) (of_ℤ (pos n))
    pub mul_nonneg :
        (a b : F)
        → AtMost (of_ℤ (pos 0)) a
        → AtMost (of_ℤ (pos 0)) b
        → AtMost (of_ℤ (pos 0)) (mul a b)
    pub div_nonneg :
        (a b : F)
        → AtMost (of_ℤ (pos 0)) a
        → AtMost (of_ℤ (pos 0)) b
        → AtMost (of_ℤ (pos 0)) (div a b)
