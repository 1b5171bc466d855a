-- ===== src/MathUtils.antt =====
-- include/handystats/math_utils.hpp, and `find_z` of src/statistics.cpp. An exception is `none`.
use handystats.Prelude.{
  ℕ, ◌&&◌, Option, none, some, List, [], ◌∷◌, ℤ, pos, negsuc, ltb_ℤ, leb_ℤ, eqb_ℤ, if◌then◌else◌,
}
use handystats.Machine.{Machine}

infixl 5 ◌>>=◌
abbrev pub ◌>>=◌ {ℓ κ} : {A : Type ℓ} {B : Type κ} → Option A → (A → Option B) → Option B
none >>= f = none
some a >>= f = f a

-- A property of the value, if there is one.
abbrev pub IfSome {ℓ κ} : {A : Type ℓ} → (A → Type κ) → Option A → Type κ
IfSome P none = Unit
IfSome P (some a) = P a

pub IfSome-bind :
    {A B : Type 0} (P : A → Type 0) (Q : B → Type 0) (o : Option A) (f : A → Option B)
    → IfSome P o
    → ((a : A) → P a → IfSome Q (f a))
    → IfSome Q (o >>= f)
IfSome-bind P Q none f h k = tt
IfSome-bind P Q (some a) f h k = k a h

pub IfSome-map :
    {A : Type 0} (P Q : A → Type 0) (o : Option A) → IfSome P o → ((a : A) → P a → Q a) → IfSome Q o
IfSome-map P Q none h k = tt
IfSome-map P Q (some a) h k = k a h

pub anything : {A : Type 0} (o : Option A) → IfSome (λ _. Unit {0}) o
anything none = tt
anything (some a) = tt

module _ ⦃m : Machine⦄ where
  open m use {F, add, sub, mul, div, neg, lt, of_ℤ, root, tolerance}

  -- Integer constants such as 0.0 and 2.
  abbrev pub num : ℕ → F
  num n = of_ℤ (pos n)

  -- -1, 0 or 1, with a margin of four epsilons.
  unfoldable pub cmp : F → F → ℤ
  cmp a b =
      if lt (add a tolerance) b then negsuc 0 else if lt b (sub a tolerance) then pos 1 else pos 0

  unfoldable pub sqrt : F → Option F
  unfolding cmp
  sqrt a = if ltb_ℤ (cmp a (num 0)) (pos 0) then none else some (root a)

  -- The roots of a x^2 + b x + c.
  unfoldable pub solve_quadratic : F → F → F → Option (List F)
  unfolding cmp sqrt
  solve_quadratic a b c =
      if eqb_ℤ (cmp a (num 0)) (pos 0)
      then (if eqb_ℤ (cmp b (num 0)) (pos 0) then some [] else some (div (neg c) b ∷ []))
      else (let d = sub (mul b b) (mul (mul (num 4) a) c) in
          if ltb_ℤ (cmp d (num 0)) (pos 0)
          then some []
          else if eqb_ℤ (cmp d (num 0)) (pos 0)
          then some (div (div (neg b) (num 2)) a ∷ [])
          else (sqrt d >>= λ r.
              some (div (div (sub (neg r) b) (num 2)) a ∷ div (div (sub r b) (num 2)) a ∷ [])))

  unfoldable pub weighted_average : F → F → F → F → Option F
  unfolding cmp
  weighted_average v1 w1 v2 w2 =
      let total = add w1 w2 in
      if eqb_ℤ (cmp total (num 0)) (pos 0)
      then none
      else some (div (add (mul v1 w1) (mul v2 w2)) total)

  first_in_unit : List F → Option F
  unfolding cmp
  first_in_unit [] = none
  first_in_unit (r ∷ rs) =
      if leb_ℤ (pos 0) (cmp r (num 0)) && leb_ℤ (cmp r (num 1)) (pos 0)
      then some r
      else first_in_unit rs

  -- A root in [0, 1].
  unfoldable pub find_z : F → F → F → Option F
  unfolding solve_quadratic first_in_unit
  find_z a b c = solve_quadratic a b c >>= first_in_unit
