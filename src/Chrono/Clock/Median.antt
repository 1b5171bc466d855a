-- ===== src/Chrono/Clock/Median.antt =====
-- The choice of one of the measured frequencies in `estimate_cycles_frequency` of
-- src/chrono/tsc_clock.cpp.
use mathlib.Core.Path.{subst}
use handystats.Prelude.{
  ℕ, zero, suc, ◌+◌, ◌≤◌, ◌<◌, ◌≡◌, refl, Bool, true, Bool-cases, inl, inr, some, List, [], ◌∷◌,
  some_inj, All, length, get_elem?, arith, if◌then◌else◌,
}
use handystats.Machine.{Machine}
use handystats.Machine.Laws.{IsOrdered, AtMost}
use handystats.Chrono.Clock.{ClockSource}
use handystats.Chrono.Clock.Calibration.{
  Round, insert, sort, middle, measure_all, estimate_cycles_frequency, tests_count,
}

abbrev pub count {ℓ} : {A : Type ℓ} → (A → Bool) → List A → ℕ
count p [] = 0
count p (x ∷ xs) = (if p x then 1 else 0) + count p xs

module _ ⦃m : Machine⦄ (o : IsOrdered m) where
  open m use {F, lt}
  open o use {at_most_trans, at_most_of_lt}

  abbrev Sorted : List F → Type 0
  Sorted [] = Unit
  Sorted (x ∷ xs) = All (AtMost m x) xs × Sorted xs

  All-insert : (P : F → Type 0) (x : F) (ys : List F) → P x → All P ys → All P (insert x ys)
  unfolding insert
  All-insert P x [] p ps = (p, tt)
  All-insert P x (y ∷ ys) p (q, ps) = elim (Bool-cases (lt y x)) [
    | inl e ↦ rw e (q, All-insert P x ys p ps)
    | inr e ↦ rw e (p, (q, ps))
  ]

  All-trans : (x y : F) (ys : List F) → AtMost m x y → All (AtMost m y) ys → All (AtMost m x) ys
  All-trans x y [] h a = tt
  All-trans x y (z ∷ zs) h (p, a) = (at_most_trans x y z h p, All-trans x y zs h a)

  insert-Sorted : (x : F) (ys : List F) → Sorted ys → Sorted (insert x ys)
  unfolding insert
  insert-Sorted x [] s = (tt, tt)
  insert-Sorted x (y ∷ ys) (a, s) = elim (Bool-cases (lt y x)) [
    | inl e ↦ rw e (All-insert (AtMost m y) x ys (at_most_of_lt y x e) a, insert-Sorted x ys s)
    | inr e ↦ rw e ((e, All-trans x y ys e a), (a, s))
  ]

  sort-Sorted : (xs : List F) → Sorted (sort xs)
  unfolding sort
  sort-Sorted [] = tt
  sort-Sorted (x ∷ xs) = insert-Sorted x (sort xs) (sort-Sorted xs)

  count-insert : (p : F → Bool) (x : F) (ys : List F) → count p (insert x ys) ≡ count p (x ∷ ys)
  unfolding insert
  count-insert p x [] = refl
  count-insert p x (y ∷ ys) = elim (Bool-cases (lt y x)) [
    | inl e ↦ rw e (omega (arith, count-insert p x ys))
    | inr e ↦ rw e refl
  ]

  count-sort : (p : F → Bool) (xs : List F) → count p (sort xs) ≡ count p xs
  unfolding sort
  count-sort p [] = refl
  count-sort p (x ∷ xs) = omega (arith, count-insert p x (sort xs), count-sort p xs)

  length-insert : (x : F) (ys : List F) → length (insert x ys) ≡ suc (length ys)
  unfolding insert
  length-insert x [] = refl
  length-insert x (y ∷ ys) = elim (Bool-cases (lt y x)) [
    | inl e ↦ rw e (omega (arith, length-insert x ys))
    | inr e ↦ rw e refl
  ]

  length-sort : (xs : List F) → length (sort xs) ≡ length xs
  unfolding sort
  length-sort [] = refl
  length-sort (x ∷ xs) = omega (arith, length-insert x (sort xs), length-sort xs)

  -- What is at most a number below `lo` is below it, and what is at least one above `hi` above it.
  lt_of_AtMost : (x y lo : F) → AtMost m x y → lt y lo ≡ true → lt x lo ≡ true
  lt_of_AtMost x y lo h below = elim (Bool-cases (lt x lo)) [
    | inl e ↦ e
    | inr e ↦ cc (at_most_trans lo x y e h, below)
  ]

  lt_of_lower : (x y hi : F) → AtMost m x y → lt hi x ≡ true → lt hi y ≡ true
  lt_of_lower x y hi h above = elim (Bool-cases (lt hi y)) [
    | inl e ↦ e
    | inr e ↦ cc (at_most_trans x y hi h e, above)
  ]

  All-get :
      (P : F → Type 0) (xs : List F) (i : ℕ) (x : F) → get_elem? xs i ≡ some x → All P xs → P x
  All-get P [] i x e a = cc
  All-get P (y ∷ ys) zero x e (p, a) = subst P (some_inj y x e) p
  All-get P (y ∷ ys) (suc i) x e (p, a) = All-get P ys i x e a

  -- The elements up to one below `lo` are below it.
  count_below :
      (xs : List F) (i : ℕ) (x lo : F)
      → Sorted xs
      → get_elem? xs i ≡ some x
      → lt x lo ≡ true
      → i < count (λ y. lt y lo) xs
  count_below [] i x lo s e below = cc
  count_below (y ∷ ys) zero x lo s e below =
      let here : lt y lo ≡ true = rw (some_inj y x e) below in rw here (omega arith)
  count_below (y ∷ ys) (suc i) x lo (a, s) e below =
      let here = lt_of_AtMost y x lo (All-get (AtMost m y) ys i x e a) below in
      rw here (omega (arith, count_below ys i x lo s e below))

  count_all :
      (x hi : F) (ys : List F)
      → All (AtMost m x) ys
      → lt hi x ≡ true
      → count (λ y. lt hi y) ys ≡ length ys
  count_all x hi [] a above = refl
  count_all x hi (y ∷ ys) (p, a) above =
      rw (lt_of_lower x y hi p above) (omega (arith, count_all x hi ys a above))

  -- The elements from one above `hi` on are above it.
  count_above :
      (xs : List F) (i : ℕ) (x hi : F)
      → Sorted xs
      → get_elem? xs i ≡ some x
      → lt hi x ≡ true
      → length xs ≤ count (λ y. lt hi y) xs + i
  count_above [] i x hi s e above = cc
  count_above (y ∷ ys) zero x hi (a, s) e above =
      let here : lt hi y ≡ true = rw (some_inj y x e) above in
      let rest = count_all y hi ys a here in rw here (omega (arith, rest))
  count_above (y ∷ ys) (suc i) x hi (a, s) e above = omega (arith, count_above ys i x hi s e above)

  get_elem?-lt :
      {A : Type 0} (xs : List A) (i : ℕ) → i < length xs → (x : A) × (get_elem? xs i ≡ some x)
  get_elem?-lt [] i h = absurd (omega (arith, h))
  get_elem?-lt (x ∷ xs) zero h = (x, refl)
  get_elem?-lt (x ∷ xs) (suc i) h = get_elem?-lt xs i (omega (arith, h))

  -- At most `k` of the elements are below `lo` and at most `k` above `hi`.
  abbrev pub MostlyWithin : ℕ → F → F → List F → Type 0
  MostlyWithin k lo hi xs = (count (λ y. lt y lo) xs ≤ k) × (count (λ y. lt hi y) xs ≤ k)

  middle_within :
      (xs : List F) (lo hi : F)
      → length xs ≡ tests_count
      → MostlyWithin 7 lo hi xs
      → (x : F) × (middle xs ≡ some x) × AtMost m lo x × AtMost m x hi
  unfolding middle
  middle_within xs lo hi size (few, many) =
      let s = sort-Sorted xs in
      let n = length-sort xs in
      let (x, e) = get_elem?-lt (sort xs) 7 (omega (arith, n, size)) in
      (
        x,
        e,
        elim (Bool-cases (lt x lo)) [
          | inl low ↦ absurd (
              omega
                (arith, count_below (sort xs) 7 x lo s e low, count-sort (λ y. lt y lo) xs, few))
          | inr ok ↦ ok
        ],
        elim (Bool-cases (lt hi x)) [
          | inl high ↦ absurd (
              omega (
                arith,
                count_above (sort xs) 7 x hi s e high,
                count-sort (λ y. lt hi y) xs,
                many,
                n,
                size,
              ))
          | inr ok ↦ ok
        ],
      )

  -- If at most seven of the fifteen measured frequencies lie below a number and at most seven above
  -- another one, the estimate is one between the two, whatever the other measurements are.
  pub estimate_within :
      (source : ClockSource) (monotonic : Bool) (tests : List (List Round × List Round))
      (xs : List F) (lo hi : F)
      → measure_all source monotonic tests ≡ some xs
      → length xs ≡ tests_count
      → MostlyWithin 7 lo hi xs
      → (x : F) × (estimate_cycles_frequency source monotonic tests ≡ some x)
        × AtMost m lo x
        × AtMost m x hi
  unfolding estimate_cycles_frequency
  estimate_within source monotonic tests xs lo hi e size within =
      rw e (middle_within xs lo hi size within)
