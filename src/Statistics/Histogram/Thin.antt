-- ===== src/Statistics/Histogram/Thin.antt =====
-- The removal of empty bins: it ends, stays in bounds and keeps every bin that is not empty.
use mathlib.Core.List.{reverse, reverse-cons, reverse-reverse, append-nil}
use handystats.Prelude.{
  ℕ, zero, suc, ◌+◌, ◌-◌, ◌%◌, ◌≤◌, ◌<◌, ◌≡◌, refl, ap, ◌∙◌, true, not, Bool-cases, Option, some,
  none, List, [], ◌∷◌, ◌++◌, length, All, All-append, length-append, tests, get_elem?, arith,
  u64_mod, if◌then◌else◌, inl, inr, ltb,
}
use handystats.Machine.{Machine}
use handystats.MathUtils.{◌>>=◌}
use handystats.Statistics.State.{Bin}
use handystats.Statistics.Histogram.{
  Scan, skip, erase_here, scan, thin, erase, is_empty_bin, drop_empty, remove_empty_bins,
}

module _ {ℓ} {A : Type ℓ} where
  pub length-erase : (i : ℕ) (xs : List A) → i < length xs → length (erase i xs) + 1 ≡ length xs
  unfolding erase
  length-erase i [] h = elim h [ ]
  length-erase zero (x ∷ xs) h = omega arith
  length-erase (suc i) (x ∷ xs) h = omega (arith, length-erase i xs (omega arith))

  length-reverse : (xs : List A) → length (reverse xs) ≡ length xs
  length-reverse [] = refl
  length-reverse (x ∷ xs) =
      omega (
        arith,
        ap length (reverse-cons x xs),
        length-append (reverse xs) (x ∷ []),
        length-reverse xs,
      )

  get_elem?-some : (i : ℕ) (xs : List A) → i < length xs → (x : A) × (get_elem? xs i ≡ some x)
  get_elem?-some i [] h = elim h [ ]
  get_elem?-some zero (x ∷ xs) h = (x, refl)
  get_elem?-some (suc i) (x ∷ xs) h = get_elem?-some i xs (omega arith)

module _ ⦃m : Machine⦄ where
  -- The bins that are not empty, in order.
  unfoldable pub full_bins : List Bin → List Bin
  full_bins [] = []
  full_bins (b ∷ bs) = if is_empty_bin b then full_bins bs else b ∷ full_bins bs

  full_bins-append : (xs ys : List Bin) → full_bins (xs ++ ys) ≡ full_bins xs ++ full_bins ys
  unfolding full_bins
  full_bins-append [] ys = refl
  full_bins-append (x ∷ xs) ys = ground (arith, full_bins-append xs ys)

  full_bins-drop_empty : (h : List Bin) → full_bins (drop_empty h) ≡ full_bins h
  unfolding full_bins drop_empty
  full_bins-drop_empty [] = refl
  full_bins-drop_empty (b ∷ bs) = ground (arith, full_bins-drop_empty bs)

  full_bins-erase :
      (i : ℕ) (h : List Bin) {b : Bin}
      → get_elem? h i ≡ some b
      → is_empty_bin b ≡ true
      → full_bins (erase i h) ≡ full_bins h
  unfolding full_bins erase
  full_bins-erase i [] e empty = refl
  full_bins-erase zero (x ∷ xs) e empty = ground arith
  full_bins-erase (suc i) (x ∷ xs) e empty = ground (arith, full_bins-erase i xs e empty)

  scan-eq :
      (i : ℕ) (h : List Bin) (here right left : Bin)
      → get_elem? h i ≡ some here
      → get_elem? h (i + 1) ≡ some right
      → get_elem? h (i - 1) ≡ some left
      → scan i h ≡ (
          if not (is_empty_bin here)
          then some (skip 2)
          else if not (is_empty_bin right)
          then some (skip 3)
          else if not (is_empty_bin left)
          then some (skip 1)
          else some erase_here)
  unfolding scan
  scan-eq i h here right left e0 e1 e2 = rw (e0, scan) (rw (e1, e2))

  -- Inside the loop's bounds the scan answers, and it erases an empty bin only.
  abbrev Answers : ℕ → List Bin → Option Scan → Type 0
  Answers i h none = ⊥
  Answers i h (some (skip k)) = 1 ≤ k
  Answers i h (some erase_here) = full_bins (erase i h) ≡ full_bins h

  scan-Answers : (i : ℕ) (h : List Bin) → 1 ≤ i → i + 1 < length h → Answers i h (scan i h)
  scan-Answers i h low high =
      let (here, e0) = get_elem?-some i h (omega arith) in
      let (right, e1) = get_elem?-some (i + 1) h (omega arith) in
      let (left, e2) = get_elem?-some (i - 1) h (omega arith) in
      rw (scan-eq i h here right left e0 e1 e2) (ground (arith, full_bins-erase i h e0))

  module _ (P : Bin → Type 0) where
    All-erase : (i : ℕ) (h : List Bin) → All P h → All P (erase i h)
    unfolding erase
    All-erase i [] a = tt
    All-erase zero (b ∷ bs) a = a.1
    All-erase (suc i) (b ∷ bs) a = (a.0, All-erase i bs a.1)

    All-drop_empty : (h : List Bin) → All P h → All P (drop_empty h)
    unfolding drop_empty
    All-drop_empty [] a = tt
    All-drop_empty (b ∷ bs) a = elim (Bool-cases (is_empty_bin b)) [
      | inl empty ↦ rw empty (All-drop_empty bs a.1)
      | inr full ↦ rw full a
    ]

    All-reverse : (h : List Bin) → All P h → All P (reverse h)
    All-reverse [] a = tt
    All-reverse (b ∷ bs) a =
        rw (reverse-cons b bs) (All-append P (reverse bs) (b ∷ []) (All-reverse bs a.1) (a.0, tt))

  -- A result of the loop: no bin is added, the full ones are kept, and `P` still holds of all.
  abbrev pub Thinned : (Bin → Type 0) → List Bin → Option (List Bin) → Type 0
  Thinned P h none = ⊥
  Thinned P h (some h') =
      (length h' ≤ length h) × (full_bins h' ≡ full_bins h) × (All P h → All P h')

  Thinned-trans :
      (P : Bin → Type 0) (g h : List Bin) (r : Option (List Bin))
      → length g ≤ length h
      → full_bins g ≡ full_bins h
      → (All P h → All P g)
      → Thinned P g r
      → Thinned P h r
  Thinned-trans P g h none le same all t = t
  Thinned-trans P g h (some r) le same all (short, kept, inside) =
      (omega arith, kept ∙ same, λ a. inside (all a))

  -- The fuel covers the bins ahead of the index.
  abbrev Fuelled : ℕ → ℕ → List Bin → Type 0
  Fuelled fuel i h =
      (1 ≤ i) × (1 ≤ length h) × (length h < u64_mod) × (length h < fuel + i) × (1 ≤ fuel)

  thin_step :
      (P : Bin → Type 0) (fuel i : ℕ) (h : List Bin)
      → ((j : ℕ) (g : List Bin) → Fuelled fuel j g → Thinned P g (thin fuel j g))
      → Fuelled (suc fuel) i h
      → i + 1 < length h
      → (r : Option Scan) → Answers i h r
      → Thinned P h (
          r >>= λ a. elim a [ skip k ↦ thin fuel (i + k) h | erase_here ↦ thin fuel i (erase i h) ])
  thin_step P fuel i h go f high none a = a
  thin_step P fuel i h go f high (some (skip k)) a = go (i + k) h (omega arith)
  thin_step P fuel i h go f high (some erase_here) a =
      let shorter = length-erase i h (omega arith) in
      Thinned-trans P (erase i h) h (thin fuel i (erase i h)) (omega arith) a (All-erase P i h)
        (go i (erase i h) (omega arith))

  thin-Thinned :
      (P : Bin → Type 0) (fuel i : ℕ) (h : List Bin)
      → Fuelled fuel i h
      → Thinned P h (thin fuel i h)
  unfolding thin
  thin-Thinned P zero i h f = absurd (omega arith)
  thin-Thinned P (suc fuel) i h f =
      let size : (length h + u64_mod - 1) % u64_mod ≡ length h - 1 = omega arith in
      elim (Bool-cases (ltb i (length h - 1))) [
        | inl inside ↦
            rw (size, inside)
              (thin_step P fuel i h (thin-Thinned P fuel) f (omega (tests)) (scan i h)
                (scan-Answers i h f.0 (omega (tests))))
        | inr outside ↦ rw (size, outside) (omega arith, refl, λ a. a)
      ]

  full_bins-reverse : (h : List Bin) → full_bins (reverse h) ≡ reverse (full_bins h)
  unfolding full_bins
  full_bins-reverse [] = refl
  full_bins-reverse (b ∷ bs) =
      rw (reverse-cons b bs, full_bins-append (reverse bs) (b ∷ []), full_bins-reverse bs)
        (ground (arith, reverse-cons b (full_bins bs), append-nil (reverse (full_bins bs))))

  trimmed : List Bin → List Bin
  trimmed h = reverse (drop_empty (reverse (drop_empty h)))

  length-drop_empty : (h : List Bin) → length (drop_empty h) ≤ length h
  unfolding drop_empty
  length-drop_empty [] = omega arith
  length-drop_empty (b ∷ bs) = ground (arith, length-drop_empty bs)

  length-trimmed : (h : List Bin) → length (trimmed h) ≤ length h
  unfolding trimmed
  length-trimmed h = omega (
    arith,
    length-reverse (drop_empty (reverse (drop_empty h))),
    length-drop_empty (reverse (drop_empty h)),
    length-reverse (drop_empty h),
    length-drop_empty h,
  )

  full_bins-trimmed : (h : List Bin) → full_bins (trimmed h) ≡ full_bins h
  unfolding trimmed
  full_bins-trimmed h =
      rw
        (
          full_bins-reverse (drop_empty (reverse (drop_empty h))),
          full_bins-drop_empty (reverse (drop_empty h)),
          full_bins-reverse (drop_empty h),
          full_bins-drop_empty h,
        )
        (reverse-reverse (full_bins h))

  All-trimmed : (P : Bin → Type 0) (h : List Bin) → All P h → All P (trimmed h)
  unfolding trimmed
  All-trimmed P h a = All-reverse P _ (All-drop_empty P _ (All-reverse P _ (All-drop_empty P h a)))

  length-full_bins : (h : List Bin) → length (full_bins h) ≤ length h
  unfolding full_bins
  length-full_bins [] = omega arith
  length-full_bins (b ∷ bs) = ground (arith, length-full_bins bs)

  -- With a bin that is not empty, removing the empty bins reads nothing out of bounds and returns:
  -- it adds no bin, keeps the bins that are not empty, in their order, and what held of all bins
  -- still does.
  pub remove_empty_bins_lem :
      (P : Bin → Type 0) (h : List Bin)
      → 1 ≤ length (full_bins h)
      → length h < u64_mod
      → All P h
      → (h' : List Bin) × (remove_empty_bins h ≡ some h')
        × (length h' ≤ length h)
        × (full_bins h' ≡ full_bins h)
        × All P h'
  unfolding remove_empty_bins trimmed
  remove_empty_bins_lem P h full few all =
      let kept = full_bins-trimmed h in
      let short = length-trimmed h in
      let enough : Fuelled (length (trimmed h) + 1) 1 (trimmed h) =
        omega (arith, ap length kept, length-full_bins (trimmed h)) in
      result (thin (length (trimmed h) + 1) 1 (trimmed h)) (
        Thinned-trans P (trimmed h) h _ short kept (All-trimmed P h)
          (thin-Thinned P (length (trimmed h) + 1) 1 (trimmed h) enough))
    where
      result :
          (r : Option (List Bin))
          → Thinned P h r
          → (h' : List Bin) × (r ≡ some h')
            × (length h' ≤ length h)
            × (full_bins h' ≡ full_bins h)
            × All P h'
      result none t = absurd t
      result (some h') t = (h', refl, t.0, t.1, t.2 all)
