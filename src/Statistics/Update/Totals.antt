-- ===== src/Statistics/Update/Totals.antt =====
-- What a sequence of updates leaves in the plain totals.
use handystats.Prelude.{
  ℕ, suc, ◌+◌, ◌%◌, ◌≡◌, refl, ap, ◌∙◌, Bool, true, false, Bool-cases, inl, inr, Option, some, List,
  [], ◌∷◌, map, ◌<◌, foldl, length, arith, u64_mod, if◌then◌else◌,
}
use handystats.Machine.{Machine}
use handystats.MathUtils.{◌>>=◌}
use handystats.Chrono.TimePoint.{TimePoint}
use handystats.Statistics.Tag
use handystats.Statistics.State.{Statistics, is_computed}
use handystats.Statistics.Update.{
  update, update_numbers, update_bins, update_timestamp, lesser, greater,
}
use handystats.Statistics.Update.Core.{Core, core, step, core-numbers}

module _ ⦃m : Machine⦄ where
  open m use {F, add, lt, largest, smallest_normal}

  -- A sequence of calls of `update`.
  unfoldable pub run : List (F × TimePoint) → Statistics → Option Statistics
  run [] s = some s
  run ((v, t) ∷ vs) s = update v t s >>= run vs

  if_lt : (b : Bool) (x y n : ℕ) → x < n → y < n → (if b then x else y) < n
  if_lt true x y n p q = p
  if_lt false x y n p q = q

  -- What a sequence of updates from `s` to `s'` has made of the totals that are computed.
  pub record Totals (s : Statistics) (vs : List F) (s' : Statistics) : Type 0 where
    pub config_eq : s'.config ≡ s.config
    pub count_lt : s'.count < u64_mod
    pub count_eq :
        s'.count ≡ (if is_computed s Tag.count then (s.count + length vs) % u64_mod else s.count)
    pub sum_eq : s'.sum ≡ (if is_computed s Tag.sum then foldl add s.sum vs else s.sum)
    pub min_eq : s'.min ≡ (if is_computed s Tag.min then foldl lesser s.min vs else s.min)
    pub max_eq : s'.max ≡ (if is_computed s Tag.max then foldl greater s.max vs else s.max)

  count-small :
      (v : F) (s n : Statistics)
      → s.count < u64_mod
      → n.count ≡ (step v (core s)).count
      → n.count < u64_mod
  unfolding core
  count-small v s n small e =
      rw e (if_lt (Tag.computed s.config.tags Tag.count) _ _ u64_mod (omega arith) small)

  Totals-numbers :
      (v : F) (s n : Statistics)
      → s.count < u64_mod
      → core n ≡ step v (core s)
      → Totals s (v ∷ []) n
  unfolding core is_computed
  Totals-numbers v s n small e = record {
    config_eq = ap (λ (c : Core). c.config) e;
    count_lt = count-small v s n small (ap (λ (c : Core). c.count) e);
    count_eq = ap (λ (c : Core). c.count) e;
    sum_eq = ap (λ (c : Core). c.sum) e;
    min_eq = ap (λ (c : Core). c.min) e;
    max_eq = ap (λ (c : Core). c.max) e;
  }

  Totals-timestamp :
      (t : TimePoint) (s n : Statistics) (vs : List F)
      → Totals s vs n
      → Totals s vs (update_timestamp t n)
  unfolding update_timestamp
  Totals-timestamp t s n vs h = elim (Bool-cases (is_computed n Tag.timestamp)) [
    | inl on ↦ rw on (record {
      config_eq = h.config_eq;
      count_lt = h.count_lt;
      count_eq = h.count_eq;
      sum_eq = h.sum_eq;
      min_eq = h.min_eq;
      max_eq = h.max_eq;
    })
    | inr off ↦ rw off h
  ]

  pub is_computed-config :
      (s s' : Statistics) (tag : Tag.Tag)
      → s'.config ≡ s.config
      → is_computed s' tag ≡ is_computed s tag
  unfolding is_computed
  is_computed-config s s' tag e = rw e

  update-quiet :
      (v : F) (t : TimePoint) (s : Statistics)
      → is_computed s Tag.histogram ≡ false
      → (update_numbers v t s).config ≡ s.config
      → update v t s ≡ some (update_timestamp t (update_numbers v t s))
  unfolding update update_bins
  update-quiet v t s off same =
      rw (is_computed-config s (update_numbers v t s) Tag.histogram same, off)

  pub update_lem :
      (v : F) (t : TimePoint) (s : Statistics)
      → s.count < u64_mod
      → is_computed s Tag.histogram ≡ false
      → (s' : Statistics) × (update v t s ≡ some s') × Totals s (v ∷ []) s'
  update_lem v t s small off =
      let n = update_numbers v t s in
      let h = Totals-numbers v s n small (core-numbers v t s) in
      (update_timestamp t n, update-quiet v t s off h.config_eq, Totals-timestamp t s n (v ∷ []) h)

  foldl_if :
      (b : Bool) (f : F → F → F) (x y z v : F) (vs : List F)
      → y ≡ (if b then f x v else x)
      → z ≡ (if b then foldl f y vs else y)
      → z ≡ (if b then foldl f (f x v) vs else x)
  foldl_if true f x y z v vs e h = h ∙ ap (λ a. foldl f a vs) e
  foldl_if false f x y z v vs e h = h ∙ e

  same_if : (b : Bool) (x : F) → x ≡ (if b then x else x)
  same_if true x = refl
  same_if false x = refl

  count_if :
      (b : Bool) (x y z n : ℕ)
      → y ≡ (if b then (x + 1) % u64_mod else x)
      → z ≡ (if b then (y + n) % u64_mod else y)
      → z ≡ (if b then (x + suc n) % u64_mod else x)
  count_if true x y z n e h = omega arith
  count_if false x y z n e h = h ∙ e

  count_same : (b : Bool) (x : ℕ) → x < u64_mod → x ≡ (if b then (x + 0) % u64_mod else x)
  count_same true x h = omega arith
  count_same false x h = refl

  pub Totals-trans :
      (s s' s'' : Statistics) (v : F) (vs : List F)
      → Totals s (v ∷ []) s'
      → Totals s' vs s''
      → Totals s (v ∷ vs) s''
  Totals-trans s s' s'' v vs h k = record {
    config_eq = k.config_eq ∙ h.config_eq;
    count_lt = k.count_lt;
    count_eq =
        count_if (is_computed s Tag.count) s.count s'.count s''.count (length vs) h.count_eq
          (rw (← is_computed-config s s' Tag.count h.config_eq) k.count_eq);
    sum_eq =
        foldl_if (is_computed s Tag.sum) add s.sum s'.sum s''.sum v vs h.sum_eq
          (rw (← is_computed-config s s' Tag.sum h.config_eq) k.sum_eq);
    min_eq =
        foldl_if (is_computed s Tag.min) lesser s.min s'.min s''.min v vs h.min_eq
          (rw (← is_computed-config s s' Tag.min h.config_eq) k.min_eq);
    max_eq =
        foldl_if (is_computed s Tag.max) greater s.max s'.max s''.max v vs h.max_eq
          (rw (← is_computed-config s s' Tag.max h.config_eq) k.max_eq);
  }

  -- Statistics that keep no histogram, as by default: any sequence of updates returns, and leaves
  -- each computed total as the fold of the values in order: the sum, the count modulo 2 ^ 64, the
  -- minimum and the maximum. The other totals and the configuration stay.
  pub run-Totals :
      (calls : List (F × TimePoint)) (s : Statistics)
      → s.count < u64_mod
      → is_computed s Tag.histogram ≡ false
      → (s' : Statistics) × (run calls s ≡ some s') × Totals s (map (λ c. c.0) calls) s'
  unfolding run
  run-Totals [] s small off = (
    s,
    refl,
    record {
      config_eq = refl;
      count_lt = small;
      count_eq = count_same (is_computed s Tag.count) s.count small;
      sum_eq = same_if (is_computed s Tag.sum) s.sum;
      min_eq = same_if (is_computed s Tag.min) s.min;
      max_eq = same_if (is_computed s Tag.max) s.max;
    },
  )
  run-Totals ((v, t) ∷ calls) s small off =
      let (s1, e1, h) = update_lem v t s small off in
      let off1 = is_computed-config s s1 Tag.histogram h.config_eq ∙ off in
      let (s2, e2, k) = run-Totals calls s1 h.count_lt off1 in
      (s2, rw e1 e2, Totals-trans s s1 s2 v (map (λ c. c.0) calls) h k)
