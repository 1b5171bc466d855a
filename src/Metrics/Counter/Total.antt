-- ===== src/Metrics/Counter/Total.antt =====
-- The value of a counter is the sum of its changes, and its statistics see each running value.
use handystats.Prelude.{
  ◌≡◌, refl, ap, ◌∙◌, true, false, Bool-cases, inl, inr, Option, some, List, [], ◌∷◌, map, ◌<◌, ℤ,
  pos, ◌+ℤ◌, ◌-ℤ◌, eqb_ℤ, if◌then◌else◌, arith, u64_mod,
}
use handystats.Machine.{Machine}
use handystats.MathUtils.{◌>>=◌}
use handystats.Chrono.TimePoint.{TimePoint, epoch, eq, lt}
use handystats.Chrono.TimePoint.Ticks.{at_tick, tick_operators}
use handystats.Chrono.Duration.{duration, tick}
use handystats.Statistics.Tag
use handystats.Statistics.State.{Config, Statistics, initial, reset, is_computed}
use handystats.Statistics.Update.Totals.{Totals, Totals-trans, update_lem, is_computed-config}
use handystats.Metrics.Counter.{Counter, create, init, started, moved, increment, decrement}

-- A call of `increment` or of `decrement`: the change and the count of ticks of its time point.
pub data Change : Type 0 where
  up : ℤ → ℤ → Change
  down : ℤ → ℤ → Change

abbrev pub time_of : Change → ℤ
time_of (up d n) = n
time_of (down d n) = n

abbrev pub moved_by : ℤ → Change → ℤ
moved_by v (up d n) = v +ℤ d
moved_by v (down d n) = v -ℤ d

-- The running values of a counter that starts at `v`, and the last of them.
abbrev pub running : ℤ → List Change → List ℤ
running v [] = []
running v (x ∷ xs) = moved_by v x ∷ running (moved_by v x) xs

abbrev pub total : ℤ → List Change → ℤ
total v [] = v
total v (x ∷ xs) = total (moved_by v x) xs

-- No call is at the time point `time_point()`, which stands for a counter that has no value yet.
abbrev pub Timed : List Change → Type 0
Timed [] = Unit
Timed (x ∷ xs) = (eqb_ℤ (time_of x) (pos 0) ≡ false) × Timed xs

module _ ⦃m : Machine⦄ where
  open m use {of_ℤ}

  unfoldable pub apply : Change → Counter → Option Counter
  apply (up d n) c = increment d (at_tick n) c
  apply (down d n) c = decrement d (at_tick n) c

  unfoldable pub replay : List Change → Counter → Option Counter
  replay [] c = some c
  replay (x ∷ xs) c = apply x c >>= replay xs

  -- A counter that has a value.
  abbrev pub IsStarted : Counter → Type 0
  IsStarted c = (n : ℤ) × (c.timestamp ≡ at_tick n) × (eqb_ℤ n (pos 0) ≡ false)

  IsStarted-eq : (c : Counter) → IsStarted c → eq c.timestamp epoch ≡ false
  IsStarted-eq c (n, e, h) = rw e ((tick_operators n (pos 0) (duration n tick)).6 ∙ h)

  later-IsStarted :
      (k n : ℤ) (t : TimePoint)
      → t ≡ at_tick k
      → eqb_ℤ k (pos 0) ≡ false
      → eqb_ℤ n (pos 0) ≡ false
      → (j : ℤ) × ((if lt t (at_tick n) then at_tick n else t) ≡ at_tick j)
        × (eqb_ℤ j (pos 0) ≡ false)
  later-IsStarted k n t e h g = elim (Bool-cases (lt t (at_tick n))) [
    | inl b ↦ (n, rw b, g)
    | inr b ↦ (k, rw b e, h)
  ]

  -- What a call leaves, with the values that the statistics have seen.
  abbrev Leaves : Statistics → Option Counter → ℤ → List ℤ → Type 0
  Leaves s o v seen =
      (c' : Counter) × (o ≡ some c')
      × (c'.value ≡ v)
      × IsStarted c'
      × Totals s (map of_ℤ seen) c'.values

  moved_lem :
      (v n : ℤ) (c : Counter)
      → IsStarted c
      → eqb_ℤ n (pos 0) ≡ false
      → c.values.count < u64_mod
      → is_computed c.values Tag.histogram ≡ false
      → Leaves c.values (moved v (at_tick n) c) v (v ∷ [])
  unfolding moved
  moved_lem v n c (k, e, h) g small off =
      let t' = if lt c.timestamp (at_tick n) then at_tick n else c.timestamp in
      let (s, r, tot) = update_lem (of_ℤ v) t' c.values small off in
      (
        record { values = s; value = v; timestamp = t' },
        rw r,
        refl,
        later-IsStarted k n c.timestamp e h g,
        tot,
      )

  eq-create : (opts : Config) → eq (create opts).timestamp epoch ≡ true
  unfolding create
  eq-create opts = (tick_operators (pos 0) (pos 0) (duration (pos 0) tick)).6

  apply-started :
      (x : Change) (c : Counter) (v : ℤ)
      → c.value ≡ v
      → eq c.timestamp epoch ≡ false
      → apply x c ≡ moved (moved_by v x) (at_tick (time_of x)) c
  unfolding apply increment decrement started
  apply-started (up d n) c v same e = rw e (ap (λ y. moved (y +ℤ d) (at_tick n) c) same)
  apply-started (down d n) c v same e = rw e (ap (λ y. moved (y -ℤ d) (at_tick n) c) same)

  replay_lem :
      (xs : List Change) (c : Counter) (v : ℤ)
      → c.value ≡ v
      → IsStarted c
      → Timed xs
      → c.values.count < u64_mod
      → is_computed c.values Tag.histogram ≡ false
      → (s : Statistics) (w : ℤ) → Totals s (of_ℤ w ∷ []) c.values
      → Leaves s (replay xs c) (total v xs) (w ∷ running v xs)
  unfolding replay
  replay_lem [] c v same st timed small off s w tot = (c, refl, same, st, tot)
  replay_lem (x ∷ xs) c v same st (g, timed) small off s w tot =
      let v' = moved_by v x in
      let (c1, e1, v1, st1, tot1) = moved_lem v' (time_of x) c st g small off in
      let off1 = is_computed-config c.values c1.values Tag.histogram tot1.config_eq ∙ off in
      let (c2, e2, v2, st2, tot2) =
        replay_lem xs c1 v' v1 st1 timed tot1.count_lt off1 c.values v' tot1 in
      (
        c2,
        rw (apply-started x c v same (IsStarted-eq c st), e1) e2,
        v2,
        st2,
        Totals-trans s c.values c2.values (of_ℤ w) (map of_ℤ (v' ∷ running v' xs)) tot tot2,
      )

  quiet :
      (opts : Config)
      → Tag.computed opts.tags Tag.histogram ≡ false
      → is_computed (initial opts) Tag.histogram ≡ false
  unfolding is_computed initial
  quiet opts off = off

  init_lem :
      (n : ℤ) (opts : Config)
      → eqb_ℤ n (pos 0) ≡ false
      → Tag.computed opts.tags Tag.histogram ≡ false
      → Leaves (initial opts) (init (pos 0) (at_tick n) (create opts)) (pos 0) (pos 0 ∷ [])
  unfolding init create reset initial is_computed
  init_lem n opts g off =
      let (s, r, tot) = update_lem (of_ℤ (pos 0)) (at_tick n) (initial opts) (omega arith) off in
      (record { values = s; value = pos 0; timestamp = at_tick n }, rw r, refl, (n, refl, g), tot)

  -- The first call on a new counter gives it the value 0 first.
  apply-create :
      (x : Change) (opts : Config) (c : Counter)
      → init (pos 0) (at_tick (time_of x)) (create opts) ≡ some c
      → eq c.timestamp epoch ≡ false
      → apply x (create opts) ≡ apply x c
  unfolding apply increment decrement started
  apply-create (up d n) opts c e h = rw (eq-create opts, e, h)
  apply-create (down d n) opts c e h = rw (eq-create opts, e, h)

  -- A new counter that keeps no histogram, and any calls of `increment` and `decrement` at time
  -- points other than `time_point()`: every call returns, the last value is the sum of the changes
  -- (a decrement counts negative), and the totals of the statistics are those of the sequence of
  -- all running values, the 0 of the first call included.
  pub counter_total :
      (opts : Config) (x : Change) (xs : List Change)
      → Tag.computed opts.tags Tag.histogram ≡ false
      → Timed (x ∷ xs)
      → (c : Counter) × (replay (x ∷ xs) (create opts) ≡ some c)
        × (c.value ≡ total (pos 0) (x ∷ xs))
        × Totals (initial opts) (map of_ℤ (pos 0 ∷ running (pos 0) (x ∷ xs))) c.values
  unfolding replay
  counter_total opts x xs off (g, timed) =
      let (c, e, v, st, tot) = init_lem (time_of x) opts g off in
      let off1 =
        is_computed-config (initial opts) c.values Tag.histogram tot.config_eq ∙ quiet opts off in
      let (c1, e1, v1, st1, tot1) =
        replay_lem (x ∷ xs) c (pos 0) v st (g, timed) tot.count_lt off1 (initial opts) (pos 0)
          tot in
      (c1, rw (apply-create x opts c e (IsStarted-eq c st)) e1, v1, tot1)
