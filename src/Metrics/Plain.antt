-- ===== src/Metrics/Plain.antt =====
-- Metrics that keep no histogram, as the library's own gauges and its counter do.
pub mod Timers
use handystats.Prelude.{
  ℕ, ◌<◌, ◌≡◌, refl, ap, ◌∙◌, true, false, Bool, Bool-cases, inl, inr, Option, some, ℤ, pos, ◌+ℤ◌,
  ◌-ℤ◌, arith, u64_mod, if◌then◌else◌,
}
use handystats.Machine.{Machine}
use handystats.MathUtils.{◌>>=◌}
use handystats.Chrono.TimePoint.{TimePoint, epoch, eq, lt}
use handystats.Statistics.Tag
use handystats.Statistics.State.{Config, Statistics, initial, reset, is_computed}
use handystats.Statistics.Update.Totals.{update_lem, is_computed-config}
use handystats.Statistics.Update.{update_time}
use handystats.Statistics.Update.Aging.{update_time-SameTotals}
use handystats.Metrics.Gauge
use handystats.Metrics.Counter

-- A call that returns a value with this property.
abbrev pub Returns {ℓ κ} : {A : Type ℓ} → (A → Type κ) → Option A → Type (ℓ ⊔ κ)
Returns P o = (a : _) × (o ≡ some a) × P a

pub Returns-if {ℓ κ} :
    {A : Type ℓ} (P : A → Type κ) (b : Bool) (x y : Option A)
    → Returns P x
    → Returns P y
    → Returns P (if b then x else y)
Returns-if P true x y h k = h
Returns-if P false x y h k = k

module _ ⦃m : Machine⦄ where
  open m use {F, of_ℤ}

  abbrev pub IsPlain : Statistics → Type 0
  IsPlain s = (s.count < u64_mod) × (is_computed s Tag.histogram ≡ false)

  pub initial-IsPlain :
      (c : Config) → Tag.computed c.tags Tag.histogram ≡ false → IsPlain (initial c)
  unfolding initial is_computed
  initial-IsPlain c off = (omega arith, off)

  pub create-IsPlain :
      (c : Config) → Tag.computed c.tags Tag.histogram ≡ false → IsPlain (Gauge.create c).values
  unfolding Gauge.create
  create-IsPlain c off = initial-IsPlain c off

  pub set-IsPlain :
      (v : F) (t : TimePoint) (g : Gauge.Gauge)
      → IsPlain g.values
      → (g' : Gauge.Gauge) × (Gauge.set v t g ≡ some g') × IsPlain g'.values
  unfolding Gauge.set
  set-IsPlain v t g (small, off) =
      let (s, e, tot) = update_lem v t g.values small off in
      (
        record { values = s },
        rw e,
        (tot.count_lt, is_computed-config g.values s Tag.histogram tot.config_eq ∙ off),
      )

  abbrev pub Counts : Option Counter.Counter → Type 0
  Counts = Returns λ c. IsPlain c.values

  moved-IsPlain :
      (v : ℤ) (t : TimePoint) (c : Counter.Counter)
      → IsPlain c.values
      → Counts (Counter.moved v t c)
  unfolding Counter.moved
  moved-IsPlain v t c (small, off) =
      let t' = if lt c.timestamp t then t else c.timestamp in
      let (s, e, tot) = update_lem (of_ℤ v) t' c.values small off in
      (
        record { values = s; value = v; timestamp = t' },
        rw e,
        (tot.count_lt, is_computed-config c.values s Tag.histogram tot.config_eq ∙ off),
      )

  pub init-IsPlain :
      (v : ℤ) (t : TimePoint) (c : Counter.Counter) → IsPlain c.values → Counts (Counter.init v t c)
  unfolding Counter.init reset initial is_computed
  init-IsPlain v t c (small, off) =
      let (s, e, tot) = update_lem (of_ℤ v) t (initial c.values.config) (omega arith) off in
      (
        record { values = s; value = v; timestamp = t },
        rw e,
        (
          tot.count_lt,
          is_computed-config (initial c.values.config) s Tag.histogram tot.config_eq ∙ off,
        ),
      )

  started-IsPlain :
      (t : TimePoint) (c : Counter.Counter) → IsPlain c.values → Counts (Counter.started t c)
  unfolding Counter.started
  started-IsPlain t c plain = elim (Bool-cases (eq c.timestamp epoch)) [
    | inl e ↦ rw e (init-IsPlain (pos 0) t c plain)
    | inr e ↦ rw e (c, refl, plain)
  ]

  pub increment-IsPlain :
      (d : ℤ) (t : TimePoint) (c : Counter.Counter)
      → IsPlain c.values
      → Counts (Counter.increment d t c)
  unfolding Counter.increment
  increment-IsPlain d t c plain =
      let (c1, e1, p1) = started-IsPlain t c plain in
      let (c2, e2, p2) = moved-IsPlain (c1.value +ℤ d) t c1 p1 in (c2, rw e1 e2, p2)

  pub decrement-IsPlain :
      (d : ℤ) (t : TimePoint) (c : Counter.Counter)
      → IsPlain c.values
      → Counts (Counter.decrement d t c)
  unfolding Counter.decrement
  decrement-IsPlain d t c plain =
      let (c1, e1, p1) = started-IsPlain t c plain in
      let (c2, e2, p2) = moved-IsPlain (c1.value -ℤ d) t c1 p1 in (c2, rw e1 e2, p2)

  pub update_time-IsPlain : (t : TimePoint) (s : Statistics) → IsPlain s → IsPlain (update_time t s)
  update_time-IsPlain t s (small, off) =
      let same = update_time-SameTotals t s in
      (
        omega (arith, small, same.count_eq),
        is_computed-config s (update_time t s) Tag.histogram same.config_eq ∙ off,
      )

  pub update_gauge-IsPlain :
      (t : TimePoint) (g : Gauge.Gauge)
      → IsPlain g.values
      → IsPlain (Gauge.update_statistics t g).values
  unfolding Gauge.update_statistics
  update_gauge-IsPlain t g h = update_time-IsPlain t g.values h

  pub update_counter-IsPlain :
      (t : TimePoint) (c : Counter.Counter)
      → IsPlain c.values
      → IsPlain (Counter.update_statistics t c).values
  unfolding Counter.update_statistics
  update_counter-IsPlain t c h = update_time-IsPlain t c.values h
