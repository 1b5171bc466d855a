-- ===== src/Config/Options/Usable.antt =====
-- The options of src/config that the statistics can use, and what `configure` makes of them.
use Prim.Native.String.{String}
use handystats.Prelude.{
  ℕ, ◌<◌, ◌≡◌, Bool, true, false, Bool-cases, Option-cases, inl, inr, Option, none, some, pos, ltb,
  eqb_ℤ, of_u64, u64_mod, if◌then◌else◌, arith,
}
use handystats.MathUtils.{◌>>=◌, IfSome, IfSome-bind, anything}
use handystats.Chrono.Duration.{duration, msec, tick, unit_eq}
use handystats.Statistics.State.{Config}
use handystats.Metrics.Timer.{TimerConfig}
use handystats.Config.Options.{
  Rapidjson, positive_at, configure_interval, configure_bins, add_tags, configure_tags, unit_of,
  configure_unit, configure, configure_timer,
}

-- There is at least one bin, the moving interval is not zero, and the rate's unit is one of real
-- time.
pub record Usable (c : Config) : Type 0 where
  pub bins : ltb 0 c.histogram_bins ≡ true
  pub interval : eqb_ℤ c.moving_interval.rep (pos 0) ≡ false
  pub unit : unit_eq c.rate_unit tick ≡ false

of_u64-nonzero : (n : ℕ) → ltb 0 n ≡ true → n < u64_mod → eqb_ℤ (of_u64 n) (pos 0) ≡ false
unfolding of_u64
of_u64-nonzero n h k = ground arith

abbrev Positive : ℕ → Type 0
Positive n = (ltb 0 n ≡ true) × (n < u64_mod)

positive : (n : ℕ) → n < u64_mod → IfSome Positive (if ltb 0 n then some n else none)
positive n lt = elim (Bool-cases (ltb 0 n)) [ inl e ↦ rw e (e, lt) | inr e ↦ rw e tt ]

set_interval :
    (o : Option ℕ) (c : Config)
    → IfSome Positive o
    → Usable c
    → Usable
        (elim o [ none ↦ c | some n ↦ record c { moving_interval = duration (of_u64 n) msec } ])
set_interval none c p h = h
set_interval (some n) c (p, lt) h = record {
  bins = h.bins;
  interval = of_u64-nonzero n p lt;
  unit = h.unit;
}

set_bins :
    (o : Option ℕ) (c : Config)
    → IfSome Positive o
    → Usable c
    → Usable (elim o [ none ↦ c | some n ↦ record c { histogram_bins = n } ])
set_bins none c p h = h
set_bins (some n) c (p, lt) h = record { bins = p; interval = h.interval; unit = h.unit }

module _ ⦃json : Rapidjson⦄ where
  open json use {Value, is_object, member, as_uint64, as_string, as_array}

  positive_at-Positive :
      ((v : Value) → IfSome (λ n. n < u64_mod) (as_uint64 v))
      → (name : String) (v : Value) → IfSome Positive (positive_at name v)
  unfolding positive_at
  positive_at-Positive small name v =
      IfSome-bind (λ _. Unit {0}) Positive (member v name) _ (anything (member v name))
        λ x _.
          IfSome-bind (λ n. n < u64_mod) Positive (as_uint64 x) _ (small x) λ n lt. positive n lt

  configure_interval-Usable :
      ((v : Value) → IfSome (λ n. n < u64_mod) (as_uint64 v))
      → (v : Value) (c : Config) → Usable c
      → Usable (configure_interval v c)
  unfolding configure_interval
  configure_interval-Usable small v c h =
      set_interval (positive_at "moving-interval" v) c
        (positive_at-Positive small "moving-interval" v) h

  configure_bins-Usable :
      ((v : Value) → IfSome (λ n. n < u64_mod) (as_uint64 v))
      → (v : Value) (c : Config) → Usable c
      → Usable (configure_bins v c)
  unfolding configure_bins
  configure_bins-Usable small v c h =
      set_bins (positive_at "histogram-bins" v) c (positive_at-Positive small "histogram-bins" v) h

  with_tags : (c : Config) (tags : ℕ) → Usable c → Usable (record c { tags = tags })
  with_tags c tags h = record { bins = h.bins; interval = h.interval; unit = h.unit }

  configure_tags-Usable : (v : Value) (c : Config) → Usable c → IfSome Usable (configure_tags v c)
  unfolding configure_tags
  configure_tags-Usable v c h = elim (Option-cases (member v "tags" >>= as_array)) [
    | inl e ↦ rw (e, configure_tags) h
    | inr (vs, e) ↦
        rw (e, configure_tags)
          (IfSome-bind (λ _. Unit {0}) Usable (add_tags vs 0) _ (anything (add_tags vs 0))
            λ tags _. with_tags c tags h)
  ]

  with_unit :
      (c : Config) (s : String)
      → Usable c
      → Usable (if unit_eq (unit_of s) tick then c else record c { rate_unit = unit_of s })
  with_unit c s h = elim (Bool-cases (unit_eq (unit_of s) tick)) [
    | inl e ↦ rw e h
    | inr e ↦ rw e (record { bins = h.bins; interval = h.interval; unit = e })
  ]

  configure_unit-Usable : (v : Value) (c : Config) → Usable c → Usable (configure_unit v c)
  unfolding configure_unit
  configure_unit-Usable v c h = elim (Option-cases (member v "rate-unit" >>= as_string)) [
    | inl e ↦ rw (e, configure_unit) h
    | inr (s, e) ↦ rw (e, configure_unit) (with_unit c s h)
  ]

  if-IfSome :
      {A : Type 0} (P : A → Type 0) (b : Bool) (x y : Option A)
      → IfSome P x
      → IfSome P y
      → IfSome P (if b then x else y)
  if-IfSome P true x y h k = h
  if-IfSome P false x y h k = k

  pub configure-Usable :
      ((v : Value) → IfSome (λ n. n < u64_mod) (as_uint64 v))
      → (v : Value) (c : Config) → Usable c
      → IfSome Usable (configure v c)
  unfolding configure
  configure-Usable small v c h =
      let c2 = configure_bins v (configure_interval v c) in
      let h2 =
        configure_bins-Usable small v (configure_interval v c)
          (configure_interval-Usable small v c h) in
      if-IfSome Usable (is_object v) _ (some c)
        (IfSome-bind Usable Usable (configure_tags v c2) _ (configure_tags-Usable v c2 h2)
          λ c3 h3. configure_unit-Usable v c3 h3)
        h

  pub configure_timer-Usable :
      ((v : Value) → IfSome (λ n. n < u64_mod) (as_uint64 v))
      → (v : Value) (o : TimerConfig) → Usable o.values
      → IfSome (λ t. Usable t.values) (configure_timer v o)
  unfolding configure_timer
  configure_timer-Usable small v o h =
      if-IfSome (λ (t : TimerConfig). Usable t.values) (is_object v) _ (some o)
        (IfSome-bind Usable (λ (t : TimerConfig). Usable t.values) (configure v o.values) _
          (configure-Usable small v o.values h) λ c p. p)
        h
