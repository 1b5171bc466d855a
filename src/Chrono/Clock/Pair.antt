-- ===== src/Chrono/Clock/Pair.antt =====
-- `get_simultaneous_pair` of src/chrono/tsc_clock.cpp.
use handystats.Prelude.{
  ◌+◌, ◌≤◌, ◌<◌, ◌≡◌, refl, ℕ, Bool, true, false, ◌⊎◌, inl, inr, Option, none, some, some_inj, List,
  [], ◌∷◌, ltb, ltb→lt, All, u64_mod, arith, if◌then◌else◌,
}
use handystats.Chrono.Clock.{ClockSource, get_cycles_count, get_nanoseconds}
use handystats.Chrono.Clock.Calibration.{Round, gap, cycles_delta, get_simultaneous_pair}

-- The counter does not go back in a round, and stays clear of its largest value.
abbrev pub InOrder : ClockSource → Round → Type 0
InOrder source r =
    (get_cycles_count source r.before ≤ get_cycles_count source r.between)
    × (get_cycles_count source r.between ≤ get_cycles_count source r.after)
    × (get_cycles_count source r.after + cycles_delta < u64_mod)

-- The first of the rounds whose counts are close.
abbrev pub first_close : ClockSource → List Round → Option Round
first_close source [] = none
first_close source (r ∷ rs) =
    if ltb (gap source r) cycles_delta then some r else first_close source rs

if-some :
    {A : Type 0} (b : Bool) (x r : A) (o : Option A)
    → (if b then some x else o) ≡ some r
    → ((b ≡ true) × (x ≡ r)) ⊎ ((b ≡ false) × (o ≡ some r))
if-some true x r o e = inl (refl, some_inj x r e)
if-some false x r o e = inr (refl, e)

-- The loop for a pair ends at the first round whose counts are close, if there is one. It gives the
-- nanoseconds read in this round and a count that is at most 7500 cycles away from that of the
-- moment of this read, if the counter did not go back in the rounds and did not wrap.
pub pair_close :
    (source : ClockSource) (monotonic : Bool) (rs : List Round) (r : Round)
    → All (InOrder source) rs
    → first_close source rs ≡ some r
    → (k : ℕ) × (get_simultaneous_pair source monotonic rs
        ≡ some (k, get_nanoseconds monotonic r.between))
      × (get_cycles_count source r.between ≤ k + 7500)
      × (k ≤ get_cycles_count source r.between + 7500)
unfolding get_simultaneous_pair
pair_close source monotonic [] r a e = cc
pair_close source monotonic (x ∷ xs) r ((p, q, fits), a) e =
    elim (if-some (ltb (gap source x) cycles_delta) x r (first_close source xs) e) [
      | inl (close, same) ↦
          (let near = ltb→lt (gap source x) cycles_delta close in
            rw close (
              rw (← same)
                ((_, refl, omega (arith, near, p, q, fits), omega (arith, near, p, q, fits)))))
      | inr (far, later) ↦
          (let (k, f, g, l) = pair_close source monotonic xs r a later in (k, rw far f, g, l))
    ]
