-- ===== src/Chrono/Clock/Accuracy.antt =====
-- The offset that `to_system_time` of src/chrono.cpp keeps, where `tsc_clock` reads a clock in
-- nanoseconds: its counts are exact then. With the time stamp counter they go through floating-point
-- conversions.
use handystats.Prelude.{
  ℕ, zero, suc, ◌+◌, ◌≤◌, ◌≡◌, refl, sym, ◌∙◌, Bool, true, false, not, ◌&&◌, ◌||◌, Bool-cases, inl,
  inr, none, some, ℤ, pos, negsuc, ◌+ℤ◌, ◌-ℤ◌, ◌/ℤ◌, ◌≤ℤ◌, ltb_ℤ, ltb→lt, pos_part, neg_part,
  +ℤ_parts, -ℤ_parts, arith, if◌then◌else◌,
}
use handystats.Machine.{Machine}
use handystats.Chrono.Duration.{duration, nsec}
use handystats.Chrono.TimePoint.{TimePoint, ClockType, tsc, system}
use handystats.Chrono.Clock.Offset.{
  Offset, Try, max_update_tries, is_close, find_close, store_offset, is_stale, refresh,
  to_system_time,
}

-- The reads of a round in nanoseconds: the clock before and after, and between them the time of
-- the read of the system clock, on the first clock.
pub record Reading : Type 0 where
  pub start : ℤ
  pub moment : ℤ
  pub end : ℤ

abbrev pub at_nsec : ClockType → ℤ → TimePoint
at_nsec c n = record { since_epoch = duration n nsec; clock = c }

-- The round, when the system clock is `distance` ahead of the other one.
abbrev pub try_of : ℤ → Reading → Try
try_of distance r = record {
  cycles_start = at_nsec tsc r.start;
  current_system_time = at_nsec system (r.moment +ℤ distance);
  cycles_end = at_nsec tsc r.end;
}

abbrev pub Within : ℤ → ℤ → Type 0
Within x y = (x ≤ℤ y +ℤ pos 7500) × (y ≤ℤ x +ℤ pos 7500)

abbrev pub is_narrow : Reading → Bool
is_narrow r = ltb_ℤ (r.end -ℤ r.start) (pos 15_000)

-- Whether one of the rounds from `k` on takes less than 15 microseconds.
abbrev pub any_narrow : ℕ → ℕ → (ℕ → Reading) → Bool
any_narrow zero k f = false
any_narrow (suc left) k f = is_narrow (f k) || any_narrow left (suc k) f

or_right : (b c : Bool) → b ≡ false → (b || c) ≡ c
or_right b c e = rw e refl

or_left : (b c : Bool) → b ≡ true → (b || c) ≡ true
or_left b c e = rw e refl

Halved : ℤ → ℤ → Type 0
Halved d h =
    (pos_part d + neg_part h + neg_part h ≤ pos_part h + pos_part h + neg_part d + 1)
    × (pos_part h + pos_part h + neg_part d ≤ pos_part d + neg_part h + neg_part h)

halved : (d : ℤ) → pos 0 ≤ℤ d → Halved d (d /ℤ pos 2)
unfolding Halved ◌/ℤ◌
halved (pos n) h = (omega arith, omega arith)
halved (negsuc n) h = absurd (omega (arith, h))

-- Halving a distance that is less than 15000.
half_lem :
    (a t b : ℤ)
    → a ≤ℤ t
    → t ≤ℤ b
    → ltb_ℤ (b -ℤ a) (pos 15_000) ≡ true
    → (t ≤ℤ (a +ℤ (b -ℤ a) /ℤ pos 2) +ℤ pos 7500) × ((a +ℤ (b -ℤ a) /ℤ pos 2) ≤ℤ t +ℤ pos 7500)
unfolding Halved
half_lem a t b h k e =
    let d = b -ℤ a in
    let dp = -ℤ_parts b a in
    let near = ltb→lt _ _ e in
    let (up, down) = halved d (omega (arith, dp, h, k)) in
    let mp = +ℤ_parts a (d /ℤ pos 2) in
    let np = +ℤ_parts (a +ℤ d /ℤ pos 2) (pos 7500) in
    let tp = +ℤ_parts t (pos 7500) in
    (
      omega (arith, dp, mp, np, h, k, near, up, down),
      omega (arith, dp, mp, tp, h, k, near, up, down),
    )

module _ ⦃m : Machine⦄ where
  is_close-narrow : (distance : ℤ) (r : Reading) → is_close (try_of distance r) ≡ is_narrow r
  unfolding is_close
  is_close-narrow distance r = refl

  store-eq :
      (distance : ℤ) (r : Reading) (o : Offset)
      → (store_offset (try_of distance r) o).ns_offset
        ≡ (r.moment +ℤ distance) -ℤ (r.start +ℤ (r.end -ℤ r.start) /ℤ pos 2)
  unfolding store_offset
  store-eq distance r o = refl

  find_close-narrow :
      (distance : ℤ) (left k : ℕ) (f : ℕ → Reading)
      → any_narrow left k f ≡ true
      → (j : ℕ) × (find_close left k (λ i. try_of distance (f i)) ≡ some (try_of distance (f j)))
        × (is_narrow (f j) ≡ true)
  unfolding find_close
  find_close-narrow distance zero k f h = cc
  find_close-narrow distance (suc left) k f h = elim (Bool-cases (is_narrow (f k))) [
    | inl e ↦ (k, rw (is_close-narrow distance (f k), e) refl, e)
    | inr e ↦
        (let (j, g, n) = find_close-narrow distance left (suc k) f (sym (or_right _ _ e) ∙ h) in
          (j, rw (is_close-narrow distance (f k), e) g, n))
  ]

  find_close-wide :
      (distance : ℤ) (left k : ℕ) (f : ℕ → Reading)
      → any_narrow left k f ≡ false
      → find_close left k (λ i. try_of distance (f i)) ≡ none
  unfolding find_close
  find_close-wide distance zero k f h = refl
  find_close-wide distance (suc left) k f h = elim (Bool-cases (is_narrow (f k))) [
    | inl e ↦ cc (or_left _ (any_narrow left (suc k) f) e, h)
    | inr e ↦
        rw (is_close-narrow distance (f k), e)
          (find_close-wide distance left (suc k) f (sym (or_right _ _ e) ∙ h))
  ]

  store-Within :
      (distance t : ℤ) (r : Reading) (o : Offset)
      → r.start ≤ℤ r.moment
      → r.moment ≤ℤ r.end
      → is_narrow r ≡ true
      → Within (t +ℤ (store_offset (try_of distance r) o).ns_offset) (t +ℤ distance)
  store-Within distance t r o h k e =
      let mid = r.start +ℤ (r.end -ℤ r.start) /ℤ pos 2 in
      let z = (store_offset (try_of distance r) o).ns_offset in
      let (up, down) = half_lem r.start r.moment r.end h k e in
      let zp : z ≡ (r.moment +ℤ distance) -ℤ mid = store-eq distance r o in
      let p1 = +ℤ_parts r.moment distance in
      let p2 = -ℤ_parts (r.moment +ℤ distance) mid in
      let p3 = +ℤ_parts t ((r.moment +ℤ distance) -ℤ mid) in
      let p4 = +ℤ_parts t distance in
      let p5 = +ℤ_parts (t +ℤ ((r.moment +ℤ distance) -ℤ mid)) (pos 7500) in
      let p6 = +ℤ_parts (t +ℤ distance) (pos 7500) in
      let p7 = +ℤ_parts mid (pos 7500) in
      let p8 = +ℤ_parts r.moment (pos 7500) in
      rw zp (
        omega (arith, up, down, p1, p2, p3, p4, p5, p6, p7, p8),
        omega (arith, up, down, p1, p2, p3, p4, p5, p6, p7, p8),
      )

  -- Whether a call renews the offset.
  abbrev pub renews : TimePoint → (ℕ → Reading) → Offset → Bool
  renews now f o = (is_stale now o && not o.locked) && any_narrow max_update_tries 0 f

  refresh-Within :
      (now : TimePoint) (distance t : ℤ) (f : ℕ → Reading) (o : Offset)
      → ((k : ℕ) → (f k).start ≤ℤ (f k).moment)
      → ((k : ℕ) → (f k).moment ≤ℤ (f k).end)
      → (let o' = refresh now (λ k. try_of distance (f k)) o in
          if renews now f o then Within (t +ℤ o'.ns_offset) (t +ℤ distance) else o' ≡ o)
  unfolding refresh
  refresh-Within now distance t f o h k = elim (Bool-cases (is_stale now o && not o.locked)) [
    | inr e ↦ rw e refl
    | inl e ↦ elim (Bool-cases (any_narrow max_update_tries 0 f)) [
      | inl narrow ↦
          (let (j, g, n) = find_close-narrow distance max_update_tries 0 f narrow in
            rw (e, narrow, g) (store-Within distance t (f j) o (h j) (k j) n))
      | inr wide ↦ rw (e, wide, find_close-wide distance max_update_tries 0 f wide) refl
    ]
  ]

-- Where both clocks are read in nanoseconds and the system clock is ahead of the other by a constant
-- distance, a call of to_system_time gives a time of the system clock that is the given one plus
-- the offset that the call leaves. If the offset is due to be renewed, no other thread renews it and
-- one of the hundred rounds takes less than 15 microseconds, then this time is at most 7500
-- nanoseconds away from the true one; otherwise the offset stays as it was.
pub to_system_time-Within :
    (m : Machine) (now : TimePoint) (distance t : ℤ) (f : ℕ → Reading) (o : Offset)
    → ((k : ℕ) → (f k).start ≤ℤ (f k).moment)
    → ((k : ℕ) → (f k).moment ≤ℤ (f k).end)
    → (x : ℤ) × (o' : Offset) × (to_system_time m now (λ k. try_of distance (f k)) (at_nsec tsc t) o
        ≡ (at_nsec system x, o'))
      × (x ≡ t +ℤ o'.ns_offset)
      × (if renews ⦃m = m⦄ now f o then Within x (t +ℤ distance) else o' ≡ o)
unfolding to_system_time
to_system_time-Within m now distance t f o h k =
    (_, _, refl, refl, refresh-Within ⦃m = m⦄ now distance t f o h k)
