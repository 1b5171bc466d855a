-- ===== src/Chrono/Clock/Offset.antt =====
-- `to_system_time` of src/chrono.cpp: how it renews the offset between the two clocks. Its static
-- variables are a state that a call takes and gives back; `locked` is whether another thread is in
-- the part that the flag protects.
use handystats.Prelude.{
  ℕ, zero, suc, ◌*◌, Bool, not, ◌&&◌, ◌||◌, Option, none, some, ℤ, pos, eqb_ℤ, if◌then◌else◌,
}
use handystats.Machine.{Machine}
use handystats.Chrono.Duration as Durations
use handystats.Chrono.Duration.{Duration, duration, nsec, minus, convert_to}
use handystats.Chrono.Duration.Arithmetic.{div_count}
use handystats.Chrono.TimePoint
use handystats.Chrono.TimePoint.{TimePoint, advance, elapsed}

-- `ns_offset`, `offset_timestamp` and `lock`.
pub record Offset : Type 0 where
  pub ns_offset : ℤ
  pub offset_timestamp : ℤ
  pub locked : Bool

abbrev pub offset_timeout : Duration
offset_timeout = duration (pos (15 * 1_000_000_000)) nsec

abbrev pub close_distance : Duration
close_distance = duration (pos (15 * 1000)) nsec

abbrev pub max_update_tries : ℕ
max_update_tries = 100

-- The reads of the two clocks in one round of the loop.
pub record Try : Type 0 where
  pub cycles_start : TimePoint
  pub current_system_time : TimePoint
  pub cycles_end : TimePoint

module _ ⦃m : Machine⦄ where
  unfoldable pub is_close : Try → Bool
  unfolding elapsed Durations.lt
  is_close t = Durations.lt (elapsed t.cycles_end t.cycles_start) close_distance

  -- The loop, with the number of rounds left and of the next one: the close round that it finds.
  unfoldable pub find_close : ℕ → ℕ → (ℕ → Try) → Option Try
  unfolding is_close
  find_close zero k tries = none
  find_close (suc left) k tries =
      let rest = find_close left (suc k) tries in
      if is_close (tries k) then some (tries k) else rest

  unfoldable pub cycles_middle : Try → TimePoint
  unfolding advance elapsed div_count
  cycles_middle t = advance t.cycles_start (div_count (elapsed t.cycles_end t.cycles_start) (pos 2))

  -- The two stores after a close round.
  unfoldable pub store_offset : Try → Offset → Offset
  unfolding cycles_middle convert_to minus
  store_offset t o = record o {
    ns_offset =
        (convert_to nsec
          (minus t.current_system_time.since_epoch (cycles_middle t).since_epoch)).rep;
    offset_timestamp = (cycles_middle t).since_epoch.rep;
  }

  -- The condition of the renewal, at the time that `tsc_clock::now` gave.
  unfoldable pub is_stale : TimePoint → Offset → Bool
  unfolding minus Durations.gt
  is_stale now o =
      eqb_ℤ o.offset_timestamp (pos 0)
      || Durations.gt (minus now.since_epoch (duration o.offset_timestamp now.since_epoch.unit))
          offset_timeout

  unfoldable pub refresh : TimePoint → (ℕ → Try) → Offset → Offset
  unfolding is_stale find_close store_offset
  refresh now tries o =
      if is_stale now o && not o.locked
      then elim (find_close max_update_tries 0 tries) [ none ↦ o | some t ↦ store_offset t o ]
      else o

-- The conversion reads the offset after the renewal.
unfoldable pub to_system_time :
    Machine → TimePoint → (ℕ → Try) → TimePoint → Offset → TimePoint × Offset
unfolding refresh TimePoint.to_system_time
to_system_time m now tries t o =
    let o' = refresh ⦃m = m⦄ now tries o in
    (TimePoint.to_system_time ⦃m = record m { ns_offset = o'.ns_offset }⦄ t, o')
