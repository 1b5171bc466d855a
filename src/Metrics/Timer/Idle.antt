-- ===== src/Metrics/Timer/Idle.antt =====
-- How an instance of a timer ends without a measurement.
use handystats.Prelude.{
  ℕ, ◌≡◌, ◌⊎◌, refl, true, false, not, ◌&&◌, Bool-cases, inl, inr, Option, some, none,
}
use handystats.Machine.{Machine}
use handystats.Chrono.TimePoint.{TimePoint, lt, advance}
use handystats.Metrics.Timer.{
  Timer, InstanceState, assign, expired, sweep, check_idle_timeout, stop, heartbeat, discard,
}
use handystats.Metrics.Timer.Check.{check-values, check-idle_timeout, assign_self}

module _ ⦃m : Machine⦄ where
  -- After the check an expired instance is erased, or is as it was.
  check-expired :
      (t : TimePoint) (tm : Timer) (id : ℕ) (i : InstanceState)
      → tm.instances id ≡ some i
      → expired i tm.idle_timeout t ≡ true
      → ((check_idle_timeout t false tm).instances id ≡ none)
        ⊎ ((check_idle_timeout t false tm).instances id ≡ some i)
  unfolding check_idle_timeout sweep
  check-expired t tm id i here dead =
      elim (Bool-cases (not false && lt t (advance tm.idle_check_timestamp tm.idle_timeout))) [
        | inl e ↦ inr (rw e here)
        | inr e ↦ inl (rw e (rw (here, sweep) (rw dead)))
      ]

  -- How a call has ended the instance `id` of the timer: it returns, the instance is gone, and the
  -- statistics are as before.
  abbrev pub Ends : ℕ → Timer → Option Timer → Type 0
  Ends id tm o =
      (tm' : Timer) × (o ≡ some tm') × (tm'.instances id ≡ none) × (tm'.values ≡ tm.values)

  check-unknown :
      (t : TimePoint) (tm : Timer) (id : ℕ)
      → tm.instances id ≡ none
      → (check_idle_timeout t false tm).instances id ≡ none
  unfolding check_idle_timeout sweep
  check-unknown t tm id here =
      elim (Bool-cases (not false && lt t (advance tm.idle_check_timestamp tm.idle_timeout))) [
        | inl e ↦ rw e here
        | inr e ↦ rw e (rw (here, sweep))
      ]

  abbrev erased : ℕ → TimePoint → Timer → Timer
  erased id t tm =
      let tm' = check_idle_timeout t false tm in
      record tm' { instances = assign tm'.instances id none }

  erased-Ends : (id : ℕ) (t : TimePoint) (tm : Timer) → Ends id tm (some (erased id t tm))
  erased-Ends id t tm = (
    erased id t tm,
    refl,
    assign_self (check_idle_timeout t false tm).instances id none,
    check-values t false tm,
  )

  -- The check has left no instance `id`.
  missing-Ends :
      (id : ℕ) (t : TimePoint) (tm : Timer)
      → (check_idle_timeout t false tm).instances id ≡ none
      → Ends id tm (stop id t tm) × Ends id tm (some (heartbeat id t tm))
  unfolding stop heartbeat
  missing-Ends id t tm gone =
      let tm' = check_idle_timeout t false tm in
      (
        (tm', rw (gone, stop), gone, check-values t false tm),
        (tm', rw (gone, heartbeat), gone, check-values t false tm),
      )

  -- The check has left an instance that is expired.
  dead-Ends :
      (id : ℕ) (t : TimePoint) (tm : Timer) (i : InstanceState)
      → (check_idle_timeout t false tm).instances id ≡ some i
      → expired i tm.idle_timeout t ≡ true
      → Ends id tm (stop id t tm) × Ends id tm (some (heartbeat id t tm))
  unfolding stop heartbeat
  dead-Ends id t tm i here dead =
      let x = erased id t tm in
      let gone = assign_self (check_idle_timeout t false tm).instances id none in
      let same = check-values t false tm in
      let dead' : expired i (check_idle_timeout t false tm).idle_timeout t ≡ true =
        rw (check-idle_timeout t false tm) dead in
      (
        (x, rw (here, stop) (rw dead'), gone, same),
        (x, rw (here, heartbeat) (rw dead'), gone, same),
      )

  -- At an instance that has expired, a stop, a heartbeat and a discard do the same: the call
  -- returns, the instance is gone, and the statistics are as before, with no measurement.
  pub expired_unmeasured :
      (id : ℕ) (t : TimePoint) (tm : Timer) (i : InstanceState)
      → tm.instances id ≡ some i
      → expired i tm.idle_timeout t ≡ true
      → Ends id tm (stop id t tm)
        × Ends id tm (some (heartbeat id t tm))
        × Ends id tm (some (discard id t tm))
  unfolding discard
  expired_unmeasured id t tm i here dead =
      let (stopped, beaten) : Ends id tm (stop id t tm) × Ends id tm (some (heartbeat id t tm)) =
        elim (check-expired t tm id i here dead) [
          | inl gone ↦ missing-Ends id t tm gone
          | inr kept ↦ dead-Ends id t tm i kept dead
        ] in
      (stopped, beaten, erased-Ends id t tm)

  -- At an instance that is not there, a stop and a heartbeat return, measure nothing and start
  -- nothing.
  pub unknown_unmeasured :
      (id : ℕ) (t : TimePoint) (tm : Timer)
      → tm.instances id ≡ none
      → Ends id tm (stop id t tm) × Ends id tm (some (heartbeat id t tm))
  unknown_unmeasured id t tm unknown = missing-Ends id t tm (check-unknown t tm id unknown)
