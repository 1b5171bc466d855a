-- ===== src/Metrics/Timer/Check.antt =====
-- What the check of the idle timeout keeps and erases.
use handystats.Prelude.{ℕ, ◌≡◌, Bool, false, not, ◌&&◌, Bool-cases, inl, inr, Option, some, arith}
use handystats.Machine.{Machine}
use handystats.Chrono.TimePoint.{TimePoint, lt, advance}
use handystats.Metrics.Timer.{
  Timer, Instances, InstanceState, assign, expired, sweep, check_idle_timeout,
}

abbrev pub fresh : TimePoint → InstanceState
fresh t = record { start_timestamp = t; heartbeat_timestamp = t }

pub assign_self : (f : Instances) (id : ℕ) (v : Option InstanceState) → assign f id v id ≡ v
unfolding assign
assign_self f id v = ground arith

module _ ⦃m : Machine⦄ where
  open m use {of_ℤ}

  pub check-values :
      (t : TimePoint) (f : Bool) (tm : Timer) → (check_idle_timeout t f tm).values ≡ tm.values
  unfolding check_idle_timeout
  check-values t f tm =
      elim (Bool-cases (not f && lt t (advance tm.idle_check_timestamp tm.idle_timeout))) [
        | inl e ↦ rw e
        | inr e ↦ rw e
      ]

  pub check-idle_timeout :
      (t : TimePoint) (f : Bool) (tm : Timer)
      → (check_idle_timeout t f tm).idle_timeout ≡ tm.idle_timeout
  unfolding check_idle_timeout
  check-idle_timeout t f tm =
      elim (Bool-cases (not f && lt t (advance tm.idle_check_timestamp tm.idle_timeout))) [
        | inl e ↦ rw e
        | inr e ↦ rw e
      ]

  -- The check keeps an instance that has not expired.
  pub check-keeps :
      (t : TimePoint) (f : Bool) (tm : Timer) (id : ℕ) (i : InstanceState)
      → tm.instances id ≡ some i
      → expired i tm.idle_timeout t ≡ false
      → (check_idle_timeout t f tm).instances id ≡ some i
  unfolding check_idle_timeout sweep
  check-keeps t f tm id i here alive =
      elim (Bool-cases (not f && lt t (advance tm.idle_check_timestamp tm.idle_timeout))) [
        | inl e ↦ rw e here
        | inr e ↦ rw e (rw (here, sweep) (rw alive))
      ]
