-- ===== src/Metrics/Plain/Timers.antt =====
-- The operations of src/metrics/timer.cpp on timers that keep no histogram.
use handystats.Prelude.{
  ℕ, refl, ◌∙◌, Bool, true, false, Option-cases, inl, inr, Option, none, some, if◌then◌else◌,
}
use handystats.Machine.{Machine}
use handystats.MathUtils.{◌>>=◌}
use handystats.Chrono.Duration.{Duration, convert_to}
use handystats.Chrono.TimePoint.{TimePoint}
use handystats.Statistics.Tag
use handystats.Statistics.Update.{update}
use handystats.Statistics.Update.Totals.{update_lem, is_computed-config}
use handystats.Metrics.Timer
use handystats.Metrics.Timer.Check.{check-values}
use handystats.Metrics.Plain.{IsPlain, Returns, Returns-if}

module _ ⦃m : Machine⦄ where
  open m use {F, of_ℤ}

  check-IsPlain :
      (t : TimePoint) (force : Bool) (tm : Timer.Timer)
      → IsPlain tm.values
      → IsPlain (Timer.check_idle_timeout t force tm).values
  check-IsPlain t force tm h = rw (check-values t force tm) h

  abbrev pub Times : Option Timer.Timer → Type 0
  Times = Returns λ tm. IsPlain tm.values

  measured-IsPlain :
      (v : F) (t : TimePoint) (tm tm' : Timer.Timer)
      → IsPlain tm.values
      → Times (update v t tm.values >>= λ s. some (record tm' { values = s }))
  measured-IsPlain v t tm tm' (small, off) =
      let (s, e, tot) = update_lem v t tm.values small off in
      (
        record tm' { values = s },
        rw e refl,
        (tot.count_lt, is_computed-config tm.values s Tag.histogram tot.config_eq ∙ off),
      )

  pub timer_set-IsPlain :
      (d : Duration) (t : TimePoint) (tm : Timer.Timer)
      → IsPlain tm.values
      → Times (Timer.set d t tm)
  unfolding Timer.set
  timer_set-IsPlain d t tm h = measured-IsPlain (of_ℤ (convert_to Timer.value_unit d).rep) t tm tm h

  pub stop-IsPlain :
      (id : ℕ) (t : TimePoint) (tm : Timer.Timer) → IsPlain tm.values → Times (Timer.stop id t tm)
  unfolding Timer.stop
  stop-IsPlain id t tm h =
      let tm' = Timer.check_idle_timeout t false tm in
      let h' = check-IsPlain t false tm h in
      elim (Option-cases (tm'.instances id)) [
        | inl e ↦ rw (e, Timer.stop) (tm', refl, h')
        | inr (i, e) ↦
            rw (e, Timer.stop)
              (Returns-if (λ x. IsPlain x.values) (Timer.expired i tm'.idle_timeout t) _ _
                (record tm' { instances = Timer.assign tm'.instances id none }, refl, h')
                (measured-IsPlain (of_ℤ (Timer.measured i t).rep) t tm'
                  (record tm' { instances = Timer.assign tm'.instances id none }) h'))
      ]

  pub start-IsPlain :
      (id : ℕ) (t : TimePoint) (tm : Timer.Timer)
      → IsPlain tm.values
      → IsPlain (Timer.start id t tm).values
  unfolding Timer.start
  start-IsPlain id t tm h = check-IsPlain t false tm h

  pub discard-IsPlain :
      (id : ℕ) (t : TimePoint) (tm : Timer.Timer)
      → IsPlain tm.values
      → IsPlain (Timer.discard id t tm).values
  unfolding Timer.discard
  discard-IsPlain id t tm h = check-IsPlain t false tm h

  if-IsPlain :
      (b : Bool) (x y : Timer.Timer)
      → IsPlain x.values
      → IsPlain y.values
      → IsPlain (if b then x else y).values
  if-IsPlain true x y h k = h
  if-IsPlain false x y h k = k

  pub heartbeat-IsPlain :
      (id : ℕ) (t : TimePoint) (tm : Timer.Timer)
      → IsPlain tm.values
      → IsPlain (Timer.heartbeat id t tm).values
  unfolding Timer.heartbeat
  heartbeat-IsPlain id t tm h =
      let tm' = Timer.check_idle_timeout t false tm in
      let h' = check-IsPlain t false tm h in
      elim (Option-cases (tm'.instances id)) [
        | inl e ↦ rw (e, Timer.heartbeat) h'
        | inr (i, e) ↦
            rw (e, Timer.heartbeat) (if-IsPlain (Timer.expired i tm'.idle_timeout t) _ _ h' h')
      ]
