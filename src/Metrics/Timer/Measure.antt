-- ===== src/Metrics/Timer/Measure.antt =====
-- What a timer records between the start and the stop of an instance.
use handystats.Prelude.{
  ◌≤ℤ◌, ℕ, ◌≡◌, refl, ap, ◌∙◌, false, ◌&&◌, Option, some, none, List, [], ◌∷◌, ℤ, ◌-ℤ◌, ◌≤ℤ◌, ltb_ℤ,
  arith,
}
use mathlib.Core.Option
use handystats.Machine.{Machine}
use handystats.MathUtils.{◌>>=◌}
use handystats.Chrono.Duration
use handystats.Chrono.Duration.{
  Duration, TimeUnit, duration, tick, nsec, usec, msec, sec, min, hour, day, convert_to,
}
use handystats.Chrono.TimePoint.{TimePoint}
use handystats.Chrono.TimePoint.Ticks.{at_tick, in_ticks, gt-at_tick, elapsed-at_tick}
use handystats.Statistics.State.{Statistics}
use handystats.Statistics.Update.{update}
use handystats.Metrics.Timer.{
  Timer, InstanceState, assign, expired, check_idle_timeout, start, stop, heartbeat, measured,
}
use handystats.Metrics.Timer.Check.{
  fresh, assign_self, check-values, check-idle_timeout, check-keeps,
}

module _ ⦃m : Machine⦄ where
  open m use {of_ℤ}

  start-instance :
      (id : ℕ) (t : TimePoint) (tm : Timer) → (start id t tm).instances id ≡ some (fresh t)
  unfolding start
  start-instance id t tm = assign_self (check_idle_timeout t false tm).instances id (some (fresh t))

  start-idle_timeout :
      (id : ℕ) (t : TimePoint) (tm : Timer) → (start id t tm).idle_timeout ≡ tm.idle_timeout
  unfolding start
  start-idle_timeout id t tm = check-idle_timeout t false tm

  start-values : (id : ℕ) (t : TimePoint) (tm : Timer) → (start id t tm).values ≡ tm.values
  unfolding start
  start-values id t tm = check-values t false tm

  -- A live instance at its heartbeat keeps its start.
  heartbeat-instance :
      (id : ℕ) (t : TimePoint) (tm : Timer) (i : InstanceState)
      → tm.instances id ≡ some i
      → expired i tm.idle_timeout t ≡ false
      → heartbeat id t tm ≡ record (check_idle_timeout t false tm) {
        instances =
            assign
              (check_idle_timeout t false tm).instances
              id
              (some (record i { heartbeat_timestamp = t }));
      }
  unfolding heartbeat
  heartbeat-instance id t tm i here alive =
      rw (check-keeps t false tm id i here alive, heartbeat)
        (rw (check-idle_timeout t false tm, alive))

  stop-alive :
      (id : ℕ) (t : TimePoint) (tm : Timer) (i : InstanceState)
      → tm.instances id ≡ some i
      → expired i tm.idle_timeout t ≡ false
      → let tm' = check_idle_timeout t false tm in
        stop id t tm ≡ (
          update (of_ℤ (measured i t).rep) t tm.values >>= λ s.
          some (record tm' { values = s; instances = assign tm'.instances id none }))
  unfolding stop
  stop-alive id t tm i here alive =
      rw (check-keeps t false tm id i here alive, stop)
        (rw (check-idle_timeout t false tm, alive) (rw (check-values t false tm)))

  -- The tick is the finest unit.
  gt_ticks :
      (a r : ℤ) (u : TimeUnit)
      → Duration.gt (duration a tick) (duration r u) ≡ ltb_ℤ (in_ticks (duration r u)) a
  unfolding Duration.gt convert_to
  gt_ticks a r tick = refl
  gt_ticks a r nsec = refl
  gt_ticks a r usec = refl
  gt_ticks a r msec = refl
  gt_ticks a r sec = refl
  gt_ticks a r min = refl
  gt_ticks a r hour = refl
  gt_ticks a r day = refl

  -- On the counter's own time points an instance is expired when the time since its heartbeat
  -- exceeds the timeout, both in ticks.
  expired-at_tick :
      (start beat t : ℤ) (d : Duration)
      → expired
          (record { start_timestamp = at_tick start; heartbeat_timestamp = at_tick beat })
          d
          (at_tick t)
        ≡ ltb_ℤ beat t && ltb_ℤ (in_ticks d) (t -ℤ beat)
  unfolding expired
  expired-at_tick start beat t d =
      rw (gt-at_tick t beat, elapsed-at_tick t beat, gt_ticks (t -ℤ beat) d.rep d.unit)

  measured-at_tick :
      (start beat t : ℤ)
      → measured
          (record { start_timestamp = at_tick start; heartbeat_timestamp = at_tick beat })
          (at_tick t)
        ≡ convert_to usec (duration (t -ℤ start) tick)
  unfolding measured
  measured-at_tick start beat t = rw (elapsed-at_tick t start)

  -- The heartbeats of one instance in order and its end, each within the timeout of the previous
  -- beat, in ticks.
  abbrev pub Alive : Duration → ℤ → List ℤ → ℤ → Type 0
  Alive d beat [] end = end -ℤ beat ≤ℤ in_ticks d
  Alive d beat (t ∷ ts) end = (t -ℤ beat ≤ℤ in_ticks d) × Alive d t ts end

  -- `heartbeat` at each point.
  unfoldable pub beats : ℕ → List ℤ → Timer → Timer
  beats id [] tm = tm
  beats id (t ∷ ts) tm = beats id ts (heartbeat id (at_tick t) tm)

  abbrev instance_at : ℤ → ℤ → InstanceState
  instance_at t beat = record { start_timestamp = at_tick t; heartbeat_timestamp = at_tick beat }

  within : (beat t d : ℤ) → t -ℤ beat ≤ℤ d → ltb_ℤ beat t && ltb_ℤ d (t -ℤ beat) ≡ false
  within beat t d h = grind arith

  alive-at_tick :
      (start beat t : ℤ) (d : Duration)
      → t -ℤ beat ≤ℤ in_ticks d
      → expired (instance_at start beat) d (at_tick t) ≡ false
  alive-at_tick start beat t d h = expired-at_tick start beat t d ∙ within beat t (in_ticks d) h

  beat-instance :
      (id : ℕ) (start beat t : ℤ) (tm : Timer)
      → tm.instances id ≡ some (instance_at start beat)
      → t -ℤ beat ≤ℤ in_ticks tm.idle_timeout
      → let tm' = heartbeat id (at_tick t) tm in
        (tm'.instances id ≡ some (instance_at start t))
        × (tm'.idle_timeout ≡ tm.idle_timeout)
        × (tm'.values ≡ tm.values)
  beat-instance id start beat t tm here near =
      rw
        (heartbeat-instance id (at_tick t) tm (instance_at start beat) here
          (alive-at_tick start beat t tm.idle_timeout near))
        (
          assign_self (check_idle_timeout (at_tick t) false tm).instances id
              (some (instance_at start t)),
          check-idle_timeout (at_tick t) false tm,
          check-values (at_tick t) false tm,
        )

  values_bind :
      (o : Option Statistics) (f : Statistics → Timer)
      → ((s : Statistics) → (f s).values ≡ s)
      → Option.map (λ (x : Timer). x.values) (o >>= λ s. some (f s)) ≡ o
  values_bind none f h = refl
  values_bind (some s) f h = ap some (h s)

  stop-beats :
      (id : ℕ) (start beat t : ℤ) (ts : List ℤ) (tm : Timer)
      → tm.instances id ≡ some (instance_at start beat)
      → Alive tm.idle_timeout beat ts t
      → Option.map (λ (x : Timer). x.values) (stop id (at_tick t) (beats id ts tm))
        ≡ update (of_ℤ (convert_to usec (duration (t -ℤ start) tick)).rep) (at_tick t) tm.values
  unfolding beats
  stop-beats id start beat t [] tm here near =
      rw
        (
          stop-alive id (at_tick t) tm (instance_at start beat) here
              (alive-at_tick start beat t tm.idle_timeout near),
          measured-at_tick start beat t,
        )
        (values_bind _ _ (λ s. refl))
  stop-beats id start beat t (b ∷ ts) tm here (near, rest) =
      let (here', d, v) = beat-instance id start beat b tm here near in
      stop-beats id start b t ts (heartbeat id (at_tick b) tm) here' (rw d rest) ∙ rw v

  -- An instance started at `t0` and stopped at `t`, with heartbeats between that leave no gap over
  -- the idle timeout, is measured: the statistics get exactly one update, at `t`, with the time
  -- from `t0` to `t` in microseconds.
  pub stop_measures :
      (id : ℕ) (t0 t : ℤ) (ts : List ℤ) (tm : Timer)
      → Alive tm.idle_timeout t0 ts t
      → Option.map
          (λ (x : Timer). x.values)
          (stop id (at_tick t) (beats id ts (start id (at_tick t0) tm)))
        ≡ update (of_ℤ (convert_to usec (duration (t -ℤ t0) tick)).rep) (at_tick t) tm.values
  stop_measures id t0 t ts tm alive =
      stop-beats id t0 t0 t ts (start id (at_tick t0) tm) (start-instance id (at_tick t0) tm)
        (rw (start-idle_timeout id (at_tick t0) tm) alive)
      ∙ rw (start-values id (at_tick t0) tm)
