-- ===== src/Core/Spacing.antt =====
-- How long the processor of src/core.cpp leaves a dump as it is.
use handystats.Prelude.{
  ◌≡◌, refl, ap, ◌∙◌, Bool, true, false, Bool-cases, inl, inr, Option, none, some, List, [], ◌∷◌,
  length, All, ℕ, ℤ, ◌-ℤ◌, ◌≤ℤ◌, sym,
}
use Prim.Native.String.{String}
use mathlib.Core.Path.{subst}
use handystats.Machine.{Machine}
use handystats.MathUtils.{IfSome, IfSome-bind, anything}
use handystats.Chrono.TimePoint.{later}
use handystats.Chrono.TimePoint.Ticks.{at_tick, in_ticks}
use handystats.Internal
use handystats.Events.Message.{Destination}
use handystats.MessageQueue.Service
use handystats.MetricsDump
use handystats.MetricsDump.Interval.{is_due-at_tick, update-idle}
use handystats.Core.{
  Core, Settings, Reads, process_message, process_message_queue, update_dump, turn, is_enabled,
  run_processor,
}
use handystats.Core.Steady.{Steady}
use handystats.Core.Progress.{Handled, run_processor-Handled}

module _ ⦃m : Machine⦄ where
  -- The dump and the settings are the same.
  abbrev Same : Core → Core → Type 0
  Same c c' = (c'.metrics_dump ≡ c.metrics_dump) × (c'.settings ≡ c.settings)

  abbrev pub Early : Core → ℤ → Reads → Type 0
  Early c a r =
      (b : ℤ) × (r.system_time ≡ at_tick b) × (b -ℤ a ≤ℤ in_ticks c.settings.dump_opts.interval)

  process-Same : (r : Reads) (n : ℕ) (c : Core) → IfSome (Same c) (process_message r n c)
  unfolding process_message
  process-Same r n c =
      IfSome-bind (λ _. Unit {0}) (Same c) (c.queue.messages n) _ (anything (c.queue.messages n))
        λ msg _.
          let o =
            Internal.process_event_message c.settings.defaults c.settings.configured r.start r.end
              msg c.internal in
          let kept : (st : Internal.State)
              → Unit {0}
              → Same c (record c {
                internal = st;
                last_message_timestamp = later c.last_message_timestamp msg.timestamp;
                queue = Service.delete_message (some n) c.queue;
              }) =
            λ st _. (refl, refl) in
          IfSome-bind (λ _. Unit {0}) (Same c) o _ (anything o) kept

  queue-Same : (r : Reads) (c : Core) → IfSome (Same c) (process_message_queue r c)
  unfolding process_message_queue
  queue-Same r c =
      IfSome-bind (λ _. Unit {0}) (Same c) (Service.pop r.popped c.queue) _
        (anything (Service.pop r.popped c.queue)) by_message
    where
      by_message :
          (p : Service.Service × Option ℕ)
          → Unit {0}
          → IfSome (Same c) (elim p.1 [
            | none ↦ some (record c { queue = Service.delete_message none p.0 })
            | some n ↦ process_message r n (record c { queue = p.0 })
          ])
      by_message (q, none) _ = (refl, refl)
      by_message (q, some n) _ = process-Same r n (record c { queue = q })

  update-Same :
      (a : ℤ) (r : Reads) (c0 c : Core)
      → c0.metrics_dump.dump_timestamp ≡ at_tick a
      → Early c0 a r
      → Same c0 c
      → IfSome (Same c0) (update_dump r c)
  unfolding update_dump
  update-Same a r c0 c at (b, now, close) (same, set) =
      let d : MetricsDump.Dumped = record {
        state = c.metrics_dump;
        metrics = c.internal;
        queue_stats = c.queue.stats;
      } in
      let opts = c.settings.dump_opts in
      let at' = ap (λ (s : MetricsDump.State). s.dump_timestamp) same ∙ at in
      let close' =
        subst (λ (k : Settings). b -ℤ a ≤ℤ in_ticks k.dump_opts.interval) (sym set) close in
      let idle = is_due-at_tick opts a b c.metrics_dump at' close' in
      let e =
        ap
          (λ t.
            MetricsDump.update opts r.dump_start r.dump_stamp r.dump_end t c.last_message_timestamp
              d)
          now
        ∙ update-idle opts r.dump_start r.dump_stamp r.dump_end (at_tick b) c.last_message_timestamp
            d idle in
      rw (update_dump, e) (same, set)

  Same-trans : (c0 c1 c2 : Core) → Same c0 c1 → Same c1 c2 → Same c0 c2
  Same-trans c0 c1 c2 (d, s) (d', s') = (d' ∙ d, s' ∙ s)

  first-Same :
      (r : Reads) (c : Core) (b : Bool)
      → IfSome (Same c) (elim b [
        | false ↦ process_message_queue r c
        | true ↦ some (record c { last_message_timestamp = later c.last_message_timestamp r.idle })
      ])
  first-Same r c false = queue-Same r c
  first-Same r c true = (refl, refl)

  turn-Same :
      (a : ℤ) (r : Reads) (c0 c : Core)
      → c0.metrics_dump.dump_timestamp ≡ at_tick a
      → Early c0 a r
      → Same c0 c
      → IfSome (Same c0) (turn r c)
  unfolding turn
  turn-Same a r c0 c at early h =
      IfSome-bind (Same c) (Same c0) _ (update_dump r) (first-Same r c (Service.empty c.queue))
        λ c1 h1. update-Same a r c0 c1 at early (Same-trans c0 c c1 h h1)

  run-Same :
      (a : ℤ) (rs : List Reads) (c0 c : Core)
      → c0.metrics_dump.dump_timestamp ≡ at_tick a
      → All (Early c0 a) rs
      → Same c0 c
      → IfSome (Same c0) (run_processor rs c)
  unfolding run_processor
  run-Same a [] c0 c at early h = h
  run-Same a (r ∷ rs) c0 c at (early, more) h = elim (Bool-cases (is_enabled c)) [
    | inl e ↦
        rw (e, run_processor)
          (IfSome-bind (Same c0) (Same c0) (turn r c) (run_processor rs)
            (turn-Same a r c0 c at early h) λ c1 h1. run-Same a rs c0 c1 at more h1)
    | inr e ↦ rw (e, run_processor) h
  ]

  -- In a steady state whose dump was made at the tick `a`, the processor takes the messages of the
  -- queue, one in each of its turns, and returns; as long as the system times of these turns are no
  -- later than the dump's interval behind `a`, the dump and its time stamp are the same afterwards.
  pub dump_stays :
      (kind : String → Destination) (a : ℤ) (rs : List Reads) (xs : List ℕ) (c : Core)
      → Steady kind c xs
      → length rs ≡ length xs
      → c.metrics_dump.dump_timestamp ≡ at_tick a
      → All (Early c a) rs
      → (c' : Core) × (run_processor rs c ≡ some c')
        × Handled kind xs c c'
        × (c'.metrics_dump ≡ c.metrics_dump)
  dump_stays kind a rs xs c h e at early =
      let (c', f, handled) = run_processor-Handled kind rs xs c h e in
      let same = subst (IfSome (Same c)) f (run-Same a rs c c at early (refl, refl)) in
      (c', f, handled, same.0)
