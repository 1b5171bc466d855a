-- ===== src/Core/Turn.antt =====
-- The parts of one turn of `run_processor` of src/core.cpp, on a queue that holds messages.
use Prim.Native.String.{String}
use text.Mathlib.Text.{◌==◌ as str_eq}
use handystats.Prelude.{
  ℕ, ◌≡◌, ◌⊎◌, refl, ap, ◌∙◌, Bool, true, false, inl, inr, Option, none, some, List, [], ◌∷◌, All,
  if◌then◌else◌,
}
use handystats.Machine.{Machine}
use handystats.Chrono.TimePoint.{TimePoint, later}
use handystats.Events.Message.{Destination, EventMessage}
use handystats.Internal.{Metric, MetricsMap, find, update_metrics, destination}
use handystats.Internal.Dispatch.{process_event_message_lem, destination-IsTarget}
use handystats.Internal.Progress.{process_metric-Returns}
use handystats.MessageQueue.Chain.{NotIn}
use handystats.MessageQueue.Service
use handystats.MessageQueue.Service.{Service}
use handystats.MessageQueue.Service.Drain.{Deletes, Deletes-other, delete-Deletes, delete-Intact}
use handystats.MetricsDump.{Dumped, is_due}
use handystats.MetricsDump.Lookup.{put-DistinctKeys}
use handystats.MetricsDump.Interval.{
  Updated, update-Ready, updated, find-update_metrics, update_metrics-DistinctKeys,
}
use handystats.MetricsDump.Writable.{Writable, update-Writable}
use handystats.MathUtils.{IfSome}
use mathlib.Core.Path.{subst}
use handystats.Core.{Core, Reads, is_enabled, process_message, update_dump}
use handystats.Core.Steady.{
  IfKind, TypedAt, Steady, dumped, destination-IsKind, put-IfKind, update_metrics-IfKind,
  kinds-Writable,
}

module _ ⦃m : Machine⦄ where
  -- Whether there is a metric of this name.
  abbrev pub is_some : Option Metric → Bool
  is_some none = false
  is_some (some x) = true

  abbrev pub is_known : String → Core → Bool
  is_known name c = is_some (find name c.internal.metrics_map)

  Typed-delete :
      (kind : String → Destination) (n : ℕ) (s s' : Service) (xs : List ℕ)
      → Deletes n s s'
      → NotIn n xs
      → All (TypedAt kind s.messages) xs
      → All (TypedAt kind s'.messages) xs
  Typed-delete kind n s s' [] d out a = tt
  Typed-delete kind n s s' (x ∷ xs) d (ne, out) ((msg, e, typed), a) =
      ((msg, Deletes-other n s s' x d ne ∙ e, typed), Typed-delete kind n s s' xs d out a)

  -- What the processing of one message makes of a steady state.
  pub record Processed (kind : String → Destination) (n : ℕ) (xs : List ℕ) (c c' : Core)
      : Type 0 where
    pub steady : Steady kind c' xs
    pub deletes : Deletes n c.queue c'.queue
    pub message : EventMessage
    pub found : c.queue.messages n ≡ some message
    pub metric : Metric
    pub lookup :
        (name : String)
        → find name c'.internal.metrics_map ≡ (
            if str_eq message.destination_name name
            then some metric
            else find name c.internal.metrics_map)

  pub process_message-Processed :
      (kind : String → Destination) (r : Reads) (n : ℕ) (xs : List ℕ) (c : Core)
      → Steady kind c xs
      → NotIn n xs
      → TypedAt kind c.queue.messages n
      → (c' : Core) × (process_message r n c ≡ some c') × Processed kind n xs c c'
  unfolding process_message is_enabled
  process_message-Processed kind r n xs c h out (msg, e, typed) =
      let name = msg.destination_name in
      let metrics = c.internal.metrics_map in
      let old = destination c.settings.configured msg metrics in
      let old_kind =
        destination-IsKind kind c.settings.configured msg metrics typed (h.quiet_names name)
          (h.kinds name) in
      let (x, f, new_kind) =
        process_metric-Returns c.settings.defaults (kind name) old msg h.quiet old_kind typed.1 in
      let (st, g, d) =
        process_event_message_lem c.settings.defaults c.settings.configured r.start r.end msg
          c.internal old x h.ready.plain_metrics.0 h.ready.plain_metrics.1
          (destination-IsTarget c.settings.configured msg metrics) f in
      let q = Service.delete_message (some n) c.queue in
      let del = delete-Deletes n c.queue in
      (
        record c {
          internal = st;
          last_message_timestamp = later c.last_message_timestamp msg.timestamp;
          queue = q;
        },
        rw (e, g) refl,
        record {
          steady = record {
            enabled = h.enabled;
            intact = delete-Intact n c.queue q xs del out h.intact;
            typed = Typed-delete kind n c.queue q xs del out h.typed;
            kinds = λ other.
                rw (d.lookup other)
                  (put-IfKind kind name other x (find other metrics) new_kind (h.kinds other));
            ready = record {
              distinct = rw d.map_eq (put-DistinctKeys name x metrics h.ready.distinct);
              plain_metrics = d.plain;
              plain_stats = rw del.stats_eq h.ready.plain_stats;
              plain_time = h.ready.plain_time;
            };
            quiet = h.quiet;
            quiet_names = h.quiet_names;
            writable = h.writable;
          };
          deletes = del;
          message = msg;
          found = e;
          metric = x;
          lookup = d.lookup;
        },
      )

  -- What a step that touches no message and adds no metric keeps.
  pub record Kept (kind : String → Destination) (xs : List ℕ) (c c' : Core) : Type 0 where
    pub steady : Steady kind c' xs
    pub messages_eq : c'.queue.messages ≡ c.queue.messages
    pub known_eq : (name : String) → is_known name c' ≡ is_known name c

  is_some-updated : (t : TimePoint) (o : Option Metric) → is_some (updated t o) ≡ is_some o
  is_some-updated t none = refl
  is_some-updated t (some x) = refl

  -- The metrics map of an update of the dump, in both cases.
  abbrev Refreshed : TimePoint → MetricsMap → MetricsMap → Type 0
  Refreshed t xs ys = (ys ≡ xs) ⊎ (ys ≡ update_metrics t xs)

  Updated-Refreshed :
      (c : Core) (stamp : TimePoint) (system_time : TimePoint) (d' : Dumped) (b : Bool)
      → Updated c.settings.dump_opts stamp system_time c.last_message_timestamp (dumped c) d' b
      → Refreshed c.last_message_timestamp c.internal.metrics_map d'.metrics.metrics_map
  Updated-Refreshed c stamp system_time d' false e =
      inl (ap (λ (d : Dumped). d.metrics.metrics_map) e)
  Updated-Refreshed c stamp system_time d' true (_, _, _, e, _) = inr e

  Refreshed-IfKind :
      (t : TimePoint) (d : Destination) (name : String) (xs ys : MetricsMap)
      → Refreshed t xs ys
      → IfKind d (find name xs)
      → IfKind d (find name ys)
  Refreshed-IfKind t d name xs ys (inl e) h = rw e h
  Refreshed-IfKind t d name xs ys (inr e) h = rw e (update_metrics-IfKind t d name xs h)

  Refreshed-known :
      (t : TimePoint) (name : String) (xs ys : MetricsMap)
      → Refreshed t xs ys
      → is_some (find name ys) ≡ is_some (find name xs)
  Refreshed-known t name xs ys (inl e) = rw e refl
  Refreshed-known t name xs ys (inr e) =
      rw e (ap is_some (find-update_metrics t name xs) ∙ is_some-updated t (find name xs))

  pub update_dump-Kept :
      (kind : String → Destination) (r : Reads) (xs : List ℕ) (c : Core)
      → Steady kind c xs
      → (c' : Core) × (update_dump r c ≡ some c') × Kept kind xs c c'
  unfolding update_dump is_enabled
  update_dump-Kept kind r xs c h =
      let (d', e, ready, u) =
        update-Ready c.settings.dump_opts r.dump_start r.dump_stamp r.dump_end r.system_time
          c.last_message_timestamp (dumped c) h.ready in
      let t = c.last_message_timestamp in
      let metrics = c.internal.metrics_map in
      let fresh =
        Updated-Refreshed c r.dump_stamp r.system_time d'
          (is_due c.settings.dump_opts r.system_time c.metrics_dump) u in
      let metrics_written =
        kinds-Writable kind (update_metrics t metrics)
          (update_metrics-DistinctKeys t metrics h.ready.distinct)
          (λ name. update_metrics-IfKind t (kind name) name metrics (h.kinds name)) in
      let written = subst (IfSome (λ (x : Dumped). Writable x.state.dump)) e (
        update-Writable c.settings.dump_opts r.dump_start r.dump_stamp r.dump_end r.system_time t
          (dumped c) h.ready metrics_written h.writable) in
      (
        record c {
          metrics_dump = d'.state;
          internal = d'.metrics;
          queue = record c.queue { stats = d'.queue_stats };
        },
        rw e refl,
        record {
          steady = record {
            enabled = h.enabled;
            intact = record {
              queue = h.intact.queue;
              queue_eq = h.intact.queue_eq;
              holds = h.intact.holds;
              size_eq = h.intact.size_eq;
              bounded = h.intact.bounded;
              distinct = h.intact.distinct;
              allocated = h.intact.allocated;
              plain = ready.plain_stats;
            };
            typed = h.typed;
            kinds = λ name.
                Refreshed-IfKind t (kind name) name metrics d'.metrics.metrics_map fresh
                  (h.kinds name);
            ready = record {
              distinct = ready.distinct;
              plain_metrics = ready.plain_metrics;
              plain_stats = ready.plain_stats;
              plain_time = ready.plain_time;
            };
            quiet = h.quiet;
            quiet_names = h.quiet_names;
            writable = written;
          };
          messages_eq = refl;
          known_eq = λ name. Refreshed-known t name metrics d'.metrics.metrics_map fresh;
        },
      )
