-- ===== src/MetricsDump/Lookup.antt =====
-- `create_dump` of src/metrics_dump.cpp: what a dump holds under each name.
use Prim.Native.String.{String}
use text.Mathlib.Text.{◌==◌ as str_eq}
use text.Mathlib.TextEquality.{eq_iff}
use handystats.Prelude.{
  ℕ, zero, suc, not, ◌==◌, ◌≡◌, refl, arith, sym, ap, ◌∙◌, Bool, true, false, Bool-cases,
  Option-cases, inl, inr, Option, none, some, or_else, or_else_assoc, or_else-none, [], ◌∷◌, ◌++◌,
  if◌then◌else◌,
}
use mathlib.Core.Bool.{false≢true}
use handystats.Machine.{Machine}
use handystats.Chrono.Duration.{Duration, msec, convert_to}
use handystats.Chrono.TimePoint.{
  TimePoint, system, clock_eq, convert_clock, to_system_time, elapsed,
}
use handystats.Metrics.Attribute
use handystats.Metrics.Gauge
use handystats.Metrics.Timer
use handystats.Metrics.Plain.{IsPlain, set-IsPlain}
use handystats.Internal
use handystats.Internal.{Metric, MetricsMap, counter, gauge, timer, attribute, find, put}
use handystats.Internal.Dispatch.{find-put_other, find-put_if}
use handystats.MessageQueue.Service.{Stats}
use handystats.MetricsDump.{
  DumpConfig, insert, insert_all, is_dumped, copy_metrics, own_stats, millis, create_dump,
}

module _ ⦃m : Machine⦄ where
  open m use {of_ℤ}

  find-nothing : (b : Bool) (a : Option Metric) → a ≡ or_else a (if b then none else none)
  find-nothing true a = sym (or_else-none a)
  find-nothing false a = sym (or_else-none a)

  or_else-if :
      (b : Bool) (x : Metric) (o : Option Metric)
      → or_else (if b then some x else none) o ≡ (if b then some x else o)
  or_else-if true x o = refl
  or_else-if false x o = refl

  -- Each name stands once in the map.
  unfoldable pub DistinctKeys : MetricsMap → Type 0
  DistinctKeys [] = Unit
  DistinctKeys ((name, x) ∷ xs) = (find name xs ≡ none) × DistinctKeys xs

  -- The assignment of a metric keeps this, so it holds of every map that messages have built.
  pub put-DistinctKeys :
      (name : String) (x : Metric) (xs : MetricsMap)
      → DistinctKeys xs
      → DistinctKeys (put name x xs)
  unfolding DistinctKeys put find
  put-DistinctKeys name x [] h = (refl, tt)
  put-DistinctKeys name x ((key, y) ∷ xs) (out, h) = elim (Bool-cases (str_eq key name)) [
    | inl e ↦ rw (e, put) (out, h)
    | inr e ↦
        rw (e, put)
          (
            find-put_other name key x xs
                  (λ same. false≢true (sym e ∙ (eq_iff key name).1 (sym same)))
                ∙ out,
            put-DistinctKeys name x xs h,
          )
  ]

  find-insert :
      (name n : String) (x : Metric) (xs : MetricsMap)
      → find n (insert name x xs) ≡ or_else (find n xs) (if str_eq name n then some x else none)
  unfolding insert
  find-insert name n x xs = elim (Option-cases (find name xs)) [
    | inl out ↦
        rw (out, insert)
          (find-put_if name n x xs ∙ elim (Bool-cases (str_eq name n)) [
            | inl e ↦ rw e (rw (← (eq_iff name n).0 e) (rw out refl))
            | inr e ↦ rw e (sym (or_else-none (find n xs)))
          ])
    | inr (y, there) ↦
        rw (there, insert)
          (elim (Bool-cases (str_eq name n)) [
            | inl e ↦ rw e (rw (← (eq_iff name n).0 e) (rw there refl))
            | inr e ↦ rw e (sym (or_else-none (find n xs)))
          ])
  ]

  find-insert_all :
      (n : String) (entries xs : MetricsMap)
      → find n (insert_all entries xs) ≡ or_else (find n xs) (find n entries)
  unfolding insert_all find
  find-insert_all n [] xs = sym (or_else-none (find n xs))
  find-insert_all n ((name, x) ∷ entries) xs =
      find-insert_all n entries (insert name x xs)
      ∙ ap (λ a. or_else a (find n entries)) (find-insert name n x xs)
      ∙ or_else_assoc (find n xs) (if str_eq name n then some x else none) (find n entries)
      ∙ ap (or_else (find n xs)) (or_else-if (str_eq name n) x (find n entries))

  -- A metric, where it is copied.
  abbrev copied : Option Metric → Option Metric
  copied none = none
  copied (some x) = if is_dumped x then some x else none

  find-copied :
      (name n : String) (x : Metric) (xs : MetricsMap)
      → find n (if is_dumped x then insert name x xs else xs)
        ≡ or_else (find n xs) (if str_eq name n then copied (some x) else none)
  find-copied name n x xs = elim (Bool-cases (is_dumped x)) [
    | inl e ↦ rw e (find-insert name n x xs)
    | inr e ↦ rw e (find-nothing (str_eq name n) (find n xs))
  ]

  step_lem :
      (name n : String) (x : Metric) (metrics : MetricsMap)
      → find name metrics ≡ none
      → or_else (if str_eq name n then copied (some x) else none) (copied (find n metrics))
        ≡ copied (if str_eq name n then some x else find n metrics)
  step_lem name n x metrics out = elim (Bool-cases (str_eq name n)) [
    | inl e ↦
        rw e (
          rw (← (eq_iff name n).0 e) (rw out (or_else-none (if is_dumped x then some x else none))))
    | inr e ↦ rw e refl
  ]

  find-copy_metrics :
      (n : String) (metrics xs : MetricsMap)
      → DistinctKeys metrics
      → find n (copy_metrics metrics xs) ≡ or_else (find n xs) (copied (find n metrics))
  unfolding copy_metrics find DistinctKeys
  find-copy_metrics n [] xs _ = sym (or_else-none (find n xs))
  find-copy_metrics n ((name, x) ∷ metrics) xs (out, h) =
      find-copy_metrics n metrics (if is_dumped x then insert name x xs else xs) h
      ∙ ap (λ a. or_else a (copied (find n metrics))) (find-copied name n x xs)
      ∙ or_else_assoc (find n xs) (if str_eq name n then copied (some x) else none)
          (copied (find n metrics))
      ∙ ap (or_else (find n xs)) (step_lem name n x metrics out)

  abbrev if_tagged : ℕ → Metric → Option Metric
  if_tagged zero x = none
  if_tagged (suc _) x = some x

  -- The metrics that a dump has: attributes, and those with at least one tag.
  abbrev pub shown : Option Metric → Option Metric
  shown none = none
  shown (some (counter c)) = if_tagged c.values.config.tags (counter c)
  shown (some (gauge g)) = if_tagged g.values.config.tags (gauge g)
  shown (some (timer t)) = if_tagged t.values.config.tags (timer t)
  shown (some (attribute a)) = some (attribute a)

  tagged-copied :
      (tags : ℕ) (x : Metric) → (if not (tags == 0) then some x else none) ≡ if_tagged tags x
  tagged-copied zero x = refl
  tagged-copied (suc tags) x = ground arith

  copied-shown : (o : Option Metric) → copied o ≡ shown o
  unfolding is_dumped
  copied-shown none = refl
  copied-shown (some (counter c)) = tagged-copied c.values.config.tags (counter c)
  copied-shown (some (gauge g)) = tagged-copied g.values.config.tags (gauge g)
  copied-shown (some (timer t)) = tagged-copied t.values.config.tags (timer t)
  copied-shown (some (attribute a)) = refl

  abbrev in_millis : Duration → Metric
  in_millis d = attribute (record { value = Attribute.int64 (convert_to msec d).rep })

  -- The library's own entries, with the time stamp and the gauge of the dump's time.
  abbrev pub own_entries :
      DumpConfig → TimePoint → Internal.State → Stats → Gauge.Gauge → MetricsMap
  own_entries opts stamp st mq time =
      ("handystats.internal.size", gauge st.size)
      ∷ ("handystats.internal.process_time", gauge st.process_time)
      ∷ ("handystats.message_queue.size", gauge mq.size)
      ∷ ("handystats.message_queue.message_wait_time", gauge mq.message_wait_time)
      ∷ ("handystats.message_queue.pop_count", counter mq.pop_count)
      ∷ ("handystats.config.dump_interval", in_millis opts.interval)
      ∷ ("handystats.dump_timestamp", in_millis stamp.since_epoch)
      ∷ ("handystats.metrics_dump.dump_time", gauge time)
      ∷ []

  own_stats-entries :
      (opts : DumpConfig) (stamp : TimePoint) (st : Internal.State) (mq : Stats)
      (time : Gauge.Gauge)
      → (own_stats st mq
          ++ (("handystats.config.dump_interval", millis opts.interval)
              ∷ ("handystats.dump_timestamp", millis stamp.since_epoch)
              ∷ ("handystats.metrics_dump.dump_time", gauge time)
              ∷ []))
        ≡ own_entries opts stamp st mq time
  unfolding own_stats millis Attribute.set
  own_stats-entries opts stamp st mq time = refl

  find-append :
      (n : String) (xs ys : MetricsMap) → find n (xs ++ ys) ≡ or_else (find n xs) (find n ys)
  unfolding find
  find-append n [] ys = refl
  find-append n ((name, x) ∷ xs) ys = elim (Bool-cases (str_eq name n)) [
    | inl e ↦ rw e refl
    | inr e ↦ rw e (find-append n xs ys)
  ]

  -- The calls of `insert` find the names of the metrics first, then those of the own entries.
  all-inserted :
      (n : String) (metrics own last : MetricsMap)
      → DistinctKeys metrics
      → find n (insert_all last (insert_all own (copy_metrics metrics [])))
        ≡ or_else (copied (find n metrics)) (find n (own ++ last))
  unfolding find
  all-inserted n metrics own last h =
      find-insert_all n last (insert_all own (copy_metrics metrics []))
      ∙ ap (λ a. or_else a (find n last))
          (find-insert_all n own (copy_metrics metrics [])
            ∙ ap (λ a. or_else a (find n own)) (find-copy_metrics n metrics [] h))
      ∙ or_else_assoc (copied (find n metrics)) (find n own) (find n last)
      ∙ ap (or_else (copied (find n metrics))) (sym (find-append n own last))

  either_way :
      (b : Bool) (x y : TimePoint) → (z : TimePoint) × ((if b then some x else some y) ≡ some z)
  either_way true x y = (x, refl)
  either_way false x y = (y, refl)

  pub system_total : (t : TimePoint) → (t' : TimePoint) × (convert_clock system t ≡ some t')
  unfolding convert_clock clock_eq
  system_total t = either_way (clock_eq t.clock system) t (to_system_time t)

  -- `create_dump` on a map in which each name stands once returns. The dump has, under every name,
  -- the metric of that name if it is copied (an attribute, or one with a tag), and otherwise the
  -- library's own entry of that name, if there is one: so a metric hides an own entry of its name.
  pub create_dump-lookup :
      (opts : DumpConfig) (start stamp end : TimePoint) (st : Internal.State) (mq : Stats)
      (dump_time : Gauge.Gauge)
      → DistinctKeys st.metrics_map
      → IsPlain dump_time.values
      → (dump : MetricsMap) × (time : Gauge.Gauge) × (stamp' : TimePoint) × (create_dump opts start
            stamp end st mq dump_time
          ≡ some (dump, time))
        × (convert_clock system stamp ≡ some stamp')
        × IsPlain time.values
        × ((name : String)
            → find name dump
              ≡ or_else
                  (shown (find name st.metrics_map))
                  (find name (own_entries opts stamp' st mq time)))
  unfolding create_dump
  create_dump-lookup opts start stamp end st mq dump_time h plain =
      let took = of_ℤ (convert_to Timer.value_unit (elapsed end start)).rep in
      let (stamp', e) = system_total stamp in
      let (time, g, p) = set-IsPlain took end dump_time plain in
      let last =
        ("handystats.config.dump_interval", millis opts.interval)
        ∷ ("handystats.dump_timestamp", millis stamp'.since_epoch)
        ∷ ("handystats.metrics_dump.dump_time", gauge time)
        ∷ [] in
      (
        insert_all last (insert_all (own_stats st mq) (copy_metrics st.metrics_map [])),
        time,
        stamp',
        rw (e, g) refl,
        e,
        p,
        λ name.
            all-inserted name st.metrics_map (own_stats st mq) last h
            ∙ rw (copied-shown (find name st.metrics_map), own_stats-entries opts stamp' st mq time)
                refl,
      )
