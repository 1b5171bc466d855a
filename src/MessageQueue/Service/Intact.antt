-- ===== src/MessageQueue/Service/Intact.antt =====
-- The invariant of the message queue's service: its size is the number of messages that the queue
-- holds, and every one of them is allocated.
use handystats.Prelude.{
  ℕ, suc, ◌+◌, ◌-◌, ◌%◌, ◌<◌, ◌≡◌, ◌≢◌, refl, sym, ◌∙◌, Option, none, some, List, [], ◌∷◌, ◌++◌,
  length, length-append, All, All-append, pos, u64_mod, arith,
}
use handystats.Machine.{Machine}
use handystats.MathUtils.{num}
use handystats.Chrono.Duration.{convert_to}
use handystats.Chrono.TimePoint.{TimePoint, elapsed}
use handystats.Statistics.Tag
use handystats.Metrics.Gauge
use handystats.Metrics.Counter
use handystats.Metrics.Timer
use handystats.Metrics.Plain.{
  IsPlain, set-IsPlain, create-IsPlain, initial-IsPlain, increment-IsPlain,
}
use handystats.Events.Message.{EventMessage}
use handystats.MessageQueue.Nodes
use handystats.MessageQueue.Nodes.{Queue, stub}
use handystats.MessageQueue.Chain.{NotIn, Distinct}
use handystats.MessageQueue.Fifo.{Holds, create-Holds, push-Holds, pop_oldest}
use handystats.MessageQueue.Service.{
  Stats, Service, size_opts, message_wait_time_opts, pop_count_opts, reset_stats, push, count_pop,
  popped, pop, initialize,
}

module _ ⦃m : Machine⦄ where
  open m use {of_ℤ}

  abbrev pub IsPlainStats : Stats → Type 0
  IsPlainStats st =
      IsPlain st.size.values × IsPlain st.message_wait_time.values × IsPlain st.pop_count.values

  abbrev pub Allocated : (ℕ → Option EventMessage) → ℕ → Type 0
  Allocated messages n = (msg : EventMessage) × (messages n ≡ some msg)

  -- The service holds these messages, oldest first.
  pub record Intact (s : Service) (xs : List ℕ) : Type 0 where
    pub queue : Queue
    pub queue_eq : s.event_message_queue ≡ some queue
    pub holds : Holds queue xs
    pub size_eq : s.mq_size ≡ length xs
    pub bounded : length xs < u64_mod
    pub distinct : Distinct xs
    pub allocated : All (Allocated s.messages) xs
    pub plain : IsPlainStats s.stats

  -- A result of `pop`.
  abbrev pub Pops : Service → List ℕ → Option ℕ → Option (Service × Option ℕ) → Type 0
  Pops s xs r o = (s' : Service) × (o ≡ some (s', r)) × Intact s' xs × (s'.messages ≡ s.messages)

  count_pop-IsPlain :
      (now : TimePoint) (left : ℕ) (msg : EventMessage) (st : Stats)
      → IsPlainStats st
      → (st' : Stats) × (count_pop now left msg st ≡ some st') × IsPlainStats st'
  unfolding count_pop
  count_pop-IsPlain now left msg st (p1, p2, p3) =
      let wait = (convert_to Timer.value_unit (elapsed now msg.timestamp)).rep in
      let (size, e1, q1) = set-IsPlain (num left) now st.size p1 in
      let (count, e2, q2) = increment-IsPlain (pos 1) now st.pop_count p3 in
      let (time, e3, q3) = set-IsPlain (of_ℤ wait) now st.message_wait_time p2 in
      (
        record { size = size; message_wait_time = time; pop_count = count },
        rw (e1, e2, e3) refl,
        (q1, q3, q2),
      )

  pop-some :
      (now : TimePoint) (s : Service) (q : Queue) (n : ℕ)
      → s.event_message_queue ≡ some q
      → (Nodes.pop q).1 ≡ some n
      → pop now s ≡ popped now (Nodes.pop q).0 n s
  unfolding pop
  pop-some now s q n e f = rw (e, pop, f) refl

  pop-none :
      (now : TimePoint) (s : Service) (q : Queue)
      → s.event_message_queue ≡ some q
      → (Nodes.pop q).1 ≡ none
      → pop now s ≡ some (record s { event_message_queue = some (Nodes.pop q).0 }, none)
  unfolding pop
  pop-none now s q e f = rw (e, pop, f) refl

  popped-eq :
      (now : TimePoint) (q : Queue) (n left : ℕ) (s : Service) (msg : EventMessage) (st : Stats)
      → s.messages n ≡ some msg
      → (s.mq_size + u64_mod - 1) % u64_mod ≡ left
      → count_pop now left msg s.stats ≡ some st
      → popped now q n s
        ≡ some (record s { event_message_queue = some q; mq_size = left; stats = st }, some n)
  unfolding popped
  popped-eq now q n left s msg st e f g = rw (e, f, g) refl

  -- `pop` on a service that holds messages returns the oldest, which is then gone, and one that
  -- holds none returns none; the messages' memory stays as it is.
  pub pop_message :
      (now : TimePoint) (s : Service) (x : ℕ) (xs : List ℕ)
      → Intact s (x ∷ xs)
      → Pops s xs (some x) (pop now s)
  pop_message now s x xs h =
      let (msg, e) = h.allocated.0 in
      let (f, k) = pop_oldest h.queue (x ∷ xs) h.holds in
      let (st, g, plain) = count_pop-IsPlain now (length xs) msg s.stats h.plain in
      let left : (s.mq_size + u64_mod - 1) % u64_mod ≡ length xs =
        omega (arith, h.size_eq, h.bounded) in
      (
        record s {
          event_message_queue = some (Nodes.pop h.queue).0;
          mq_size = length xs;
          stats = st;
        },
        pop-some now s h.queue x h.queue_eq f
            ∙ popped-eq now (Nodes.pop h.queue).0 x (length xs) s msg st e left g,
        record {
          queue = (Nodes.pop h.queue).0;
          queue_eq = refl;
          holds = k;
          size_eq = refl;
          bounded = omega (arith, h.bounded);
          distinct = h.distinct.1;
          allocated = h.allocated.1;
          plain = plain;
        },
        refl,
      )

  pub pop_nothing : (now : TimePoint) (s : Service) → Intact s [] → Pops s [] none (pop now s)
  pop_nothing now s h =
      let (f, k) = pop_oldest h.queue [] h.holds in
      (
        record s { event_message_queue = some (Nodes.pop h.queue).0 },
        pop-none now s h.queue h.queue_eq f,
        record {
          queue = (Nodes.pop h.queue).0;
          queue_eq = refl;
          holds = k;
          size_eq = h.size_eq;
          bounded = h.bounded;
          distinct = tt;
          allocated = tt;
          plain = h.plain;
        },
        refl,
      )

  NotIn-Distinct : (n : ℕ) (xs : List ℕ) → NotIn n xs → Distinct xs → Distinct (xs ++ n ∷ [])
  NotIn-Distinct n [] out d = (tt, tt)
  NotIn-Distinct n (x ∷ xs) (ne, out) (d, ds) =
      (All-append (λ y. y ≢ x) xs (n ∷ []) d ((λ e. ne (sym e)), tt), NotIn-Distinct n xs out ds)

  push-eq :
      (n : ℕ) (s : Service) (q : Queue)
      → s.event_message_queue ≡ some q
      → push n s ≡ (record s {
        event_message_queue = some (Nodes.push n q);
        mq_size = (s.mq_size + 1) % u64_mod;
      })
  unfolding push
  push-eq n s q e = rw e refl

  -- A push of an allocated message that the queue does not hold puts it behind the others, as long
  -- as the size stays below 2 ^ 64, and leaves the messages and the statistics as they are.
  pub push-Intact :
      (n : ℕ) (s : Service) (xs : List ℕ)
      → Intact s xs
      → n ≢ stub
      → NotIn n xs
      → Allocated s.messages n
      → suc (length xs) < u64_mod
      → Intact (push n s) (xs ++ n ∷ [])
        × ((push n s).messages ≡ s.messages)
        × ((push n s).stats ≡ s.stats)
  push-Intact n s xs h new out there room = rw (push-eq n s h.queue h.queue_eq) (
    record {
      queue = Nodes.push n h.queue;
      queue_eq = refl;
      holds = push-Holds h.queue n xs h.holds new out;
      size_eq = omega (arith, h.size_eq, length-append xs (n ∷ []));
      bounded = omega (arith, length-append xs (n ∷ []));
      distinct = NotIn-Distinct n xs out h.distinct;
      allocated = All-append (Allocated s.messages) xs (n ∷ []) h.allocated (there, tt);
      plain = h.plain;
    },
    refl,
    refl,
  )

  pub reset_stats-IsPlain :
      (now : TimePoint) → (st : Stats) × (reset_stats now ≡ some st) × IsPlainStats st
  unfolding reset_stats size_opts message_wait_time_opts pop_count_opts Tag.computed Tag.bit
      Counter.create
  reset_stats-IsPlain now =
      let (size, e, p) =
        set-IsPlain (num 0) now (Gauge.create size_opts) (create-IsPlain size_opts refl) in
      (
        record {
          size = size;
          message_wait_time = Gauge.create message_wait_time_opts;
          pop_count = Counter.create pop_count_opts;
        },
        rw e refl,
        (p, create-IsPlain message_wait_time_opts refl, initial-IsPlain pop_count_opts refl),
      )

  -- `initialize` returns; where there is no queue, as at the start and after `finalize`, it makes
  -- one that holds no message.
  pub initialize-Intact :
      (memory : ℕ → Option ℕ) (now : TimePoint) (s : Service)
      → s.event_message_queue ≡ none
      → (s' : Service) × (initialize memory now s ≡ some s')
        × Intact s' []
        × (s'.messages ≡ s.messages)
  unfolding initialize
  initialize-Intact memory now s e =
      let (st, f, plain) = reset_stats-IsPlain now in
      let q = Nodes.create memory in
      (
        record s { event_message_queue = some q; mq_size = 0; stats = st },
        rw (e, f) refl,
        record {
          queue = q;
          queue_eq = refl;
          holds = create-Holds memory;
          size_eq = refl;
          bounded = omega arith;
          distinct = tt;
          allocated = tt;
          plain = plain;
        },
        refl,
      )
