-- ===== src/System/Reachable.antt =====
-- The states that the measuring points, the turns of the processor of src/core.cpp and restarts of
-- the library lead to.
use Prim.Native.String.{String}
use mathlib.Core.Path.{subst}
use handystats.Prelude.{
  ℕ, suc, ◌<◌, ◌≡◌, refl, sym, ap, ◌∙◌, ◌≢◌, true, false, Option, none, some, List, [], ◌∷◌, ◌++◌,
  append_assoc, append-nil, some_inj, Bool-cases, Option-cases, inl, inr, length, All, u64_mod,
  arith,
}
use handystats.Machine.{Machine}
use handystats.Events.Message.{Destination, EventMessage}
use handystats.MessageQueue.Nodes.{stub}
use handystats.MessageQueue.Chain.{NotIn}
use handystats.MessageQueue.Service
use handystats.MessageQueue.Service.{Service, store}
use handystats.MessageQueue.Service.Intact.{Allocated, pop_message}
use handystats.MessageQueue.Service.Drain.{ne-==, empty-zero, empty-suc}
use handystats.Core.{Core, Reads, is_enabled, turn}
use handystats.Core.Steady.{Steady, IsTyped}
use handystats.Core.Turn.{Kept, update_dump-Kept}
use handystats.Core.Progress.{turn-Taken}
use handystats.Core.Lifecycle.{initialize-finalize_again}
use handystats.Chrono.TimePoint.{later}
use handystats.MeasuringPoints.{send}
use handystats.MeasuringPoints.Sent.{send-Steady}
use handystats.System.{listed, pending, taken, Reach, start, sends, turns, restarts}

module _ ⦃m : Machine⦄ where
  NotIn-free :
      (f : ℕ → Option EventMessage) (n : ℕ) (xs : List ℕ)
      → All (Allocated f) xs
      → f n ≡ none
      → NotIn n xs
  NotIn-free f n [] a free = tt
  NotIn-free f n (x ∷ xs) ((msg, e), a) free =
      (λ same. cc (same, e, free), NotIn-free f n xs a free)

  push-messages : (n : ℕ) (s : Service) → (Service.push n s).messages ≡ s.messages
  unfolding Service.push
  push-messages n s = elim (Option-cases s.event_message_queue) [
    | inl e ↦ rw e refl
    | inr (q, e) ↦ rw e refl
  ]

  send-other :
      (n k : ℕ) (msg : EventMessage) (c : Core)
      → k ≢ n
      → (send n msg c).queue.messages k ≡ c.queue.messages k
  unfolding send
  send-other n k msg c other =
      let f = store c.queue.messages n (some msg) in
      let pushed = push-messages n (record c.queue { messages = f }) in
      let same : f k ≡ c.queue.messages k = rw (ne-== k n other) refl in
      elim (Bool-cases (is_enabled c)) [
        | inl e ↦ rw e (ap (λ (g : ℕ → Option EventMessage). g k) pushed ∙ same)
        | inr e ↦ rw e refl
      ]

  pending-same :
      (f g : ℕ → Option EventMessage) (n : ℕ) (xs : List ℕ)
      → ((k : ℕ) → k ≢ n → g k ≡ f k)
      → NotIn n xs
      → pending g xs ≡ pending f xs
  pending-same f g n [] same out = refl
  pending-same f g n (x ∷ xs) same (ne, out) = rw (same x ne, pending-same f g n xs same out) refl

  pending-append :
      (f : ℕ → Option EventMessage) (xs ys : List ℕ)
      → pending f (xs ++ ys) ≡ pending f xs ++ pending f ys
  pending-append f [] ys = refl
  pending-append f (x ∷ xs) ys =
      rw (pending-append f xs ys) (sym (append_assoc (listed (f x)) (pending f xs) (pending f ys)))

  -- A turn at an empty queue.
  idle_turn :
      (kind : String → Destination) (r : Reads) (c : Core)
      → Steady kind c []
      → (c' : Core) × (turn r c ≡ some c') × Kept kind [] c c'
  unfolding turn is_enabled
  idle_turn kind r c h =
      let c1 : Core = record c { last_message_timestamp = later c.last_message_timestamp r.idle } in
      let (c', e, k) = update_dump-Kept kind r [] c1 (record {
        enabled = h.enabled;
        intact = h.intact;
        typed = tt;
        kinds = h.kinds;
        ready = record {
          distinct = h.ready.distinct;
          plain_metrics = h.ready.plain_metrics;
          plain_stats = h.ready.plain_stats;
          plain_time = h.ready.plain_time;
        };
        quiet = h.quiet;
        quiet_names = h.quiet_names;
        writable = h.writable;
      }) in
      (
        c',
        rw (empty-zero c.queue h.intact.size_eq, turn) e,
        record { steady = k.steady; messages_eq = k.messages_eq; known_eq = k.known_eq },
      )

  taken-none : (r : Reads) (c : Core) → Service.empty c.queue ≡ true → taken r c ≡ []
  unfolding taken
  taken-none r c e = rw e refl

  taken-some :
      (r : Reads) (c : Core) (n : ℕ) (q : Service)
      → Service.empty c.queue ≡ false
      → Service.pop r.popped c.queue ≡ some (q, some n)
      → taken r c ≡ listed (c.queue.messages n)
  unfolding taken
  taken-some r c n q e f = rw (e, f) refl

  -- What holds in a state in which these messages were sent and those taken.
  pub record Orderly (kind : String → Destination) (sent gone : List EventMessage) (c : Core)
      : Type 0 where
    pub waiting : List ℕ
    pub steady : Steady kind c waiting
    pub order : sent ≡ gone ++ pending c.queue.messages waiting

  sends-Orderly :
      (kind : String → Destination) (sent gone : List EventMessage) (c : Core) (n : ℕ)
      (msg : EventMessage)
      → Orderly kind sent gone c
      → n ≢ stub
      → c.queue.messages n ≡ none
      → IsTyped kind msg
      → suc c.queue.mq_size < u64_mod
      → Orderly kind (sent ++ msg ∷ []) gone (send n msg c)
  sends-Orderly kind sent gone c n msg o new free typed room =
      let xs = o.waiting in
      let f = c.queue.messages in
      let g = (send n msg c).queue.messages in
      let out = NotIn-free f n xs o.steady.intact.allocated free in
      let (steady, here) =
        send-Steady kind n msg xs c o.steady new out typed
          (omega (arith, room, o.steady.intact.size_eq)) in
      let kept = pending-same f g n xs (λ k. send-other n k msg c) out in
      let last : pending g (n ∷ []) ≡ msg ∷ [] = rw here refl in
      record {
        waiting = xs ++ n ∷ [];
        steady = steady;
        order =
            rw (pending-append g xs (n ∷ []), kept, last, o.order)
              (append_assoc gone (pending f xs) (msg ∷ []));
      }

  turns-Orderly :
      (kind : String → Destination) (sent gone : List EventMessage) (c : Core) (r : Reads)
      (xs : List ℕ)
      → Steady kind c xs
      → sent ≡ gone ++ pending c.queue.messages xs
      → (c' : Core) × (turn r c ≡ some c') × Orderly kind sent (gone ++ taken r c) c'
  turns-Orderly kind sent gone c r [] h e =
      let (c', f, k) = idle_turn kind r c h in
      (
        c',
        f,
        record {
          waiting = [];
          steady = k.steady;
          order = rw (taken-none r c (empty-zero c.queue h.intact.size_eq), append-nil gone) e;
        },
      )
  turns-Orderly kind sent gone c r (x ∷ xs) h e =
      let (c', f, t) = turn-Taken kind r x xs c h in
      let (q, p, _, _) = pop_message r.popped c.queue x xs h.intact in
      let got = taken-some r c x q (empty-suc (length xs) c.queue h.intact.size_eq) p in
      let kept =
        pending-same c.queue.messages c'.queue.messages x xs
          (λ k ne. t.messages_eq k ∙ rw (ne-== k x ne) refl) h.intact.distinct.0 in
      (
        c',
        f,
        record {
          waiting = xs;
          steady = t.steady;
          order =
              e
              ∙ (rw (got, kept)
                  (sym (
                    append_assoc gone (listed (c.queue.messages x))
                      (pending c.queue.messages xs))));
        },
      )

  -- Let the messages of each name be of one kind of metric, each made where no message is, and fewer
  -- than 2 ^ 64 at a time. In every state that such messages, turns of the processor and restarts
  -- lead to, in any order, from a steady state with an empty queue, the state is steady, and the
  -- messages sent since the last start are, in the order in which they were sent, those that the processor has taken,
  -- followed by those that wait in the queue.
  pub Reach-Orderly :
      (kind : String → Destination) (c0 c : Core) (sent gone : List EventMessage)
      → Steady kind c0 []
      → Reach kind c0 sent gone c
      → Orderly kind sent gone c
  Reach-Orderly kind c0 c sent gone h start = record { waiting = []; steady = h; order = refl }
  Reach-Orderly kind c0 c _ _ h (sends {sent} {gone} {c = c1} n msg reach new free typed room) =
      sends-Orderly kind sent gone c1 n msg (Reach-Orderly kind c0 c1 sent gone h reach) new free
        typed room
  Reach-Orderly kind c0 c _ _ h (turns {sent} {gone} {c = c1} {c' = c2} r reach e) =
      let o = Reach-Orderly kind c0 c1 sent gone h reach in
      let (c', f, o') = turns-Orderly kind sent gone c1 r o.waiting o.steady o.order in
      subst (Orderly kind sent (gone ++ taken r c1)) (some_inj c' c2 (sym f ∙ e)) o'
  Reach-Orderly kind c0 c _ _ h
        (restarts {sent} {gone} {c = c1} {c1 = c2} {c2 = c3} fuel clock now queue_now now'
          queue_now' memory reach enough e f) =
      let o = Reach-Orderly kind c0 c1 sent gone h reach in
      let (d1, d2, e', f', idle, fresh, steady, r) =
        initialize-finalize_again kind kind fuel clock now queue_now now' queue_now' memory
          o.waiting c1 o.steady (omega (arith, enough, o.steady.intact.size_eq)) in
      let same = some_inj d1 c2 (sym e' ∙ e) in
      let again = some_inj d2 c3 (sym f' ∙ rw same f) in
      record { waiting = []; steady = subst (λ d. Steady kind d []) again steady; order = refl }

  abbrev pub first : List EventMessage → List EventMessage
  first [] = []
  first (msg ∷ msgs) = msg ∷ []

  taken-first :
      (kind : String → Destination) (r : Reads) (c : Core) (xs : List ℕ)
      → Steady kind c xs
      → taken r c ≡ first (pending c.queue.messages xs)
  taken-first kind r c [] h = taken-none r c (empty-zero c.queue h.intact.size_eq)
  taken-first kind r c (x ∷ xs) h =
      let (q, p, _, _) = pop_message r.popped c.queue x xs h.intact in
      let (msg, e) = h.intact.allocated.0 in
      rw (taken-some r c x q (empty-suc (length xs) c.queue h.intact.size_eq) p, e) refl

  -- Let the messages of each name be of one kind of metric, each made where no message is, and fewer
  -- than 2 ^ 64 at a time. In every state that such messages, turns of the processor and restarts
  -- lead to, in any order, from a steady state with an empty queue, a turn of the processor returns, whatever its clock
  -- reads, and it takes the first of the messages that were sent and not taken since the last start,
  -- if there is one, and no other.
  pub Reach-turn :
      (kind : String → Destination) (c0 c : Core) (sent gone : List EventMessage) (r : Reads)
      → Steady kind c0 []
      → Reach kind c0 sent gone c
      → (c' : Core) × (turn r c ≡ some c')
        × (rest : List EventMessage) × (sent ≡ gone ++ rest)
        × (taken r c ≡ first rest)
  Reach-turn kind c0 c sent gone r h reach =
      let o = Reach-Orderly kind c0 c sent gone h reach in
      let (c', e, _) = turns-Orderly kind sent gone c r o.waiting o.steady o.order in
      (c', e, pending c.queue.messages o.waiting, o.order, taken-first kind r c o.waiting o.steady)
