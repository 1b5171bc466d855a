-- ===== src/Core/Progress.antt =====
-- The loop of `run_processor` of src/core.cpp on the messages of the queue.
use Prim.Native.String.{String}
use text.Mathlib.Text.{◌==◌ as str_eq}
use mathlib.Core.Path.{subst}
use handystats.Prelude.{
  ℕ, ◌==◌, ◌≡◌, refl, sym, ap, ◌∙◌, Bool, true, false, ◌||◌, Option, none, some, List, [], ◌∷◌,
  length, arith, if◌then◌else◌,
}
use handystats.Machine.{Machine}
use handystats.Events.Message.{Destination, EventMessage}
use handystats.Internal.{Metric, find}
use handystats.MessageQueue.Chain.{NotIn}
use handystats.MessageQueue.Service
use handystats.MessageQueue.Service.{Service}
use handystats.MessageQueue.Service.Intact.{Intact, pop_message}
use handystats.MessageQueue.Service.Drain.{ne-==, empty-suc, released, ReleasedIn, Released-turn}
use handystats.Core.{
  Core, Reads, is_enabled, process_message, process_message_queue, update_dump, turn, run_processor,
}
use handystats.Core.Steady.{Steady, TypedAt}
use handystats.Core.Turn.{is_some, is_known, process_message-Processed, update_dump-Kept}

or_swap : (a b c : Bool) → (a || (b || c)) ≡ ((b || a) || c)
or_swap true true c = refl
or_swap true false c = refl
or_swap false true c = refl
or_swap false false c = refl

module _ ⦃m : Machine⦄ where
  -- Whether one of these messages is for this name.
  abbrev pub is_for : String → Option EventMessage → Bool
  is_for name none = false
  is_for name (some msg) = str_eq msg.destination_name name

  abbrev pub addressed : (ℕ → Option EventMessage) → String → List ℕ → Bool
  addressed f name [] = false
  addressed f name (n ∷ ns) = is_for name (f n) || addressed f name ns

  -- What the turns for the messages `ns` of the queue make of a steady state.
  pub record Handled (kind : String → Destination) (ns : List ℕ) (c c' : Core) : Type 0 where
    pub steady : Steady kind c' []
    pub released_eq : ReleasedIn ns c.queue.messages c'.queue.messages
    pub known_eq :
        (name : String) → is_known name c' ≡ (addressed c.queue.messages name ns || is_known name c)

  -- What one turn makes of a steady state with the message `n` at the head of the queue.
  pub record Taken (kind : String → Destination) (n : ℕ) (xs : List ℕ) (c c' : Core) : Type 0 where
    pub steady : Steady kind c' xs
    pub messages_eq :
        (k : ℕ)
        → c'.queue.messages k
          ≡ (if k == n then released (c.queue.messages k) else c.queue.messages k)
    pub known_eq :
        (name : String) → is_known name c' ≡ (is_for name (c.queue.messages n) || is_known name c)

  popped-Steady :
      (kind : String → Destination) (n : ℕ) (xs : List ℕ) (c : Core) (q : Service)
      → Steady kind c (n ∷ xs)
      → Intact q xs
      → q.messages ≡ c.queue.messages
      → Steady kind (record c { queue = q }) xs
  unfolding is_enabled
  popped-Steady kind n xs c q h intact same = record {
    enabled = h.enabled;
    intact = intact;
    typed = rw same h.typed.1;
    kinds = h.kinds;
    ready = record {
      distinct = h.ready.distinct;
      plain_metrics = h.ready.plain_metrics;
      plain_stats = intact.plain;
      plain_time = h.ready.plain_time;
    };
    quiet = h.quiet;
    quiet_names = h.quiet_names;
    writable = h.writable;
  }

  pop-process :
      (r : Reads) (n : ℕ) (c c' : Core) (q : Service)
      → Service.pop r.popped c.queue ≡ some (q, some n)
      → process_message r n (record c { queue = q }) ≡ some c'
      → process_message_queue r c ≡ some c'
  unfolding process_message_queue
  pop-process r n c c' q e f = rw (e, process_message_queue) f

  turn-process :
      (r : Reads) (c c1 c2 : Core)
      → Service.empty c.queue ≡ false
      → process_message_queue r c ≡ some c1
      → update_dump r c1 ≡ some c2
      → turn r c ≡ some c2
  unfolding turn
  turn-process r c c1 c2 e f g = rw (e, turn) (rw f g)

  by_test :
      (b : Bool) (metric : Metric) (before : Option Metric)
      → is_some (if b then some metric else before) ≡ (b || is_some before)
  by_test true metric before = refl
  by_test false metric before = refl

  named :
      (name : String) (o : Option EventMessage) (msg : EventMessage) (metric : Metric)
      (before : Option Metric)
      → o ≡ some msg
      → is_some (if str_eq msg.destination_name name then some metric else before)
        ≡ (is_for name o || is_some before)
  named name o msg metric before e = rw e (by_test (str_eq msg.destination_name name) metric before)

  -- A turn on a steady state with a message at the head of the queue returns: it takes this message
  -- off the queue, releases it, and adds a metric of its name if there is none.
  pub turn-Taken :
      (kind : String → Destination) (r : Reads) (n : ℕ) (xs : List ℕ) (c : Core)
      → Steady kind c (n ∷ xs)
      → (c' : Core) × (turn r c ≡ some c') × Taken kind n xs c c'
  turn-Taken kind r n xs c h =
      let (q, e, intact, same) = pop_message r.popped c.queue n xs h.intact in
      let typed = subst (λ f. TypedAt kind f n) (sym same) h.typed.0 in
      let (c1, e1, p) =
        process_message-Processed kind r n xs (record c { queue = q })
          (popped-Steady kind n xs c q h intact same) h.intact.distinct.0 typed in
      let (c2, e2, k) = update_dump-Kept kind r xs c1 p.steady in
      let at = ap (λ (f : ℕ → Option EventMessage). f n) (sym same) ∙ p.found in
      (
        c2,
        turn-process r c c1 c2 (empty-suc (length xs) c.queue h.intact.size_eq)
            (pop-process r n c c1 q e e1) e2,
        record {
          steady = k.steady;
          messages_eq = λ j.
              ap (λ (f : ℕ → Option EventMessage). f j) k.messages_eq
              ∙ p.deletes.messages_eq j
              ∙ ap (λ (f : ℕ → Option EventMessage). if j == n then released (f j) else f j) same;
          known_eq = λ name.
              k.known_eq name
              ∙ ap is_some (p.lookup name)
              ∙ named name (c.queue.messages n) p.message p.metric
                  (find name c.internal.metrics_map) at;
        },
      )

  addressed-turn :
      (name : String) (n : ℕ) (f g : ℕ → Option EventMessage) (xs : List ℕ)
      → NotIn n xs
      → ((k : ℕ) → g k ≡ (if k == n then released (f k) else f k))
      → addressed g name xs ≡ addressed f name xs
  addressed-turn name n f g [] out d = refl
  addressed-turn name n f g (x ∷ xs) (ne, out) d =
      let same : g x ≡ f x = d x ∙ rw (ne-== x n ne) refl in
      rw (same, addressed-turn name n f g xs out d) refl

  run-turn :
      (r : Reads) (rs : List Reads) (c c1 : Core)
      → is_enabled c ≡ true
      → turn r c ≡ some c1
      → run_processor (r ∷ rs) c ≡ run_processor rs c1
  unfolding run_processor
  run-turn r rs c c1 e f = rw (e, run_processor) (rw f refl)

  -- From a steady state whose queue holds `xs`, as many turns of the processor as there are messages
  -- return, and then the queue is empty, those of these messages whose type is an event of their kind
  -- of metric are released and no other, and there are metrics of just the names that had one and of those that the messages are for.
  pub run_processor-Handled :
      (kind : String → Destination) (rs : List Reads) (xs : List ℕ) (c : Core)
      → Steady kind c xs
      → length rs ≡ length xs
      → (c' : Core) × (run_processor rs c ≡ some c') × Handled kind xs c c'
  unfolding run_processor
  run_processor-Handled kind [] [] c h e =
      (c, refl, record { steady = h; released_eq = λ _. refl; known_eq = λ _. refl })
  run_processor-Handled kind [] (x ∷ xs) c h e = let no : ⊥ = omega (arith, e) in elim no [ ]
  run_processor-Handled kind (r ∷ rs) [] c h e = let no : ⊥ = omega (arith, e) in elim no [ ]
  run_processor-Handled kind (r ∷ rs) (x ∷ xs) c h e =
      let out = h.intact.distinct.0 in
      let (c1, e1, t) = turn-Taken kind r x xs c h in
      let (c2, e2, k) = run_processor-Handled kind rs xs c1 t.steady (omega (arith, e)) in
      let f = c.queue.messages in
      let g = c1.queue.messages in
      (
        c2,
        run-turn r rs c c1 h.enabled e1 ∙ e2,
        record {
          steady = k.steady;
          released_eq = Released-turn x xs f g c2.queue.messages out t.messages_eq k.released_eq;
          known_eq = λ name.
              k.known_eq name
              ∙ ap (λ b. b || is_known name c1) (addressed-turn name x f g xs out t.messages_eq)
              ∙ ap (λ b. addressed f name xs || b) (t.known_eq name)
              ∙ or_swap (addressed f name xs) (is_for name (f x)) (is_known name c);
        },
      )
