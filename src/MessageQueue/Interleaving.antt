-- ===== src/MessageQueue/Interleaving.antt =====
-- Any interleaving of producers and the consumer. A producer's `push` is two steps, the exchange of
-- the head and the store of the link. The consumer's `pop` is up to six, one for each access of the
-- memory that a producer may write: the load of the `next` of the tail, that of the new tail behind
-- the stub, that of the head, the two steps of the push of the stub, and the last load.
use handystats.Prelude.{ℕ, ◌≡◌, ◌≢◌, Bool, true, false, Option, none, some, List, [], ◌∷◌, ◌++◌}
use handystats.MessageQueue.Nodes.{
  Queue, store, stub, create, exchange, link, Next, returned, load_head, First, decided, load_again,
  load_next, load_first, compare_head, pop_end,
}
use handystats.MessageQueue.Chain.{NotIn}

-- Where the consumer stands: outside `pop`, before the second load, before the load of the head,
-- before the push of the stub, before the store of its link behind a node, or before the last load.
pub data Consumer : Type 0 where
  idle : Consumer
  loading : Consumer
  comparing : Consumer
  pushing : Consumer
  linking : ℕ → Consumer
  ending : Consumer

-- The queue, the links that threads owe (a node and its successor), the consumer, and the messages
-- pushed, in the order of their exchanges, and popped so far.
pub record System : Type 0 where
  pub queue : Queue
  pub owed : ℕ → Option ℕ
  pub consumer : Consumer
  pub pushed : List ℕ
  pub popped : List ℕ

unfoldable pub after_next : System → Queue × Next → System
after_next s (q, returned none) = record s { queue = q; consumer = idle }
after_next s (q, returned (some b)) = record s {
  queue = q;
  consumer = idle;
  popped = s.popped ++ b ∷ [];
}
after_next s (q, load_head) = record s { queue = q; consumer = comparing }

unfoldable pub after_first : System → Queue × First → System
unfolding after_next
after_first s (q, decided d) = after_next s (q, d)
after_first s (q, load_again) = record s { queue = q; consumer = loading }

unfoldable pub after_compare : System → Bool → System
after_compare s true = record s { consumer = pushing }
after_compare s false = record s { consumer = idle }

unfoldable pub after_end : System → Queue × Option ℕ → System
after_end s (q, none) = record s { queue = q; consumer = idle }
after_end s (q, some b) = record s { queue = q; consumer = idle; popped = s.popped ++ b ∷ [] }

-- A message is pushed once: a node is new when a producer pushes it.
pub data Step (s u : System) : Type 0 where
  producer_exchange :
      (n : ℕ)
      → n ≢ stub
      → NotIn n s.pushed
      → u ≡ record s {
        queue = exchange n s.queue;
        owed = store s.owed s.queue.head (some n);
        pushed = s.pushed ++ n ∷ [];
      }
      → Step s u
  producer_link :
      (p n : ℕ)
      → n ≢ stub
      → s.owed p ≡ some n
      → u ≡ record s { queue = link p n s.queue; owed = store s.owed p none }
      → Step s u
  consumer_first : s.consumer ≡ idle → u ≡ after_first s (load_first s.queue) → Step s u
  consumer_next : s.consumer ≡ loading → u ≡ after_next s (load_next s.queue) → Step s u
  consumer_compare : s.consumer ≡ comparing → u ≡ after_compare s (compare_head s.queue) → Step s u
  consumer_exchange :
      s.consumer ≡ pushing
      → u ≡ record s {
        queue = exchange stub s.queue;
        owed = store s.owed s.queue.head (some stub);
        consumer = linking s.queue.head;
      }
      → Step s u
  consumer_link :
      (p : ℕ)
      → s.consumer ≡ linking p
      → u ≡ record s { queue = link p stub s.queue; owed = store s.owed p none; consumer = ending }
      → Step s u
  consumer_end : s.consumer ≡ ending → u ≡ after_end s (pop_end s.queue) → Step s u

pub data Reach (s : System) : System → Type 0 where
  here : Reach s s
  next : {t u : System} → Reach s t → Step t u → Reach s u

unfoldable pub start : (ℕ → Option ℕ) → System
start memory = record {
  queue = create memory;
  owed = λ _. none;
  consumer = idle;
  pushed = [];
  popped = [];
}
