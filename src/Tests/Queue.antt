-- ===== src/Tests/Queue.antt =====
-- Runs of the message queue.
use handystats.Prelude.{ℕ, ◌≡◌, ◌≢◌, refl, Option, none, some, List, [], ◌∷◌, ◌++◌, arith}
use handystats.MessageQueue.Nodes.{create, store, exchange, push, pop}
use handystats.MessageQueue.Chain.{contents}
use handystats.MessageQueue.Shape.{Shape}
use handystats.MessageQueue.Fifo.{Holds, create-Holds, push-Holds, PopsOldest, pop_oldest}
use handystats.MessageQueue.Interleaving.{
  System, idle, Step, producer_exchange, Reach, here, next, start,
}
use handystats.MessageQueue.Safety.{interleaving_fifo}

abbrev memory : ℕ → Option ℕ
memory _ = none

abbrev five : ℕ
five = 5

abbrev seven : ℕ
seven = 7

five_new : five ≢ 0
five_new = ground arith

-- A producer has exchanged the head, and its link is missing.
abbrev exchanged : System
exchanged = record {
  queue = exchange five (create memory);
  owed = store (λ _. none) 0 (some five);
  consumer = idle;
  pushed = five ∷ [];
  popped = [];
}

first-Step : Step (start memory) exchanged
unfolding start create
first-Step = producer_exchange five five_new tt refl

exchanged-Reach : Reach (start memory) exchanged
exchanged-Reach = next here first-Step

interleaving_fifo_example :
    (rest : List ℕ) × Shape (exchange five (create memory)) (store (λ _. none) 0 (some five)) rest
    × (five ∷ [] ≡ [] ++ contents ((exchange five (create memory)).tail ∷ rest))
interleaving_fifo_example = interleaving_fifo memory exchanged-Reach

one_message : Holds (push five (create memory)) (five ∷ [])
one_message = push-Holds (create memory) five [] (create-Holds memory) five_new tt

pop_oldest_example : PopsOldest (five ∷ []) (pop (push five (create memory)))
pop_oldest_example = pop_oldest (push five (create memory)) (five ∷ []) one_message
