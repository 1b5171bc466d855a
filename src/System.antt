-- ===== src/System.antt =====
-- How the parts of src/core.cpp and src/measuring_points run together: the threads of the program
-- call measuring points while the processor of src/core.cpp takes its turns, and the library may be
-- finalized and initialized again. A push is one step here; src/message_queue.cpp's own steps are
-- the subject of MessageQueue/Interleaving.
pub mod Reachable
pub mod Written
use Prim.Native.String.{String}
use handystats.Prelude.{
  ℕ, suc, ◌<◌, ◌≡◌, ◌≢◌, Option, none, some, List, [], ◌∷◌, ◌++◌, u64_mod, if◌then◌else◌,
}
use handystats.Machine.{Machine}
use handystats.Chrono.TimePoint.{TimePoint}
use handystats.Events.Message.{Destination, EventMessage}
use handystats.MessageQueue.Nodes.{stub}
use handystats.MessageQueue.Service
use handystats.MessageQueue.Service.{Service}
use handystats.Core.{Core, Reads, turn, initialize, finalize}
use handystats.Core.Steady.{IsTyped}
use handystats.MeasuringPoints.{send}

module _ ⦃m : Machine⦄ where
  abbrev pub listed : Option EventMessage → List EventMessage
  listed none = []
  listed (some msg) = msg ∷ []

  -- The messages at these addresses, in their order.
  abbrev pub pending : (ℕ → Option EventMessage) → List ℕ → List EventMessage
  pending f [] = []
  pending f (x ∷ xs) = listed (f x) ++ pending f xs

  abbrev pub message_of :
      (ℕ → Option EventMessage) → Option (Service × Option ℕ) → List EventMessage
  message_of f none = []
  message_of f (some (q, none)) = []
  message_of f (some (q, some n)) = listed (f n)

  -- The message that a turn takes off the queue, if it takes one.
  unfoldable pub taken : Reads → Core → List EventMessage
  taken r c =
      if Service.empty c.queue
      then []
      else message_of c.queue.messages (Service.pop r.popped c.queue)

  -- The states that the library reaches from `c0`, with the messages that were sent and those that
  -- the processor has taken since the library was last initialized. A message is of the kind that
  -- its name has, and is made at an address where no message is.
  pub data Reach (kind : String → Destination) (c0 : Core)
      : (sent gone : List EventMessage) → Core → Type 0 where
    start : Reach kind c0 [] [] c0
    sends :
        {sent gone : List EventMessage} {c : Core} (n : ℕ) (msg : EventMessage)
        → Reach kind c0 sent gone c
        → n ≢ stub
        → c.queue.messages n ≡ none
        → IsTyped kind msg
        → suc c.queue.mq_size < u64_mod
        → Reach kind c0 (sent ++ msg ∷ []) gone (send n msg c)
    turns :
        {sent gone : List EventMessage} {c c' : Core} (r : Reads)
        → Reach kind c0 sent gone c
        → turn r c ≡ some c'
        → Reach kind c0 sent (gone ++ taken r c) c'
    restarts :
        {sent gone : List EventMessage} {c c1 c2 : Core} (fuel : ℕ) (clock : ℕ → TimePoint)
        (now queue_now now' queue_now' : TimePoint) (memory : ℕ → Option ℕ)
        → Reach kind c0 sent gone c
        → c.queue.mq_size < fuel
        → finalize fuel clock now queue_now c ≡ some c1
        → initialize memory now' queue_now' c1 ≡ some c2
        → Reach kind c0 [] [] c2
