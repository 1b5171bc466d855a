-- ===== src/MessageQueue/Nodes.antt =====
-- `__event_message_queue` of src/message_queue.cpp on an explicit memory. A node is a number, and
-- the stub node is 0; the memory gives each node its `next` pointer, `none` for the null pointer.
-- `push` and `pop` are composed of the parts between which another thread can run.
use handystats.Prelude.{ℕ, ◌==◌, Bool, Option, none, some, if◌then◌else◌}

pub record Queue : Type 0 where
  pub head : ℕ
  pub tail : ℕ
  pub next : ℕ → Option ℕ

abbrev pub stub : ℕ
stub = 0

-- A store to the `next` field of a node.
abbrev pub store : (ℕ → Option ℕ) → ℕ → Option ℕ → ℕ → Option ℕ
store f p v q = if q == p then v else f q

-- The constructor: head and tail are the stub node.
unfoldable pub create : (ℕ → Option ℕ) → Queue
create memory = record { head = stub; tail = stub; next = store memory stub none }

-- The first two stores of `push`: the node's `next`, then the exchange of the head. The node that
-- was the head, `prev` in the code, is still `head` before this call.
unfoldable pub exchange : ℕ → Queue → Queue
exchange n q = record q { next = store q.next n none; head = n }

-- The last store of `push`.
unfoldable pub link : ℕ → ℕ → Queue → Queue
link prev n q = record q { next = store q.next prev (some n) }

unfoldable pub push : ℕ → Queue → Queue
push n q = link q.head n (exchange n q)

-- How `pop` goes on after a load of a `next`: it returns, or it loads the head.
pub data Next : Type 0 where
  returned : Option ℕ → Next
  load_head : Next

-- After the first load, it may also load the `next` of the new tail.
pub data First : Type 0 where
  decided : Next → First
  load_again : First

-- The load of the `next` of a tail that is not the stub.
unfoldable pub load_next : Queue → Queue × Next
load_next q = elim (q.next q.tail) [
  | some n ↦ (record q { tail = n }, returned (some q.tail))
  | none ↦ (q, load_head)
]

-- The first load of `pop`; one of a tail that is not the stub is used like the second one.
unfoldable pub load_first : Queue → Queue × First
unfolding load_next
load_first q =
    if q.tail == stub
    then elim (q.next q.tail) [
      | none ↦ (q, decided (returned none))
      | some n ↦ (record q { tail = n }, load_again)
    ]
    else ((load_next q).0, decided (load_next q).1)

-- The load of the head: whether the tail is the only node.
unfoldable pub compare_head : Queue → Bool
compare_head q = q.tail == q.head

-- `pop` from the push of the stub on.
unfoldable pub pop_end : Queue → Queue × Option ℕ
pop_end q = elim (q.next q.tail) [
  | some n ↦ (record q { tail = n }, some q.tail)
  | none ↦ (q, none)
]

-- The rest of `pop`, from the load of the head on and from each of the loads before it.
unfoldable pub finish_head : Queue → Queue × Option ℕ
unfolding compare_head
finish_head q = if compare_head q then pop_end (push stub q) else (q, none)

unfoldable pub finish_next : Queue × Next → Queue × Option ℕ
finish_next (q, returned r) = (q, r)
finish_next (q, load_head) = finish_head q

unfoldable pub finish_first : Queue × First → Queue × Option ℕ
unfolding finish_next load_next
finish_first (q, decided d) = finish_next (q, d)
finish_first (q, load_again) = finish_next (load_next q)

unfoldable pub pop : Queue → Queue × Option ℕ
unfolding load_first finish_first
pop q = finish_first (load_first q)
