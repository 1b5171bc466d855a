-- ===== src/MessageQueue/Fifo.antt =====
-- The queue on one thread: `push` appends and `pop` takes the oldest message.
use mathlib.Core.Path.{subst, fun_ext}
use handystats.Prelude.{
  ℕ, ◌≡◌, ◌≢◌, inl, inr, refl, ◌∙◌, sym, ◌==◌, ==_iff, Bool-cases, Option, none, some, List, [],
  ◌∷◌, ◌++◌, arith,
}
use handystats.MessageQueue.Nodes.{
  Queue, store, stub, create, exchange, link, push, Next, returned, load_head, First, decided,
  load_again, load_next, load_first, compare_head, pop_end, finish_head, finish_next, finish_first,
  pop,
}
use handystats.MessageQueue.Chain.{
  NotIn, contents, contents-snoc, contents-snoc_stub, NotIn-contents, store_self,
}
use handystats.MessageQueue.Shape.{
  Shape, Shape-exchange, Shape-link, Decided, DecidedFirst, load_next-Decided, load_first-Decided,
  head_alone, head_excused, pop_end-Decided, IsNonempty-snoc,
}

-- The queue holds these messages, oldest first, and no link is missing.
pub record Holds (q : Queue) (xs : List ℕ) : Type 0 where
  rest : List ℕ
  shape : Shape q (λ _. none) rest
  messages : contents (q.tail ∷ rest) ≡ xs

-- A new queue holds nothing.
pub create-Holds : (memory : ℕ → Option ℕ) → Holds (create memory) []
unfolding create contents
create-Holds memory = record {
  rest = [];
  shape = record {
    chain = (refl, refl);
    distinct = (tt, tt);
    head_eq = refl;
    outside = λ x _. refl;
  };
  messages = refl;
}

paid : (p n : ℕ) → ◌≡◌ {A = ℕ → Option ℕ} (store (store (λ _. none) p (some n)) p none) (λ _. none)
paid p n = fun_ext λ x. ground arith

push-Shape :
    (q : Queue) (n : ℕ) (rest : List ℕ)
    → Shape q (λ _. none) rest
    → NotIn n (q.tail ∷ rest)
    → Shape (push n q) (λ _. none) (rest ++ n ∷ [])
unfolding push
push-Shape q n rest h out =
    subst (λ owed. Shape (link q.head n (exchange n q)) owed (rest ++ n ∷ [])) (paid q.head n)
      (Shape-link (exchange n q) (store (λ _. none) q.head (some n)) (rest ++ n ∷ [])
        (Shape-exchange q (λ _. none) rest h n out) q.head n
        (store_self (λ _. none) q.head (some n)))

push-tail_eq : (q : Queue) (n : ℕ) → (push n q).tail ≡ q.tail
unfolding push exchange link
push-tail_eq q n = refl

push-tail :
    (q : Queue) (n : ℕ) (rest : List ℕ)
    → contents ((push n q).tail ∷ (rest ++ n ∷ [])) ≡ contents (q.tail ∷ (rest ++ n ∷ []))
unfolding push exchange link
push-tail q n rest = refl

-- A message that is not in the queue is appended.
pub push-Holds :
    (q : Queue) (n : ℕ) (xs : List ℕ)
    → Holds q xs
    → n ≢ stub
    → NotIn n xs
    → Holds (push n q) (xs ++ n ∷ [])
push-Holds q n xs h new out = record {
  rest = h.rest ++ n ∷ [];
  shape =
      push-Shape q n h.rest h.shape (NotIn-contents n (q.tail ∷ h.rest) new (rw h.messages out));
  messages = push-tail q n h.rest ∙ contents-snoc (q.tail ∷ h.rest) n new ∙ rw h.messages;
}

-- A result of `pop` on these messages: the oldest, which is gone, or nothing if there is none.
abbrev pub PopsOldest : List ℕ → Queue × Option ℕ → Type 0
PopsOldest [] (q, r) = (r ≡ none) × Holds q []
PopsOldest (x ∷ xs) (q, r) = (r ≡ some x) × Holds q xs

returned-PopsOldest :
    (l xs : List ℕ) (q : Queue) (r : Option ℕ)
    → contents l ≡ xs
    → Decided l (λ _. none) (q, returned r)
    → PopsOldest xs (q, r)
returned-PopsOldest l [] q none e (rest, h, same, why) =
    (refl, record { rest = rest; shape = h; messages = same ∙ e })
returned-PopsOldest l (x ∷ xs) q none e (rest, h, same, inl empty) = cc
returned-PopsOldest l (x ∷ xs) q none e (rest, h, same, inr (p, n, owes)) = cc
returned-PopsOldest l [] q (some b) e (rest, h, first) = cc
returned-PopsOldest l (x ∷ xs) q (some b) e (rest, h, first) =
    (ground arith, record { rest = rest; shape = h; messages = ground arith })

end-PopsOldest :
    (l xs rest : List ℕ) (q : Queue)
    → contents l ≡ xs
    → Shape q (λ _. none) rest
    → contents (q.tail ∷ rest) ≡ contents l
    → q.tail ≢ stub
    → NotIn stub (q.tail ∷ rest)
    → PopsOldest xs (pop_end (push stub q))
end-PopsOldest l xs rest q e h same full out =
    returned-PopsOldest ((push stub q).tail ∷ (rest ++ stub ∷ [])) xs (pop_end (push stub q)).0
      (pop_end (push stub q)).1
      (push-tail q stub rest ∙ contents-snoc_stub (q.tail ∷ rest) ∙ same ∙ e)
      (pop_end-Decided (push stub q) (λ _. none) (rest ++ stub ∷ []) (push-Shape q stub rest h out)
        (rw (push-tail_eq q stub) full) (IsNonempty-snoc rest stub))

head-PopsOldest :
    (l xs : List ℕ) (q : Queue)
    → contents l ≡ xs
    → Decided l (λ _. none) (q, load_head)
    → PopsOldest xs (finish_head q)
unfolding finish_head compare_head
head-PopsOldest l xs q e (rest, h, same, full, free) = elim (Bool-cases (q.tail == q.head)) [
  | inl alone ↦ rw alone (
      end-PopsOldest l xs rest q e h same full
        (head_alone q (λ _. none) rest h full ((==_iff q.tail q.head).0 alone)))
  | inr other ↦ rw other (
      returned-PopsOldest (q.tail ∷ rest) xs q none (same ∙ e) (
        rest,
        h,
        refl,
        head_excused q (λ _. none) rest h free (λ at. cc (sym other ∙ (==_iff q.tail q.head).1 at)),
      ))
]

next-PopsOldest :
    (l xs : List ℕ) (d : Queue × Next)
    → contents l ≡ xs
    → Decided l (λ _. none) d
    → PopsOldest xs (finish_next d)
unfolding finish_next
next-PopsOldest l xs (q, returned r) e d = returned-PopsOldest l xs q r e d
next-PopsOldest l xs (q, load_head) e d = head-PopsOldest l xs q e d

first-PopsOldest :
    (l xs : List ℕ) (d : Queue × First)
    → contents l ≡ xs
    → DecidedFirst l (λ _. none) d
    → PopsOldest xs (finish_first d)
unfolding finish_first
first-PopsOldest l xs (q, decided d) e h = next-PopsOldest l xs (q, d) e h
first-PopsOldest l xs (q, load_again) e (rest, h, same, full) =
    next-PopsOldest (q.tail ∷ rest) xs (load_next q) (same ∙ e)
      (load_next-Decided q (λ _. none) rest h full)

-- On a queue that holds the messages `xs`, with no link missing, `pop` gives the oldest message and
-- removes it, and gives nothing if there is none.
pub pop_oldest : (q : Queue) (xs : List ℕ) → Holds q xs → PopsOldest xs (pop q)
unfolding pop
pop_oldest q xs h =
    first-PopsOldest (q.tail ∷ h.rest) xs (load_first q) h.messages
      (load_first-Decided q (λ _. none) h.rest h.shape)
