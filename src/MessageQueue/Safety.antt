-- ===== src/MessageQueue/Safety.antt =====
-- No interleaving loses, repeats or reorders a message.
use mathlib.Core.List.{append_assoc}
use mathlib.Core.Path.{subst}
use handystats.Prelude.{
  ℕ, ◌≡◌, ◌≢◌, Bool, true, false, ==_iff, refl, sym, ap, ◌∙◌, Option, none, some, List, [], ◌∷◌,
  ◌++◌, arith,
}
use handystats.MessageQueue.Nodes.{
  Queue, store, stub, create, exchange, link, Next, returned, load_head, First, decided, load_again,
  load_next, load_first, compare_head, pop_end,
}
use handystats.MessageQueue.Chain.{
  NotIn, Chain, last, contents, contents-snoc, contents-snoc_stub, NotIn-contents, NotIn-suffix,
  store_ne, store_self, NotIn-append,
}
use handystats.MessageQueue.Shape.{
  Shape, Shape-exchange, Shape-link, Decided, DecidedFirst, load_next-Decided, load_first-Decided,
  head_alone, pop_end-Decided, IsNonempty, IsNonempty-snoc,
}
use handystats.MessageQueue.Interleaving.{
  Consumer, idle, loading, comparing, pushing, linking, ending, System, after_next, after_first,
  after_compare, after_end, Step, producer_exchange, producer_link, consumer_first, consumer_next,
  consumer_compare, consumer_exchange, consumer_link, consumer_end, Reach, here, next, start,
}

-- What holds of the queue while the consumer is inside `pop`.
abbrev Waits : Consumer → System → List ℕ → Type 0
Waits idle s rest = Unit
Waits loading s rest = s.queue.tail ≢ stub
Waits comparing s rest = s.queue.tail ≢ stub
Waits pushing s rest = (s.queue.tail ≢ stub) × NotIn stub (s.queue.tail ∷ rest)
Waits (linking p) s rest = (s.queue.tail ≢ stub) × IsNonempty rest × (s.owed p ≡ some stub)
Waits ending s rest = (s.queue.tail ≢ stub) × IsNonempty rest

record Inv (s : System) : Type 0 where
  rest : List ℕ
  shape : Shape s.queue s.owed rest
  flow : s.pushed ≡ s.popped ++ contents (s.queue.tail ∷ rest)
  waits : Waits s.consumer s rest

start-Inv : (memory : ℕ → Option ℕ) → Inv (start memory)
unfolding start create contents
start-Inv memory = record {
  rest = [];
  shape = record {
    chain = (refl, refl);
    distinct = (tt, tt);
    head_eq = refl;
    outside = λ x _. refl;
  };
  flow = refl;
  waits = tt;
}

Chain-last :
    (nexts owed : ℕ → Option ℕ) (a : ℕ) (l : List ℕ)
    → Chain nexts owed (a ∷ l)
    → owed (last a l) ≡ none
Chain-last nexts owed a [] c = c.1
Chain-last nexts owed a (b ∷ l) c = Chain-last nexts owed b l c.1

-- A producer's steps do not disturb the consumer.
Waits-exchange :
    (c : Consumer) (s u : System) (rest : List ℕ) (n : ℕ)
    → n ≢ stub
    → s.owed s.queue.head ≡ none
    → u.queue.tail ≡ s.queue.tail
    → u.owed ≡ store s.owed s.queue.head (some n)
    → Waits c s rest
    → Waits c u (rest ++ n ∷ [])
Waits-exchange idle s u rest n new free t o w = tt
Waits-exchange loading s u rest n new free t o w = rw t w
Waits-exchange comparing s u rest n new free t o w = rw t w
Waits-exchange pushing s u rest n new free t o (full, out) =
    rw t (full, NotIn-append stub (s.queue.tail ∷ rest) (n ∷ []) out (new, tt))
Waits-exchange (linking p) s u rest n new free t o (full, more, owe) =
    let apart : p ≢ s.queue.head = λ e. (let q = ap s.owed e in cc) in
    (rw t full, IsNonempty-snoc rest n, rw o (store_ne s.owed s.queue.head p (some n) apart ∙ owe))
Waits-exchange ending s u rest n new free t o (full, more) = (rw t full, IsNonempty-snoc rest n)

Waits-link :
    (c : Consumer) (s u : System) (rest : List ℕ) (p n : ℕ)
    → n ≢ stub
    → s.owed p ≡ some n
    → u.queue.tail ≡ s.queue.tail
    → u.owed ≡ store s.owed p none
    → Waits c s rest
    → Waits c u rest
Waits-link idle s u rest p n new o t e w = tt
Waits-link loading s u rest p n new o t e w = rw t w
Waits-link comparing s u rest p n new o t e w = rw t w
Waits-link pushing s u rest p n new o t e (full, out) = rw t (full, out)
Waits-link (linking q) s u rest p n new o t e (full, more, owe) =
    let apart : q ≢ p = λ same. (let r = ap s.owed same in ground arith) in
    (rw t full, more, rw e (store_ne s.owed p q none apart ∙ owe))
Waits-link ending s u rest p n new o t e (full, more) = (rw t full, more)

-- What the consumer's loads leave.
next-Inv :
    (s : System) (l : List ℕ) (r : Queue × Next)
    → s.pushed ≡ s.popped ++ contents l
    → Decided l s.owed r
    → Inv (after_next s r)
unfolding after_next
next-Inv s l (q, returned none) flow (rest, h, same, _) = record {
  rest = rest;
  shape = h;
  flow = rw same flow;
  waits = tt;
}
next-Inv s l (q, returned (some b)) flow (rest, h, first) = record {
  rest = rest;
  shape = h;
  flow = flow ∙ rw first (sym (append_assoc s.popped (b ∷ []) (contents (q.tail ∷ rest))));
  waits = tt;
}
next-Inv s l (q, load_head) flow (rest, h, same, full, _) = record {
  rest = rest;
  shape = h;
  flow = rw same flow;
  waits = full;
}

first-Inv :
    (s : System) (l : List ℕ) (r : Queue × First)
    → s.pushed ≡ s.popped ++ contents l
    → DecidedFirst l s.owed r
    → Inv (after_first s r)
unfolding after_first
first-Inv s l (q, decided d) flow h = next-Inv s l (q, d) flow h
first-Inv s l (q, load_again) flow (rest, h, same, full) = record {
  rest = rest;
  shape = h;
  flow = rw same flow;
  waits = full;
}

compare-Inv :
    (s : System) (v : Inv s) (b : Bool)
    → compare_head s.queue ≡ b
    → s.queue.tail ≢ stub
    → Inv (after_compare s b)
unfolding after_compare compare_head
compare-Inv s v true e full = record {
  rest = v.rest;
  shape = v.shape;
  flow = v.flow;
  waits = (
    full,
    head_alone s.queue s.owed v.rest v.shape full ((==_iff s.queue.tail s.queue.head).0 e),
  );
}
compare-Inv s v false e full = record { rest = v.rest; shape = v.shape; flow = v.flow; waits = tt }

end-Inv :
    (s : System) (l : List ℕ) (q : Queue) (r : Option ℕ)
    → s.pushed ≡ s.popped ++ contents l
    → Decided l s.owed (q, returned r)
    → Inv (after_end s (q, r))
unfolding after_end
end-Inv s l q none flow (rest, h, same, _) = record {
  rest = rest;
  shape = h;
  flow = rw same flow;
  waits = tt;
}
end-Inv s l q (some b) flow (rest, h, first) = record {
  rest = rest;
  shape = h;
  flow = flow ∙ rw first (sym (append_assoc s.popped (b ∷ []) (contents (q.tail ∷ rest))));
  waits = tt;
}

head-free : (s : System) (v : Inv s) → s.owed s.queue.head ≡ none
head-free s v =
    subst (λ x. s.owed x ≡ none) v.shape.head_eq
      (Chain-last s.queue.next s.owed s.queue.tail v.rest v.shape.chain)

Step-Inv : {s u : System} → Step s u → Inv s → Inv u
unfolding exchange link
Step-Inv {s} (producer_exchange n new fresh e) v =
    let l = s.queue.tail ∷ v.rest in
    let out : NotIn n l =
      NotIn-contents n l new
        (NotIn-suffix n s.popped (contents l) (subst (NotIn n) v.flow fresh)) in
    subst Inv (sym e) (record {
      rest = v.rest ++ n ∷ [];
      shape = Shape-exchange s.queue s.owed v.rest v.shape n out;
      flow =
          ap (λ (k : List ℕ). k ++ n ∷ []) v.flow
          ∙ append_assoc s.popped (contents l) (n ∷ [])
          ∙ ap (◌++◌ s.popped) (sym (contents-snoc l n new));
      waits =
          Waits-exchange s.consumer s
            (record s {
              queue = exchange n s.queue;
              owed = store s.owed s.queue.head (some n);
              pushed = s.pushed ++ n ∷ [];
            })
            v.rest n new (head-free s v) refl refl v.waits;
    })
Step-Inv {s} (producer_link p n new o e) v = subst Inv (sym e) (record {
  rest = v.rest;
  shape = Shape-link s.queue s.owed v.rest v.shape p n o;
  flow = v.flow;
  waits =
      Waits-link s.consumer s (record s { queue = link p n s.queue; owed = store s.owed p none })
        v.rest p n new o refl refl v.waits;
})
Step-Inv {s} (consumer_first c e) v = subst Inv (sym e) (
    first-Inv s (s.queue.tail ∷ v.rest) (load_first s.queue) v.flow
      (load_first-Decided s.queue s.owed v.rest v.shape))
Step-Inv {s} (consumer_next c e) v =
    let full : Waits loading s v.rest = subst (λ k. Waits k s v.rest) c v.waits in
    subst Inv (sym e) (
      next-Inv s (s.queue.tail ∷ v.rest) (load_next s.queue) v.flow
        (load_next-Decided s.queue s.owed v.rest v.shape full))
Step-Inv {s} (consumer_compare c e) v =
    let full : Waits comparing s v.rest = subst (λ k. Waits k s v.rest) c v.waits in
    subst Inv (sym e) (compare-Inv s v (compare_head s.queue) refl full)
Step-Inv {s} (consumer_exchange c e) v =
    let l = s.queue.tail ∷ v.rest in
    let (full, out) : Waits pushing s v.rest = subst (λ k. Waits k s v.rest) c v.waits in
    subst Inv (sym e) (record {
      rest = v.rest ++ stub ∷ [];
      shape = Shape-exchange s.queue s.owed v.rest v.shape stub out;
      flow = v.flow ∙ ap (◌++◌ s.popped) (sym (contents-snoc_stub l));
      waits = (full, IsNonempty-snoc v.rest stub, store_self s.owed s.queue.head (some stub));
    })
Step-Inv {s} (consumer_link p c e) v =
    let (full, more, owe) : Waits (linking p) s v.rest = subst (λ k. Waits k s v.rest) c v.waits in
    subst Inv (sym e) (record {
      rest = v.rest;
      shape = Shape-link s.queue s.owed v.rest v.shape p stub owe;
      flow = v.flow;
      waits = (full, more);
    })
Step-Inv {s} (consumer_end c e) v =
    let (full, more) : Waits ending s v.rest = subst (λ k. Waits k s v.rest) c v.waits in
    subst Inv (sym e) (
      end-Inv s (s.queue.tail ∷ v.rest) (pop_end s.queue).0 (pop_end s.queue).1 v.flow
        (pop_end-Decided s.queue s.owed v.rest v.shape full more))

Reach-Inv : {s u : System} → Reach s u → Inv s → Inv u
Reach-Inv here v = v
Reach-Inv (next r st) v = Step-Inv st (Reach-Inv r v)

-- In every state that an interleaving of producers and the consumer reaches from an empty queue,
-- the messages pushed, in the order of their exchanges of the head, are those popped, in order,
-- followed by those on the chain of nodes from the tail: none is lost, repeated or overtaken.
pub interleaving_fifo :
    (memory : ℕ → Option ℕ) {u : System}
    → Reach (start memory) u
    → (rest : List ℕ) × Shape u.queue u.owed rest
      × (u.pushed ≡ u.popped ++ contents (u.queue.tail ∷ rest))
interleaving_fifo memory r = let v = Reach-Inv r (start-Inv memory) in (v.rest, v.shape, v.flow)
