-- ===== src/MessageQueue/Shape.antt =====
-- The shape of the queue while producers run, and how each part of `push` and `pop` changes it.
use handystats.Prelude.{
  ℕ, ◌≡◌, ◌≢◌, ◌⊎◌, inl, inr, refl, sym, ap, ◌∙◌, ◌==◌, ==_iff, Bool-cases, Option, none, some,
  List, [], ◌∷◌, ◌++◌, arith,
}
use handystats.MessageQueue.Nodes.{
  Queue, store, stub, exchange, link, Next, returned, load_head, First, decided, load_again,
  load_next, load_first, pop_end,
}
use handystats.MessageQueue.Chain.{
  NotIn, Distinct, Chain, last, Chain-exchange, Chain-link, Distinct-snoc, last-snoc, ne_last,
  NotIn-prefix, contents, contents-full, contents-stub, store_ne,
}

-- The nodes of the queue are its tail and `rest`; the head is the last of them, and no producer
-- owes the link of another node.
pub record Shape (q : Queue) (owed : ℕ → Option ℕ) (rest : List ℕ) : Type 0 where
  pub chain : Chain q.next owed (q.tail ∷ rest)
  pub distinct : Distinct (q.tail ∷ rest)
  pub head_eq : last q.tail rest ≡ q.head
  pub outside : (x : ℕ) → NotIn x (q.tail ∷ rest) → owed x ≡ none

module _ (q : Queue) (owed : ℕ → Option ℕ) (rest : List ℕ) (h : Shape q owed rest) where
  pub Shape-exchange :
      (n : ℕ)
      → NotIn n (q.tail ∷ rest)
      → Shape (exchange n q) (store owed q.head (some n)) (rest ++ n ∷ [])
  unfolding exchange
  Shape-exchange n out = record {
    chain =
        rw (← h.head_eq)
          (Chain-exchange q.next owed n q.tail rest h.distinct out (h.outside n out) h.chain);
    distinct = Distinct-snoc (q.tail ∷ rest) n h.distinct out;
    head_eq = last-snoc q.tail rest n;
    outside = λ x far.
        (let near = NotIn-prefix x (q.tail ∷ rest) (n ∷ []) far in
          let apart : x ≢ q.head = λ e. ne_last x q.tail rest near (e ∙ sym h.head_eq) in
          store_ne owed q.head x (some n) apart ∙ h.outside x near);
  }

  pub Shape-link : (p n : ℕ) → owed p ≡ some n → Shape (link p n q) (store owed p none) rest
  unfolding link
  Shape-link p n o = record {
    chain = Chain-link q.next owed p n (q.tail ∷ rest) h.distinct o h.chain;
    distinct = h.distinct;
    head_eq = h.head_eq;
    outside = λ x out. (let e = h.outside x out in ground arith);
  }

-- A step of `pop` that advances past the tail `a`.
Shape-advance :
    (q : Queue) (owed : ℕ → Option ℕ) (b : ℕ) (rest : List ℕ)
    → Shape q owed (b ∷ rest)
    → owed q.tail ≡ none
    → Shape (record q { tail = b }) owed rest
Shape-advance q owed b rest h free = record {
  chain = h.chain.1;
  distinct = h.distinct.1;
  head_eq = h.head_eq;
  outside = λ x far. elim (Bool-cases (x == q.tail)) [
    | inl same ↦ (let e : x ≡ q.tail = ground arith in ap owed e ∙ free)
    | inr other ↦ h.outside x ((λ e. (let e' : x ≡ q.tail = sym e in ground arith)), far)
  ];
}

-- A reason for `pop` to give nothing: there is no message, or a producer still owes a link.
abbrev pub Excuse : List ℕ → (ℕ → Option ℕ) → Type 0
Excuse l owed = (contents l ≡ []) ⊎ ((p : ℕ) × (n : ℕ) × (owed p ≡ some n))

abbrev pub IsNonempty : List ℕ → Type 0
IsNonempty [] = ⊥
IsNonempty (_ ∷ _) = Unit

pub IsNonempty-snoc : (l : List ℕ) (n : ℕ) → IsNonempty (l ++ n ∷ [])
IsNonempty-snoc [] n = tt
IsNonempty-snoc (a ∷ l) n = tt

-- What a load of `pop` may decide, with the queue that it leaves: to return nothing with the same
-- messages; to return the oldest message, which is removed; or to load the head, with the same
-- messages and no link behind a tail that is not the stub.
abbrev pub Decided : List ℕ → (ℕ → Option ℕ) → Queue × Next → Type 0
Decided l owed (q', returned none) =
    (rest : List ℕ) × Shape q' owed rest × (contents (q'.tail ∷ rest) ≡ contents l) × Excuse l owed
Decided l owed (q', returned (some b)) =
    (rest : List ℕ) × Shape q' owed rest × (contents l ≡ b ∷ contents (q'.tail ∷ rest))
Decided l owed (q', load_head) =
    (rest : List ℕ) × Shape q' owed rest
    × (contents (q'.tail ∷ rest) ≡ contents l)
    × (q'.tail ≢ stub)
    × (q'.next q'.tail ≡ none)

-- The first load may also pass the stub.
abbrev pub DecidedFirst : List ℕ → (ℕ → Option ℕ) → Queue × First → Type 0
DecidedFirst l owed (q', decided d) = Decided l owed (q', d)
DecidedFirst l owed (q', load_again) =
    (rest : List ℕ) × Shape q' owed rest
    × (contents (q'.tail ∷ rest) ≡ contents l)
    × (q'.tail ≢ stub)

pub load_next-Decided :
    (q : Queue) (owed : ℕ → Option ℕ) (rest : List ℕ)
    → Shape q owed rest
    → q.tail ≢ stub
    → Decided (q.tail ∷ rest) owed (load_next q)
unfolding load_next
load_next-Decided q owed [] h full = rw (h.chain.0, load_next) ([], h, refl, full, h.chain.0)
load_next-Decided q owed (b ∷ rest) h full = elim h.chain.0 [
  | inl (e, o) ↦
      rw (e, load_next)
        (rest, Shape-advance q owed b rest h o, contents-full q.tail (b ∷ rest) full)
  | inr (e, o) ↦ rw (e, load_next) (b ∷ rest, h, refl, full, e)
]

-- The tail is the only node when it is the head.
pub head_alone :
    (q : Queue) (owed : ℕ → Option ℕ) (rest : List ℕ)
    → Shape q owed rest
    → q.tail ≢ stub
    → q.tail ≡ q.head
    → NotIn stub (q.tail ∷ rest)
head_alone q owed [] h full e = (full, tt)
head_alone q owed (b ∷ rest) h full e =
    absurd (ne_last q.tail b rest h.distinct.0 (e ∙ sym h.head_eq))

-- Without a link behind it, a tail that is not the head waits for one.
pub head_excused :
    (q : Queue) (owed : ℕ → Option ℕ) (rest : List ℕ)
    → Shape q owed rest
    → q.next q.tail ≡ none
    → q.tail ≢ q.head
    → Excuse (q.tail ∷ rest) owed
head_excused q owed [] h e ne = absurd (ne h.head_eq)
head_excused q owed (b ∷ rest) h e ne = elim h.chain.0 [
  | inl (f, o) ↦ cc
  | inr (f, o) ↦ inr (q.tail, b, o)
]

-- The first load decides as above, in every state of the producers.
pub load_first-Decided :
    (q : Queue) (owed : ℕ → Option ℕ) (rest : List ℕ)
    → Shape q owed rest
    → DecidedFirst (q.tail ∷ rest) owed (load_first q)
unfolding load_first contents
load_first-Decided q owed rest h = elim (Bool-cases (q.tail == stub)) [
  | inr full ↦
      rw full (load_next-Decided q owed rest h (λ e. cc (sym full ∙ (==_iff q.tail stub).1 e)))
  | inl at_stub ↦ rw at_stub (past q owed rest h ((==_iff q.tail stub).0 at_stub))
]
  where
    past :
        (p : Queue) (o : ℕ → Option ℕ) (r : List ℕ)
        → Shape p o r
        → p.tail ≡ stub
        → DecidedFirst (p.tail ∷ r) o (elim (p.next p.tail) [
          | none ↦ (p, decided (returned none))
          | some n ↦ (record p { tail = n }, load_again)
        ])
    past p o [] g at = rw (g.chain.0) ([], g, refl, inl (rw at (contents-stub [])))
    past p o (b ∷ r) g at = elim g.chain.0 [
      | inl (e, free) ↦ rw e (
        r,
        Shape-advance p o b r g free,
        rw at (sym (contents-stub (b ∷ r))),
        λ q'. g.distinct.0.0 (q' ∙ sym at),
      )
      | inr (e, o') ↦ rw e (b ∷ r, g, refl, inr (p.tail, b, o'))
    ]

-- The end of `pop`, after the stub was pushed, gives the tail or nothing.
pub pop_end-Decided :
    (q : Queue) (owed : ℕ → Option ℕ) (rest : List ℕ)
    → Shape q owed rest
    → q.tail ≢ stub
    → IsNonempty rest
    → Decided (q.tail ∷ rest) owed ((pop_end q).0, returned (pop_end q).1)
unfolding pop_end
pop_end-Decided q owed [] h full more = absurd more
pop_end-Decided q owed (b ∷ rest) h full more = elim h.chain.0 [
  | inl (e, o) ↦
      rw (e, pop_end) (rest, Shape-advance q owed b rest h o, contents-full q.tail (b ∷ rest) full)
  | inr (e, o) ↦ rw (e, pop_end) (b ∷ rest, h, refl, inr (q.tail, b, o))
]
