-- ===== src/MessageQueue/Chain.antt =====
-- The chain of nodes from the tail to the head, in which a link may be missing as long as the
-- producer that owes it has not made its last store.
use mathlib.Core.Path.{subst}
use handystats.Prelude.{
  ℕ, ◌≡◌, ◌≢◌, ◌⊎◌, inl, inr, refl, sym, ap, ◌∙◌, ◌==◌, ==_iff, Bool-cases, Option, none, some,
  List, [], ◌∷◌, ◌++◌, All, All-append, arith, if◌then◌else◌,
}
use handystats.MessageQueue.Nodes.{store, stub}

-- The node is not in the list.
abbrev pub NotIn : ℕ → List ℕ → Type 0
NotIn n = All λ x. x ≢ n

abbrev pub Distinct : List ℕ → Type 0
Distinct [] = Unit
Distinct (a ∷ l) = NotIn a l × Distinct l

-- Consecutive nodes are linked, or the link is owed by a producer; the last node has no successor.
abbrev pub Chain : (ℕ → Option ℕ) → (ℕ → Option ℕ) → List ℕ → Type 0
Chain next owed [] = ⊥
Chain next owed (a ∷ []) = (next a ≡ none) × (owed a ≡ none)
Chain next owed (a ∷ b ∷ l) =
    (((next a ≡ some b) × (owed a ≡ none)) ⊎ ((next a ≡ none) × (owed a ≡ some b)))
    × Chain next owed (b ∷ l)

abbrev pub last : ℕ → List ℕ → ℕ
last a [] = a
last a (b ∷ l) = last b l

pub store_self : (f : ℕ → Option ℕ) (p : ℕ) (v : Option ℕ) → store f p v p ≡ v
store_self f p v = ground arith

pub store_ne : (f : ℕ → Option ℕ) (p q : ℕ) (v : Option ℕ) → q ≢ p → store f p v q ≡ f q
store_ne f p q v h = ground arith

-- A store outside the list changes nothing for its nodes.
pub Chain-store_next :
    (next owed : ℕ → Option ℕ) (p : ℕ) (v : Option ℕ) (l : List ℕ)
    → NotIn p l
    → Chain next owed l
    → Chain (store next p v) owed l
Chain-store_next next owed p v [] out c = c
Chain-store_next next owed p v (a ∷ []) (d, _) c = rw (store_ne next p a v d) c
Chain-store_next next owed p v (a ∷ b ∷ l) (d, out) (c, cs) =
    rw (store_ne next p a v d) (c, Chain-store_next next owed p v (b ∷ l) out cs)

pub Chain-store_owed :
    (next owed : ℕ → Option ℕ) (p : ℕ) (v : Option ℕ) (l : List ℕ)
    → NotIn p l
    → Chain next owed l
    → Chain next (store owed p v) l
Chain-store_owed next owed p v [] out c = c
Chain-store_owed next owed p v (a ∷ []) (d, _) c = rw (store_ne owed p a v d) c
Chain-store_owed next owed p v (a ∷ b ∷ l) (d, out) (c, cs) =
    rw (store_ne owed p a v d) (c, Chain-store_owed next owed p v (b ∷ l) out cs)

NotIn-last : (a b : ℕ) (l : List ℕ) → NotIn a (b ∷ l) → a ≢ last b l
NotIn-last a b [] (h, _) e = h (sym e)
NotIn-last a b (c ∷ l) (h, hs) e = NotIn-last a c l hs e

-- A new node goes to the end, and its link is owed by the last node before.
pub Chain-exchange :
    (next owed : ℕ → Option ℕ) (n a : ℕ) (l : List ℕ)
    → Distinct (a ∷ l)
    → NotIn n (a ∷ l)
    → owed n ≡ none
    → Chain next owed (a ∷ l)
    → Chain (store next n none) (store owed (last a l) (some n)) (a ∷ (l ++ n ∷ []))
Chain-exchange next owed n a [] d (na, _) free (c, o) =
    (inr (ground arith, ground arith), (ground arith, ground arith))
Chain-exchange next owed n a (b ∷ l) (da, d) (na, out) free (c, cs) =
    let rest = Chain-exchange next owed n b l d out free cs in
    let apart = NotIn-last a b l da in
    (ground (arith, store_ne next n a none na, store_ne owed (last b l) a (some n) apart), rest)

-- The owed link is made.
pub Chain-link :
    (next owed : ℕ → Option ℕ) (p n : ℕ) (l : List ℕ)
    → Distinct l
    → owed p ≡ some n
    → Chain next owed l
    → Chain (store next p (some n)) (store owed p none) l
Chain-link next owed p n [] d o c = c
Chain-link next owed p n (a ∷ []) d o c = elim (Bool-cases (a == p)) [
  | inl same ↦ (let e : a ≡ p = (==_iff a p).0 same in cc (ap owed e))
  | inr other ↦
      let apart : a ≢ p = ground arith in
      rw (store_ne next p a (some n) apart, store_ne owed p a none apart) c
]
Chain-link next owed p n (a ∷ b ∷ l) (da, d) o (c, cs) = elim (Bool-cases (a == p)) [
  | inl same ↦
      let e : p ≡ a = sym ((==_iff a p).0 same) in
      let out : NotIn p (b ∷ l) = subst (λ x. NotIn x (b ∷ l)) (sym e) da in
      let keep =
        Chain-store_next next (store owed p none) p (some n) (b ∷ l) out
          (Chain-store_owed next owed p none (b ∷ l) out cs) in
      let q = ap owed e in (inl (ground arith, ground arith), keep)
  | inr other ↦
      let apart : a ≢ p = ground arith in
      (
        rw (store_ne next p a (some n) apart, store_ne owed p a none apart) c,
        Chain-link next owed p n (b ∷ l) d o cs,
      )
]

pub NotIn-append : (n : ℕ) (l k : List ℕ) → NotIn n l → NotIn n k → NotIn n (l ++ k)
NotIn-append n l k = All-append (λ x. x ≢ n) l k

pub Distinct-snoc : (l : List ℕ) (n : ℕ) → Distinct l → NotIn n l → Distinct (l ++ n ∷ [])
Distinct-snoc [] n d out = (tt, tt)
Distinct-snoc (a ∷ l) n (da, d) (na, out) =
    (NotIn-append a l (n ∷ []) da ((λ e. na (sym e)), tt), Distinct-snoc l n d out)

pub last-snoc : (a : ℕ) (l : List ℕ) (n : ℕ) → last a (l ++ n ∷ []) ≡ n
last-snoc a [] n = refl
last-snoc a (b ∷ l) n = last-snoc b l n

-- A node outside the list is not its last one.
pub ne_last : (x a : ℕ) (l : List ℕ) → NotIn x (a ∷ l) → x ≢ last a l
ne_last x a [] (h, _) e = h (sym e)
ne_last x a (b ∷ l) (_, out) e = ne_last x b l out e

-- The messages on the chain: its nodes but the stub.
unfoldable pub contents : List ℕ → List ℕ
contents [] = []
contents (a ∷ l) = if a == stub then contents l else a ∷ contents l

pub contents-snoc : (l : List ℕ) (n : ℕ) → n ≢ stub → contents (l ++ n ∷ []) ≡ contents l ++ n ∷ []
unfolding contents
contents-snoc [] n h = ground arith
contents-snoc (a ∷ l) n h = ground (arith, contents-snoc l n h)

pub contents-snoc_stub : (l : List ℕ) → contents (l ++ stub ∷ []) ≡ contents l
unfolding contents
contents-snoc_stub [] = refl
contents-snoc_stub (a ∷ l) = ground (arith, contents-snoc_stub l)

pub contents-full : (a : ℕ) (l : List ℕ) → a ≢ stub → contents (a ∷ l) ≡ a ∷ contents l
unfolding contents
contents-full a l h = ground arith

pub contents-stub : (l : List ℕ) → contents (stub ∷ l) ≡ contents l
unfolding contents
contents-stub l = refl

-- A node that is neither the stub nor a message on the chain is not on it.
pub NotIn-contents : (n : ℕ) (l : List ℕ) → n ≢ stub → NotIn n (contents l) → NotIn n l
unfolding contents
NotIn-contents n [] h out = tt
NotIn-contents n (a ∷ l) h out = elim (Bool-cases (a == stub)) [
  | inl e ↦ ((λ (q : a ≡ n). h (sym q ∙ (==_iff a stub).0 e)), NotIn-contents n l h (rw e at out))
  | inr e ↦
      let parts : NotIn n (a ∷ contents l) = rw e at out in (parts.0, NotIn-contents n l h parts.1)
]

pub NotIn-prefix : (x : ℕ) (l k : List ℕ) → NotIn x (l ++ k) → NotIn x l
NotIn-prefix x [] k out = tt
NotIn-prefix x (a ∷ l) k (h, out) = (h, NotIn-prefix x l k out)

pub NotIn-suffix : (x : ℕ) (l k : List ℕ) → NotIn x (l ++ k) → NotIn x k
NotIn-suffix x [] k out = out
NotIn-suffix x (a ∷ l) k (h, out) = NotIn-suffix x l k out
