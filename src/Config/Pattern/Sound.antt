-- ===== src/Config/Pattern/Sound.antt =====
-- `expand_pattern` of src/config.cpp on any text.
use mathlib.Core.Path.{subst}
use handystats.Prelude.{
  ℕ, zero, suc, ◌+◌, ◌*◌, ◌<◌, ◌≡◌, ◌≢◌, ◌↔◌, refl, sym, ap, ◌∙◌, Bool, true, false, Bool-cases,
  Option-cases, inl, inr, some, List, [], ◌∷◌, ◌++◌, append_assoc, append-nil, length,
  length-append, arith,
}
use handystats.Config.Pattern.{
  Text, list_delim, list_start, list_end, Outcome, ok, invalid, out_of_fuel, and_then, stops, scan,
  after, expand, expand_list, finish, expand_pattern,
}
use handystats.Config.Pattern.Grammar.{
  products-flat_map, Pattern, Sublists, word, braces, last, next, print, print_list, denote,
  denote_list, IsWord, WellFormed, WellFormedList, Stopped,
}
use handystats.Config.Pattern.Complete.{expand_pattern-print}

-- The fuel suffices, and a value has this property.
abbrev Ensures : {A : Type 0} → (A → Type 0) → Outcome A → Type 0
Ensures P (ok a) = P a
Ensures P invalid = Unit
Ensures P out_of_fuel = ⊥

Ensures-and_then :
    {A B : Type 0} (P : A → Type 0) (Q : B → Type 0) (r : Outcome A) (f : A → Outcome B)
    → Ensures P r
    → ((a : A) → P a → Ensures Q (f a))
    → Ensures Q (and_then r f)
Ensures-and_then P Q (ok a) f h k = k a h
Ensures-and_then P Q invalid f h k = tt
Ensures-and_then P Q out_of_fuel f h k = elim h [ ]

and_then-ok : {A : Type 0} (r : Outcome A) → and_then r ok ≡ r
and_then-ok (ok a) = refl
and_then-ok invalid = refl
and_then-ok out_of_fuel = refl

scan-lem :
    (nested : Bool) (t : Text)
    → (t ≡ (scan nested t).0 ++ (scan nested t).1)
      × IsWord nested (scan nested t).0
      × Stopped nested (scan nested t).1
unfolding scan
scan-lem nested [] = (refl, tt, tt)
scan-lem nested (c ∷ t) = elim (Bool-cases (stops nested c)) [
  | inl e ↦ rw (e, scan) (refl, tt, e)
  | inr e ↦ (let (g, w, s) = scan-lem nested t in rw (e, scan) (ap (λ r. c ∷ r) g, (e, w), s))
]

after-some : (c : ℕ) (t r : Text) → after c t ≡ some r → t ≡ c ∷ r
unfolding after
after-some c [] r h = cc
after-some c (d ∷ t) r h = ground arith

-- The text read is that of a pattern, and the names are those that it stands for.
abbrev Reads : Bool → Text → List Text × Text → Type 0
Reads nested t (xs, rest) =
    (p : Pattern) × (t ≡ print p ++ rest) × (xs ≡ denote p) × WellFormed nested p

abbrev ReadsList : Text → List Text × Text → Type 0
ReadsList t (xs, rest) =
    (l : Sublists) × (t ≡ print_list l ++ list_end ∷ rest) × (xs ≡ denote_list l) × WellFormedList l

-- The lengths of what is left.
length-behind : (xs ys t : Text) (c : ℕ) → t ≡ xs ++ c ∷ ys → length ys < length t
length-behind xs ys t c e = omega (arith, ap length e, length-append xs (c ∷ ys))

braces-text :
    (w inner behind end t r : Text) (l : Sublists) (p : Pattern)
    → t ≡ w ++ r
    → r ≡ list_start ∷ inner
    → inner ≡ print_list l ++ list_end ∷ behind
    → behind ≡ print p ++ end
    → t ≡ print (braces w l p) ++ end
unfolding print
braces-text w inner behind end t r l p e g h k = simp (e, g, h, k, append_assoc)

next-text :
    (t rest more behind : Text) (p : Pattern) (l : Sublists)
    → t ≡ print p ++ rest
    → rest ≡ list_delim ∷ more
    → more ≡ print_list l ++ list_end ∷ behind
    → t ≡ print_list (next p l) ++ list_end ∷ behind
unfolding print
next-text t rest more behind p l e g h = simp (e, g, h, append_assoc)

mutual
  unfolding expand print denote WellFormed

  expand-Ensures :
      (f : ℕ) (nested : Bool) (t : Text)
      → 2 * length t < f
      → Ensures (Reads nested t) (expand f nested t)
  expand-Ensures zero nested t h = let no : ⊥ = omega (arith, h) in elim no [ ]
  expand-Ensures (suc f) nested t h =
      let w = (scan nested t).0 in
      let r = (scan nested t).1 in
      let (e, word_w, _) = scan-lem nested t in
      elim (Option-cases (after list_start r)) [
        | inl g ↦ rw (g, expand) (word w, e, refl, word_w)
        | inr (inner, g) ↦
            (let start = after-some list_start r inner g in
              let shorter = length-behind w inner t list_start (e ∙ ap (λ x. w ++ x) start) in
              rw (g, expand)
                (Ensures-and_then (ReadsList inner) (Reads nested t) (expand_list f inner) _
                  (list-Ensures f inner (omega (arith, h, shorter)))
                  λ (xs, behind) (l, e1, d1, w1).
                    let less = length-behind (print_list l) behind inner list_end e1 in
                    Ensures-and_then (Reads nested behind) (Reads nested t) (expand f nested behind)
                      _ (expand-Ensures f nested behind (omega (arith, h, shorter, less)))
                      λ (ps, end) (p, e2, d2, w2). (
                        braces w l p,
                        braces-text w inner behind end t r l p e start e1 e2,
                        products-flat_map w xs ps ∙ rw (d1, d2) refl,
                        (word_w, w1, w2),
                      )))
      ]

  list-Ensures : (f : ℕ) (t : Text) → 2 * length t + 1 < f → Ensures (ReadsList t) (expand_list f t)
  list-Ensures zero t h = let no : ⊥ = omega (arith, h) in elim no [ ]
  list-Ensures (suc f) t h =
      Ensures-and_then (Reads true t) (ReadsList t) (expand f true t) _
        (expand-Ensures f true t (omega (arith, h)))
        λ (xs, rest) (p, e, d, w). elim (Option-cases (after list_delim rest)) [
          | inl g ↦ elim (Option-cases (after list_end rest)) [
            | inl k ↦ rw (g, k) tt
            | inr (behind, k) ↦
                rw (g, k)
                  (last p, e ∙ ap (λ x. print p ++ x) (after-some list_end rest behind k), d, w)
          ]
          | inr (more, g) ↦
              (let start = after-some list_delim rest more g in
                let shorter =
                  length-behind (print p) more t list_delim (e ∙ ap (λ x. print p ++ x) start) in
                rw g (
                  Ensures-and_then (ReadsList more) (ReadsList t) (expand_list f more) _
                    (list-Ensures f more (omega (arith, h, shorter)))
                    λ (ys, behind) (l, e1, d1, w1). (
                      next p l,
                      next-text t rest more behind p l e start e1,
                      rw (d, d1) refl,
                      (w, w1),
                    )))
        ]

finish-Ensures :
    (xs : List Text) (rest : Text) → Ensures (λ ys. (rest ≡ []) × (ys ≡ xs)) (finish xs rest)
unfolding finish
finish-Ensures xs [] = (refl, refl)
finish-Ensures xs (c ∷ rest) = tt

abbrev Names : Text → List Text → Type 0
Names t xs = (p : Pattern) × (print p ≡ t) × WellFormed false p × (denote p ≡ xs)

pattern-Ensures : (t : Text) → Ensures (Names t) (expand_pattern t)
unfolding expand_pattern
pattern-Ensures t =
    Ensures-and_then (Reads false t) (Names t) (expand (2 * length t + 1) false t) _
      (expand-Ensures (2 * length t + 1) false t (omega arith))
      λ (xs, rest) (p, e, d, w). subst (Ensures (Names t)) (and_then-ok (finish xs rest)) (
        Ensures-and_then (λ ys. (rest ≡ []) × (ys ≡ xs)) (Names t) (finish xs rest) ok
          (finish-Ensures xs rest)
          λ ys (none_left, same). (
            p,
            sym (e ∙ ap (λ r. print p ++ r) none_left ∙ append-nil (print p)),
            w,
            sym (same ∙ d),
          ))

Ensures-ok : {A : Type 0} (P : A → Type 0) (r : Outcome A) (a : A) → r ≡ ok a → Ensures P r → P a
Ensures-ok P r a e h = subst (Ensures P) e h

Ensures-fuel : {A : Type 0} (P : A → Type 0) (r : Outcome A) → Ensures P r → r ≢ out_of_fuel
Ensures-fuel P r h e = subst (Ensures P) e h

-- The expansion of a text always ends within the fuel of the model. It gives names just when the
-- text is that of a well-formed pattern, and then the names that this pattern stands for, in order.
pub expand_pattern_iff :
    (t : Text) (xs : List Text)
    → (expand_pattern t ≢ out_of_fuel)
      × ((expand_pattern t ≡ ok xs)
          ↔ ((p : Pattern) × (print p ≡ t) × WellFormed false p × (denote p ≡ xs)))
expand_pattern_iff t xs = (
  Ensures-fuel (Names t) (expand_pattern t) (pattern-Ensures t),
  (
    λ e. Ensures-ok (Names t) (expand_pattern t) xs e (pattern-Ensures t),
    λ (p, e, w, d).
        subst (λ x. expand_pattern x ≡ ok xs) e (expand_pattern-print p w ∙ ap (λ x. ok x) d),
  ),
)
