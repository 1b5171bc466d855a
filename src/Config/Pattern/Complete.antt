-- ===== src/Config/Pattern/Complete.antt =====
-- `expand_pattern` of src/config.cpp on the text of a pattern.
use mathlib.Core.Path.{subst}
use mathlib.Core.List.{flat_map}
use handystats.Prelude.{
  ℕ, zero, suc, ◌+◌, ◌*◌, ◌<◌, ◌≡◌, refl, ap, Bool, true, false, none, some, List, [], ◌∷◌, ◌++◌,
  map, append_assoc, append-nil, length, length-append, arith,
}
use handystats.Config.Pattern.{
  Text, list_delim, list_start, list_end, ok, stops, scan, after, expand, expand_list, finish,
  expand_pattern,
}
use handystats.Config.Pattern.Grammar.{
  Pattern, Sublists, word, braces, last, next, print, print_list, denote, denote_list, IsWord,
  WellFormed, WellFormedList, Stopped, products-flat_map,
}

ruleset lengths = (arith, length-append)

-- A word is read up to where it cannot go on.
scan-append :
    (nested : Bool) (w rest : Text)
    → IsWord nested w
    → Stopped nested rest
    → scan nested (w ++ rest) ≡ (w, rest)
unfolding scan
scan-append nested [] [] _ _ = refl
scan-append nested [] (c ∷ rest) _ h = rw h refl
scan-append nested (c ∷ w) rest (h, hs) s = rw (h, scan-append nested w rest hs s) refl

-- A pattern ends here: no list follows either.
abbrev Ended : Bool → Text → Type 0
Ended nested rest = Stopped nested rest × (after list_start rest ≡ none)

start-Stopped : (nested : Bool) (cs : Text) → Stopped nested (list_start ∷ cs)
unfolding stops
start-Stopped nested cs = refl

end-Ended : (cs : Text) → Ended true (list_end ∷ cs)
unfolding stops after
end-Ended cs = (refl, refl)

delim-Ended : (cs : Text) → Ended true (list_delim ∷ cs)
unfolding stops after
delim-Ended cs = (refl, refl)

after_here : (c : ℕ) (cs : Text) → after c (c ∷ cs) ≡ some cs
unfolding after
after_here c cs = ground arith

delim-end : (cs : Text) → after list_delim (list_end ∷ cs) ≡ none
unfolding after
delim-end cs = refl

abbrev ReadsPattern : Pattern → Type 0
ReadsPattern p =
    (nested : Bool) (rest : Text) (f : ℕ)
    → WellFormed nested p
    → Ended nested rest
    → 2 * length (print p ++ rest) < f
    → expand f nested (print p ++ rest) ≡ ok (denote p, rest)

abbrev ReadsList : Sublists → Type 0
ReadsList l =
    (rest : Text) (f : ℕ)
    → WellFormedList l
    → 2 * length (print_list l ++ list_end ∷ rest) + 1 < f
    → expand_list f (print_list l ++ list_end ∷ rest) ≡ ok (denote_list l, rest)

-- One turn of each function.
expand-word :
    (f : ℕ) (nested : Bool) (t w r : Text)
    → scan nested t ≡ (w, r)
    → after list_start r ≡ none
    → expand (suc f) nested t ≡ ok (w ∷ [], r)
unfolding expand
expand-word f nested t w r e g =
    let first : (scan nested t).0 ≡ w = ap (λ q. q.0) e in
    let second : (scan nested t).1 ≡ r = ap (λ q. q.1) e in
    rw (second, expand) (rw (g, expand) (rw (first, second) refl))

expand-braces :
    (f : ℕ) (nested : Bool) (t w r inner behind end : Text) (xs ps : List Text)
    → scan nested t ≡ (w, r)
    → after list_start r ≡ some inner
    → expand_list f inner ≡ ok (xs, behind)
    → expand f nested behind ≡ ok (ps, end)
    → expand (suc f) nested t ≡ ok (flat_map (λ a. map (λ b. w ++ (a ++ b)) ps) xs, end)
unfolding expand
expand-braces f nested t w r inner behind end xs ps e g h k =
    let first : (scan nested t).0 ≡ w = ap (λ q. q.0) e in
    let second : (scan nested t).1 ≡ r = ap (λ q. q.1) e in
    rw (second, expand)
      (rw (g, expand)
        (rw h (rw k (rw first (ap (λ ns. ok (ns, end)) (products-flat_map w xs ps))))))

list-last :
    (f : ℕ) (t behind : Text) (xs : List Text)
    → expand f true t ≡ ok (xs, list_end ∷ behind)
    → expand_list (suc f) t ≡ ok (xs, behind)
unfolding expand
list-last f t behind xs e = rw (e, expand_list) refl

list-next :
    (f : ℕ) (t more behind : Text) (xs ys : List Text)
    → expand f true t ≡ ok (xs, list_delim ∷ more)
    → expand_list f more ≡ ok (ys, behind)
    → expand_list (suc f) t ≡ ok (xs ++ ys, behind)
unfolding expand
list-next f t more behind xs ys e g = rw (e, expand_list) (rw g refl)

word-Reads : (w : Text) → ReadsPattern (word w)
unfolding print denote WellFormed
word-Reads w nested rest zero h e enough = let no : ⊥ = omega (arith, enough) in elim no [ ]
word-Reads w nested rest (suc f) h (s, e) enough =
    expand-word f nested (w ++ rest) w rest (scan-append nested w rest h s) e

-- The text of a pattern with a list, cut behind its parts.
abbrev from_end : Pattern → Text → Text
from_end p rest = list_end ∷ (print p ++ rest)

braces-split :
    (w : Text) (l : Sublists) (p : Pattern) (rest : Text)
    → print (braces w l p) ++ rest ≡ w ++ list_start ∷ (print_list l ++ from_end p rest)
unfolding print
braces-split w l p rest = simp append_assoc

braces-Reads :
    (w : Text) (l : Sublists) (p : Pattern)
    → ReadsList l
    → ReadsPattern p
    → ReadsPattern (braces w l p)
unfolding denote WellFormed
braces-Reads w l p ih ihp nested rest zero h e enough =
    let no : ⊥ = omega (arith, enough) in elim no [ ]
braces-Reads w l p ih ihp nested rest (suc f) (hw, hl, hp) e enough =
    let t = print_list l ++ from_end p rest in
    let whole : 2 * length (w ++ list_start ∷ t) < suc f =
      subst (λ x. 2 * length x < suc f) (braces-split w l p rest) enough in
    let room : 2 * suc (length t) < suc f =
      omega (arith, whole, length-append w (list_start ∷ t)) in
    let inside : length t ≡ length (print_list l) + suc (length (print p ++ rest)) =
      length-append (print_list l) (from_end p rest) in
    rw (braces-split w l p rest) (
      expand-braces f nested (w ++ list_start ∷ t) w (list_start ∷ t) t (print p ++ rest) rest
        (denote_list l) (denote p)
        (scan-append nested w (list_start ∷ t) hw (start-Stopped nested t))
        (after_here list_start t) (ih (print p ++ rest) f hl (omega (arith, room)))
        (ihp nested rest f hp e (omega (arith, room, inside))))

last-Reads : (p : Pattern) → ReadsPattern p → ReadsList (last p)
unfolding print denote WellFormed
last-Reads p ih rest zero h enough = let no : ⊥ = omega (arith, enough) in elim no [ ]
last-Reads p ih rest (suc f) h enough =
    list-last f (print p ++ list_end ∷ rest) rest (denote p)
      (ih true (list_end ∷ rest) f h (end-Ended rest) (omega (arith, enough)))

next-split :
    (p : Pattern) (l : Sublists) (rest : Text)
    → print_list (next p l) ++ list_end ∷ rest
      ≡ print p ++ list_delim ∷ (print_list l ++ list_end ∷ rest)
unfolding print
next-split p l rest = simp append_assoc

next-Reads : (p : Pattern) (l : Sublists) → ReadsPattern p → ReadsList l → ReadsList (next p l)
unfolding denote WellFormed
next-Reads p l ih ihl rest zero h enough = let no : ⊥ = omega (arith, enough) in elim no [ ]
next-Reads p l ih ihl rest (suc f) (hp, hl) enough =
    let t = print_list l ++ list_end ∷ rest in
    let room : 2 * length (print p ++ list_delim ∷ t) + 1 < suc f =
      subst (λ x. 2 * length x + 1 < suc f) (next-split p l rest) enough in
    let whole = length-append (print p) (list_delim ∷ t) in
    rw (next-split p l rest) (
      list-next f (print p ++ list_delim ∷ t) t rest (denote p) (denote_list l)
        (ih true (list_delim ∷ t) f hp (delim-Ended t) (omega (arith, room)))
        (ihl rest f hl (omega (arith, room, whole))))

Reads : (p : Pattern) → ReadsPattern p
Reads p = elim p as ReadsPattern ReadsList [
  | word w ↦ word-Reads w
  | braces w (l → ih) (q → ihq) ↦ braces-Reads w l q ih ihq
  | last (q → ih) ↦ last-Reads q ih
  | next (q → ih) (l → ihl) ↦ next-Reads q l ih ihl
]

-- The text of a well-formed pattern expands, without an error and within the fuel of the model, to
-- the names that the pattern stands for, in order.
pub expand_pattern-print :
    (p : Pattern) → WellFormed false p → expand_pattern (print p) ≡ ok (denote p)
unfolding expand_pattern finish after
expand_pattern-print p h =
    let e = Reads p false [] (2 * length (print p ++ []) + 1) h (tt, refl) (omega arith) in
    rw (subst (λ t. expand (2 * length t + 1) false t ≡ ok (denote p, [])) (append-nil (print p)) e)
      refl
