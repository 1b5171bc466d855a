-- ===== src/Config/Pattern.antt =====
-- The patterns of metric names, from src/config.cpp: their expansion, and the choice of the options
-- for one name. A text is the list of its bytes, and a position in it is the list of those that are
-- left, whose end the code reads as the byte 0.
pub mod Grammar
pub mod Sound
pub mod Complete
pub mod First
use handystats.Prelude.{
  ℕ, zero, suc, ◌+◌, ◌*◌, ◌==◌, Bool, true, false, ◌&&◌, ◌||◌, Option, none, some, List, [], ◌∷◌,
  ◌++◌, map, length, if◌then◌else◌,
}

abbrev pub Text : Type 0
Text = List ℕ

abbrev pub list_delim : ℕ
list_delim = 44

abbrev pub list_start : ℕ
list_start = 123

abbrev pub list_end : ℕ
list_end = 125

-- The outcome of an expansion: its value, or a `std::logic_error`. `out_of_fuel` has no counterpart
-- in the code.
pub data Outcome {ℓ} (A : Type ℓ) : Type ℓ where
  ok : A → Outcome A
  invalid out_of_fuel : Outcome A

abbrev pub and_then {ℓ κ} : {A : Type ℓ} {B : Type κ} → Outcome A → (A → Outcome B) → Outcome B
and_then (ok a) f = f a
and_then invalid f = invalid
and_then out_of_fuel f = out_of_fuel

-- The conditions that end the first loop.
unfoldable pub stops : Bool → ℕ → Bool
stops nested c = c == 0 || c == list_start || (nested && (c == list_end || c == list_delim))

-- The preamble, and the text from its end on.
unfoldable pub scan : Bool → Text → Text × Text
unfolding stops
scan nested [] = ([], [])
scan nested (c ∷ cs) =
    let (preamble, rest) = scan nested cs in
    if stops nested c then ([], c ∷ cs) else (c ∷ preamble, rest)

-- The text behind this symbol, where the symbol is next.
unfoldable pub after : ℕ → Text → Option Text
after symbol [] = none
after symbol (c ∷ cs) = if c == symbol then some cs else none

-- The two loops at the end.
unfoldable pub products : Text → List Text → List Text → List Text
products preamble [] postscripts = []
products preamble (x ∷ xs) postscripts =
    map (λ p. (preamble ++ x) ++ p) postscripts ++ products preamble xs postscripts

-- `expand_pattern` from a position on; `expand_list` is its loop over the list, from behind the
-- symbol that starts it.
unfoldable mutual
  unfolding scan after products

  pub expand : ℕ → Bool → Text → Outcome (List Text × Text)
  expand zero nested t = out_of_fuel
  expand (suc f) nested t =
      let (preamble, rest) = scan nested t in
      elim (after list_start rest) [
        | none ↦ ok (preamble ∷ [], rest)
        | some inner ↦ and_then (expand_list f inner) λ (list, behind).
            and_then (expand f nested behind)
              λ (postscripts, end). ok (products preamble list postscripts, end)
      ]

  pub expand_list : ℕ → Text → Outcome (List Text × Text)
  expand_list zero t = out_of_fuel
  expand_list (suc f) t = and_then (expand f true t) λ (sublist, rest).
      elim (after list_delim rest) [
        | some more ↦
            and_then (expand_list f more) λ (others, behind). ok (sublist ++ others, behind)
        | none ↦ elim (after list_end rest) [ some behind ↦ ok (sublist, behind) | none ↦ invalid ]
      ]

-- The test for the whole text.
unfoldable pub finish : List Text → Text → Outcome (List Text)
finish xs [] = ok xs
finish xs (c ∷ cs) = invalid

unfoldable pub expand_pattern : Text → Outcome (List Text)
unfolding expand finish
expand_pattern t = and_then (expand (2 * length t + 1) false t) λ (xs, rest). finish xs rest

-- `fnmatch` of the C library, with no flags, is a parameter: whether a name matches a pattern.
unfoldable pub matches_any : (Text → Text → Bool) → Text → List Text → Bool
matches_any fnmatch name [] = false
matches_any fnmatch name (p ∷ ps) = fnmatch p name || matches_any fnmatch name ps

-- The options of the first group with a pattern that the name matches; `none` is the null pointer.
unfoldable pub select_pattern {ℓ} :
    {A : Type ℓ} → (Text → Text → Bool) → Text → List (List Text × A) → Option A
unfolding matches_any
select_pattern fnmatch name [] = none
select_pattern fnmatch name ((patterns, cfg) ∷ groups) =
    if matches_any fnmatch name patterns then some cfg else select_pattern fnmatch name groups
