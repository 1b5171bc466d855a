-- ===== src/Config/Pattern/Grammar.antt =====
-- The grammar of the patterns, as the comment on `expand_pattern` in src/config.cpp gives it: its
-- trees, the text of a tree, and the names that a tree stands for.
use mathlib.Core.List.{flat_map}
use handystats.Prelude.{◌≡◌, refl, Bool, true, false, List, [], ◌∷◌, ◌++◌, map, append_assoc, All}
use handystats.Config.Pattern.{Text, list_delim, list_start, list_end, stops, products}

mutual
  -- A word alone, or a preamble, a list and a postscript.
  pub data Pattern : Type 0 where
    word : Text → Pattern
    braces : Text → Sublists → Pattern → Pattern

  pub data Sublists : Type 0 where
    last : Pattern → Sublists
    next : Pattern → Sublists → Sublists

unfoldable mutual
  pub print : Pattern → Text
  print (word w) = w
  print (braces w l p) = w ++ list_start ∷ (print_list l ++ list_end ∷ print p)

  pub print_list : Sublists → Text
  print_list (last p) = print p
  print_list (next p l) = print p ++ list_delim ∷ print_list l

-- The names that a pattern stands for, in order: each choice of one name of each list.
unfoldable mutual
  unfolding flat_map

  pub denote : Pattern → List Text
  denote (word w) = w ∷ []
  denote (braces w l p) = flat_map (λ a. map (λ b. w ++ (a ++ b)) (denote p)) (denote_list l)

  pub denote_list : Sublists → List Text
  denote_list (last p) = denote p
  denote_list (next p l) = denote p ++ denote_list l

abbrev pub IsWord : Bool → Text → Type 0
IsWord nested = All λ c. stops nested c ≡ false

-- The words have none of the symbols that end them: inside a list these are all four, and outside
-- the symbols that delimit and end a list are part of a word.
unfoldable mutual
  pub WellFormed : Bool → Pattern → Type 0
  WellFormed nested (word w) = IsWord nested w
  WellFormed nested (braces w l p) = IsWord nested w × WellFormedList l × WellFormed nested p

  pub WellFormedList : Sublists → Type 0
  WellFormedList (last p) = WellFormed true p
  WellFormedList (next p l) = WellFormed true p × WellFormedList l

-- A word cannot go on here.
abbrev pub Stopped : Bool → Text → Type 0
Stopped nested [] = Unit
Stopped nested (c ∷ cs) = stops nested c ≡ true

map_assoc :
    (w a : Text) (ps : List Text) → map (λ p. (w ++ a) ++ p) ps ≡ map (λ b. w ++ (a ++ b)) ps
map_assoc w a [] = refl
map_assoc w a (p ∷ ps) = rw (append_assoc w a p, map_assoc w a ps) refl

-- The two loops of the code make each choice, in order.
pub products-flat_map :
    (w : Text) (xs ps : List Text)
    → products w xs ps ≡ flat_map (λ a. map (λ b. w ++ (a ++ b)) ps) xs
unfolding products flat_map
products-flat_map w [] ps = refl
products-flat_map w (a ∷ xs) ps = rw (map_assoc w a ps, products-flat_map w xs ps) refl
