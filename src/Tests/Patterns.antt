-- ===== src/Tests/Patterns.antt =====
-- The expansion of a pattern.
use handystats.Prelude.{◌≡◌, ◌≢◌, ◌↔◌, refl, false, List, [], ◌∷◌}
use handystats.Config.Pattern.{
  Text, ok, out_of_fuel, list_start, list_delim, list_end, expand_pattern,
}
use handystats.Config.Pattern.Grammar.{Pattern, print, denote, WellFormed}
use handystats.Config.Pattern.Sound.{expand_pattern_iff}

-- a{b,c}d
abbrev pattern : Text
pattern = 97 ∷ list_start ∷ 98 ∷ list_delim ∷ 99 ∷ list_end ∷ 100 ∷ []

-- abd and acd
abbrev names : List Text
names = (97 ∷ 98 ∷ 100 ∷ []) ∷ (97 ∷ 99 ∷ 100 ∷ []) ∷ []

expanded : expand_pattern pattern ≡ ok names
unfolding expand_pattern
expanded = refl

expand_pattern_iff_example :
    (expand_pattern pattern ≢ out_of_fuel)
    × ((expand_pattern pattern ≡ ok names)
        ↔ ((p : Pattern) × (print p ≡ pattern) × WellFormed false p × (denote p ≡ names)))
expand_pattern_iff_example = expand_pattern_iff pattern names
