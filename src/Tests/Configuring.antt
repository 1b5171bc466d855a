-- ===== src/Tests/Configuring.antt =====
-- Configurations with a section and a pattern.
use Prim.Native.String.{String}
use text.Mathlib.Text.{◌==◌ as str_eq}
use handystats.Prelude.{
  ℕ, ◌<◌, ◌≡◌, ◌↔◌, ◌==◌, List, Bool, true, false, Bool-cases, inl, inr, Option, none, some, [],
  ◌∷◌, ltb, ltb→lt, u64_mod, if◌then◌else◌,
}
use handystats.Config.Options.{Rapidjson, options_for}
use handystats.Config.Options.Refused.{is_none, is_refused, options_for-First}
use handystats.Config.Pattern.First.{First}
use handystats.Core.{default_options}
use handystats.MathUtils.{IfSome}
use handystats.Config.Json.{config_json, default_configuration}
use handystats.Config.Pattern.{Text}
use handystats.Events.Message.{Destination}
use handystats.Config.Json.Usable.{default-AllUsable}
use handystats.Config.Json.NewMetric.{NewUsable, config_json-options_for}

-- An integer, an object of one member, a string, or an array of one element.
data Json : Type 0 where
  number : ℕ → Json
  object : String → Json → Json
  string : String → Json
  list : Json → Json

abbrev uint64 : Json → Option ℕ
uint64 (number n) = if ltb n u64_mod then some n else none
uint64 _ = none

abbrev one_member : Json → String → Option Json
one_member (object name v) other = if str_eq name other then some v else none
one_member _ other = none

abbrev is_object_value : Json → Bool
is_object_value (object name v) = true
is_object_value _ = false

abbrev string_value : Json → Option String
string_value (string s) = some s
string_value _ = none

abbrev elements : Json → Option (List Json)
elements (list v) = some (v ∷ [])
elements _ = none

abbrev toy : Rapidjson
toy = record {
  Value = Json;
  parse = λ _. some (object "defaults" (object "histogram-bins" (number 7)));
  is_object = is_object_value;
  members = λ _. ("load", object "histogram-bins" (number 3)) ∷ [];
  member = one_member;
  as_uint64 = uint64;
  as_bool = λ _. none;
  as_string = string_value;
  as_array = elements;
  bytes = λ _. 108 ∷ 100 ∷ [];
}

abbrev str_match : Text → Text → Bool
str_match _ _ = true

small : (v : Json) → IfSome (λ n. n < u64_mod) (uint64 v)
small (number n) = elim (Bool-cases (ltb n u64_mod)) [
  | inl e ↦ rw e (ltb→lt n u64_mod e)
  | inr e ↦ rw e tt
]
small (object name v) = tt
small (string s) = tt
small (list v) = tt

config_json-options_for_example :
    IfSome (NewUsable ⦃json = toy⦄ str_match Destination.gauge "load") (
      config_json ⦃json = toy⦄ false "{\"defaults\": {\"histogram-bins\": 7}}"
        (default_configuration ⦃json = toy⦄))
config_json-options_for_example =
    config_json-options_for ⦃json = toy⦄ small str_match false
      "{\"defaults\": {\"histogram-bins\": 7}}" Destination.gauge "load"
      (default_configuration ⦃json = toy⦄) (default-AllUsable ⦃json = toy⦄)

-- The first group is for another name.
abbrev misspelt : List (List Text × Json)
misspelt =
    ((120 ∷ []) ∷ [], number 3)
    ∷ ((108 ∷ 100 ∷ []) ∷ [], object "tags" (list (string "speed")))
    ∷ ((108 ∷ 100 ∷ []) ∷ [], number 4)
    ∷ []

abbrev same_head : Text → Text → Bool
same_head (c ∷ cs) (d ∷ ds) = c == d
same_head _ _ = false

options_for-First_example :
    (is_none (options_for ⦃json = toy⦄ same_head misspelt default_options Destination.gauge "load")
      ≡ true)
    ↔ ((v : Json) × First same_head (108 ∷ 100 ∷ []) misspelt v
        × (is_refused ⦃json = toy⦄ Destination.gauge v ≡ true))
options_for-First_example =
    options_for-First ⦃json = toy⦄ same_head misspelt default_options Destination.gauge "load"
