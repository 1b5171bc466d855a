-- ===== src/Tests/Json.antt =====
-- JSON values of a dump with one counter and one attribute.
use Prim.Native.String.{String}
use handystats.Prelude.{
  ℕ, ◌≡◌, refl, ◌+◌, ◌^◌, Bool, true, false, some, List, [], ◌∷◌, ◌++◌, ℤ, pos, ap,
}
use handystats.Machine.Milli.{milli}
use handystats.Chrono.TimePoint.{epoch}
use handystats.Statistics.Tag
use handystats.Statistics.Tag.{Tag, enabled, from_string}
use handystats.Statistics.State.{Statistics, Config, default_config, initial, is_computed}
use handystats.Statistics.Access.{get_value, get_count}
use handystats.Metrics.Attribute
use handystats.Internal.{Metric, MetricsMap, counter, attribute}
use handystats.JsonDump.{Document, c_str, write_metric, fill}
use handystats.JsonDump.Fields.{KeepsMembers}
use handystats.JsonDump.Members.{Describes, name_of, write_metric-Describes}
use handystats.JsonDump.Filled.{Holds, fill-member_of}

-- Values as trees.
mutual
  pub data Json : Type 0 where
    null : Json
    bool : Bool → Json
    int : ℤ → Json
    uint : ℕ → Json
    double : ℤ → Json
    string : String → Json
    arr : Items → Json
    obj : Members → Json

  pub data Items : Type 0 where
    nil : Items
    item : Json → Items → Items

  pub data Members : Type 0 where
    end : Members
    member : String → Json → Members → Members

abbrev pub to_members : List (String × Json) → Members
to_members [] = end
to_members ((k, x) ∷ ms) = member k x (to_members ms)

abbrev to_items : List Json → Items
to_items [] = nil
to_items (x ∷ xs) = item x (to_items xs)

abbrev last_member : String → Json → Members → Members
last_member k x end = member k x end
last_member k x (member j y ms) = member j y (last_member k x ms)

abbrev last_item : Json → Items → Items
last_item x nil = item x nil
last_item x (item y xs) = item y (last_item x xs)

abbrev is_obj : Json → Bool
is_obj (obj ms) = true
is_obj _ = false

abbrev add : String → Json → Json → Json
add k x (obj ms) = obj (last_member k x ms)
add k x v = v

abbrev push : Json → Json → Json
push x (arr xs) = arr (last_item x xs)
push x v = v

-- The tests do not print.
instance abbrev pub tree : Document ⦃m = milli⦄
tree = record {
  Value = Json;
  null_value = null;
  object = λ ms. obj (to_members ms);
  array = λ xs. arr (to_items xs);
  is_object = is_obj;
  add_member = add;
  push_back = push;
  of_bool = bool;
  of_int = int;
  of_uint = uint;
  of_double = double;
  of_string = string;
  pretty = λ _. "";
}

last-to_members :
    (k : String) (x : Json) (ms : List (String × Json))
    → last_member k x (to_members ms) ≡ to_members (ms ++ (k, x) ∷ [])
last-to_members k x [] = refl
last-to_members k x ((j, y) ∷ ms) = ap (member j y) (last-to_members k x ms)

last-to_items : (x : Json) (xs : List Json) → last_item x (to_items xs) ≡ to_items (xs ++ x ∷ [])
last-to_items x [] = refl
last-to_items x (y ∷ xs) = ap (item y) (last-to_items x xs)

pub laws : KeepsMembers ⦃m = milli⦄ tree
laws = record {
  object_is = λ _. refl;
  add_last = λ k x ms. ap obj (last-to_members k x ms);
  push_last = λ x xs. ap arr (last-to_items x xs);
}

abbrev two_tags : Config
two_tags = record default_config { tags = 2 ^ 1 + 2 ^ 4 }

abbrev values : Statistics ⦃m = milli⦄
values = record (initial ⦃m = milli⦄ two_tags) { value = pos 7000; count = 3 }

abbrev hits : Metric ⦃m = milli⦄
hits = counter (record { values = values; value = pos 7; timestamp = epoch })

abbrev version : Metric ⦃m = milli⦄
version = attribute (record { value = Attribute.string "1.12" })

abbrev metrics : MetricsMap ⦃m = milli⦄
metrics = ("hits", hits) ∷ ("version", version) ∷ []

abbrev pub log : ℤ → ℤ
log x = x

written :
    write_metric ⦃m = milli⦄ ⦃doc = tree⦄ log hits
    ≡ some (
        obj (
          member "type"
            (string "counter")
            (member "value" (double (pos 7000)) (member "count" (uint 3) end))))
unfolding write_metric initial default_config get_value get_count is_computed Tag.computed
written = refl

cut : c_str "a\0b" ≡ "a"
unfolding c_str
cut = refl

write_metric-Describes_example :
    (ms : List (String × Json)) × (write_metric ⦃m = milli⦄ ⦃doc = tree⦄ log hits
      ≡ some (obj (to_members ms)))
    × Describes ⦃m = milli⦄ ⦃doc = tree⦄ log "counter" values ms
    × ((t : Tag) → from_string (name_of t) ≡ some t)
unfolding enabled initial default_config
write_metric-Describes_example =
    write_metric-Describes ⦃m = milli⦄ ⦃doc = tree⦄ log laws hits values refl refl refl

fill-member_of_example :
    (ms : List (String × Json)) × (fill ⦃m = milli⦄ ⦃doc = tree⦄ log metrics
      ≡ some (obj (to_members ms)))
    × Holds ⦃m = milli⦄ ⦃doc = tree⦄ log metrics ms
unfolding enabled initial default_config
fill-member_of_example = fill-member_of ⦃m = milli⦄ ⦃doc = tree⦄ log laws metrics (refl, (refl, tt))
