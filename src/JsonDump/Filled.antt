-- ===== src/JsonDump/Filled.antt =====
-- `fill` of src/json_dump.cpp: the object that all metrics are written to.
use Prim.Native.Char.{Char, code}
use Prim.Native.String.{String}
use text.Mathlib.Text.{◌==◌ as str_eq}
use handystats.Prelude.{
  ◌==◌, ◌≡◌, refl, ◌∙◌, true, false, Bool-cases, inl, inr, some, List, [], ◌∷◌, ◌++◌, append_assoc,
  append-nil, ==_iff, Option, none, ◌⊎◌,
}
use handystats.Machine.{Machine}
use handystats.Statistics.Tag
use handystats.Statistics.Tag.{enabled}
use handystats.Statistics.State.{Statistics}
use handystats.Metrics.Attribute
use handystats.Internal.{Metric, MetricsMap, counter, gauge, timer, attribute, find}
use handystats.JsonDump.{
  Document, write_statistics, write_gauge, write_counter, write_timer, write_metric, add_metrics,
  fill, c_str, write_attribute, attribute_value,
}
use handystats.JsonDump.Fields.{member_of, KeepsMembers}
use handystats.MetricsDump.Writable.{asks_quantiles, Writable}
use handystats.JsonDump.Members.{Describes, typed_statistics}

-- `short` is the text up to its first zero character, or all of it if there is none.
pub data IsCut : String → String → Type 0 where
  ended : IsCut String.[] String.[]
  at_zero : (c : Char) (s : String) → code c ≡ 0 → IsCut (String.◌∷◌ c s) String.[]
  kept :
      (c : Char) (s short : String)
      → (code c == 0) ≡ false
      → IsCut s short
      → IsCut (String.◌∷◌ c s) (String.◌∷◌ c short)

c_str-IsCut : (s : String) → IsCut s (c_str s)
unfolding c_str
c_str-IsCut String.[] = ended
c_str-IsCut (String.◌∷◌ c s) = elim (Bool-cases (code c == 0)) [
  | inl e ↦ rw e (at_zero c s ((==_iff (code c) 0).0 e))
  | inr e ↦ rw e (kept c s (c_str s) e (c_str-IsCut s))
]

module _ ⦃m : Machine⦄ ⦃doc : Document⦄ (log : m.F → m.F) where
  open doc use {
    Value, object, null_value, add_member, of_bool, of_int, of_uint, of_double, of_string,
  }

  null_statistics :
      (s : Statistics) (v : Value)
      → (s.config.tags == 0) ≡ true
      → write_statistics log s v ≡ some null_value
  unfolding write_statistics
  null_statistics s v e = rw e refl

  -- The value that is to be written for a metric: of its statistics, with all that is enabled, or
  -- null if no tag is, and of an attribute its type and value.
  abbrev pub HasValue : Statistics → String → Value → Type 0
  HasValue s kind v =
      ((s.config.tags ≡ 0) × (v ≡ null_value))
      ⊎ ((ms : List (String × Value)) × (v ≡ object ms) × Describes log kind s ms)

  abbrev pub IsValue : Attribute.Value → Value → Type 0
  IsValue (Attribute.bool b) v = v ≡ of_bool b
  IsValue (Attribute.int i) v = v ≡ of_int i
  IsValue (Attribute.uint u) v = v ≡ of_uint u
  IsValue (Attribute.int64 i) v = v ≡ of_int i
  IsValue (Attribute.uint64 u) v = v ≡ of_uint u
  IsValue (Attribute.double d) v = v ≡ of_double d
  IsValue (Attribute.string s) v = (short : String) × IsCut s short × (v ≡ of_string short)

  attribute_value-IsValue : (a : Attribute.Value) → IsValue a (attribute_value a)
  unfolding attribute_value
  attribute_value-IsValue (Attribute.bool b) = refl
  attribute_value-IsValue (Attribute.int i) = refl
  attribute_value-IsValue (Attribute.uint u) = refl
  attribute_value-IsValue (Attribute.int64 i) = refl
  attribute_value-IsValue (Attribute.uint64 u) = refl
  attribute_value-IsValue (Attribute.double d) = refl
  attribute_value-IsValue (Attribute.string s) = (c_str s, c_str-IsCut s, refl)

  abbrev pub IsWritten : Metric → Value → Type 0
  IsWritten (counter c) v = HasValue c.values "counter" v
  IsWritten (gauge g) v = HasValue g.values "gauge" v
  IsWritten (timer t) v = HasValue t.values "timer" v
  IsWritten (attribute a) v =
      (x : Value) × IsValue a.value x
      × (v ≡ object (("type", of_string "attribute") ∷ ("value", x) ∷ []))

  -- The same metrics, in their order, under their names as C strings.
  abbrev pub Shortens : MetricsMap → MetricsMap → Type 0
  Shortens [] [] = Unit
  Shortens ((name, x) ∷ xs) ((short, y) ∷ ys) = IsCut name short × (x ≡ y) × Shortens xs ys
  Shortens _ _ = ⊥

  abbrev pub IsMember : Option Metric → Option Value → Type 0
  IsMember none none = Unit
  IsMember (some x) (some v) = IsWritten x v
  IsMember _ _ = ⊥

  -- The members are those of these metrics under their short names.
  abbrev pub Holds : MetricsMap → List (String × Value) → Type 0
  Holds xs ms =
      (ys : MetricsMap) × Shortens xs ys
      × ((name : String) → IsMember (find name ys) (member_of name ms))

  statistics-HasValue :
      (laws : KeepsMembers doc) (kind : String) (s : Statistics)
      → enabled s.config.tags Tag.quantile ≡ false
      → (v : Value) × (write_statistics log s (add_member "type" (of_string kind) (object []))
          ≡ some v)
        × HasValue s kind v
  statistics-HasValue laws kind s single = elim (Bool-cases (s.config.tags == 0)) [
    | inl e ↦ (null_value, null_statistics s _ e, inl ((==_iff s.config.tags 0).0 e, refl))
    | inr e ↦
        (let (ms, f, d) = typed_statistics log laws kind s e single in
          (object ms, f, inr (ms, refl, d)))
  ]

  write_metric-IsWritten :
      (laws : KeepsMembers doc) (x : Metric)
      → asks_quantiles x ≡ false
      → (v : Value) × (write_metric log x ≡ some v) × IsWritten x v
  unfolding write_metric write_gauge write_counter write_timer write_attribute
  write_metric-IsWritten laws (counter c) e = statistics-HasValue laws "counter" c.values e
  write_metric-IsWritten laws (gauge g) e = statistics-HasValue laws "gauge" g.values e
  write_metric-IsWritten laws (timer t) e = statistics-HasValue laws "timer" t.values e
  write_metric-IsWritten laws (attribute a) e = (
    _,
    refl,
    (
      attribute_value a.value,
      attribute_value-IsValue a.value,
      rw (write_attribute, laws.add_last "type" (of_string "attribute") [])
          (laws.add_last "value" (attribute_value a.value) (("type", of_string "attribute") ∷ [])),
    ),
  )

  add_metrics-object :
      (laws : KeepsMembers doc) (xs : MetricsMap) (ms : List (String × Value))
      → Writable xs
      → (ns : List (String × Value)) × (add_metrics log xs (object ms) ≡ some (object (ms ++ ns)))
        × Holds xs ns
  unfolding add_metrics find
  add_metrics-object laws [] ms single = ([], rw append-nil refl, ([], tt, λ _. tt))
  add_metrics-object laws ((name, x) ∷ xs) ms (q, single) =
      let (v, e, h) = write_metric-IsWritten laws x q in
      let (ns, f, (ys, short, g)) =
        add_metrics-object laws xs (ms ++ (c_str name, v) ∷ []) single in
      (
        (c_str name, v) ∷ ns,
        rw (e, laws.add_last (c_str name) v ms)
            (f ∙ rw (append_assoc ms ((c_str name, v) ∷ []) ns) refl),
        (
          (c_str name, x) ∷ ys,
          (c_str-IsCut name, refl, short),
          λ k. elim (Bool-cases (str_eq (c_str name) k)) [
            | inl same ↦ rw (same, find) h
            | inr other ↦ rw (other, find) (g k)
          ],
        ),
      )

  -- If no metric asks for quantiles, the whole dump is written, with no exception, as an object.
  -- Its members have the names of the metrics, each up to its first zero character, and no others;
  -- of metrics with the same name then, the first counts. The value of a counter, a gauge or a timer
  -- is null if it has no tag, and otherwise an object with its type and the content of just the
  -- enabled tags; that of an attribute has its type and value.
  pub fill-member_of :
      (laws : KeepsMembers doc) (xs : MetricsMap)
      → Writable xs
      → (ms : List (String × Value)) × (fill log xs ≡ some (object ms)) × Holds xs ms
  unfolding fill
  fill-member_of laws xs single = add_metrics-object laws xs [] single
