-- ===== src/JsonDump/Members.antt =====
-- src/json_dump.cpp and src/json: the members of the values that are written.
use Prim.Native.String.{String}
use text.Mathlib.Text.{◌==◌ as str_eq}
use handystats.Prelude.{
  ◌==◌, ◌≡◌, refl, sym, ◌∙◌, Bool, true, false, Option, none, some, or_else, or_else-none, some_inj,
  List, [], ◌∷◌, ◌++◌, append_assoc, if◌then◌else◌,
}
use handystats.Machine.{Machine}
use handystats.Statistics.Tag.{Tag, enabled, from_string}
use handystats.Statistics.State.{Statistics}
use handystats.Internal.{Metric, counter, gauge, timer, attribute}
use handystats.JsonDump.{
  Document, first_fields, last_fields, write_statistics, write_gauge, write_counter, write_timer,
  write_metric,
}
use handystats.JsonDump.Fields.{
  AllSingle, content, enabled-content, member_of, member_of-append, KeepsMembers, listed,
  shown_value, shown, add_fields-object,
}

-- The name of a tag in the value of its statistics.
abbrev pub name_of : Tag → String
name_of Tag.value = "value"
name_of Tag.min = "min"
name_of Tag.max = "max"
name_of Tag.count = "count"
name_of Tag.sum = "sum"
name_of Tag.avg = "avg"
name_of Tag.moving_count = "moving-count"
name_of Tag.moving_sum = "moving-sum"
name_of Tag.moving_avg = "moving-avg"
name_of Tag.histogram = "histogram"
name_of Tag.quantile = "quantile"
name_of Tag.timestamp = "timestamp"
name_of Tag.rate = "rate"
name_of Tag.entropy = "entropy"

from_string-name_of : (t : Tag) → from_string (name_of t) ≡ some t
unfolding from_string
from_string-name_of Tag.value = refl
from_string-name_of Tag.min = refl
from_string-name_of Tag.max = refl
from_string-name_of Tag.count = refl
from_string-name_of Tag.sum = refl
from_string-name_of Tag.avg = refl
from_string-name_of Tag.moving_count = refl
from_string-name_of Tag.moving_sum = refl
from_string-name_of Tag.moving_avg = refl
from_string-name_of Tag.histogram = refl
from_string-name_of Tag.quantile = refl
from_string-name_of Tag.timestamp = refl
from_string-name_of Tag.rate = refl
from_string-name_of Tag.entropy = refl

module _ ⦃m : Machine⦄ ⦃doc : Document⦄ (log : m.F → m.F) where
  open doc use {Value, object, add_member, of_string}

  -- The statistics of a metric, if it has any, and the name of its type.
  abbrev pub statistics_of : Metric → Option Statistics
  statistics_of (counter c) = some c.values
  statistics_of (gauge g) = some g.values
  statistics_of (timer t) = some t.values
  statistics_of (attribute a) = none

  abbrev pub type_name : Metric → String
  type_name (counter c) = "counter"
  type_name (gauge g) = "gauge"
  type_name (timer t) = "timer"
  type_name (attribute a) = "attribute"

  if-none : (b : Bool) → ◌≡◌ {A = Option Value} none (if b then none else none)
  if-none true = refl
  if-none false = refl

  member_of-listed :
      (k name : String) (o : Option Value)
      → member_of k (listed log name o) ≡ (if str_eq name k then o else none)
  member_of-listed k name none = if-none (str_eq name k)
  member_of-listed k name (some x) = refl

  -- The first of these fields with the name.
  abbrev found : Statistics → String → List (Tag × String) → Option Value
  found s k [] = none
  found s k ((t, name) ∷ fs) =
      or_else (if str_eq name k then shown_value log s t else none) (found s k fs)

  member_of-shown :
      (s : Statistics) (k : String) (fs : List (Tag × String))
      → member_of k (shown log s fs) ≡ found s k fs
  member_of-shown s k [] = refl
  member_of-shown s k ((t, name) ∷ fs) =
      member_of-append k (listed log name (shown_value log s t)) (shown log s fs)
      ∙ rw (member_of-listed k name (shown_value log s t), member_of-shown s k fs) refl

  shown-append :
      (s : Statistics) (fs gs : List (Tag × String))
      → shown log s (fs ++ gs) ≡ shown log s fs ++ shown log s gs
  shown-append s [] gs = refl
  shown-append s ((t, name) ∷ fs) gs =
      rw (shown-append s fs gs) (
        sym
          (append_assoc (listed log name (shown_value log s t)) (shown log s fs) (shown log s gs)))

  abbrev fields : List (Tag × String)
  fields = first_fields ++ last_fields

  write_statistics-object :
      (laws : KeepsMembers doc) (s : Statistics) (ms : List (String × Value))
      → (s.config.tags == 0) ≡ false
      → enabled s.config.tags Tag.quantile ≡ false
      → write_statistics log s (object ms) ≡ some (object (ms ++ shown log s fields))
  unfolding write_statistics
  write_statistics-object laws s ms tags single =
      let one = shown log s first_fields in
      let single_first : AllSingle log first_fields =
        (refl, (refl, (refl, (refl, (refl, (refl, (refl, (refl, (refl, (refl, tt)))))))))) in
      rw (tags, laws.object_is ms, add_fields-object log laws s first_fields ms single_first)
        (rw single (
          add_fields-object log laws s last_fields (ms ++ one) (refl, (refl, (refl, tt)))
          ∙ rw
              (
                append_assoc ms one (shown log s last_fields),
                shown-append s first_fields last_fields,
              )
              refl))

  found-name_of :
      (s : Statistics) (t : Tag)
      → enabled s.config.tags Tag.quantile ≡ false
      → found s (name_of t) fields ≡ shown_value log s t
  found-name_of s Tag.value e = or_else-none (shown_value log s Tag.value)
  found-name_of s Tag.min e = or_else-none (shown_value log s Tag.min)
  found-name_of s Tag.max e = or_else-none (shown_value log s Tag.max)
  found-name_of s Tag.count e = or_else-none (shown_value log s Tag.count)
  found-name_of s Tag.sum e = or_else-none (shown_value log s Tag.sum)
  found-name_of s Tag.avg e = or_else-none (shown_value log s Tag.avg)
  found-name_of s Tag.moving_count e = or_else-none (shown_value log s Tag.moving_count)
  found-name_of s Tag.moving_sum e = or_else-none (shown_value log s Tag.moving_sum)
  found-name_of s Tag.moving_avg e = or_else-none (shown_value log s Tag.moving_avg)
  found-name_of s Tag.histogram e = or_else-none (shown_value log s Tag.histogram)
  found-name_of s Tag.quantile e = rw e refl
  found-name_of s Tag.timestamp e = or_else-none (shown_value log s Tag.timestamp)
  found-name_of s Tag.rate e = or_else-none (shown_value log s Tag.rate)
  found-name_of s Tag.entropy e = or_else-none (shown_value log s Tag.entropy)

  -- A value with these members: the name of the type, and under the name of each tag that is
  -- enabled its content.
  pub record Describes (kind : String) (s : Statistics) (ms : List (String × Value)) : Type 0 where
    pub type_member : member_of "type" ms ≡ some (of_string kind)
    pub tag_member :
        (t : Tag)
        → member_of (name_of t) ms ≡ (if enabled s.config.tags t then content log s t else none)

  abbrev typed : String → List (String × Value)
  typed kind = ("type", of_string kind) ∷ []

  type_other :
      (kind : String) (t : Tag) (ms : List (String × Value))
      → member_of (name_of t) (typed kind ++ ms) ≡ member_of (name_of t) ms
  type_other kind Tag.value ms = refl
  type_other kind Tag.min ms = refl
  type_other kind Tag.max ms = refl
  type_other kind Tag.count ms = refl
  type_other kind Tag.sum ms = refl
  type_other kind Tag.avg ms = refl
  type_other kind Tag.moving_count ms = refl
  type_other kind Tag.moving_sum ms = refl
  type_other kind Tag.moving_avg ms = refl
  type_other kind Tag.histogram ms = refl
  type_other kind Tag.quantile ms = refl
  type_other kind Tag.timestamp ms = refl
  type_other kind Tag.rate ms = refl
  type_other kind Tag.entropy ms = refl

  Describes-shown :
      (laws : KeepsMembers doc) (kind : String) (s : Statistics)
      → enabled s.config.tags Tag.quantile ≡ false
      → Describes kind s (typed kind ++ shown log s fields)
  Describes-shown laws kind s e = record {
    type_member = refl;
    tag_member = λ t.
        type_other kind t (shown log s fields)
        ∙ member_of-shown s (name_of t) fields
        ∙ found-name_of s t e
        ∙ enabled-content log laws s t;
  }

  -- The value of a metric with statistics s, which are not disabled and do not ask for quantiles.
  pub typed_statistics :
      (laws : KeepsMembers doc) (kind : String) (s : Statistics)
      → (s.config.tags == 0) ≡ false
      → enabled s.config.tags Tag.quantile ≡ false
      → (ms : List (String × Value)) × (write_statistics log s
            (add_member "type" (of_string kind) (object []))
          ≡ some (object ms))
        × Describes kind s ms
  typed_statistics laws kind s tags single = (
    typed kind ++ shown log s fields,
    rw (laws.add_last "type" (of_string kind) [])
        (write_statistics-object laws s (typed kind) tags single),
    Describes-shown laws kind s single,
  )

  -- A counter, a gauge or a timer with at least one tag and no quantiles is written, with no
  -- exception, as an object that has the name of the metric's type, and under the name of each
  -- enabled tag its content, and no member under the name of any other tag. The content is the
  -- field of the statistics, the quotient of two for an average, the bins' centers and weights for
  -- the histogram, milliseconds of the system clock for the time stamp, and what the getters give
  -- for the rate and the entropy. The names are the ones by which a configuration enables the tags.
  pub write_metric-Describes :
      (laws : KeepsMembers doc) (x : Metric) (s : Statistics)
      → statistics_of x ≡ some s
      → (s.config.tags == 0) ≡ false
      → enabled s.config.tags Tag.quantile ≡ false
      → (ms : List (String × Value)) × (write_metric log x ≡ some (object ms))
        × Describes (type_name x) s ms
        × ((t : Tag) → from_string (name_of t) ≡ some t)
  unfolding write_metric write_gauge write_counter write_timer
  write_metric-Describes laws (counter c) s e tags single =
      let (ms, f, d) = typed_statistics laws "counter" s tags single in
      rw (some_inj c.values s e) (ms, f, d, from_string-name_of)
  write_metric-Describes laws (gauge g) s e tags single =
      let (ms, f, d) = typed_statistics laws "gauge" s tags single in
      rw (some_inj g.values s e) (ms, f, d, from_string-name_of)
  write_metric-Describes laws (timer t) s e tags single =
      let (ms, f, d) = typed_statistics laws "timer" s tags single in
      rw (some_inj t.values s e) (ms, f, d, from_string-name_of)
  write_metric-Describes laws (attribute a) s e tags single = cc
