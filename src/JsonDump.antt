-- ===== src/JsonDump.antt =====
-- src/json_dump.cpp and src/json: the metrics of a dump as a JSON text. A pointer to an object or to
-- a value is never null here, as in the calls of src/json_dump.cpp.
pub mod Fields
pub mod Members
pub mod Filled
use Prim.Native.Char.{code}
use Prim.Native.String.{String}
use handystats.Prelude.{ℕ, ◌==◌, Bool, Option, none, some, List, [], ◌∷◌, ℤ, to_u64, if◌then◌else◌}
use handystats.Machine.{Machine}
use handystats.MathUtils.{num, ◌>>=◌}
use handystats.Chrono.Duration.{msec, convert_to}
use handystats.Chrono.TimePoint.{TimePoint, system, convert_clock}
use handystats.Statistics.Tag
use handystats.Statistics.Tag.{Tag, enabled}
use handystats.Statistics.State.{Statistics, Bin, is_computed}
use handystats.Statistics.Access.{
  get_value, get_min, get_max, get_count, get_sum, get_avg, get_moving_count, get_moving_sum,
  get_moving_avg, get_histogram, get_timestamp, get_rate, get_entropy,
}
use handystats.Statistics.Quantile.{at}
use handystats.Metrics.Counter.{Counter}
use handystats.Metrics.Gauge.{Gauge}
use handystats.Metrics.Timer.{Timer}
use handystats.Metrics.Attribute
use handystats.Metrics.Attribute.{Attribute}
use handystats.Internal.{Metric, MetricsMap, counter, gauge, timer, attribute}

-- What a C string keeps of a text: the characters before the first zero.
unfoldable pub c_str : String → String
c_str String.[] = String.[]
c_str (String.◌∷◌ c s) = let rest = c_str s in if code c == 0 then String.[] else String.◌∷◌ c rest

-- The fields before and after the quantiles.
abbrev pub first_fields : List (Tag × String)
first_fields =
    (Tag.value, "value")
    ∷ (Tag.min, "min")
    ∷ (Tag.max, "max")
    ∷ (Tag.count, "count")
    ∷ (Tag.sum, "sum")
    ∷ (Tag.avg, "avg")
    ∷ (Tag.moving_count, "moving-count")
    ∷ (Tag.moving_sum, "moving-sum")
    ∷ (Tag.moving_avg, "moving-avg")
    ∷ (Tag.histogram, "histogram")
    ∷ []

abbrev pub last_fields : List (Tag × String)
last_fields = (Tag.timestamp, "timestamp") ∷ (Tag.rate, "rate") ∷ (Tag.entropy, "entropy") ∷ []

module _ ⦃m : Machine⦄ where
  open m use {F, div}

  -- What the code uses of the rapidjson library to build and print values. `object` and `array` are
  -- the values with these members and elements: `SetObject` and `SetArray` give the empty ones.
  pub record Document : Type 1 where
    pub Value : Type 0
    pub null_value : Value
    pub object : List (String × Value) → Value
    pub array : List Value → Value
    pub is_object : Value → Bool
    pub add_member : String → Value → Value → Value
    pub push_back : Value → Value → Value
    pub of_bool : Bool → Value
    pub of_int : ℤ → Value
    pub of_uint : ℕ → Value
    pub of_double : F → Value
    pub of_string : String → Value
    -- the text of `PrettyWriter`
    pub pretty : Value → String

  module _ ⦃doc : Document⦄ where
    open doc use {
      Value, null_value, object, array, is_object, add_member, push_back, of_bool, of_int, of_uint,
      of_double, of_string, pretty,
    }

    -- A time point, as milliseconds of the system clock.
    unfoldable pub write_timestamp : TimePoint → Option Value
    unfolding convert_clock convert_to to_u64
    write_timestamp t =
        convert_clock system t >>= λ s. some (of_uint (to_u64 (convert_to msec s.since_epoch).rep))

    -- The loop over the bins.
    unfoldable pub add_bins : List Bin → Value → Value
    add_bins [] v = v
    add_bins (b ∷ bs) v =
        add_bins bs
          (push_back (push_back (of_double b.weight) (push_back (of_double b.center) (array []))) v)

    abbrev pub double : Option F → Option Value
    double o = o >>= λ x. some (of_double x)

    -- One quantile, at so many hundredths.
    unfoldable pub add_quantile : List Bin → String → ℕ → Value → Option Value
    unfolding at
    add_quantile bins name percent v =
        at bins (div (num percent) (num 100)) >>= λ x. some (add_member name (of_double x) v)

    unfoldable pub add_quantiles : Statistics → Value → Option Value
    unfolding add_quantile
    add_quantiles s v =
        if is_computed s Tag.quantile
        then (add_quantile s.histogram "p25" 25 v
            >>= add_quantile s.histogram "p50" 50
            >>= add_quantile s.histogram "p75" 75
            >>= add_quantile s.histogram "p90" 90
            >>= add_quantile s.histogram "p95" 95)
        else none

    unfoldable pub attribute_value : Attribute.Value → Value
    unfolding c_str
    attribute_value (Attribute.bool b) = of_bool b
    attribute_value (Attribute.int i) = of_int i
    attribute_value (Attribute.uint u) = of_uint u
    attribute_value (Attribute.int64 i) = of_int i
    attribute_value (Attribute.uint64 u) = of_uint u
    attribute_value (Attribute.double d) = of_double d
    attribute_value (Attribute.string s) = of_string (c_str s)

    unfoldable pub write_attribute : Attribute → Value
    unfolding attribute_value
    write_attribute a =
        add_member "value" (attribute_value a.value)
          (add_member "type" (of_string "attribute") (object []))

  -- `log` is the logarithm of the C library.
  module _ ⦃doc : Document⦄ (log : F → F) where
    open doc use {
      Value, null_value, object, array, is_object, add_member, push_back, of_bool, of_int, of_uint,
      of_double, of_string, pretty,
    }

    -- The value that is written for a tag other than the one of the quantiles.
    unfoldable pub value_of : Statistics → Tag → Option Value
    unfolding write_timestamp add_bins
    value_of s Tag.value = double (get_value s)
    value_of s Tag.min = double (get_min s)
    value_of s Tag.max = double (get_max s)
    value_of s Tag.count = get_count s >>= λ n. some (of_uint n)
    value_of s Tag.sum = double (get_sum s)
    value_of s Tag.avg = double (get_avg s)
    value_of s Tag.moving_count = double (get_moving_count s)
    value_of s Tag.moving_sum = double (get_moving_sum s)
    value_of s Tag.moving_avg = double (get_moving_avg s)
    value_of s Tag.histogram = get_histogram s >>= λ bins. some (add_bins bins (array []))
    value_of s Tag.quantile = none
    value_of s Tag.timestamp = get_timestamp s >>= write_timestamp
    value_of s Tag.rate = double (get_rate s)
    value_of s Tag.entropy = double (get_entropy log s)

    -- The tests of the tags, in their order: an enabled tag adds its member. `none` is an exception.
    unfoldable pub add_fields : Statistics → List (Tag × String) → Value → Option Value
    unfolding enabled value_of
    add_fields s [] v = some v
    add_fields s ((t, name) ∷ fs) v =
        (if enabled s.config.tags t
          then (value_of s t >>= λ x. some (add_member name x v))
          else some v)
        >>= add_fields s fs

    unfoldable pub write_statistics : Statistics → Value → Option Value
    unfolding add_fields add_quantiles enabled
    write_statistics s v =
        if s.config.tags == 0
        then some null_value
        else (add_fields s first_fields (if is_object v then v else object [])
            >>= (λ v1. if enabled s.config.tags Tag.quantile then add_quantiles s v1 else some v1)
            >>= add_fields s last_fields)

    unfoldable pub write_gauge : Gauge → Option Value
    unfolding write_statistics
    write_gauge g = write_statistics g.values (add_member "type" (of_string "gauge") (object []))

    unfoldable pub write_counter : Counter → Option Value
    unfolding write_statistics
    write_counter c =
        write_statistics c.values (add_member "type" (of_string "counter") (object []))

    unfoldable pub write_timer : Timer → Option Value
    unfolding write_statistics
    write_timer t = write_statistics t.values (add_member "type" (of_string "timer") (object []))

    unfoldable pub write_metric : Metric → Option Value
    unfolding write_gauge write_counter write_timer write_attribute
    write_metric (gauge g) = write_gauge g
    write_metric (counter c) = write_counter c
    write_metric (timer t) = write_timer t
    write_metric (attribute a) = some (write_attribute a)

    -- The loop of `fill`.
    unfoldable pub add_metrics : MetricsMap → Value → Option Value
    unfolding write_metric c_str
    add_metrics [] v = some v
    add_metrics ((name, x) ∷ xs) v =
        write_metric x >>= λ value. add_metrics xs (add_member (c_str name) value v)

    unfoldable pub fill : MetricsMap → Option Value
    unfolding add_metrics
    fill xs = add_metrics xs (object [])

    unfoldable pub to_string : MetricsMap → Option String
    unfolding fill
    to_string xs = fill xs >>= λ v. some (pretty v)
