-- ===== src/Statistics/Tag.antt =====
-- `statistics::tag` of include/handystats/statistics.hpp, `tag::from_string`, `enabled` and
-- `computed` of src/statistics.cpp.
pub mod Closed
use Prim.Native.Nat.{bit_and}
use Prim.Native.String.{String}
use text.Mathlib.Text.{◌==◌ as str_eq}
use handystats.Prelude.{ℕ, ◌^◌, ◌==◌, Bool, not, ◌||◌, Option, none, some, List, if◌then◌else◌}

pub data Tag : Type 0 where
  value min max count sum avg moving_count moving_sum moving_avg histogram quantile timestamp rate
        entropy :
      Tag

-- The bit of a tag in a set of tags.
unfoldable pub bit : Tag → ℕ
bit value = 2 ^ 1
bit min = 2 ^ 2
bit max = 2 ^ 3
bit count = 2 ^ 4
bit sum = 2 ^ 5
bit avg = 2 ^ 6
bit moving_count = 2 ^ 7
bit moving_sum = 2 ^ 8
bit moving_avg = 2 ^ 9
bit histogram = 2 ^ 10
bit quantile = 2 ^ 11
bit timestamp = 2 ^ 12
bit rate = 2 ^ 13
bit entropy = 2 ^ 14

-- `none` is the exception.
unfoldable pub from_string : String → Option Tag
from_string name =
    if str_eq "value" name
    then some value
    else if str_eq "min" name
    then some min
    else if str_eq "max" name
    then some max
    else if str_eq "count" name
    then some count
    else if str_eq "sum" name
    then some sum
    else if str_eq "avg" name
    then some avg
    else if str_eq "moving-count" name
    then some moving_count
    else if str_eq "moving-sum" name
    then some moving_sum
    else if str_eq "moving-avg" name
    then some moving_avg
    else if str_eq "histogram" name
    then some histogram
    else if str_eq "quantile" name
    then some quantile
    else if str_eq "timestamp" name
    then some timestamp
    else if str_eq "rate" name
    then some rate
    else if str_eq "entropy" name
    then some entropy
    else none

-- The tags are the ones of the configuration, an `int` used as a set of bits.
unfoldable pub enabled : ℕ → Tag → Bool
unfolding bit
enabled tags t = not (bit_and tags (bit t) == 0)

-- `computed` at the tags that no other tag needs, which are computed if they are enabled.
unfoldable pub computed_leaf : ℕ → Tag → Bool
unfolding enabled
computed_leaf tags t = enabled tags t

-- `computed` at the tags whose cases call it on such tags alone.
unfoldable pub computed_data : ℕ → Tag → Bool
unfolding enabled computed_leaf
computed_data tags value = enabled tags value || computed_leaf tags rate
computed_data tags count = enabled tags count || computed_leaf tags avg
computed_data tags sum = enabled tags sum || computed_leaf tags avg
computed_data tags moving_count = enabled tags moving_count || computed_leaf tags moving_avg
computed_data tags moving_sum = enabled tags moving_sum || computed_leaf tags moving_avg
computed_data tags histogram =
    enabled tags histogram || computed_leaf tags quantile || computed_leaf tags entropy
computed_data tags t = computed_leaf tags t

-- A tag is computed if it is enabled or another computed tag needs it.
unfoldable pub computed : ℕ → Tag → Bool
unfolding enabled computed_data
computed tags timestamp =
    enabled tags timestamp
    || computed_data tags moving_count
    || computed_data tags moving_sum
    || computed_data tags moving_avg
    || computed_data tags histogram
    || computed_data tags quantile
    || computed_data tags rate
computed tags t = computed_data tags t
