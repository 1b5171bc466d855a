-- ===== src/Statistics/Tag/Closed.antt =====
-- Which tags bring others with them.
use handystats.Prelude.{ℕ, ◌≡◌, Bool, true, false, arith}
use handystats.Statistics.Tag.{
  Tag, value, count, sum, avg, moving_count, moving_sum, moving_avg, histogram, quantile, timestamp,
  rate, entropy, computed, enabled,
}

pub computed-enabled : (tags : ℕ) (t : Tag) → enabled tags t ≡ true → computed tags t ≡ true
unfolding computed
computed-enabled tags t h = ground arith

needs_computed :
    (tags : ℕ)
    → ((t : Tag) → enabled tags t ≡ true → computed tags t ≡ true)
      × (computed tags avg ≡ true → (computed tags sum ≡ true) × (computed tags count ≡ true))
      × (computed tags moving_avg ≡ true
          → (computed tags moving_sum ≡ true) × (computed tags moving_count ≡ true))
      × (computed tags quantile ≡ true → computed tags histogram ≡ true)
      × (computed tags entropy ≡ true → computed tags histogram ≡ true)
      × (computed tags rate ≡ true → computed tags value ≡ true)
      × (computed tags moving_count ≡ true → computed tags timestamp ≡ true)
      × (computed tags moving_sum ≡ true → computed tags timestamp ≡ true)
      × (computed tags histogram ≡ true → computed tags timestamp ≡ true)
      × (computed tags rate ≡ true → computed tags timestamp ≡ true)
unfolding computed
needs_computed tags = (
  computed-enabled tags,
  ground arith,
  ground arith,
  ground arith,
  ground arith,
  ground arith,
  ground arith,
  ground arith,
  ground arith,
  ground arith,
)

-- The data that the value of a tag is made of, and the time stamp that data of the moving interval
-- need.
abbrev pub needs : Tag → Tag → Bool
needs avg sum = true
needs avg count = true
needs moving_avg moving_sum = true
needs moving_avg moving_count = true
needs quantile histogram = true
needs entropy histogram = true
needs rate value = true
needs rate timestamp = true
needs moving_count timestamp = true
needs moving_sum timestamp = true
needs histogram timestamp = true
needs _ _ = false

-- For every set of tags, a tag that a computed tag needs is computed: an average's sum and count,
-- the histogram of the quantile and of the entropy, the value of the rate, and the time stamp of
-- the rate and of all data of the moving interval.
pub computed_closed :
    (tags : ℕ) (t u : Tag) → needs t u ≡ true → computed tags t ≡ true → computed tags u ≡ true
computed_closed tags t u h c = ground (arith, needs_computed tags)
