-- ===== src/MessageQueue/Service.antt =====
-- The functions of `message_queue` around the queue: its size, its own statistics, and the messages
-- that it holds. A message stands at an address, which is a node of the queue. The times of the
-- clock's reads are arguments.
pub mod Intact
pub mod Drain
use handystats.Prelude.{
  ℕ, zero, suc, ◌+◌, ◌-◌, ◌%◌, ◌==◌, Bool, true, false, Option, none, some, pos, u64_mod,
  if◌then◌else◌,
}
use handystats.Machine.{Machine}
use handystats.MathUtils.{num, ◌>>=◌}
use handystats.Chrono.Duration.{duration, sec, convert_to}
use handystats.Chrono.TimePoint.{TimePoint, elapsed}
use handystats.Statistics.State.{Config, default_config}
use handystats.Statistics.Tag
use handystats.Statistics.Tag.{bit}
use handystats.Metrics.Gauge
use handystats.Metrics.Counter
use handystats.Metrics.Timer
use handystats.Events.Message.{EventMessage}
use handystats.Events.Release.{releases}
use handystats.MessageQueue.Nodes
use handystats.MessageQueue.Nodes.{Queue}

module _ ⦃m : Machine⦄ where
  open m use {of_ℤ}

  -- `message_queue::stats`
  pub record Stats : Type 0 where
    pub size : Gauge.Gauge
    pub message_wait_time : Gauge.Gauge
    pub pop_count : Counter.Counter

  -- `event_message_queue`, `none` for the null pointer, `mq_size`, the statistics, and the messages
  -- that are allocated.
  pub record Service : Type 0 where
    pub event_message_queue : Option Queue
    pub mq_size : ℕ
    pub stats : Stats
    pub messages : ℕ → Option EventMessage

  unfoldable pub update_stats : TimePoint → Stats → Stats
  update_stats t s = record {
    size = Gauge.update_statistics t s.size;
    message_wait_time = Gauge.update_statistics t s.message_wait_time;
    pop_count = Counter.update_statistics t s.pop_count;
  }

  unfoldable pub size_opts : Config
  unfolding default_config bit
  size_opts = record default_config {
    tags = bit Tag.value + bit Tag.max + bit Tag.moving_avg;
    moving_interval = duration (pos 1) sec;
  }

  unfoldable pub message_wait_time_opts : Config
  unfolding default_config bit
  message_wait_time_opts = record default_config {
    tags = bit Tag.moving_avg;
    moving_interval = duration (pos 1) sec;
  }

  unfoldable pub pop_count_opts : Config
  unfolding default_config bit
  pop_count_opts = record default_config {
    tags = bit Tag.rate + bit Tag.value;
    rate_unit = sec;
    moving_interval = duration (pos 1) sec;
  }

  -- `stats::reset`; `now` is the time of the first value of the size.
  unfoldable pub reset_stats : TimePoint → Option Stats
  unfolding size_opts message_wait_time_opts pop_count_opts
  reset_stats now = Gauge.set (num 0) now (Gauge.create size_opts) >>= λ size. some (record {
    size = size;
    message_wait_time = Gauge.create message_wait_time_opts;
    pop_count = Counter.create pop_count_opts;
  })

  abbrev pub store : (ℕ → Option EventMessage) → ℕ → Option EventMessage → ℕ → Option EventMessage
  store f p v q = if q == p then v else f q

  unfoldable pub push : ℕ → Service → Service
  push n s = elim s.event_message_queue [
    | none ↦ s
    | some q ↦ record s {
      event_message_queue = some (Nodes.push n q);
      mq_size = (s.mq_size + 1) % u64_mod;
    }
  ]

  -- The statistics of one popped message, at the time after the pop.
  unfoldable pub count_pop : TimePoint → ℕ → EventMessage → Stats → Option Stats
  count_pop now left msg st = Gauge.set (num left) now st.size >>= λ size.
      Counter.increment (pos 1) now st.pop_count >>= λ count.
      Gauge.set (of_ℤ (convert_to Timer.value_unit (elapsed now msg.timestamp)).rep) now
        st.message_wait_time
      >>= λ wait. some (record { size = size; message_wait_time = wait; pop_count = count })

  -- After the pop of the node `n` that has left the queue `q`.
  unfoldable pub popped : TimePoint → Queue → ℕ → Service → Option (Service × Option ℕ)
  unfolding count_pop
  popped now q n s = s.messages n >>= λ msg.
      let left = (s.mq_size + u64_mod - 1) % u64_mod in
      count_pop now left msg s.stats >>= λ stats.
      some (record s { event_message_queue = some q; mq_size = left; stats = stats }, some n)

  -- `none` is a read of a message that is not there.
  unfoldable pub pop : TimePoint → Service → Option (Service × Option ℕ)
  unfolding popped
  pop now s = elim s.event_message_queue [
    | none ↦ some (s, none)
    | some q ↦
        (let (q', r) = Nodes.pop q in
          elim r [
            | none ↦ some (record s { event_message_queue = some q' }, none)
            | some n ↦ popped now q' n s
          ])
  ]

  unfoldable pub empty : Service → Bool
  empty s = s.mq_size == 0

  -- `delete_event_message`
  unfoldable pub delete_message : Option ℕ → Service → Service
  delete_message none s = s
  delete_message (some n) s = elim (s.messages n) [
    | none ↦ s
    | some msg ↦ if releases msg then record s { messages = store s.messages n none } else s
  ]

  -- `memory` is what the new stub node's memory held.
  unfoldable pub initialize : (ℕ → Option ℕ) → TimePoint → Service → Option Service
  unfolding reset_stats
  initialize memory now s =
      let s' : Service = elim s.event_message_queue [
        | none ↦ record s { event_message_queue = some (Nodes.create memory); mq_size = 0 }
        | some q ↦ s
      ] in
      reset_stats now >>= λ stats. some (record s' { stats = stats })

  -- The loop of `finalize`, on fuel: `none` is also a loop that the fuel does not end.
  unfoldable pub drain : ℕ → (ℕ → TimePoint) → Service → Option Service
  unfolding pop delete_message empty
  drain zero clock s = none
  drain (suc fuel) clock s = elim (empty s) [
    | true ↦ some s
    | false ↦ pop (clock fuel) s >>= λ p. drain fuel clock (delete_message p.1 p.0)
  ]

  unfoldable pub finalize : ℕ → (ℕ → TimePoint) → TimePoint → Service → Option Service
  unfolding drain reset_stats
  finalize fuel clock now s = drain fuel clock s >>= λ s'. reset_stats now >>= λ stats.
      some (record s' { event_message_queue = none; mq_size = 0; stats = stats })
