-- ===== src/Events/Message.antt =====
-- `event_message` of src/events/event_message_impl.hpp. The address of a message in the queue is
-- left to the queue's model.
use Prim.Native.String.{String}
use handystats.Prelude.{ℕ, ℤ, Option, none, some, of_u64}
use handystats.Machine.{Machine}
use handystats.Chrono.TimePoint.{TimePoint}
use handystats.Metrics.Attribute.{Value}

-- `event_destination_type`
pub data Destination : Type 0 where
  counter gauge timer attribute : Destination

module _ ⦃m : Machine⦄ where
  open m use {F}

  -- The 64 bits of `event_data`, by what was constructed there: an integer, a double, or the
  -- address of an attribute's value, which stands for the value.
  pub data EventData : Type 0 where
    word : ℕ → EventData
    number : F → EventData
    boxed : Value → EventData

  pub record EventMessage : Type 0 where
    pub destination_type : Destination
    pub event_type : ℕ
    pub destination_name : String
    pub timestamp : TimePoint
    pub event_data : EventData

  -- The reads of `event_data` as one type; `none` is a read of the bits of another type.
  unfoldable pub as_int64 : EventData → Option ℤ
  as_int64 (word w) = some (of_u64 w)
  as_int64 (number x) = none
  as_int64 (boxed v) = none

  unfoldable pub as_uint64 : EventData → Option ℕ
  as_uint64 (word w) = some w
  as_uint64 (number x) = none
  as_uint64 (boxed v) = none

  unfoldable pub as_double : EventData → Option F
  as_double (word w) = none
  as_double (number x) = some x
  as_double (boxed v) = none

  unfoldable pub as_value : EventData → Option Value
  as_value (word w) = none
  as_value (number x) = none
  as_value (boxed v) = some v
