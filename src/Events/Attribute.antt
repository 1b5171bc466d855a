-- ===== src/Events/Attribute.antt =====
-- src/events/attribute.cpp
use Prim.Native.String.{String}
use handystats.Prelude.{ℕ, ◌==◌, if◌then◌else◌, Option, some}
use handystats.Machine.{Machine}
use handystats.MathUtils.{◌>>=◌}
use handystats.Chrono.TimePoint.{TimePoint}
use handystats.Events.Message.{Destination, EventMessage, boxed, as_value}
use handystats.Metrics.Attribute
use handystats.Metrics.Attribute.{Attribute, Value}

-- `event_type`
abbrev pub set_type : ℕ
set_type = 0

module _ ⦃m : Machine⦄ where
  unfoldable pub create_set_event : String → Value → TimePoint → EventMessage
  create_set_event name v t = record {
    destination_type = Destination.attribute;
    event_type = set_type;
    destination_name = name;
    timestamp = t;
    event_data = boxed v;
  }

  unfoldable pub process_set_event : Attribute → EventMessage → Option Attribute
  process_set_event a msg = as_value msg.event_data >>= λ v. some (Attribute.set v a)

  unfoldable pub process_event : Attribute → EventMessage → Option Attribute
  process_event a msg = if msg.event_type == set_type then process_set_event a msg else some a
