-- ===== src/Events/Gauge.antt =====
-- src/events/gauge.cpp
use Prim.Native.String.{String}
use handystats.Prelude.{ℕ, ◌==◌, if◌then◌else◌, Option, some}
use handystats.Machine.{Machine}
use handystats.MathUtils.{◌>>=◌}
use handystats.Chrono.TimePoint.{TimePoint}
use handystats.Statistics.State.{Config}
use handystats.Events.Message.{Destination, EventMessage, number, as_double}
use handystats.Metrics.Gauge
use handystats.Metrics.Gauge.{Gauge}

-- `event_type`
abbrev pub init_type : ℕ
init_type = 0

abbrev pub set_type : ℕ
set_type = 1

module _ ⦃m : Machine⦄ where
  open m use {F}

  unfoldable pub create_init_event : String → F → TimePoint → EventMessage
  create_init_event name v t = record {
    destination_type = Destination.gauge;
    event_type = init_type;
    destination_name = name;
    timestamp = t;
    event_data = number v;
  }

  unfoldable pub create_set_event : String → F → TimePoint → EventMessage
  create_set_event name v t = record {
    destination_type = Destination.gauge;
    event_type = set_type;
    destination_name = name;
    timestamp = t;
    event_data = number v;
  }

  -- `opts` is `config::metrics::gauge_opts`.
  unfoldable pub process_init_event : Config → Gauge → EventMessage → Option Gauge
  process_init_event opts g msg =
      as_double msg.event_data >>= λ v. Gauge.set v msg.timestamp (Gauge.create opts)

  unfoldable pub process_set_event : Gauge → EventMessage → Option Gauge
  process_set_event g msg = as_double msg.event_data >>= λ v. Gauge.set v msg.timestamp g

  unfoldable pub process_event : Config → Gauge → EventMessage → Option Gauge
  process_event opts g msg =
      if msg.event_type == init_type
      then process_init_event opts g msg
      else if msg.event_type == set_type
      then process_set_event g msg
      else some g
