-- ===== src/Events/Release.antt =====
-- `delete_event_message` of src/events/event_message.cpp and the `delete_event` of each kind of
-- metric: which messages are released. An attribute's value is released with its message.
use handystats.Prelude.{◌==◌, Bool, ◌||◌}
use handystats.Machine.{Machine}
use handystats.Events.Message.{EventMessage, Destination}
use handystats.Events.Counter as CounterEvents
use handystats.Events.Gauge as GaugeEvents
use handystats.Events.Timer as TimerEvents
use handystats.Events.Attribute as AttributeEvents

module _ ⦃m : Machine⦄ where
  unfoldable pub releases_counter : EventMessage → Bool
  releases_counter msg =
      msg.event_type == CounterEvents.init_type
      || msg.event_type == CounterEvents.increment_type
      || msg.event_type == CounterEvents.decrement_type

  unfoldable pub releases_gauge : EventMessage → Bool
  releases_gauge msg =
      msg.event_type == GaugeEvents.init_type || msg.event_type == GaugeEvents.set_type

  unfoldable pub releases_timer : EventMessage → Bool
  releases_timer msg =
      msg.event_type == TimerEvents.init_type
      || msg.event_type == TimerEvents.start_type
      || msg.event_type == TimerEvents.stop_type
      || msg.event_type == TimerEvents.discard_type
      || msg.event_type == TimerEvents.heartbeat_type
      || msg.event_type == TimerEvents.set_type

  unfoldable pub releases_attribute : EventMessage → Bool
  releases_attribute msg = msg.event_type == AttributeEvents.set_type

  abbrev by_destination : Destination → EventMessage → Bool
  unfolding releases_counter releases_gauge releases_timer releases_attribute
  by_destination Destination.counter msg = releases_counter msg
  by_destination Destination.gauge msg = releases_gauge msg
  by_destination Destination.timer msg = releases_timer msg
  by_destination Destination.attribute msg = releases_attribute msg

  -- Whether `delete_event_message` releases the message.
  unfoldable pub releases : EventMessage → Bool
  unfolding by_destination
  releases msg = by_destination msg.destination_type msg
