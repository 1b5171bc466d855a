-- ===== src/Tests/Running/Called.antt =====
-- Calls of measuring points.
use handystats.Prelude.{◌≡◌, refl, false, some, pos, negsuc, ◌+ℤ◌}
use handystats.Machine.Milli.{milli}
use handystats.Chrono.TimePoint.{epoch, eq}
use handystats.Statistics.State.{default_config}
use handystats.Metrics.Counter.{Counter}
use handystats.Events.Message.{EventMessage}
use handystats.Events.Counter as CounterEvents
use handystats.MeasuringPoints.{send}
use handystats.MeasuringPoints.Scope.{enter_counter, leave_counter, scope_restores}
use handystats.Tests.Running.{core, counter, plain, five, on, now, fits, fits_neg}

started : eq ⦃m = milli⦄ now epoch ≡ false
unfolding eq
started = refl

scope_restores_example :
    (msg1 msg2 : EventMessage ⦃m = milli⦄) × (k1 k2 : Counter ⦃m = milli⦄) × ((enter_counter
        ⦃m = milli⦄ five "queue"
        (negsuc 6)
        now
        core).1
      ≡ send ⦃m = milli⦄ five msg1 core)
    × (leave_counter ⦃m = milli⦄ five
          (enter_counter ⦃m = milli⦄ five "queue" (negsuc 6) now core).0
          now
          core
        ≡ send ⦃m = milli⦄ five msg2 core)
    × (msg1.destination_name ≡ "queue")
    × (msg2.destination_name ≡ "queue")
    × (CounterEvents.process_event ⦃m = milli⦄ default_config counter msg1 ≡ some k1)
    × (CounterEvents.process_event ⦃m = milli⦄ default_config k1 msg2 ≡ some k2)
    × (k1.value ≡ pos 4 +ℤ negsuc 6)
    × (k2.value ≡ pos 4)
scope_restores_example =
    scope_restores ⦃m = milli⦄ default_config counter five five "queue" (negsuc 6) now now core core
      on on fits fits_neg plain started started
