-- ===== src/Tests/Running/Written.antt =====
-- The dump of a reached state as a text.
use Prim.Native.String.{String}
use handystats.Prelude.{◌≡◌, some, List, [], ◌∷◌, ◌++◌}
use handystats.Machine.Milli.{milli}
use handystats.JsonDump.{to_string}
use handystats.JsonDump.Filled.{Holds}
use handystats.System.Written.{Reach-to_string}
use handystats.Tests.Json.{Json, tree, laws, log}
use handystats.Events.Message.{EventMessage}
use handystats.Core.{Core, Reads, turn}
use handystats.System.{Reach, turns, taken}
use handystats.System.Reachable.{first, Reach-turn}
use handystats.Tests.Running.{core, core-Steady, kind, message, sent, reads, later_tick}
use handystats.Tests.Running.Reached.{one_sent}

-- A turn that is late enough for a dump.
abbrev late : Reads
late = record reads { dump_start = later_tick; dump_stamp = later_tick; dump_end = later_tick }

turned :
    (c : Core ⦃m = milli⦄) × (turn ⦃m = milli⦄ late sent ≡ some c)
    × (rest : List (EventMessage ⦃m = milli⦄)) × (message ∷ [] ≡ [] ++ rest)
    × (taken ⦃m = milli⦄ late sent ≡ first ⦃m = milli⦄ rest)
turned = Reach-turn ⦃m = milli⦄ kind core sent (message ∷ []) [] late core-Steady one_sent

after_turn : Reach ⦃m = milli⦄ kind core (message ∷ []) ([] ++ taken ⦃m = milli⦄ late sent) turned.0
after_turn =
    turns {sent = message ∷ []} {gone = []} {c = sent} {c' = turned.0} late one_sent turned.1

Reach-to_string_example :
    (ms : List (String × Json)) × (to_string ⦃m = milli⦄ ⦃doc = tree⦄ log turned.0.metrics_dump.dump
      ≡ some "")
    × Holds ⦃m = milli⦄ ⦃doc = tree⦄ log turned.0.metrics_dump.dump ms
Reach-to_string_example =
    Reach-to_string ⦃m = milli⦄ ⦃doc = tree⦄ log laws kind core turned.0 (message ∷ [])
      ([] ++ taken ⦃m = milli⦄ late sent) core-Steady after_turn
