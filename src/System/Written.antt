-- ===== src/System/Written.antt =====
-- `HANDY_JSON_DUMP` of src/json_dump.cpp in a running library.
use Prim.Native.String.{String}
use handystats.Prelude.{◌≡◌, refl, some, List, []}
use handystats.Machine.{Machine}
use handystats.Events.Message.{Destination, EventMessage}
use handystats.Core.{Core}
use handystats.Core.Steady.{Steady}
use handystats.JsonDump.{Document, to_string}
use handystats.JsonDump.Fields.{KeepsMembers}
use handystats.JsonDump.Filled.{Holds, fill-member_of}
use handystats.System.{Reach}
use handystats.System.Reachable.{Reach-Orderly}

module _ ⦃m : Machine⦄ ⦃doc : Document⦄ (log : m.F → m.F) where
  open doc use {Value, object, pretty}

  -- Let the messages of each name be of one kind of metric, each made where no message is, and fewer
  -- than 2 ^ 64 at a time. In every state that such messages, turns of the processor and restarts
  -- lead to, in any order, from a steady state with an empty queue, the dump is written as a text
  -- with no exception: the text of an object whose members have the names of the dump's metrics, each
  -- up to its first zero character, with the content of the enabled tags, or of the attribute.
  pub Reach-to_string :
      (laws : KeepsMembers doc) (kind : String → Destination) (c0 c : Core)
      (sent gone : List EventMessage)
      → Steady kind c0 []
      → Reach kind c0 sent gone c
      → (ms : List (String × Value)) × (to_string log c.metrics_dump.dump
          ≡ some (pretty (object ms)))
        × Holds log c.metrics_dump.dump ms
  unfolding to_string
  Reach-to_string laws kind c0 c sent gone h reach =
      let o = Reach-Orderly kind c0 c sent gone h reach in
      let (ms, e, holds) = fill-member_of log laws c.metrics_dump.dump o.steady.writable in
      (ms, rw e refl, holds)
