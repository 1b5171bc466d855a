-- ===== src/Tests/Running/Reached.antt =====
-- A state of the library that one message and one turn lead to.
use handystats.Prelude.{◌≡◌, refl, some, List, [], ◌∷◌, ◌++◌, arith}
use handystats.Machine.Milli.{milli}
use handystats.Events.Message.{EventMessage}
use handystats.Core.{Core, turn}
use handystats.System.{Reach, start, sends, taken}
use handystats.System.Reachable.{Orderly, first, Reach-Orderly, Reach-turn}
use handystats.Tests.Running.{
  core, core-Steady, kind, five, five_new, message, message-IsTyped, sent, reads,
}

pub one_sent : Reach ⦃m = milli⦄ kind core (message ∷ []) [] sent
one_sent =
    sends {sent = []} {gone = []} {c = core} five message start five_new refl message-IsTyped
      (omega arith)

Reach-Orderly_example : Orderly ⦃m = milli⦄ kind (message ∷ []) [] sent
Reach-Orderly_example =
    Reach-Orderly ⦃m = milli⦄ kind core sent (message ∷ []) [] core-Steady one_sent

Reach-turn_example :
    (c : Core ⦃m = milli⦄) × (turn ⦃m = milli⦄ reads sent ≡ some c)
    × (rest : List (EventMessage ⦃m = milli⦄)) × (message ∷ [] ≡ [] ++ rest)
    × (taken ⦃m = milli⦄ reads sent ≡ first ⦃m = milli⦄ rest)
Reach-turn_example =
    Reach-turn ⦃m = milli⦄ kind core sent (message ∷ []) [] reads core-Steady one_sent
