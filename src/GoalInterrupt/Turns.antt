-- ===== src/GoalInterrupt/Turns.antt =====
-- The charged turn after a resume: `decision_interrupt` of graphs/goal_line.py from the claim to the
-- recorded result. Each access to the store has its own `Io`, and an error of the store ends the node.
use fleet_graph.Common.{Bool, Option, Result, String, err, false, none, ok, some, true}
use fleet_graph.Common.Dict.{Dict}
use fleet_graph.Common.Json.{Json}
use fleet_graph.Common.Sqlite.{Io, StoreError}
use fleet_graph.GoalInterrupt.{GoalInterruptStore}
use fleet_graph.GoalInterrupt.Reads.{turn_result}
use fleet_graph.GoalInterrupt.Writes.{claim_turn, record_turn_result}

pub record TurnIo : Type 0 where
  pub claiming : Io
  pub reading : Io
  pub writing : Io

abbrev pub all_works : TurnIo
all_works = record { claiming = Io.works; reading = Io.works; writing = Io.works }

-- The result of the turn and whether the coordinator was asked for it.
abbrev pub Turn : Type 0
Turn = Dict Json × Bool

abbrev pub adopted : Dict Json → Option (Dict Json) → Turn
adopted fresh none = (fresh, true)
adopted fresh (some result) = (result, false)

abbrev pub turn_of :
    Dict Json → Bool → Result StoreError (Option (Dict Json)) → Result StoreError Turn
turn_of fresh true kept = ok (fresh, true)
turn_of fresh false (ok kept) = ok (adopted fresh kept)
turn_of fresh false (err e) = err e

abbrev recorded :
    Turn → GoalInterruptStore × Result StoreError Unit → GoalInterruptStore × Result StoreError Turn
recorded turn (s, ok done) = (s, ok turn)
recorded turn (s, err e) = (s, err e)

abbrev pub write_back :
    Io
    → String
    → String
    → GoalInterruptStore
    → Result StoreError Turn
    → GoalInterruptStore × Result StoreError Turn
write_back io now turn_id s (err e) = (s, err e)
write_back io now turn_id s (ok turn) = recorded turn (record_turn_result io now turn_id turn.0 s)

abbrev pub after_claim :
    TurnIo
    → String
    → String
    → Dict Json
    → GoalInterruptStore × Result StoreError Bool
    → GoalInterruptStore × Result StoreError Turn
after_claim io now turn_id fresh (s, err e) = (s, err e)
after_claim io now turn_id fresh (s, ok claimed) =
    write_back io.writing now turn_id s (turn_of fresh claimed (turn_result io.reading turn_id s))

-- `fresh` is what the coordinator answers if it is asked.
unfoldable pub resumed_turn :
    TurnIo
    → String
    → String
    → Dict Json
    → GoalInterruptStore
    → GoalInterruptStore × Result StoreError Turn
unfolding claim_turn turn_result record_turn_result
resumed_turn io now turn_id fresh s =
    after_claim io now turn_id fresh (claim_turn io.claiming now turn_id s)
