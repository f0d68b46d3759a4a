-- ===== src/Samples/Questions.antt =====
-- The theorems on the store of suspended questions at a concrete history.
use fleet_graph.Common.{
  List, String, [], false, if◌then◌else◌, is_some, none, ok, refl, true, ◌∷◌, ◌≡◌,
}
use fleet_graph.Common.Dict.{Dict, insert, lookup}
use fleet_graph.Common.Json.{Json}
use fleet_graph.Common.Sqlite.{Io}
use fleet_graph.GoalInterrupt.{DecisionInput, GoalInterruptStore, empty_store}
use fleet_graph.GoalInterrupt.Adopting.{resumed_turn-adopts}
use fleet_graph.GoalInterrupt.Effects.{charge_at}
use fleet_graph.GoalInterrupt.History.{Call, Op, claimed_by, first_of, run}
use fleet_graph.GoalInterrupt.Once.{once, resume_granted, total, turn_granted, turn_granted-once}
use fleet_graph.GoalInterrupt.Port.{
  LineInterruptPort, ask, checkpoint_of_question, or_given, persist,
}
use fleet_graph.GoalInterrupt.Reads.{turn_result}
use fleet_graph.GoalInterrupt.Reasking.{Unasked, ask-stable}
use fleet_graph.GoalInterrupt.Refinement.{Represents, run-Represents}
use fleet_graph.GoalInterrupt.Turns.{all_works, resumed_turn}
use fleet_graph.GoalInterrupt.Writes.{
  advance_cursor, claim_turn, put_interrupt, record_compensation, record_resume, record_turn_result,
}

abbrev answer : DecisionInput
answer = record {
  message_id = "m1";
  channel_seq = 7;
  decision = "go";
  rationale = "";
  decided_by = "anna";
  question_note_id = "q1";
  card_entity_id = "";
  refs = [];
  decided_at = "t0";
  resume_key = "e2:f1:3:q1";
}

abbrev delivery : String → Call
delivery now = (Io.works, Op.resume now answer)

-- The first delivery is lost, the second is stored, the third comes again.
abbrev history : List Call
history =
    (Io.fails, Op.resume "t1" answer)
    ∷ delivery "t2"
    ∷ (Io.works, Op.claim "t2" "turn")
    ∷ (Io.works, Op.compensate "t3" "e2:f1:3:q1" "m1" 7)
    ∷ delivery "t4"
    ∷ (Io.works, Op.claim "t5" "turn")
    ∷ (Io.works, Op.move "t6" 9)
    ∷ []

run-Represents_example : Represents history (run history empty_store)
run-Represents_example = run-Represents history

turn_granted-once_example : total (turn_granted "turn") history empty_store ≡ (
    if is_some (charge_at "turn" empty_store)
    then 0
    else once (is_some (first_of (claimed_by "turn") history)))
turn_granted-once_example = turn_granted-once "turn" history empty_store

resumes_once : total (resume_granted "e2:f1:3:q1") history empty_store ≡ 1
unfolding lookup insert record_resume put_interrupt claim_turn record_compensation advance_cursor
    record_turn_result
resumes_once = refl

abbrev verdict : Dict Json
verdict = ("verdict", Json.str "done") ∷ []

abbrev charged : GoalInterruptStore
charged = (resumed_turn all_works "t7" "turn:4" verdict (run history empty_store)).0

charges :
    resumed_turn all_works "t7" "turn:4" verdict (run history empty_store)
    ≡ (charged, ok (verdict, true))
unfolding lookup insert record_resume put_interrupt claim_turn record_compensation advance_cursor
    record_turn_result resumed_turn turn_result
charges = refl

resumed_turn-adopts_example :
    (resumed_turn all_works "t9" "turn:4" [] (run (delivery "t8" ∷ []) charged)).1
    ≡ ok (verdict, false)
resumed_turn-adopts_example =
    resumed_turn-adopts all_works "t7" "t9" "turn:4" verdict [] (run history empty_store) charged
      (verdict, true) (delivery "t8" ∷ []) charges refl

abbrev port : LineInterruptPort
port = record { folder_id = "f1"; generation = 3; card_entity_id = "card"; parked_key = none }

unasked : Unasked port 2 "q2" (run history empty_store)
unfolding lookup insert record_resume put_interrupt claim_turn record_compensation advance_cursor
    record_turn_result
unasked = record { no_round = refl; no_key = refl; named = λ e. cc }

ask-stable_example :
    ask Io.works none port 2
      (persist Io.works "t9"
        (checkpoint_of_question port 2 "d" ("q2", "card"))
        (run history empty_store)).0
    ≡ ok ("q2", or_given "card" "card")
ask-stable_example = ask-stable none port 2 "d" "t9" "q2" "card" (run history empty_store) unasked
