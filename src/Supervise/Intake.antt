-- ===== src/Supervise/Intake.antt =====
-- The events of the supervisor and the facts it fetches for a board question: supervise/events.py
-- and `intake` of graphs/supervisor.py. The board is an input; facts of other events are left out.
use fleet_graph.Common.{
  Bool, List, Option, Result, String, [], err, false, if◌then◌else◌, is_some, none, ok, some, true,
  ℕ, ◌==◌, ◌>>=◌, ◌∷◌,
}
use fleet_graph.Common.Json.{Fields, Json, get_field, has_field}
use fleet_graph.Common.Values.{is_truthy, str_or_empty}
use fleet_graph.Supervise.{Fault, PreauthDeps}
use fleet_graph.Supervise.Protocol.{is_preauth, is_str, payload_of}

pub data EventType : Type 0 where
  board_question blocked_decision line_fault cap_breaker approved_unharvested : EventType
  heartbeat_stale enrollment_pending : EventType

pub record Event : Type 0 where
  pub type : EventType
  pub key : String
  pub payload : Fields

-- What a call of the board gives; nothing where it raises.
pub record Board : Type 0 where
  pub message : Option (Option Fields)
  pub decision_for : Option (Option Fields)
  pub card_head : Option (Option Fields)
  pub messages : Option (List Fields)

pub record IntakeFacts : Type 0 where
  pub card_entity_id : String
  pub already_decided : Bool
  pub card_head_payload : Json
  pub preauth_candidates : List Fields

pub data ExitCode : Type 0 where
  exited signalled : ℕ → ExitCode

pub record Assertion : Type 0 where
  pub name : String
  pub holds : Bool
  pub command : String
  pub exit_code : Option ExitCode

pub record AcceptanceResult : Type 0 where
  pub command : String
  pub exit_code : Option ExitCode

pub record Report : Type 0 where
  pub kind : String
  pub target : String
  pub is_ok : Bool
  pub assertions : List Assertion
  pub gaps : List String
  pub acceptance_results : List AcceptanceResult

-- An entry of `reproducible_failures`, without its excerpt.
pub record Failure : Type 0 where
  pub argv : String
  pub exit_code : Option ExitCode

abbrev pub text_at : PreauthDeps → String → Fields → String
text_at deps key fields = str_or_empty deps.repr (get_field key fields)

abbrev pub with_decision : IntakeFacts → Option Fields → IntakeFacts
with_decision facts decision = record facts { already_decided = is_some decision }

abbrev pub payload_or_empty : Json → Json
payload_or_empty value = if is_truthy value then value else Json.obj Fields.end

abbrev pub with_head : IntakeFacts → Option Fields → IntakeFacts
with_head facts none = facts
with_head facts (some head) = record facts {
  card_head_payload = payload_or_empty (get_field "payload" head);
}

abbrev pub and_payload : Result Fault Fields → Bool → Result Fault Bool
and_payload payload false = ok false
and_payload (err e) true = err e
and_payload (ok payload) true = ok (is_preauth payload)

abbrev pub is_candidate : Fields → Result Fault Bool
is_candidate m = and_payload (payload_of m) (is_str "work.decision.v2" (get_field "kind" m))

abbrev pub kept : Fields → Bool → List Fields → List Fields
kept m true ms = m ∷ ms
kept m false ms = ms

unfoldable pub candidates_among : List Fields → Result Fault (List Fields)
candidates_among [] = ok []
candidates_among (m ∷ ms) = do
  candidate ← is_candidate m
  rest ← candidates_among ms
  ok (kept m candidate rest)

abbrev pub with_candidates : IntakeFacts → Result Fault (List Fields) → IntakeFacts
with_candidates facts (err e) = facts
with_candidates facts (ok candidates) = record facts { preauth_candidates = candidates }

abbrev pub with_notes : IntakeFacts → Option (List Fields) → IntakeFacts
with_notes facts none = facts
with_notes facts (some notes) = with_candidates facts (candidates_among notes)

abbrev pub head_of : Board → IntakeFacts → Option (Option Fields)
head_of board facts = if facts.card_entity_id == "" then some none else board.card_head

abbrev pub after_head : Board → IntakeFacts → Option (Option Fields) → IntakeFacts
after_head board facts none = facts
after_head board facts (some head) = with_notes (with_head facts head) board.messages

abbrev pub after_decision : Board → IntakeFacts → Option (Option Fields) → IntakeFacts
after_decision board facts none = facts
after_decision board facts (some decision) =
    let decided = with_decision facts decision in after_head board decided (head_of board decided)

abbrev pub after_message : Board → IntakeFacts → Option (Option Fields) → IntakeFacts
after_message board facts none = facts
after_message board facts (some _) = after_decision board facts board.decision_for

abbrev pub first_facts : PreauthDeps → Event → IntakeFacts
first_facts deps event = record {
  card_entity_id = text_at deps "card_entity_id" event.payload;
  already_decided = false;
  card_head_payload = Json.null;
  preauth_candidates = [];
}

abbrev pub is_board_question : EventType → Bool
is_board_question EventType.board_question = true
is_board_question _ = false

-- The facts of a board question; whatever raises leaves those that were there.
abbrev pub question_facts : PreauthDeps → Option Board → Event → IntakeFacts
question_facts deps none event = first_facts deps event
question_facts deps (some board) event =
    if has_field "question_note_id" event.payload
    then after_message board (first_facts deps event) board.message
    else first_facts deps event

-- What the other events do not fetch.
abbrev pub no_facts : IntakeFacts
no_facts = record {
  card_entity_id = "";
  already_decided = false;
  card_head_payload = Json.null;
  preauth_candidates = [];
}

unfoldable pub intake : PreauthDeps → Option Board → Event → IntakeFacts
unfolding candidates_among
intake deps board event =
    if is_board_question event.type then question_facts deps board event else no_facts
