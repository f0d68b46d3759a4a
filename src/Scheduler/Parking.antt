-- ===== src/Scheduler/Parking.antt =====
-- Parking: `park_state` of scheduler/daemon.py with what it calls. A probe answers, or fails with its
-- tag; the blocker's prose and the text of the question are left out.
use fleet_graph.Common.{
  Bool, Option, Result, String, err, false, get_or, if◌then◌else◌, none, ok, some, true, ℕ, ◌==◌,
}
use fleet_graph.Scheduler.Stall.{StallFile, StallState, TerminalRecord, present, write_stall_state}

pub record LineSpec : Type 0 where
  pub folder_id : String
  pub seat : String
  pub alias : Option String
  pub generation : ℕ
  pub enabled : Bool
  pub acceptance_digest : Option String

pub record WakeSignals : Type 0 where
  pub inbox_message_after : String → ℕ → Result String Bool
  pub goal_revision : String → Result String (Option String)
  pub decision_landed : String → ℕ → Result String Bool

-- The board: a card is published, then a question on it.
pub record Board : Type 0 where
  pub publish : String → Result String String
  pub ask : String → String → Result String String

-- One moment of the world around a line.
pub record World : Type 0 where
  pub now : ℕ
  pub clock : ℕ
  pub wake : Option WakeSignals
  pub dd : Option (String → Result String (Option String))
  pub board : Option Board
  pub parking_writes : Bool
  pub decision_wake_stall_ticks : ℕ
  pub interval_seconds : ℕ

pub data ParkEvent : Type 0 where
  established established_dd : ParkEvent
  established_without_inbox : String → ParkEvent
  inbox_already_has_mail no_goal_fact no_consumed_revision no_dd_development : ParkEvent
  probe_failed dd_probe_failed dd_already : String → ParkEvent
  held_no_goal_fact : ParkEvent
  held_goal_failed : String → ParkEvent
  woken_decision_consumed woken_board_decision woken_inbox : ParkEvent
  woken_goal_revision woken_dd_anchor_lost : ParkEvent
  woken_probe_failed woken_dd_probe_failed woken_dd : String → ParkEvent

pub data BoardAnswer : Type 0 where
  card_failed question_sent question_failed : String → BoardAnswer

pub record ParkOutcome : Type 0 where
  pub parked : Bool
  pub event : Option ParkEvent
  pub board_question : Option BoardAnswer
  pub decision_wake_stall : Option ℕ
  pub kind : Option String

-- The file afterwards, and the development at whose gate the line wakes.
pub record Parked : Type 0 where
  pub file : StallFile
  pub outcome : ParkOutcome
  pub dd_gate : Option String

abbrev pub no_park : Option ParkEvent → ParkOutcome
no_park event = record {
  parked = false;
  event = event;
  board_question = none;
  decision_wake_stall = none;
  kind = none;
}

abbrev pub held : String → Option ParkEvent → ParkOutcome
held kind event = record (no_park event) { parked = true; kind = some kind }

abbrev pub left : StallFile → ParkOutcome → Parked
left file outcome = record { file = file; outcome = outcome; dd_gate = none }

-- Considered, and not parked.
abbrev pub considered_only : World → StallState → ParkEvent → StallFile → Parked
considered_only w s event file =
    left (write_stall_state w.parking_writes s file) (no_park (some event))

abbrev pub consider : String → StallState → StallState
consider run s = record s { park_considered_run_id = some run }

abbrev pub asked : String → StallState → Result String String → StallState × Option BoardAnswer
asked card s (ok note) =
    (record s { board_question_note_id = some note }, some (BoardAnswer.question_sent note))
asked card s (err tag) = (s, some (BoardAnswer.question_failed tag))

abbrev pub ask_on : Board → String → String → StallState → StallState × Option BoardAnswer
ask_on board run card s = asked card s (board.ask card run)

abbrev pub with_card :
    Board → String → StallState → Result String String → StallState × Option BoardAnswer
with_card board run s (ok card) =
    ask_on board run card (record s { board_card_entity_id = some card })
with_card board run s (err tag) = (s, some (BoardAnswer.card_failed tag))

-- The card of a line is published once, the question at every parking.
abbrev pub ask_board : Option Board → String → String → StallState → StallState × Option BoardAnswer
ask_board none folder run s = (s, none)
ask_board (some board) folder run s =
    if present s.board_card_entity_id
    then ask_on board run (get_or s.board_card_entity_id "") s
    else with_card board run s (board.publish folder)

-- Whether mail came after the terminal; a terminal without a readable time fails the probe.
abbrev pub mail_after : WakeSignals → String → Option ℕ → Result String Bool
mail_after signals alias none = err "ValueError"
mail_after signals alias (some since) = signals.inbox_message_after alias since

abbrev pub inbox_probe : Option WakeSignals → Option String → Option ℕ → Option (Result String Bool)
inbox_probe (some signals) (some alias) at_epoch =
    if alias == "" then none else some (mail_after signals alias at_epoch)
inbox_probe _ _ _ = none

abbrev pub inbox_event : Option String → ParkEvent
inbox_event none = ParkEvent.established
inbox_event (some tag) = ParkEvent.established_without_inbox tag

abbrev pub snapshot : World → String → String → Bool → StallState → StallState
snapshot w run revision inbox s = record s {
  parked_run_id = some run;
  parked_at = some w.now;
  parked_goal_revision = some revision;
  parked_inbox_available = some inbox;
}

abbrev pub established_with :
    World → Option String → StallFile → StallState × Option BoardAnswer → Parked
established_with w tag file (s, answer) =
    left (write_stall_state w.parking_writes s file)
      (record (held "decision" (some (inbox_event tag))) { board_question = answer })

-- The baseline is the revision that the line has consumed.
abbrev pub on_baseline :
    World
    → LineSpec
    → TerminalRecord
    → String
    → Bool
    → Option String
    → StallState
    → StallFile
    → Parked
on_baseline w line r run inbox tag s file =
    if present r.goal_revision
    then established_with w tag file
        (ask_board w.board line.folder_id run (snapshot w run (get_or r.goal_revision "") inbox s))
    else considered_only w s ParkEvent.no_consumed_revision file

abbrev pub on_anchor :
    World
    → LineSpec
    → TerminalRecord
    → String
    → Bool
    → Option String
    → StallState
    → StallFile
    → Result String (Option String)
    → Parked
on_anchor w line r run inbox tag s file (err failure) =
    considered_only w s (ParkEvent.probe_failed failure) file
on_anchor w line r run inbox tag s file (ok none) = considered_only w s ParkEvent.no_goal_fact file
on_anchor w line r run inbox tag s file (ok (some revision)) =
    on_baseline w line r run inbox tag s file

abbrev pub anchor_of : Option WakeSignals → String → Result String (Option String)
anchor_of none folder = err "RuntimeError"
anchor_of (some signals) folder = signals.goal_revision folder

abbrev pub establish_from :
    World
    → LineSpec
    → TerminalRecord
    → String
    → StallState
    → StallFile
    → Option (Result String Bool)
    → Parked
establish_from w line r run s file (some (ok true)) =
    considered_only w s ParkEvent.inbox_already_has_mail file
establish_from w line r run s file (some (ok false)) =
    on_anchor w line r run true none s file (anchor_of w.wake line.folder_id)
establish_from w line r run s file (some (err tag)) =
    on_anchor w line r run false (some tag) s file (anchor_of w.wake line.folder_id)
establish_from w line r run s file none =
    on_anchor w line r run false none s file (anchor_of w.wake line.folder_id)

unfoldable pub establish_park :
    World → LineSpec → TerminalRecord → String → StallState → StallFile → Parked
establish_park w line r run s file =
    establish_from w line r run (consider run s) file (inbox_probe w.wake line.alias r.at_epoch)
