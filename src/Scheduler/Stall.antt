-- ===== src/Scheduler/Stall.antt =====
-- What the scheduler keeps of a line between its ticks: the stall-state file of scheduler/daemon.py,
-- with the record of a line's last terminal. Times are whole seconds; a number that cannot be read is
-- none. A write that fails leaves the file as it was.
use fleet_graph.Common.{
  Bool, Option, String, false, get_or, if◌then◌else◌, ltb, max, none, not, some, true, ℕ, ◌&&◌, ◌+◌,
  ◌==◌, ◌||◌,
}
use fleet_graph.Common.Text.{codes}
use fleet_graph.GoalLine.{WaitingOn}
use fleet_graph.GoalLine.Verdict.{normalize_waiting_on}
use fleet_graph.Graphs.Guards.{Text}

pub data LineState : Type 0 where
  working waiting_dd waiting_decision waiting_external done failed : LineState

abbrev pub state_of_waiting : WaitingOn → LineState
state_of_waiting WaitingOn.on_dd = LineState.waiting_dd
state_of_waiting WaitingOn.on_decision = LineState.waiting_decision
state_of_waiting WaitingOn.on_external = LineState.waiting_external
state_of_waiting WaitingOn.on_nothing = LineState.working

abbrev pub texts : Option String → Option Text
texts none = none
texts (some s) = some (codes s)

unfoldable pub derive_line_state : Option String → Option String → LineState
derive_line_state none waiting_on = LineState.working
derive_line_state (some terminal) waiting_on =
    if terminal == "done"
    then LineState.done
    else if terminal == "failed"
    then LineState.failed
    else if terminal == "blocked"
    then state_of_waiting (normalize_waiting_on (texts waiting_on)).0
    else LineState.working

-- The mechanical fields of a terminal; `at` is none where the time cannot be parsed.
pub record TerminalRecord : Type 0 where
  pub terminal : Option String
  pub rounds : ℕ
  pub run_id : Option String
  pub waiting_on : Option String
  pub at_epoch : Option ℕ
  pub pump_fault : Bool
  pub goal_revision : Option String
  pub dd_development_id : Option String

pub record StallState : Type 0 where
  pub streak : ℕ
  pub accounted_run_id : Option String
  pub last_start_at : Option ℕ
  pub generation : Option ℕ
  pub board_card_entity_id : Option String
  pub board_question_note_id : Option String
  pub park_considered_run_id : Option String
  pub parked_run_id : Option String
  pub parked_at : Option ℕ
  pub parked_goal_revision : Option String
  pub parked_inbox_available : Option Bool
  pub dispatched_decision_consumed_at : Option ℕ
  pub parked_dd_development_id : Option String
  pub line_state : Option LineState

pub data StallFile : Type 0 where
  absent : StallFile
  unreadable : StallFile
  stored : StallState → StallFile

abbrev pub empty_state : StallState
empty_state = record {
  streak = 0;
  accounted_run_id = none;
  last_start_at = none;
  generation = none;
  board_card_entity_id = none;
  board_question_note_id = none;
  park_considered_run_id = none;
  parked_run_id = none;
  parked_at = none;
  parked_goal_revision = none;
  parked_inbox_available = none;
  dispatched_decision_consumed_at = none;
  parked_dd_development_id = none;
  line_state = none;
}

abbrev pub stall_state : StallFile → StallState
stall_state StallFile.absent = empty_state
stall_state StallFile.unreadable = empty_state
stall_state (StallFile.stored s) = s

-- Python's truth of a text that may be missing.
abbrev pub present : Option String → Bool
present none = false
present (some s) = not (s == "")

-- A board field that the new state does not carry is kept.
abbrev pub kept_field : Option String → Option String → Option String
kept_field new old = if not (present new) && present old then old else new

abbrev pub with_board_of : StallFile → StallState → StallState
with_board_of (StallFile.stored old) s = record s {
  board_card_entity_id = kept_field s.board_card_entity_id old.board_card_entity_id;
  board_question_note_id = kept_field s.board_question_note_id old.board_question_note_id;
}
with_board_of StallFile.absent s = s
with_board_of StallFile.unreadable s = s

unfoldable pub write_stall_state : Bool → StallState → StallFile → StallFile
write_stall_state false s file = file
write_stall_state true s file = StallFile.stored (with_board_of file s)

-- The generation that the next launch runs as; `roster` is the one of the line's own entry.
abbrev pub generation_of : ℕ → StallFile → ℕ
generation_of roster file = max (get_or (stall_state file).generation roster) roster

abbrev pub is_word : String → Option String → Bool
is_word word none = false
is_word word (some t) = t == word

abbrev pub next_generation : ℕ → Option String → Bool → ℕ
next_generation current terminal revoked =
    if revoked then current + 1 else if is_word "done" terminal then current else current + 1

-- The parking fields of a state whose terminal is new.
abbrev pub unparked : Option String → StallState → StallState
unparked considered s = record s {
  park_considered_run_id = considered;
  parked_run_id = none;
  parked_at = none;
  parked_goal_revision = none;
  parked_inbox_available = none;
  dispatched_decision_consumed_at = none;
  parked_dd_development_id = none;
}

abbrev pub state_word : TerminalRecord → Option LineState
state_word r = some (derive_line_state r.terminal r.waiting_on)

-- A terminal that was there before the file is adopted and not counted.
abbrev pub adopted : ℕ → TerminalRecord → String → StallState
adopted base r run = unparked (some run) (record empty_state {
  accounted_run_id = some run;
  generation = some (next_generation base r.terminal false);
  line_state = state_word r;
})

abbrev pub waits_on_dd : TerminalRecord → Bool
waits_on_dd r =
    is_word "blocked" r.terminal && is_word "dd" r.waiting_on && present r.dd_development_id

abbrev pub streak_after : TerminalRecord → ℕ → ℕ
streak_after r streak =
    if ltb 0 r.rounds || is_word "done" r.terminal || waits_on_dd r then 0 else streak + 1

abbrev pub current_generation : StallState → ℕ → ℕ
current_generation s base = max (get_or s.generation base) base

abbrev pub accounted : ℕ → TerminalRecord → String → StallState → StallState
accounted base r run s = unparked none (record s {
  streak = streak_after r s.streak;
  accounted_run_id = some run;
  generation = some (next_generation (current_generation s base) r.terminal false);
  line_state = state_word r;
})

abbrev pub same_run : String → Option String → Bool
same_run run none = false
same_run run (some other) = run == other

unfoldable pub account_run : Bool → ℕ → TerminalRecord → Option String → StallFile → StallFile × ℕ
account_run writes base r none file = (file, (stall_state file).streak)
account_run writes base r (some run) StallFile.absent =
    (write_stall_state writes (adopted base r run) StallFile.absent, 0)
account_run writes base r (some run) file =
    let s = stall_state file in
    if same_run run s.accounted_run_id
    then (file, s.streak)
    else (write_stall_state writes (accounted base r run s) file, streak_after r s.streak)

-- Folds the newest terminal into the streak, once for each run.
unfoldable pub account_last_run : Bool → ℕ → Option TerminalRecord → StallFile → StallFile × ℕ
account_last_run writes base none file = (file, (stall_state file).streak)
account_last_run writes base (some r) file = account_run writes base r r.run_id file

unfoldable pub record_start : Bool → ℕ → StallFile → StallFile
record_start writes when file =
    write_stall_state writes (record (stall_state file) { last_start_at = some when }) file
