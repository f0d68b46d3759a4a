-- ===== src/GoalInterrupt/Writes.antt =====
-- The writes of goal_interrupt/store.py; `now` is the clock's text.
use fleet_graph.Common.{
  Bool, Option, Result, String, false, if◌then◌else◌, ltb, none, not, some, true, ℕ,
}
use fleet_graph.Common.Dict.{Dict, insert, lookup}
use fleet_graph.Common.Json.{Json}
use fleet_graph.Common.Order.{pair_leb}
use fleet_graph.Common.Sqlite.{Io, StoreError, transact}
use fleet_graph.GoalInterrupt.{
  CompensationRow, CursorRow, DecisionInput, GoalInterruptStore, InterruptCheckpoint, InterruptRow,
  ResumeRow, TurnRow, UsageRow, insert_new,
}

abbrev with_interrupts : GoalInterruptStore → Dict InterruptRow → GoalInterruptStore
with_interrupts s table = record s { interrupts = table }

abbrev with_resumes : GoalInterruptStore → Dict ResumeRow → GoalInterruptStore
with_resumes s table = record s { resume_receipts = table }

abbrev with_compensations : GoalInterruptStore → Dict CompensationRow → GoalInterruptStore
with_compensations s table = record s { compensation_receipts = table }

abbrev with_usage : GoalInterruptStore → Dict UsageRow → GoalInterruptStore
with_usage s table = record s { turn_usage = table }

abbrev with_results : GoalInterruptStore → Dict TurnRow → GoalInterruptStore
with_results s table = record s { turn_results = table }

abbrev with_cursor : GoalInterruptStore → CursorRow → GoalInterruptStore
with_cursor s row = record s { cursor_row = some row }

abbrev pub interrupt_row : String → InterruptCheckpoint → InterruptRow
interrupt_row now c = record { checkpoint = c; created_at = now; updated_at = now }

unfoldable pub put_interrupt :
    Io
    → String
    → InterruptCheckpoint
    → GoalInterruptStore
    → GoalInterruptStore × Result StoreError Bool
put_interrupt io now c s =
    let (table, inserted) = insert_new c.resume_key (interrupt_row now c) s.interrupts in
    transact io s (with_interrupts s table, inserted)

abbrev pub resume_row : String → DecisionInput → ResumeRow
resume_row now d = record { envelope = d; created_at = now; updated_at = now }

unfoldable pub record_resume :
    Io → String → DecisionInput → GoalInterruptStore → GoalInterruptStore × Result StoreError Bool
record_resume io now d s =
    let (table, inserted) = insert_new d.resume_key (resume_row now d) s.resume_receipts in
    transact io s (with_resumes s table, inserted)

-- existing_pair >= (seq, message_id)
abbrev pub supersedes : String → ℕ → Option CompensationRow → Bool
supersedes message_id seq none = true
supersedes message_id seq (some existing) =
    not (pair_leb seq message_id existing.last_decision_seq existing.last_decision_message_id)

abbrev pub compensation_row : String → String → ℕ → CompensationRow
compensation_row now message_id seq = record {
  last_decision_message_id = message_id;
  last_decision_seq = seq;
  recorded_at = now;
}

abbrev pub compensated :
    String → String → String → ℕ → Dict CompensationRow → Dict CompensationRow × Bool
compensated now resume_key message_id seq table =
    if supersedes message_id seq (lookup resume_key table)
    then (insert resume_key (compensation_row now message_id seq) table, true)
    else (table, false)

unfoldable pub record_compensation :
    Io
    → String
    → String
    → String
    → ℕ
    → GoalInterruptStore
    → GoalInterruptStore × Result StoreError Bool
record_compensation io now resume_key message_id seq s =
    let (table, recorded) = compensated now resume_key message_id seq s.compensation_receipts in
    transact io s (with_compensations s table, recorded)

abbrev pub usage_row : String → UsageRow
usage_row now = record { model_invocations = 1; created_at = now; updated_at = now }

unfoldable pub claim_turn :
    Io → String → String → GoalInterruptStore → GoalInterruptStore × Result StoreError Bool
claim_turn io now turn_id s =
    let (table, inserted) = insert_new turn_id (usage_row now) s.turn_usage in
    transact io s (with_usage s table, inserted)

abbrev pub turn_row : String → Dict Json → Option TurnRow → TurnRow
turn_row now result none = record { result = result; created_at = now; updated_at = now }
turn_row now result (some existing) = record {
  result = result;
  created_at = existing.created_at;
  updated_at = now;
}

unfoldable pub record_turn_result :
    Io
    → String
    → String
    → Dict Json
    → GoalInterruptStore
    → GoalInterruptStore × Result StoreError Unit
record_turn_result io now turn_id result s = transact io s (
  with_results s
      (insert turn_id (turn_row now result (lookup turn_id s.turn_results)) s.turn_results),
  tt,
)

abbrev pub cursor_moved : String → ℕ → Option CursorRow → CursorRow
cursor_moved now seq none = record { board_seq = seq; updated_at = now }
cursor_moved now seq (some row) = record {
  board_seq = if ltb row.board_seq seq then seq else row.board_seq;
  updated_at = now;
}

unfoldable pub advance_cursor :
    Io → String → ℕ → GoalInterruptStore → GoalInterruptStore × Result StoreError Unit
advance_cursor io now seq s = transact io s (with_cursor s (cursor_moved now seq s.cursor_row), tt)
