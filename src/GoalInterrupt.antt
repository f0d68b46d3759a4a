-- ===== src/GoalInterrupt.antt =====
-- The durable store of a line's suspended questions: goal_interrupt/store.py, with the values of
-- goal_interrupt/contract.py. A table is a dict under its primary key; a statement takes place as a
-- whole or not at all, and what SQLite made of it is the `Io` of the call. Texts kept as JSON are the
-- values they are read back as.
pub mod Writes
pub mod Reads
pub mod History
pub mod Effects
pub mod Forward
pub mod Newest
pub mod Refinement
pub mod Once
pub mod Port
pub mod Turns
pub mod Adopting
pub mod Reasking
use fleet_graph.Common.{Bool, List, Option, String, [], false, if◌then◌else◌, none, true, ℕ}
use fleet_graph.Common.Dict.{Dict, contains, insert}
use fleet_graph.Common.Json.{Json}

pub record InterruptCheckpoint : Type 0 where
  pub folder_id : String
  pub generation : ℕ
  pub round_id : ℕ
  pub question_note_id : String
  pub card_entity_id : String
  pub prior_terminal_digest : String
  pub resume_key : String

pub record DecisionRef : Type 0 where
  pub message_id : String
  pub target_entity : String

pub record DecisionInput : Type 0 where
  pub message_id : String
  pub channel_seq : ℕ
  pub decision : String
  pub rationale : String
  pub decided_by : String
  pub question_note_id : String
  pub card_entity_id : String
  pub refs : List DecisionRef
  pub decided_at : String
  pub resume_key : String

pub record InterruptRow : Type 0 where
  pub checkpoint : InterruptCheckpoint
  pub created_at : String
  pub updated_at : String

pub record ResumeRow : Type 0 where
  pub envelope : DecisionInput
  pub created_at : String
  pub updated_at : String

pub record CompensationRow : Type 0 where
  pub last_decision_message_id : String
  pub last_decision_seq : ℕ
  pub recorded_at : String

pub record UsageRow : Type 0 where
  pub model_invocations : ℕ
  pub created_at : String
  pub updated_at : String

pub record TurnRow : Type 0 where
  pub result : Dict Json
  pub created_at : String
  pub updated_at : String

pub record CursorRow : Type 0 where
  pub board_seq : ℕ
  pub updated_at : String

pub record GoalInterruptStore : Type 0 where
  pub interrupts : Dict InterruptRow
  pub resume_receipts : Dict ResumeRow
  pub compensation_receipts : Dict CompensationRow
  pub turn_usage : Dict UsageRow
  pub turn_results : Dict TurnRow
  pub cursor_row : Option CursorRow

abbrev pub empty_store : GoalInterruptStore
empty_store = record {
  interrupts = [];
  resume_receipts = [];
  compensation_receipts = [];
  turn_usage = [];
  turn_results = [];
  cursor_row = none;
}

-- INSERT ... ON CONFLICT DO NOTHING, with whether a row was inserted.
abbrev pub insert_new : {V : Type 0} → String → V → Dict V → Dict V × Bool
insert_new key row table =
    if contains key table then (table, false) else (insert key row table, true)
