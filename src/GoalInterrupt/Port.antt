-- ===== src/GoalInterrupt/Port.antt =====
-- The line's side of a suspended question: goal_interrupt/runtime.py, `LineInterruptPort`, with
-- `resume_key_for` of goal_interrupt/contract.py. The board is what its two publishing calls answer.
-- The mirror of the question in the scheduler's file is left out.
use fleet_graph.Common.{Bool, Option, Result, String, err, if◌then◌else◌, none, ok, some, ℕ, ◌==◌}
use fleet_graph.Common.Decimal.{decimal, with_colon}
use fleet_graph.Common.Sqlite.{Io, StoreError}
use fleet_graph.GoalInterrupt.{
  DecisionInput, GoalInterruptStore, InterruptCheckpoint, InterruptRow, ResumeRow,
}
use fleet_graph.GoalInterrupt.Reads.{checkpoint_for_round, resume_receipt}
use fleet_graph.GoalInterrupt.Writes.{put_interrupt}

unfoldable pub resume_key_for : String → ℕ → String → String
resume_key_for folder_id generation question_note_id =
    with_colon "e2" (with_colon folder_id (with_colon (decimal generation) question_note_id))

pub record Board : Type 0 where
  -- the entity of the line's card, and the note of a question under its key
  pub card : String → String
  pub question : String → ℕ → String → String

pub record LineInterruptPort : Type 0 where
  pub folder_id : String
  pub generation : ℕ
  pub card_entity_id : String
  -- the question's key where the run is known, from the round
  pub parked_key : Option (ℕ → String)

unfoldable pub question_key : LineInterruptPort → ℕ → String
question_key port round_no = elim port.parked_key [
  | some key ↦ key round_no
  | none ↦
      with_colon "e2-question"
        (with_colon port.folder_id (with_colon (decimal port.generation) (decimal round_no)))
]

abbrev pub or_given : String → String → String
or_given given other = if other == "" then given else other

-- Without a board the key itself names the question.
unfoldable pub ask_anew : Option Board → LineInterruptPort → ℕ → String × String
ask_anew none port round_no = (
  with_colon
      (with_colon "e2-question"
        (with_colon port.folder_id (with_colon (decimal port.generation) (decimal round_no))))
      "q",
  port.card_entity_id,
)
ask_anew (some board) port round_no =
    let card =
      if port.card_entity_id == "" then board.card port.folder_id else port.card_entity_id in
    (board.question card round_no (question_key port round_no), card)

abbrev pub asked_again :
    Option Board → LineInterruptPort → ℕ → Option InterruptRow → String × String
asked_again board port round_no none = ask_anew board port round_no
asked_again board port round_no (some row) =
    if row.checkpoint.question_note_id == "" then ask_anew board port round_no else (
      row.checkpoint.question_note_id,
      or_given port.card_entity_id row.checkpoint.card_entity_id,
    )

abbrev pub mapped : {A B : Type 0} → (A → B) → Result StoreError A → Result StoreError B
mapped f (ok a) = ok (f a)
mapped f (err e) = err e

unfoldable pub ask :
    Io
    → Option Board
    → LineInterruptPort
    → ℕ
    → GoalInterruptStore
    → Result StoreError (String × String)
unfolding checkpoint_for_round ask_anew
ask io board port round_no s =
    mapped (asked_again board port round_no)
      (checkpoint_for_round io port.folder_id port.generation round_no s)

-- What `decision_interrupt` persists for the answer to `ask`.
unfoldable pub checkpoint_of_question :
    LineInterruptPort → ℕ → String → String × String → InterruptCheckpoint
unfolding resume_key_for
checkpoint_of_question port round_no digest (question_note_id, card_entity_id) = record {
  folder_id = port.folder_id;
  generation = port.generation;
  round_id = round_no;
  question_note_id = question_note_id;
  card_entity_id = card_entity_id;
  prior_terminal_digest = digest;
  resume_key = resume_key_for port.folder_id port.generation question_note_id;
}

abbrev pub persist :
    Io
    → String
    → InterruptCheckpoint
    → GoalInterruptStore
    → GoalInterruptStore × Result StoreError Bool
persist io now checkpoint s = put_interrupt io now checkpoint s

abbrev envelope_of : Option ResumeRow → Option DecisionInput
envelope_of none = none
envelope_of (some row) = some row.envelope

unfoldable pub load_resume :
    Io → String → GoalInterruptStore → Result StoreError (Option DecisionInput)
unfolding resume_receipt
load_resume io resume_key s = mapped envelope_of (resume_receipt io resume_key s)
