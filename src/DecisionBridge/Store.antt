-- ===== src/DecisionBridge/Store.antt =====
-- The reads and writes of decision_bridge/store.py; `now` is the clock's text. The times that no
-- caller gives are left out.
use fleet_graph.Common.{
  Bool, Option, Result, String, [], err, false, if◌then◌else◌, ltb, none, not, some, true, ℕ, ◌&&◌,
  ◌==◌, ◌||◌, ◌∷◌,
}
use fleet_graph.Common.Dict.{Dict, contains, insert, lookup}
use fleet_graph.Common.Sqlite.{Io, StoreError, selected, transact}
use fleet_graph.DecisionBridge.{BridgeStore, Message, OwnerTarget, Receipt, Status, is_terminal}

abbrev pub cursor : Io → BridgeStore → Result StoreError ℕ
cursor io s = selected io s.board_seq

abbrev pub receipt : Io → String → BridgeStore → Result StoreError (Option Receipt)
receipt io source s = selected io (lookup source s.receipts)

-- MAX(cursor.board_seq, excluded.board_seq)
abbrev pub advanced : ℕ → ℕ → ℕ
advanced board_seq seq = if ltb board_seq seq then seq else board_seq

unfoldable pub advance_cursor : Io → ℕ → BridgeStore → BridgeStore × Result StoreError Unit
advance_cursor io seq s = transact io s (record s { board_seq = advanced s.board_seq seq }, tt)

abbrev same_key : Option String → Option String → Bool
same_key (some a) (some b) = a == b
same_key _ _ = false

-- The unique index on the action keys: a row of another source has the key.
unfoldable pub key_taken : String → Option String → Dict Receipt → Bool
key_taken source key [] = false
key_taken source key ((here, row) ∷ more) =
    (not (here == source) && same_key row.action_key key) || key_taken source key more

-- A statement that breaks a constraint is an error of SQLite.
abbrev pub checked : Bool → Io → Io
checked false io = io
checked true Io.works = Io.fails
checked true io = io

-- What a caller gives of a receipt.
pub record ReceiptInput : Type 0 where
  pub source_message_id : String
  pub action_key : Option String
  pub target : OwnerTarget
  pub reason : String
  pub source_event : Message

abbrev pub row_of : String → Status → Option String → ReceiptInput → Receipt
row_of now status intent_at input = record {
  action_key = input.action_key;
  target_kind = input.target.kind;
  target_id = input.target.id;
  generation = input.target.generation;
  question_note_id = input.target.question_note_id;
  card_entity_id = input.target.card_entity_id;
  status = status;
  reason = input.reason;
  source_event = input.source_event;
  intent_recorded_at = intent_at;
  created_at = now;
  updated_at = now;
}

-- A second row of one source is refused by the primary key.
unfoldable pub record_intent :
    Io → String → ReceiptInput → BridgeStore → BridgeStore × Result StoreError Unit
unfolding key_taken
record_intent io now input s =
    transact
      (checked
        (contains input.source_message_id s.receipts
          || key_taken input.source_message_id input.action_key s.receipts)
        io)
      s
      (
        record s {
          receipts =
              insert input.source_message_id (row_of now Status.intent_recorded (some now) input)
                s.receipts;
        },
        tt,
      )

-- ON CONFLICT DO UPDATE: the event and the times of the first row stay.
abbrev pub sealed_row : String → Status → ReceiptInput → Option Receipt → Receipt
sealed_row now status input none = row_of now status none input
sealed_row now status input (some old) = record (row_of now status old.intent_recorded_at input) {
  source_event = old.source_event;
  created_at = old.created_at;
}

unfoldable pub seal_terminal :
    Io → String → Status → ReceiptInput → ℕ → BridgeStore → BridgeStore × Result StoreError Unit
unfolding key_taken
seal_terminal io now status input advance_seq s =
    if is_terminal status
    then transact (checked (key_taken input.source_message_id input.action_key s.receipts) io) s (
      record {
        board_seq = advanced s.board_seq advance_seq;
        receipts =
            insert input.source_message_id
              (sealed_row now status input (lookup input.source_message_id s.receipts)) s.receipts;
      },
      tt,
    )
    else (s, err StoreError.unusable)
