-- ===== src/DecisionBridge.antt =====
-- The bridge from published decisions to waiting owners: decision_bridge/store.py, with the values of
-- decision_bridge/owners.py. Where the cursor has no row it reads 0; the stored event is the message.
pub mod Store
pub mod Bridge
pub mod Resolver
pub mod Effects
pub mod Calls
pub mod OneKey
pub mod Sealing
pub mod Covered
pub mod Referenced
pub mod Sole
pub mod Resolving
use fleet_graph.Common.{Bool, Option, String, false, true, ℕ}
use fleet_graph.Common.Dict.{Dict}
use fleet_graph.Common.Json.{Json}

pub record Message : Type 0 where
  pub kind : String
  pub message_id : String
  pub channel_seq : ℕ
  pub payload : Json

pub record OwnerTarget : Type 0 where
  pub kind : String
  pub id : String
  pub generation : ℕ
  pub question_note_id : String
  pub card_entity_id : String
  pub state : String

-- The closed statuses of a receipt.
pub data Status : Type 0 where
  intent_recorded resumed noop refused : Status

abbrev pub is_terminal : Status → Bool
is_terminal Status.intent_recorded = false
is_terminal _ = true

pub record Receipt : Type 0 where
  pub action_key : Option String
  pub target_kind : String
  pub target_id : String
  pub generation : ℕ
  pub question_note_id : String
  pub card_entity_id : String
  pub status : Status
  pub reason : String
  pub source_event : Message
  pub intent_recorded_at : Option String
  pub created_at : String
  pub updated_at : String

pub record BridgeStore : Type 0 where
  pub board_seq : ℕ
  pub receipts : Dict Receipt
