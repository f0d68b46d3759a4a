-- ===== src/DecisionBridge/Effects.antt =====
-- What the writes of decision_bridge/store.py leave behind.
use fleet_graph.Common.{Bool-cases, String, err, inl, inr, ok, refl, some, true, ℕ, ◌≡◌, ◌⊎◌}
use fleet_graph.Common.Dict.{insert, lookup}
use fleet_graph.Common.Sqlite.{Io, StoreError, transact}
use fleet_graph.DecisionBridge.{BridgeStore, Status, is_terminal}
use fleet_graph.DecisionBridge.Store.{
  ReceiptInput, advance_cursor, advanced, record_intent, row_of, seal_terminal, sealed_row,
}

pub advance-receipts :
    (io : Io) (seq : ℕ) (s : BridgeStore) → (advance_cursor io seq s).0.receipts ≡ s.receipts
unfolding advance_cursor
advance-receipts Io.works seq s = refl
advance-receipts Io.fails seq s = refl
advance-receipts Io.not_open seq s = refl

transact-cases :
    {S A : Type 0} (io : Io) (s : S) (n : S) (a : A)
    → ((e : StoreError) × (transact io s (n, a) ≡ (s, err e))) ⊎ (transact io s (n, a) ≡ (n, ok a))
transact-cases Io.works s n a = inr refl
transact-cases Io.fails s n a = inl (StoreError.unusable, refl)
transact-cases Io.not_open s n a = inl (StoreError.store_not_open, refl)

with_fact : {A B C : Type 0} → C → A ⊎ B → A ⊎ (C × B)
with_fact c (inl a) = inl a
with_fact c (inr b) = inr (c, b)

-- The store is as it was, or has the intent of a source that had no receipt.
pub record_intent-cases :
    (io : Io) (now : String) (input : ReceiptInput) (s : BridgeStore)
    → ((e : StoreError) × (record_intent io now input s ≡ (s, err e)))
      ⊎ (record_intent io now input s ≡ (
        record s {
          receipts =
              insert input.source_message_id
                (row_of now Status.intent_recorded (some now) input)
                s.receipts;
        },
        ok tt,
      ))
unfolding record_intent
record_intent-cases io now input s = transact-cases _ s _ tt

pub seal_terminal-cases :
    (io : Io) (now : String) (status : Status) (input : ReceiptInput) (seq : ℕ) (s : BridgeStore)
    → ((e : StoreError) × (seal_terminal io now status input seq s ≡ (s, err e)))
      ⊎ (is_terminal status ≡ true)
        × (seal_terminal io now status input seq s ≡ (
          record {
            board_seq = advanced s.board_seq seq;
            receipts =
                insert input.source_message_id
                  (sealed_row now status input (lookup input.source_message_id s.receipts))
                  s.receipts;
          },
          ok tt,
        ))
unfolding seal_terminal
seal_terminal-cases io now status input seq s = elim (Bool-cases (is_terminal status)) [
  | inl e ↦ rw e (with_fact refl (transact-cases _ s _ tt))
  | inr e ↦ rw e (inl (StoreError.unusable, refl))
]
