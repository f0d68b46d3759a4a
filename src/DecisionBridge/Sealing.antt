-- ===== src/DecisionBridge/Sealing.antt =====
-- What one message of decision_bridge/bridge.py does to the cursor and to the sealed receipts.
use fleet_graph.Common.{
  Bool-cases, List, Option, String, ap, arith, eq_iff, err, false, get_or, inl, inr, max, none, ok,
  refl, some, subst, sym, true, ℕ, ◌==◌, ◌∙◌, ◌∷◌, ◌≡◌, ◌≤◌,
}
use fleet_graph.Common.Dict.{insert, lookup, lookup-insert, lookup-insert_self}
use fleet_graph.Common.Sqlite.{Io}
use fleet_graph.DecisionBridge.{BridgeStore, Message, OwnerTarget, Receipt, Status, is_terminal}
use fleet_graph.DecisionBridge.Bridge.{
  BridgeDeps, BridgeState, Processed, Resolution, action_key_for, after_intent, answer_input,
  fresh_decision, handled, intent_input, is_decision, noop_input, process_message, resume_and_seal,
  skip, status_of, target_of, with_store,
}
use fleet_graph.DecisionBridge.Calls.{sealed-key}
use fleet_graph.DecisionBridge.Effects.{advance-receipts, record_intent-cases, seal_terminal-cases}
use fleet_graph.DecisionBridge.Store.{
  ReceiptInput, advance_cursor, advanced, receipt, record_intent, row_of, seal_terminal, sealed_row,
}

-- The decision has reached a terminal receipt.
abbrev pub Sealed : String → BridgeState → Type 0
Sealed source b =
    (r : Receipt) × (lookup source b.store.receipts ≡ some r) × (is_terminal r.status ≡ true)

-- A sealed receipt stays sealed.
abbrev pub Keeps : BridgeState → BridgeState → Type 0
Keeps b later = (source : String) → Sealed source b → Sealed source later

-- A message that came through is sealed if it is a decision, and the cursor is not beyond it; after an
-- error the cursor is where it was.
abbrev pub Progress : Message → BridgeState → Processed → Type 0
Progress message b (later, ok done) =
    (later.store.board_seq ≤ max b.store.board_seq message.channel_seq)
    × (is_decision message ≡ true → Sealed message.message_id later)
    × Keeps b later
Progress message b (later, err e) = (later.store.board_seq ≡ b.store.board_seq) × Keeps b later

insert-Keeps :
    (b : BridgeState) (n : ℕ) (calls : List (String × String)) (source : String) (row : Receipt)
    → (Sealed source b → is_terminal row.status ≡ true)
    → Keeps b (record {
      store = record { board_seq = n; receipts = insert source row b.store.receipts };
      calls = calls;
    })
insert-Keeps b n calls source row open_ asked (r, found, term) =
    elim (Bool-cases (source == asked)) [
      | inl e ↦
          let p = (eq_iff source asked).0 e in
          (
            row,
            lookup-insert source asked row b.store.receipts ∙ rw e refl,
            open_ (subst (λ x. Sealed x b) (sym p) (r, found, term)),
          )
      | inr e ↦ (r, lookup-insert source asked row b.store.receipts ∙ rw e found, term)
    ]

advanced-bound : (n seq : ℕ) → advanced n seq ≤ max n seq
advanced-bound n seq = ground arith

-- Sealing, whatever was called before.
seal-Progress :
    (b : BridgeState) (calls : List (String × String)) (io : Io) (now : String) (status : Status)
    (input : ReceiptInput) (message : Message)
    → input.source_message_id ≡ message.message_id
    → Progress message b (
        with_store
          (record b { calls = calls })
          (seal_terminal io now status input message.channel_seq b.store))
seal-Progress b calls io now status input message own =
    elim (seal_terminal-cases io now status input message.channel_seq b.store) [
      | inl (e, q) ↦ rw q (refl, λ source s. s)
      | inr (term, q) ↦ rw q (
          let old = lookup input.source_message_id b.store.receipts in
          let row = sealed_row now status input old in
          let row_term = ap is_terminal (sealed-key now status input old).1 ∙ term in
          (
            advanced-bound b.store.board_seq message.channel_seq,
            λ h. (
              row,
              rw (sym own) (lookup-insert_self input.source_message_id row b.store.receipts),
              row_term,
            ),
            insert-Keeps b (advanced b.store.board_seq message.channel_seq) calls
                input.source_message_id row (λ s. row_term),
          ))
    ]

advance-seq :
    (io : Io) (seq : ℕ) (s : BridgeStore)
    → (advance_cursor io seq s).0.board_seq ≤ max s.board_seq seq
unfolding advance_cursor
advance-seq Io.works seq s = advanced-bound s.board_seq seq
advance-seq Io.fails seq s = omega arith
advance-seq Io.not_open seq s = omega arith

same-Sealed :
    (source : String) (b : BridgeState) (s : BridgeStore)
    → s.receipts ≡ b.store.receipts
    → Sealed source b
    → Sealed source (record b { store = s })
same-Sealed source b s e (r, found, term) = (r, ap (lookup source) e ∙ found, term)

skip-Progress :
    (deps : BridgeDeps) (message : Message) (b : BridgeState)
    → (is_decision message ≡ true → Sealed message.message_id b)
    → Progress message b (skip deps message.channel_seq b)
unfolding skip
skip-Progress deps message b sealed =
    let later = (advance_cursor deps.advancing message.channel_seq b.store).0 in
    let same = advance-receipts deps.advancing message.channel_seq b.store in
    (
      advance-seq deps.advancing message.channel_seq b.store,
      λ h. same-Sealed message.message_id b later same (sealed h),
      λ source s. same-Sealed source b later same s,
    )

-- Progress from a state whose cursor and sealed receipts are the same or more.
Progress-from :
    (message : Message) (b middle : BridgeState) (p : Processed)
    → middle.store.board_seq ≡ b.store.board_seq
    → Keeps b middle
    → Progress message middle p
    → Progress message b p
Progress-from message b middle (later, ok done) e kept (bound, sealed, keeps) =
    (rw (sym e) bound, sealed, λ source s. keeps source (kept source s))
Progress-from message b middle (later, err f) e kept (same, keeps) =
    (same ∙ e, λ source s. keeps source (kept source s))

resume-Progress :
    (deps : BridgeDeps) (target : OwnerTarget) (key : String) (message event : Message)
    (origin : String) (b : BridgeState)
    → Progress message b (resume_and_seal deps target key message event origin b)
unfolding resume_and_seal
resume-Progress deps target key message event origin b =
    seal-Progress b ((message.message_id, key) ∷ b.calls) deps.sealing deps.now
      (status_of (deps.resume target key))
      (answer_input target key message event (deps.resume target key) origin) message refl

intent-Progress :
    (deps : BridgeDeps) (target : OwnerTarget) (message : Message) (origin : String)
    (b : BridgeState)
    → lookup message.message_id b.store.receipts ≡ none
    → Progress message b (
        after_intent deps target message origin b
          (record_intent deps.intending deps.now (intent_input target message origin) b.store))
intent-Progress deps target message origin b new =
    let input = intent_input target message origin in
    let row = row_of deps.now Status.intent_recorded (some deps.now) input in
    elim (record_intent-cases deps.intending deps.now input b.store) [
      | inl (e, q) ↦ rw q (refl, λ source s. s)
      | inr q ↦ rw q (
          let middle = record b {
            store = record b.store { receipts = insert message.message_id row b.store.receipts };
          } in
          Progress-from message b middle
            (resume_and_seal deps target (action_key_for message.message_id target) message message
              origin middle)
            refl
            (insert-Keeps b b.store.board_seq b.calls message.message_id row
              (λ s. let bad : none ≡ some s.0 = sym new ∙ s.1 in cc))
            (resume-Progress deps target (action_key_for message.message_id target) message message
              origin middle))
    ]

fresh-Progress :
    (deps : BridgeDeps) (message : Message) (b : BridgeState) (resolution : Resolution)
    → lookup message.message_id b.store.receipts ≡ none
    → Progress message b (fresh_decision deps message b resolution)
unfolding fresh_decision
fresh-Progress deps message b (Resolution.unresolved reason) new =
    seal-Progress b b.calls deps.sealing deps.now Status.noop (noop_input message reason) message
      refl
fresh-Progress deps message b (Resolution.resolved target origin) new =
    intent-Progress deps target message origin b new

handled-Progress :
    (deps : BridgeDeps) (message : Message) (b : BridgeState) (found : Option Receipt)
    → lookup message.message_id b.store.receipts ≡ found
    → Progress message b (handled deps message b (ok found))
unfolding handled
handled-Progress deps message b none e = fresh-Progress deps message b (deps.resolve message) e
handled-Progress deps message b (some r) e = elim (Bool-cases (is_terminal r.status)) [
  | inl h ↦ rw h (skip-Progress deps message b (λ d. (r, e, h)))
  | inr h ↦
      rw h (resume-Progress deps (target_of r) (get_or r.action_key "") message r.source_event "" b)
]

read-Progress :
    (deps : BridgeDeps) (io : Io) (message : Message) (b : BridgeState)
    → Progress message b (handled deps message b (receipt io message.message_id b.store))
unfolding handled
read-Progress deps Io.works message b =
    handled-Progress deps message b (lookup message.message_id b.store.receipts) refl
read-Progress deps Io.fails message b = (refl, λ source s. s)
read-Progress deps Io.not_open message b = (refl, λ source s. s)

pub process-Progress :
    (deps : BridgeDeps) (message : Message) (b : BridgeState)
    → Progress message b (process_message deps message b)
unfolding process_message
process-Progress deps message b = elim (Bool-cases (is_decision message)) [
  | inl h ↦ rw h (read-Progress deps deps.reading message b)
  | inr h ↦ rw h (skip-Progress deps message b (λ d. let bad : true ≡ false = sym d ∙ h in cc))
]
