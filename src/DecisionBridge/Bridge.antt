-- ===== src/DecisionBridge/Bridge.antt =====
-- One cycle of the bridge: decision_bridge/bridge.py, `run_once` and what it calls. The resolver of a
-- message and the owner's answer are fields of `BridgeDeps`; of the owner's calls the keys are kept.
use fleet_graph.Common.{
  Bool, List, Option, Result, String, [], eqb, err, get_or, if◌then◌else◌, none, not, ok, some, ℕ,
  ◌&&◌, ◌==◌, ◌∷◌,
}
use fleet_graph.Common.Decimal.{decimal, joined_by, with_colon}
use fleet_graph.Common.Sqlite.{Io, StoreError}
use fleet_graph.DecisionBridge.{BridgeStore, Message, OwnerTarget, Receipt, Status, is_terminal}
use fleet_graph.DecisionBridge.Store.{
  ReceiptInput, advance_cursor, receipt, record_intent, seal_terminal,
}

-- Resolved to an owner, with the durable origin, or a terminal no-op with its reason.
pub data Resolution : Type 0 where
  resolved : OwnerTarget → String → Resolution
  unresolved : String → Resolution

-- An exception of the owner is a refusal. Details are kept whole.
pub data OwnerResult : Type 0 where
  owner_resumed : OwnerResult
  owner_already : String → OwnerResult
  owner_refused : String → OwnerResult

-- One moment's database, clock, resolver and owner; every access has its own `Io`.
pub record BridgeDeps : Type 0 where
  pub now : String
  pub reading : Io
  pub intending : Io
  pub sealing : Io
  pub advancing : Io
  pub resolve : Message → Resolution
  pub resume : OwnerTarget → String → OwnerResult

-- The store, and the calls of owners so far, newest first: the source event and the action key.
pub record BridgeState : Type 0 where
  pub store : BridgeStore
  pub calls : List (String × String)

unfoldable pub action_key_for : String → OwnerTarget → String
action_key_for source target =
    with_colon "e1" (
      with_colon source (with_colon target.kind (with_colon target.id (decimal target.generation))))

abbrev pub status_of : OwnerResult → Status
status_of OwnerResult.owner_resumed = Status.resumed
status_of (OwnerResult.owner_already detail) = Status.resumed
status_of (OwnerResult.owner_refused detail) = Status.refused

abbrev pub reason_of : OwnerResult → String → String
reason_of OwnerResult.owner_resumed origin = origin
reason_of (OwnerResult.owner_already detail) origin = joined_by ": " "already_resumed" detail
reason_of (OwnerResult.owner_refused detail) origin = joined_by ": " "refused" detail

abbrev pub Processed : Type 0
Processed = BridgeState × Result StoreError Unit

abbrev pub with_store : BridgeState → BridgeStore × Result StoreError Unit → Processed
with_store b (s, answer) = (record b { store = s }, answer)

-- _advance: an error is passed over.
unfoldable pub skip : BridgeDeps → ℕ → BridgeState → Processed
unfolding advance_cursor
skip deps seq b = (record b { store = (advance_cursor deps.advancing seq b.store).0 }, ok tt)

abbrev pub no_target : OwnerTarget
no_target = record {
  kind = "";
  id = "";
  generation = 1;
  question_note_id = "";
  card_entity_id = "";
  state = "";
}

abbrev pub noop_input : Message → String → ReceiptInput
noop_input message reason = record {
  source_message_id = message.message_id;
  action_key = none;
  target = no_target;
  reason = reason;
  source_event = message;
}

abbrev pub intent_input : OwnerTarget → Message → String → ReceiptInput
intent_input target message origin = record {
  source_message_id = message.message_id;
  action_key = some (action_key_for message.message_id target);
  target = target;
  reason = origin;
  source_event = message;
}

abbrev pub answer_input :
    OwnerTarget → String → Message → Message → OwnerResult → String → ReceiptInput
answer_input target key message event answer origin = record {
  source_message_id = message.message_id;
  action_key = some key;
  target = target;
  reason = reason_of answer origin;
  source_event = event;
}

unfoldable pub resume_and_seal :
    BridgeDeps → OwnerTarget → String → Message → Message → String → BridgeState → Processed
unfolding seal_terminal
resume_and_seal deps target key message event origin b =
    let answer = deps.resume target key in
    with_store (record b { calls = (message.message_id, key) ∷ b.calls })
      (seal_terminal deps.sealing deps.now (status_of answer)
        (answer_input target key message event answer origin) message.channel_seq b.store)

abbrev pub after_intent :
    BridgeDeps
    → OwnerTarget
    → Message
    → String
    → BridgeState
    → BridgeStore × Result StoreError Unit
    → Processed
after_intent deps target message origin b (s, err e) = (record b { store = s }, err e)
after_intent deps target message origin b (s, ok done) =
    resume_and_seal deps target (action_key_for message.message_id target) message message origin
      (record b { store = s })

unfoldable pub fresh_decision : BridgeDeps → Message → BridgeState → Resolution → Processed
unfolding record_intent resume_and_seal seal_terminal action_key_for
fresh_decision deps message b (Resolution.unresolved reason) = with_store b (
    seal_terminal deps.sealing deps.now Status.noop (noop_input message reason) message.channel_seq
      b.store)
fresh_decision deps message b (Resolution.resolved target origin) =
    after_intent deps target message origin b
      (record_intent deps.intending deps.now (intent_input target message origin) b.store)

abbrev pub target_of : Receipt → OwnerTarget
target_of r = record {
  kind = r.target_kind;
  id = r.target_id;
  generation = if eqb r.generation 0 then 1 else r.generation;
  question_note_id = r.question_note_id;
  card_entity_id = r.card_entity_id;
  state = "";
}

unfoldable pub handled :
    BridgeDeps → Message → BridgeState → Result StoreError (Option Receipt) → Processed
unfolding skip fresh_decision resume_and_seal
handled deps message b (err e) = (b, err e)
handled deps message b (ok none) = fresh_decision deps message b (deps.resolve message)
handled deps message b (ok (some r)) =
    if is_terminal r.status
    then skip deps message.channel_seq b
    else resume_and_seal deps (target_of r) (get_or r.action_key "") message r.source_event "" b

abbrev pub is_decision : Message → Bool
is_decision message = (message.kind == "work.decision.v1") && not (message.message_id == "")

unfoldable pub process_message : BridgeDeps → Message → BridgeState → Processed
unfolding handled skip
process_message deps message b =
    if is_decision message
    then handled deps message b (receipt deps.reading message.message_id b.store)
    else skip deps message.channel_seq b

abbrev pub unless_error : Processed → (BridgeState → BridgeState) → BridgeState
unless_error (b, ok done) next = next b
unless_error (b, err e) next = b

-- The loop over a page stops at the first error of the store; every message has its own moment.
unfoldable pub process_page : List (BridgeDeps × Message) → BridgeState → BridgeState
unfolding process_message
process_page [] b = b
process_page ((deps, message) ∷ more) b =
    unless_error (process_message deps message b) (λ later. process_page more later)
