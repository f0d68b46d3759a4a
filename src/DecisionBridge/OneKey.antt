-- ===== src/DecisionBridge/OneKey.antt =====
-- Whatever fails in between, all calls of an owner for one decision carry one action key:
-- decision_bridge/bridge.py, over any number of cycles.
use fleet_graph.Common.{
  Bool-cases, In, List, Option, String, [], err, get_or, inl, inr, is_some, none, ok, refl, some,
  true, ◌∷◌, ◌≡◌,
}
use fleet_graph.Common.Dict.{insert, lookup, lookup-insert_self}
use fleet_graph.Common.Sqlite.{Io}
use fleet_graph.DecisionBridge.{Message, OwnerTarget, Receipt, Status, is_terminal}
use fleet_graph.DecisionBridge.Bridge.{
  BridgeDeps, BridgeState, Processed, Resolution, action_key_for, after_intent, answer_input,
  fresh_decision, handled, intent_input, is_decision, noop_input, process_message, process_page,
  resume_and_seal, skip, status_of, target_of, unless_error,
}
use fleet_graph.DecisionBridge.Calls.{
  Sound, call-Sound, insert-Sound, none-fresh, same-Sound, seal-Sound,
}
use fleet_graph.DecisionBridge.Effects.{advance-receipts, record_intent-cases}
use fleet_graph.DecisionBridge.Store.{advance_cursor, receipt, record_intent, row_of}

-- An owner is called with the key of the decision's receipt.
resume-Sound :
    (deps : BridgeDeps) (target : OwnerTarget) (key : String) (message event : Message)
    (origin : String) (b : BridgeState) (r : Receipt)
    → lookup message.message_id b.store.receipts ≡ some r
    → r.action_key ≡ some key
    → Sound b
    → Sound (resume_and_seal deps target key message event origin b).0
unfolding resume_and_seal
resume-Sound deps target key message event origin b r found same sound =
    let called = call-Sound b message.message_id key r found same sound in
    seal-Sound (record b { calls = (message.message_id, key) ∷ b.calls }) deps.sealing deps.now
      (status_of (deps.resume target key))
      (answer_input target key message event (deps.resume target key) origin) message.channel_seq
      (λ k i. let (q, there, carries) = called.backed message.message_id k i in cc) called

intent-Sound :
    (deps : BridgeDeps) (target : OwnerTarget) (message : Message) (origin : String)
    (b : BridgeState)
    → lookup message.message_id b.store.receipts ≡ none
    → Sound b
    → Sound
        (after_intent deps target message origin b
          (record_intent deps.intending deps.now (intent_input target message origin) b.store)).0
intent-Sound deps target message origin b new sound =
    let input = intent_input target message origin in
    let row = row_of deps.now Status.intent_recorded (some deps.now) input in
    elim (record_intent-cases deps.intending deps.now input b.store) [
      | inl (e, q) ↦ rw q sound
      | inr q ↦ rw q (
          resume-Sound deps target (action_key_for message.message_id target) message message origin
            (record b {
              store = record b.store { receipts = insert message.message_id row b.store.receipts };
            })
            row (lookup-insert_self message.message_id row b.store.receipts) refl
            (insert-Sound b b.store.board_seq message.message_id row
              (none-fresh b message.message_id sound new row.action_key) (λ open_. refl) sound))
    ]

fresh-Sound :
    (deps : BridgeDeps) (message : Message) (b : BridgeState) (resolution : Resolution)
    → lookup message.message_id b.store.receipts ≡ none
    → Sound b
    → Sound (fresh_decision deps message b resolution).0
unfolding fresh_decision
fresh-Sound deps message b (Resolution.unresolved reason) new sound =
    seal-Sound b deps.sealing deps.now Status.noop (noop_input message reason) message.channel_seq
      (none-fresh b message.message_id sound new none) sound
fresh-Sound deps message b (Resolution.resolved target origin) new sound =
    intent-Sound deps target message origin b new sound

some-get_or : (o : Option String) → is_some o ≡ true → o ≡ some (get_or o "")
some-get_or none h = cc
some-get_or (some a) h = refl

handled-Sound :
    (deps : BridgeDeps) (message : Message) (b : BridgeState) (found : Option Receipt)
    → lookup message.message_id b.store.receipts ≡ found
    → Sound b
    → Sound (handled deps message b (ok found)).0
unfolding handled skip
handled-Sound deps message b none e sound =
    fresh-Sound deps message b (deps.resolve message) e sound
handled-Sound deps message b (some r) e sound = elim (Bool-cases (is_terminal r.status)) [
  | inl h ↦ rw h (
      same-Sound b (advance_cursor deps.advancing message.channel_seq b.store).0
        (advance-receipts deps.advancing message.channel_seq b.store) sound)
  | inr h ↦ rw h (
      resume-Sound deps (target_of r) (get_or r.action_key "") message r.source_event "" b r e
        (some-get_or r.action_key (sound.keyed message.message_id r e h)) sound)
]

read-Sound :
    (deps : BridgeDeps) (io : Io) (message : Message) (b : BridgeState)
    → Sound b
    → Sound (handled deps message b (receipt io message.message_id b.store)).0
unfolding handled
read-Sound deps Io.works message b sound =
    handled-Sound deps message b (lookup message.message_id b.store.receipts) refl sound
read-Sound deps Io.fails message b sound = sound
read-Sound deps Io.not_open message b sound = sound

process-Sound :
    (deps : BridgeDeps) (message : Message) (b : BridgeState)
    → Sound b
    → Sound (process_message deps message b).0
unfolding process_message skip
process-Sound deps message b sound = elim (Bool-cases (is_decision message)) [
  | inl h ↦ rw h (read-Sound deps deps.reading message b sound)
  | inr h ↦ rw h (
      same-Sound b (advance_cursor deps.advancing message.channel_seq b.store).0
        (advance-receipts deps.advancing message.channel_seq b.store) sound)
]

unless-Sound :
    (p : Processed) (next : BridgeState → BridgeState)
    → Sound p.0
    → ((b : BridgeState) → Sound b → Sound (next b))
    → Sound (unless_error p next)
unless-Sound (b, ok done) next sound go = go b sound
unless-Sound (b, err e) next sound go = sound

page-Sound :
    (page : List (BridgeDeps × Message)) (b : BridgeState) → Sound b → Sound (process_page page b)
unfolding process_page
page-Sound [] b sound = sound
page-Sound ((deps, message) ∷ more) b sound =
    unless-Sound (process_message deps message b) (λ later. process_page more later)
      (process-Sound deps message b sound) (λ later. page-Sound more later)

-- The pages of any number of cycles, restarts between them included.
abbrev pub cycles : List (List (BridgeDeps × Message)) → BridgeState → BridgeState
cycles [] b = b
cycles (page ∷ more) b = cycles more (process_page page b)

cycles-Sound :
    (pages : List (List (BridgeDeps × Message))) (b : BridgeState)
    → Sound b
    → Sound (cycles pages b)
cycles-Sound [] b sound = sound
cycles-Sound (page ∷ more) b sound =
    cycles-Sound more (process_page page b) (page-Sound page b sound)

abbrev pub untouched : BridgeState
untouched = record { store = record { board_seq = 0; receipts = [] }; calls = [] }

untouched-Sound : Sound untouched
unfolding lookup
untouched-Sound = record { backed = λ source key i. elim i [ ]; keyed = λ source r e h. cc }

-- Over any number of pages from an untouched store, whatever fails on the way and whatever the
-- resolver answers each time, all calls of an owner for one decision carry the same action key.
pub calls-one_key :
    (pages : List (List (BridgeDeps × Message))) (source key other : String)
    → In (source, key) (cycles pages untouched).calls
    → In (source, other) (cycles pages untouched).calls
    → key ≡ other
calls-one_key pages source key other i j =
    let sound = cycles-Sound pages untouched untouched-Sound in
    let (r, found, same) = sound.backed source key i in
    let (q, there, carries) = sound.backed source other j in cc
