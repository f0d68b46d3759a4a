-- ===== src/Samples/Decisions.antt =====
-- The theorems on the bridge from decisions to owners at a concrete history of two pages.
use fleet_graph.Common.{
  In, List, String, [], arith, if◌then◌else◌, inl, none, refl, some, true, ◌==◌, ◌∷◌, ◌≡◌,
}
use fleet_graph.Common.Dict.{insert, lookup}
use fleet_graph.Common.Json.{Json, get_field, one_field}
use fleet_graph.Common.Sqlite.{Io}
use fleet_graph.Common.Text.{codes}
use fleet_graph.DecisionBridge.{Message, OwnerTarget}
use fleet_graph.DecisionBridge.Bridge.{
  BridgeDeps, OwnerResult, Resolution, action_key_for, fresh_decision, handled, process_message,
  process_page, resume_and_seal, skip,
}
use fleet_graph.DecisionBridge.Covered.{Covered, Page, page-Covered}
use fleet_graph.DecisionBridge.OneKey.{calls-one_key, cycles, untouched}
use fleet_graph.DecisionBridge.Resolver.{ResolverDeps, is_valid}
use fleet_graph.DecisionBridge.Resolving.{Resolves, Sole, resolve_decision-Sole}
use fleet_graph.DecisionBridge.Store.{advance_cursor, key_taken, record_intent, seal_terminal}

abbrev event : Message
event = record {
  kind = "work.decision.v1";
  message_id = "m1";
  channel_seq = 4;
  payload = Json.null;
}

abbrev owner : OwnerTarget
owner = record {
  kind = "line";
  id = "f1";
  generation = 3;
  question_note_id = "q1";
  card_entity_id = "";
  state = "parked";
}

-- A moment whose write of the terminal receipt does what is given.
abbrev moment : Io → BridgeDeps
moment sealing = record {
  now = "t1";
  reading = Io.works;
  intending = Io.works;
  sealing = sealing;
  advancing = Io.works;
  resolve = λ message. Resolution.resolved owner "";
  resume = λ target key. OwnerResult.owner_resumed;
}

-- The terminal receipt of the first page is lost; the second page reads the decision again.
abbrev first_page : Page
first_page = (moment Io.fails, event) ∷ []

abbrev both_pages : List Page
both_pages = first_page ∷ ((moment Io.works, event) ∷ []) ∷ []

abbrev owner_key : String
owner_key = action_key_for "m1" owner

two_calls : (cycles both_pages untouched).calls ≡ ("m1", owner_key) ∷ ("m1", owner_key) ∷ []
unfolding process_page process_message handled fresh_decision resume_and_seal record_intent
    seal_terminal key_taken action_key_for skip advance_cursor lookup insert
two_calls = refl

called : (k : String) → k ≡ owner_key → In ("m1", k) (cycles both_pages untouched).calls
called k e = rw (two_calls, e) (inl refl)

calls-one_key_example : owner_key ≡ owner_key
calls-one_key_example =
    calls-one_key both_pages "m1" owner_key owner_key (called owner_key refl)
      (called owner_key refl)

page-Covered_example : Covered first_page (process_page first_page untouched)
page-Covered_example = page-Covered first_page untouched (omega arith, tt)

-- The owner waits, and the decision refers to its question.
abbrev resolver : ResolverDeps
resolver = record {
  discover_all = some (owner ∷ []);
  refs_to = some (λ question. if question == "q1" then some ("m1" ∷ []) else none);
  channel_id = some "board:work-notes";
  question_texts = [];
  repr = λ value. "";
}

abbrev verdict_event : Message
verdict_event = record event { payload = one_field "decision" (Json.str "go") }

resolves : Resolves resolver verdict_event owner
unfolding codes get_field
resolves = (refl, refl, refl)

resolve_decision-Sole_example :
    (is_valid resolver verdict_event ≡ true)
    × ((waiting : List OwnerTarget) × (resolver.discover_all ≡ some waiting)
        × Sole resolver verdict_event waiting owner)
resolve_decision-Sole_example = resolve_decision-Sole resolver verdict_event owner resolves
