-- ===== src/Supervise/Acting.antt =====
-- The one decision a turn may publish: supervise/decision_publisher.py, `act` of
-- graphs/supervisor.py up to that call, and the edges of the graph. The decision client is an input:
-- whether it could be made, and what it answers. The rationale of a decision and the evidence note
-- of `act` are left out.
use fleet_graph.Common.{
  Bool, List, Option, Result, String, [], err, false, if◌then◌else◌, none, not, ok, some, ℕ, ◌==◌,
  ◌>>=◌, ◌||◌, ◌∷◌,
}
use fleet_graph.Common.Decimal.{concat}
use fleet_graph.Common.Json.{Fields}
use fleet_graph.Common.Text.{codes, starts_with}
use fleet_graph.Supervise.{Fault, PreauthDeps, ReleaseEvaluation}
use fleet_graph.Supervise.Intake.{Board, Event, IntakeFacts, Report, intake, text_at}
use fleet_graph.Supervise.Judging.{Classification, Classified, card_of, classify}
use fleet_graph.Supervise.Protocol.{as_payload}

pub data Refusal : Type 0 where
  not_granted anchors_missing no_token : Refusal

-- The call of `client.publish`: its payload, its refs and its key.
pub record Release : Type 0 where
  pub kind : String
  pub decision : String
  pub decided_by : String
  pub card_entity_id : String
  pub question_note_id : String
  pub preauth_message_id : String
  pub target_ref : String
  pub scope : String
  pub refs : List String
  pub idempotency_key : String

abbrev pub decided_by_for : String → String
decided_by_for preauth_message_id =
    concat "supervisor-graph (依预授权 " (concat preauth_message_id " 代行；非人逐条拍板)")

abbrev pub release_of : ReleaseEvaluation → String → String → String → Release
release_of evaluation card question key = record {
  kind = "gate_release";
  decision = "APPROVE";
  decided_by = decided_by_for evaluation.preauth_message_id;
  card_entity_id = card;
  question_note_id = question;
  preauth_message_id = evaluation.preauth_message_id;
  target_ref = evaluation.target_ref;
  scope = "merge_only";
  refs = question ∷ evaluation.preauth_message_id ∷ [];
  idempotency_key = key;
}

-- The decision that reaches the client, where `has_client` says whether there is one.
unfoldable pub publish_release_decision :
    Bool → ReleaseEvaluation → String → String → String → Result Refusal Release
publish_release_decision has_client evaluation card question key =
    if not evaluation.granted
    then err Refusal.not_granted
    else if evaluation.preauth_message_id == "" || question == "" || card == ""
    then err Refusal.anchors_missing
    else if not has_client
    then err Refusal.no_token
    else ok (release_of evaluation card question key)

abbrev pub wf_or : String → Result Fault String → Result Fault String
wf_or candidate later = if starts_with (codes candidate) (codes "wf-") then ok candidate else later

abbrev pub folder_in_head : PreauthDeps → Fields → Result Fault String
folder_in_head deps payload = wf_or (text_at deps "work_folder_id" payload) (ok "")

abbrev pub folder_id_of : PreauthDeps → Event → IntakeFacts → Result Fault String
folder_id_of deps event facts = wf_or (text_at deps "folder_id" event.payload) (
    wf_or (card_of deps event facts)
      (do payload ← as_payload facts.card_head_payload; folder_in_head deps payload))

abbrev pub act_card : PreauthDeps → Event → IntakeFacts → Result Fault String
act_card deps event facts =
    let card = card_of deps event facts in
    if card == "" then folder_id_of deps event facts else ok card

-- The evaluation that the state carries, the empty one where it carries none.
abbrev pub carried : Option ReleaseEvaluation → ReleaseEvaluation
carried (some evaluation) = evaluation
carried none = record {
  granted = false;
  reasons = [];
  preauth_message_id = "";
  target_ref = "";
  rejections = [];
}

pub record Client : Type 0 where
  pub is_there : Bool
  pub publish : Release → Option String

pub record ActResult : Type 0 where
  pub sent : Option Release
  pub decision_message_id : Option String

abbrev pub not_sent : ActResult
not_sent = record { sent = none; decision_message_id = none }

abbrev pub after_publish : Client → Result Refusal Release → ActResult
after_publish client (err e) = not_sent
after_publish client (ok release) = record {
  sent = some release;
  decision_message_id = client.publish release;
}

abbrev pub publish_decision : PreauthDeps → Client → Event → String → Classified → ActResult
publish_decision deps client event card classified = elim classified.classification [
  | Classification.preauth_release ↦ after_publish client (
      publish_release_decision client.is_there (carried classified.preauth_evaluation) card
        (text_at deps "question_note_id" event.payload) (concat "supervisor-preauth:" event.key))
  | _ ↦ not_sent
]

unfoldable pub act :
    PreauthDeps → Client → Event → IntakeFacts → Classified → Result Fault ActResult
unfolding publish_release_decision
act deps client event facts classified = do
  card ← act_card deps event facts
  ok (publish_decision deps client event card classified)

-- What a turn is given beside its event: the board, the client, the report, whether the evidence is
-- too thin for an audit, and the clock of `classify`.
pub record TurnInput : Type 0 where
  pub board : Option Board
  pub client : Client
  pub report : Report
  pub evidence_incomplete : Bool
  pub now : ℕ

abbrev pub unclassified : Classified
unclassified = record { classification = Classification.needs_human; preauth_evaluation = none }

abbrev pub classified_turn : PreauthDeps → Event → IntakeFacts → TurnInput → Result Fault Classified
classified_turn deps event facts input =
    if input.evidence_incomplete
    then ok unclassified
    else classify deps event facts input.report input.now

-- intake, gather_evidence, rerun_acceptance, then either act at once, or audit, classify and act
unfoldable pub turn : PreauthDeps → Event → TurnInput → Result Fault ActResult
unfolding intake classify act
turn deps event input = do
  classified ← classified_turn deps event (intake deps input.board event) input
  act deps input.client event (intake deps input.board event) classified
