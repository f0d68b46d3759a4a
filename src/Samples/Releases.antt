-- ===== src/Samples/Releases.antt =====
-- The theorems on releases without a human at a concrete gate.
use fleet_graph.Common.{
  List, String, [], false, if◌then◌else◌, inl, inr, none, ok, refl, some, true, ℕ, ◌==◌, ◌↔◌, ◌∷◌,
  ◌≡◌,
}
use fleet_graph.Common.Dict.{insert, lookup}
use fleet_graph.Common.Json.{Fields, Items, Json, get_field, has_field}
use fleet_graph.Common.Text.{codes, starts_with}
use fleet_graph.Supervise.{
  Instant, Preauth, PreauthDeps, PreauthError, PrefixRefusal, ReleaseEvaluation,
}
use fleet_graph.Supervise.Acting.{Release, TurnInput, not_sent, release_of, turn}
use fleet_graph.Supervise.Coverage.{parsed-protects}
use fleet_graph.Supervise.Granted.{Factors, evaluate_release_iff}
use fleet_graph.Supervise.Intake.{Board, Event, EventType, ExitCode, Report, intake}
use fleet_graph.Supervise.Judging.{gate_of}
use fleet_graph.Supervise.Narrow.{Warranted, turn-Warranted}
use fleet_graph.Supervise.Newest.{Newest, latest_preauth_for-Newest}
use fleet_graph.Supervise.Protocol.{draft, parsed, refusal_for_prefix, vetted}
use fleet_graph.Supervise.Release.{Gate, evaluate_release, latest_preauth_for, ref_in_allowlist}

abbrev deps : PreauthDeps
deps = record {
  fromisoformat =
      λ text. if text == "2026-01-01T00:00:00+00:00" then Instant.aware 1000 else Instant.malformed;
  int_of = λ text. none;
  repr = λ value. "[]";
}

abbrev texts : String → Json
texts s = Json.arr (Items.cons (Json.str s) Items.nil)

abbrev payload_for : String → Fields
payload_for expires = Fields.field "kind" (Json.str "preauth") (
    Fields.field "card_entity_id" (Json.str "card-7") (
      Fields.field "allowed_actions" (texts "approve") (
        Fields.field "target_ref_allowlist" (texts "refs/heads/dd/")
          (Fields.field "expires_at" (Json.str expires) Fields.end))))

abbrev note_at : ℕ → String → String → Fields
note_at seq id expires = Fields.field "message_id" (Json.str id) (
    Fields.field "channel_seq" (Json.num seq) (
      Fields.field "kind" (Json.str "work.decision.v2")
        (Fields.field "payload" (Json.obj (payload_for expires)) Fields.end)))

-- An older preauth, the newest one, and one without an expiry.
abbrev notes : List Fields
notes =
    note_at 3 "pre-1" "2026-01-01T00:00:00Z"
    ∷ note_at 5 "pre-2" "2026-01-01T00:00:00Z"
    ∷ note_at 6 "pre-3" ""
    ∷ []

abbrev board : Board
board = record {
  message = some (some Fields.end);
  decision_for = some none;
  card_head = some none;
  messages = some notes;
}

abbrev question : Event
question = record {
  type = EventType.board_question;
  key = "q-1";
  payload =
      Fields.field "question_note_id" (Json.str "note-1")
        (Fields.field "card_entity_id" (Json.str "card-7") Fields.end);
}

abbrev report : Report
report = record {
  kind = "development";
  target = "dev-1";
  is_ok = true;
  assertions =
      record { name = "identity_binding"; holds = true; command = ""; exit_code = none } ∷ [];
  gaps = [];
  acceptance_results = record { command = "make"; exit_code = some (ExitCode.exited 0) } ∷ [];
}

abbrev input : TurnInput
input = record {
  board = some board;
  client = record { is_there = true; publish = λ release. some "dec-1" };
  report = report;
  evidence_incomplete = false;
  now = 999;
}

abbrev pre_2 : Preauth
pre_2 = draft deps (note_at 5 "pre-2" "2026-01-01T00:00:00Z") (payload_for "2026-01-01T00:00:00Z")

abbrev release : Release
release =
    release_of
      (record {
        granted = true;
        reasons = [];
        preauth_message_id = "pre-2";
        target_ref = "refs/heads/dd/dev-1";
        rejections = [];
      })
      "card-7" "note-1" "supervisor-preauth:q-1"

released :
    turn deps question input
    ≡ ok (record { sent = some release; decision_message_id = some "dec-1" })
unfolding turn get_field has_field codes starts_with lookup insert
released = refl

turn-Warranted_example : Warranted deps question input release
turn-Warranted_example = turn-Warranted deps question input released refl

-- A second later than the last second of the preauth nothing is sent.
too_late : turn deps question (record input { now = 1000 }) ≡ ok not_sent
unfolding turn get_field has_field codes starts_with lookup insert
too_late = refl

smuggled : refusal_for_prefix "refs/heads/mai" ≡ some (PrefixRefusal.covers_protected "main")
unfolding refusal_for_prefix codes starts_with
smuggled = refl

accepted :
    parsed deps (note_at 5 "pre-2" "2026-01-01T00:00:00Z") (payload_for "2026-01-01T00:00:00Z")
    ≡ ok pre_2
unfolding vetted get_field codes starts_with
accepted = refl

parsed-protects_example :
    ref_in_allowlist (codes "refs/heads/release/2") pre_2.target_ref_allowlist ≡ false
unfolding codes
parsed-protects_example =
    parsed-protects deps (note_at 5 "pre-2" "2026-01-01T00:00:00Z")
      (payload_for "2026-01-01T00:00:00Z") accepted (codes "refs/heads/release/2")
      ("release", inr (inr (inr (inl refl))), inr (inr (codes "2", refl)))

chooses :
    latest_preauth_for deps notes "card-7"
    ≡ ok (record {
      best = some (pre_2, 5);
      rejections = (Json.str "pre-3", PreauthError.no_expiry) ∷ [];
    })
unfolding latest_preauth_for get_field codes starts_with
chooses = refl

latest_preauth_for-Newest_example : Newest deps "card-7" notes (some (pre_2, 5))
latest_preauth_for-Newest_example = latest_preauth_for-Newest deps "card-7" notes chooses

abbrev gate : Gate
gate = gate_of deps question (intake deps (some board) question) report 999

abbrev evaluation : ReleaseEvaluation
evaluation = record {
  granted = true;
  reasons = [];
  preauth_message_id = "pre-2";
  target_ref = "refs/heads/dd/dev-1";
  rejections = [];
}

evaluates : evaluate_release deps gate (some pre_2) [] ≡ ok evaluation
unfolding evaluate_release intake get_field has_field codes starts_with lookup insert
evaluates = refl

evaluate_release_iff_example :
    (true ≡ true) ↔ ((p : Preauth) × (some pre_2 ≡ some p) × Factors deps gate p)
evaluate_release_iff_example = evaluate_release_iff deps gate (some pre_2) [] evaluates
