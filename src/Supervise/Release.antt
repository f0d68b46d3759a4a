-- ===== src/Supervise/Release.antt =====
-- The newest preauth of a card and the judgement of the three factors: supervise/preauth.py, its
-- second half. A reason is a constructor, its text left out.
use fleet_graph.Common.{
  Bool, List, Option, Result, String, [], any, elem, err, false, if◌then◌else◌, leb, none, not, ok,
  some, true, ℕ, ◌&&◌, ◌++◌, ◌==◌, ◌>>=◌, ◌||◌, ◌∷◌,
}
use fleet_graph.Common.Json.{Fields, Json, get_field}
use fleet_graph.Common.Text.{codes, starts_with}
use fleet_graph.Common.Values.{int_or_zero}
use fleet_graph.Supervise.{Fault, Preauth, PreauthDeps, PreauthError, Reason, ReleaseEvaluation}
use fleet_graph.Supervise.Protocol.{given, is_preauth, parse_expiry, parsed, payload_of, vetted}

-- The loop's best candidate with its place on the channel, and the refusals so far.
pub record Latest : Type 0 where
  pub best : Option (Preauth × ℕ)
  pub rejections : List (Json × PreauthError)

abbrev pub not_beaten : Option (Preauth × ℕ) → ℕ → Bool
not_beaten none seq = true
not_beaten (some (best, best_seq)) seq = leb best_seq seq

abbrev pub placed : Option ℕ → Latest → Preauth → Result Fault Latest
placed none found candidate = err Fault.number_error
placed (some seq) found candidate =
    ok (if not_beaten found.best seq then record found { best = some (candidate, seq) } else found)

abbrev pub for_other_card : String → Preauth → Bool
for_other_card card candidate = not (card == "") && not (candidate.card_entity_id == card)

abbrev pub weighed :
    PreauthDeps → String → Fields → Latest → Result PreauthError Preauth → Result Fault Latest
weighed deps card message found (err e) =
    ok (record found { rejections = found.rejections ++ (get_field "message_id" message, e) ∷ [] })
weighed deps card message found (ok candidate) =
    if for_other_card card candidate
    then ok found
    else placed (int_or_zero deps.int_of (get_field "channel_seq" message)) found candidate

abbrev pub considered : PreauthDeps → String → Fields → Latest → Fields → Result Fault Latest
considered deps card message found payload =
    if is_preauth payload
    then weighed deps card message found (parsed deps message payload)
    else ok found

abbrev pub latest_from : PreauthDeps → String → Latest → List Fields → Result Fault Latest
latest_from deps card found [] = ok found
latest_from deps card found (m ∷ ms) = do
  payload ← payload_of m
  next ← considered deps card m found payload
  latest_from deps card next ms

unfoldable pub latest_preauth_for : PreauthDeps → List Fields → String → Result Fault Latest
unfolding vetted
latest_preauth_for deps messages card =
    latest_from deps card (record { best = none; rejections = [] }) messages

unfoldable pub ref_in_allowlist : List ℕ → List String → Bool
ref_in_allowlist [] allowlist = false
ref_in_allowlist (c ∷ cs) allowlist = any (λ p. starts_with (c ∷ cs) (codes p)) allowlist

pub record Gate : Type 0 where
  pub action : String
  pub card_entity_id : String
  pub question_note_id : String
  pub target_ref : String
  pub report_green : Bool
  pub decided : Bool
  pub now : ℕ

abbrev pub when : Bool → Reason → List Reason
when true reason = reason ∷ []
when false reason = []

abbrev pub early_reasons : Gate → List Reason
early_reasons gate =
    when gate.decided Reason.already_decided ++ when (not gate.report_green) Reason.not_green

abbrev pub target_reasons : Gate → Preauth → List Reason
target_reasons gate preauth =
    if gate.target_ref == ""
    then Reason.no_target_ref ∷ []
    else when (not (ref_in_allowlist (codes gate.target_ref) preauth.target_ref_allowlist))
        Reason.ref_not_covered

abbrev pub reasons_against : Gate → Preauth → ℕ → List Reason
reasons_against gate preauth expiry =
    early_reasons gate
    ++ when (not (elem gate.action preauth.allowed_actions)) Reason.action_not_covered
    ++ when (gate.card_entity_id == "" || not (preauth.card_entity_id == gate.card_entity_id))
        Reason.other_card
    ++ when (leb expiry gate.now) Reason.expired
    ++ target_reasons gate preauth
    ++ when (gate.question_note_id == "") Reason.no_question

abbrev pub evaluation_of :
    Gate → Preauth → List (Json × PreauthError) → List Reason → ReleaseEvaluation
evaluation_of gate preauth rejections reasons = record {
  granted = not (given reasons);
  reasons = reasons;
  preauth_message_id = preauth.message_id;
  target_ref = gate.target_ref;
  rejections = rejections;
}

unfoldable pub evaluate_release :
    PreauthDeps
    → Gate
    → Option Preauth
    → List (Json × PreauthError)
    → Result PreauthError ReleaseEvaluation
unfolding ref_in_allowlist parse_expiry
evaluate_release deps gate none rejections = ok (record {
  granted = false;
  reasons = early_reasons gate ++ Reason.no_preauth ∷ [];
  preauth_message_id = "";
  target_ref = "";
  rejections = rejections;
})
evaluate_release deps gate (some preauth) rejections = do
  expiry ← parse_expiry deps preauth.expires_at
  ok (evaluation_of gate preauth rejections (reasons_against gate preauth expiry))
