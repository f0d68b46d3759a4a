-- ===== src/Supervise/Judging.antt =====
-- The judgement of a turn: `git_target_ref`, `reproducible_failures`, `evaluate_preauth_release` and
-- `classify` of graphs/supervisor.py. The report of the audit is an input; the auditor's verdict is
-- none.
use fleet_graph.Common.{
  Bool, List, Option, Result, String, [], elem, eqb, err, false, get_or, if◌then◌else◌, none, not,
  ok, some, true, ℕ, ◌&&◌, ◌==◌, ◌>>=◌, ◌||◌, ◌∷◌,
}
use fleet_graph.Common.Decimal.{concat}
use fleet_graph.Common.Dict.{Dict, insert, lookup}
use fleet_graph.Common.Json.{get_field}
use fleet_graph.Common.Values.{is_truthy, str_of}
use fleet_graph.Supervise.{Fault, Preauth, PreauthDeps, PreauthError, Reason, ReleaseEvaluation}
use fleet_graph.Supervise.Intake.{
  AcceptanceResult, Assertion, Event, ExitCode, Failure, IntakeFacts, Report, is_board_question,
  text_at,
}
use fleet_graph.Supervise.Protocol.{given}
use fleet_graph.Supervise.Release.{Gate, evaluate_release, latest_preauth_for}

abbrev pub ok_by_name : List Assertion → Dict Bool → Dict Bool
ok_by_name [] found = found
ok_by_name (a ∷ more) found = ok_by_name more (insert a.name a.holds found)

abbrev pub git_target_ref : Report → String
git_target_ref report =
    if not (report.kind == "development")
      || not (get_or (lookup "identity_binding" (ok_by_name report.assertions [])) false)
      || report.target == ""
    then ""
    else concat "refs/heads/dd/" report.target

abbrev pub is_failing : Option ExitCode → Bool
is_failing none = false
is_failing (some (ExitCode.exited n)) = not (eqb n 0)
is_failing (some (ExitCode.signalled n)) = true

abbrev pub failed_results : List AcceptanceResult → List Failure
failed_results [] = []
failed_results (r ∷ more) =
    let rest = failed_results more in
    if is_failing r.exit_code
    then record { argv = r.command; exit_code = r.exit_code } ∷ rest
    else rest

abbrev pub reject_grounds : List String
reject_grounds = "frozen_acceptance_digest" ∷ "acceptance_no_skips" ∷ "acceptance_rerun" ∷ []

abbrev pub failed_assertions : List Assertion → List Failure
failed_assertions [] = []
failed_assertions (a ∷ more) =
    let rest = failed_assertions more in
    if elem a.name reject_grounds && not a.holds
    then record { argv = a.command; exit_code = a.exit_code } ∷ rest
    else rest

abbrev pub reproducible_failures : Report → List Failure
reproducible_failures report =
    let results = failed_results report.acceptance_results in
    if given results then results else failed_assertions report.assertions

-- event.payload.get("card_entity_id") or intake_facts.get("card_entity_id") or ""
abbrev pub card_of : PreauthDeps → Event → IntakeFacts → String
card_of deps event facts =
    let raw = get_field "card_entity_id" event.payload in
    if is_truthy raw then str_of deps.repr raw else facts.card_entity_id

abbrev pub is_green : Report → Bool
is_green report = report.is_ok && given report.assertions && not (given report.gaps)

abbrev pub gate_of : PreauthDeps → Event → IntakeFacts → Report → ℕ → Gate
gate_of deps event facts report now = record {
  action = "approve";
  card_entity_id = card_of deps event facts;
  question_note_id = text_at deps "question_note_id" event.payload;
  target_ref = git_target_ref report;
  report_green = is_green report;
  decided = facts.already_decided;
  now = now;
}

abbrev pub lifted : {A : Type 0} → Result PreauthError A → Result Fault A
lifted (ok a) = ok a
lifted (err e) = err (Fault.refused e)

abbrev pub preauth_in : Option (Preauth × ℕ) → Option Preauth
preauth_in none = none
preauth_in (some (p, seq)) = some p

abbrev pub evaluate_question :
    PreauthDeps → Event → IntakeFacts → Report → ℕ → Result Fault ReleaseEvaluation
evaluate_question deps event facts report now = do
  found ← latest_preauth_for deps facts.preauth_candidates (card_of deps event facts)
  lifted (
      evaluate_release deps (gate_of deps event facts report now) (preauth_in found.best)
        found.rejections)

abbrev pub no_question_evaluation : ReleaseEvaluation
no_question_evaluation = record {
  granted = false;
  reasons = Reason.not_a_question ∷ [];
  preauth_message_id = "";
  target_ref = "";
  rejections = [];
}

unfoldable pub evaluate_preauth_release :
    PreauthDeps → Event → IntakeFacts → Report → ℕ → Result Fault ReleaseEvaluation
unfolding evaluate_release latest_preauth_for
evaluate_preauth_release deps event facts report now =
    if is_board_question event.type
    then evaluate_question deps event facts report now
    else ok no_question_evaluation

pub data Classification : Type 0 where
  needs_human recommend_reject preauth_release : Classification

pub record Classified : Type 0 where
  pub classification : Classification
  pub preauth_evaluation : Option ReleaseEvaluation

abbrev pub by_evaluation : ReleaseEvaluation → Classified
by_evaluation evaluation = record {
  classification =
      if evaluation.granted then Classification.preauth_release else Classification.needs_human;
  preauth_evaluation = some evaluation;
}

unfoldable pub classify : PreauthDeps → Event → IntakeFacts → Report → ℕ → Result Fault Classified
unfolding evaluate_preauth_release
classify deps event facts report now =
    if given (reproducible_failures report)
    then ok (record { classification = Classification.recommend_reject; preauth_evaluation = none })
    else do
      evaluation ← evaluate_preauth_release deps event facts report now
      ok (by_evaluation evaluation)
