-- ===== src/Samples/Walks.antt =====
-- Runs of the pipeline of graphs/dd_pipeline.py over the shipped contract.
use fleet_graph.Common.{
  Option, String, [], false, find, if◌then◌else◌, none, refl, some, ℕ, ◌==◌, ◌||◌, ◌∷◌, ◌≡◌,
}
use fleet_graph.Common.Dict.{Dict, insert, lookup}
use fleet_graph.Common.Json.{
  Json, dig, dig_parts, end, field, get_field, has_field, obj, split_dots, str,
}
use fleet_graph.Common.Text.{codes, contains_part, lower, starts_with}
use fleet_graph.Dd.Egress.{
  classify_git_failure, is_transport_failure, root_cause_for, speaks, timeout_exit,
  transport_markers,
}
use fleet_graph.Dd.Lifecycle.{
  Stage, decode_failure, decode_stage, decode_transition, events_from, failure_transition,
  failure_transitions, is_llm, is_retryable, is_rework, stages, transition, transitions,
  wrapper_steps,
}
use fleet_graph.Dd.Lifecycle.Bindings.{
  check_bindings, check_commit_binding, check_event_binding, check_next, event_target,
}
use fleet_graph.Dd.Lifecycle.Shipped.{shipped}
use fleet_graph.Dd.Lifecycle.Spine.{
  artifact_consumers, artifact_producers, artifact_successor, carried, choose, is_terminal,
  no_successor, spine, targets_of,
}
use fleet_graph.Dd.Pipeline.{
  Actor, Dispatch, PipelineDeps, PipelineState, SealResult, StageOutcome, Terminal, acts, complete,
  default_bounds, exhausts, known_wrapper_steps, seals,
}
use fleet_graph.Dd.Pipeline.Acting.{act_or_wait, actor_for, transport_exhausted_outcome}
use fleet_graph.Dd.Pipeline.Advance.{
  edge_of, receipt_of, route, routes_failure, settled_costs, take_edge, without_edge,
}
use fleet_graph.Dd.Pipeline.Ending.{dispatch_for, end_with, ending_costs}
use fleet_graph.Dd.Pipeline.RunStage.{
  carried_receipt, failure_note, finish, rebase_of, replay_of, run_known_stage, run_stage,
  stage_done,
}
use fleet_graph.Dd.Pipeline.Steps.{
  after_act, after_seal, capability_error, input_verify, materialize, missing_from, output_verify,
  run_actor, run_steps, seal_all, sealed_outcome, skips_seal, wrapper_step,
}
use fleet_graph.Dd.Pipeline.Walk.{WalkEnd, ended, initial_state, walk}

abbrev pub sealed_receipt : String → Json
sealed_receipt verdict = obj (field "output_commit" (str "c1") (field "verdict" (str verdict) end))

abbrev verdict_of : String → String
verdict_of stage =
    if (stage == "continuous_review") || (stage == "final_review") then "APPROVE" else "success"

abbrev pub says : String → Stage → StageOutcome
says event stage = record {
  event = event;
  receipt = none;
  produced = stage.produced_artifacts;
  failure_code = "";
  detail = "";
  run_in_flight = false;
}

abbrev pub willing : Actor
willing step call stage dispatch = acts (says (verdict_of stage.id) stage)

abbrev pub lost : Actor
lost step call stage dispatch = exhausts "connection timed out"

abbrev sealer : ℕ → Stage → Dispatch → StageOutcome → SealResult
sealer step stage dispatch outcome =
    seals (record { commit = "c1"; receipt = some (sealed_receipt outcome.event); produced = none })

abbrev scripts_with : Actor → Dict Actor
scripts_with merger =
    ("configure", willing)
    ∷ ("acceptance", willing)
    ∷ ("human_gate", willing)
    ∷ ("merger", merger)
    ∷ []

abbrev pub deps_with : Actor → PipelineDeps
deps_with merger = record {
  contract = shipped;
  dispatcher = willing;
  scripts = scripts_with merger;
  materializer = some sealer;
  replayer = none;
  capability = none;
  bounds = default_bounds;
  cost_plane = false;
  management_cost = none;
  stamp = λ step. "";
  digest = λ receipt. "";
  resume_values = λ step. 0;
}

abbrev pub start : PipelineState
start = initial_state "dev-1" "configure" "c0" (("spec", "c0") ∷ []) 1 "t0"

abbrev terminal_of : WalkEnd → Option Terminal
terminal_of (ended state) = state.terminal
terminal_of _ = none

-- Seven stages that all succeed complete the order, and it is complete even where the actor of the
-- merger loses its transport.
completes :
    (terminal_of (walk 41 (deps_with willing) start) ≡ some complete)
    × (terminal_of (walk 41 (deps_with lost) start) ≡ some complete)
unfolding act_or_wait actor_for after_act after_seal artifact_consumers artifact_producers
    artifact_successor capability_error carried carried_receipt check_bindings check_commit_binding
    check_event_binding check_next choose classify_git_failure codes contains_part decode_failure
    decode_stage decode_transition dig dig_parts dispatch_for edge_of end_with ending_costs
    event_target events_from failure_note failure_transition failure_transitions find finish
    get_field has_field initial_state input_verify insert is_llm is_retryable is_rework is_terminal
    is_transport_failure known_wrapper_steps lookup lower materialize missing_from no_successor
    output_verify rebase_of receipt_of replay_of root_cause_for route routes_failure run_actor
    run_known_stage run_stage run_steps seal_all sealed_outcome settled_costs shipped skips_seal
    speaks spine split_dots stage_done stages starts_with take_edge targets_of timeout_exit
    transition transitions transport_exhausted_outcome transport_markers walk without_edge
    wrapper_step wrapper_steps fleet_graph.Dd.Pipeline.Advance.advance
    fleet_graph.Common.Json.json_eq fleet_graph.Dd.Lifecycle.Bindings.advance
completes = (refl, refl)
