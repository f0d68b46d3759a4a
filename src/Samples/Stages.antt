-- ===== src/Samples/Stages.antt =====
-- The theorems on the pipeline at concrete states.
use fleet_graph.Common.{
  In, Option, String, [], arith, find, if◌then◌else◌, ltb, none, refl, some, true, ℕ, ◌∷◌, ◌≡◌, ◌≢◌,
  ◌⊎◌,
}
use fleet_graph.Common.Dict.{contains, insert, lookup}
use fleet_graph.Common.Json.{dig, dig_parts, get_field, has_field, split_dots}
use fleet_graph.Common.Text.{codes, contains_part, lower, starts_with}
use fleet_graph.Dd.Egress.{
  classify_git_failure, is_transport_failure, root_cause_for, speaks, timeout_exit,
  transport_markers,
}
use fleet_graph.Dd.Lifecycle.{
  Stage, decode_failure, decode_stage, decode_transition, events_from, failure_transition,
  failure_transitions, is_llm, is_retryable, is_rework, stages, transition, transitions,
  wrapper_steps,
}
use fleet_graph.Dd.Lifecycle.Bindings.{
  check_bindings, check_commit_binding, check_event_binding, check_next, event_target,
}
use fleet_graph.Dd.Lifecycle.Shipped.{shipped}
use fleet_graph.Dd.Lifecycle.Spine.{
  artifact_consumers, artifact_producers, artifact_successor, carried, choose, is_terminal,
  no_successor, spine, targets_of,
}
use fleet_graph.Dd.Pipeline.{
  ActResult, NodeEnd, PipelineDeps, PipelineState, StageOutcome, acts, complete, failure_event,
  known_wrapper_steps, moved, pends,
}
use fleet_graph.Dd.Pipeline.Acting.{act_or_wait, acted, actor_for, transport_exhausted_outcome}
use fleet_graph.Dd.Pipeline.Advance.{
  advance, edge_of, receipt_of, route, routes_failure, settled_costs, take_edge, without_edge,
}
use fleet_graph.Dd.Pipeline.Bounds.{Arrives}
use fleet_graph.Dd.Pipeline.Cases.{Finished, Reentered, Within, run_stage-cases}
use fleet_graph.Dd.Pipeline.Counting.{Counted, initial_state-Counted, walk-Counted}
use fleet_graph.Dd.Pipeline.Ending.{dispatch_for, end_with, ending_costs}
use fleet_graph.Dd.Pipeline.FailedMerge.{merger-completes}
use fleet_graph.Dd.Pipeline.Gates.{walk-Completes}
use fleet_graph.Dd.Pipeline.Routes.{Next, advance-cases}
use fleet_graph.Dd.Pipeline.RunStage.{
  carried_receipt, failure_note, finish, rebase_of, replay_of, run_known_stage, run_stage,
  stage_done,
}
use fleet_graph.Dd.Pipeline.Standing.{Completes, Standing, earned_none}
use fleet_graph.Dd.Pipeline.Steps.{
  Frame, StepEnd, after_act, after_seal, capability_error, goes_on, input_verify, materialize,
  missing_from, output_verify, run_actor, run_steps, seal_all, sealed_outcome, skips_seal,
  wrapper_step,
}
use fleet_graph.Dd.Pipeline.Stopping.{Stopped}
use fleet_graph.Dd.Pipeline.Verified.{wrapper-Verified}
use fleet_graph.Dd.Pipeline.Voting.{Answered, act_or_wait-Answered}
use fleet_graph.Dd.Pipeline.Walk.{initial_state, walk}
use fleet_graph.Samples.Walks.{deps_with, lost, says, start}
use fleet_graph.Common.Json.{null}

abbrev deps : PipelineDeps
deps = deps_with lost

abbrev at_merger : PipelineState
at_merger = record start { stage = "merger"; artifacts = ("gate_decision", "c0") ∷ [] }

abbrev state_of : NodeEnd → PipelineState
state_of (moved state) = state
state_of _ = start

abbrev frame_of : StepEnd → Frame
frame_of (goes_on frame) = frame
frame_of _ = record { artifacts = []; digests = []; outcome = none; head_commit = "" }

abbrev outcome_of : Option StageOutcome → StageOutcome
outcome_of (some outcome) = outcome
outcome_of none = transport_exhausted_outcome ""

abbrev after_merger : PipelineState
after_merger = state_of (run_stage deps at_merger)

merger_moves : (run_stage deps at_merger ≡ moved after_merger) × (after_merger.terminal ≡ none)
unfolding act_or_wait actor_for after_act after_seal artifact_consumers artifact_producers
    artifact_successor capability_error carried carried_receipt check_bindings check_commit_binding
    check_event_binding check_next choose classify_git_failure codes contains_part decode_failure
    decode_stage decode_transition dig dig_parts dispatch_for edge_of end_with ending_costs
    event_target events_from failure_note failure_transition failure_transitions find finish
    get_field has_field initial_state input_verify insert is_llm is_retryable is_rework is_terminal
    is_transport_failure known_wrapper_steps lookup lower materialize missing_from no_successor
    output_verify rebase_of receipt_of replay_of root_cause_for route routes_failure run_actor
    run_known_stage run_stage run_steps seal_all sealed_outcome settled_costs shipped skips_seal
    speaks spine split_dots stage_done stages starts_with take_edge targets_of timeout_exit
    transition transitions transport_exhausted_outcome transport_markers walk without_edge
    wrapper_step wrapper_steps fleet_graph.Dd.Pipeline.Advance.advance
    fleet_graph.Common.Json.json_eq
merger_moves = (refl, refl)

abbrev configure : Stage
configure = record {
  id = "configure";
  actor = "script";
  wrapper = true;
  required_artifacts = "spec" ∷ [];
  produced_artifacts = "run_config" ∷ [];
}

abbrev first_frame : Frame
first_frame = record {
  artifacts = ("spec", "c0") ∷ [];
  digests = [];
  outcome = none;
  head_commit = "c0";
}

abbrev configured : StepEnd
configured =
    run_steps deps start configure 1 (dispatch_for deps start configure) known_wrapper_steps
      first_frame

configure_goes :
    (configured ≡ goes_on (frame_of configured))
    × ((frame_of configured).outcome ≡ some (outcome_of (frame_of configured).outcome))
unfolding act_or_wait actor_for after_act after_seal artifact_consumers artifact_producers
    artifact_successor capability_error carried carried_receipt check_bindings check_commit_binding
    check_event_binding check_next choose classify_git_failure codes contains_part decode_failure
    decode_stage decode_transition dig dig_parts dispatch_for edge_of end_with ending_costs
    event_target events_from failure_note failure_transition failure_transitions find finish
    get_field has_field initial_state input_verify insert is_llm is_retryable is_rework is_terminal
    is_transport_failure known_wrapper_steps lookup lower materialize missing_from no_successor
    output_verify rebase_of receipt_of replay_of root_cause_for route routes_failure run_actor
    run_known_stage run_stage run_steps seal_all sealed_outcome settled_costs shipped skips_seal
    speaks spine split_dots stage_done stages starts_with take_edge targets_of timeout_exit
    transition transitions transport_exhausted_outcome transport_markers walk without_edge
    wrapper_step wrapper_steps fleet_graph.Dd.Pipeline.Advance.advance
    fleet_graph.Common.Json.json_eq
configure_goes = (refl, refl)

start_facts : (start.terminal ≡ none) × (start.steps ≡ 0) × Standing start
unfolding initial_state
start_facts = (refl, refl, earned_none 0 [] (omega arith))

walk-Completes_example : Arrives Standing Completes (walk 41 deps start)
walk-Completes_example =
    walk-Completes deps refl 41 start start_facts.0 (omega arith) (omega (arith, start_facts.1))
      start_facts.2

wrapper-Verified_example :
    ((k : String) → In k configure.required_artifacts → contains k first_frame.artifacts ≡ true)
    × ((outcome_of (frame_of configured).outcome).event ≢ failure_event
        → failure_transition deps.contract configure.id
            (outcome_of (frame_of configured).outcome).event
          ≡ none
        → (k : String) → In k configure.produced_artifacts
        → lookup k (frame_of configured).artifacts ≡ some (frame_of configured).head_commit)
wrapper-Verified_example =
    wrapper-Verified deps start configure 1 (dispatch_for deps start configure) first_frame
      (frame_of configured) (outcome_of (frame_of configured).outcome) configure_goes.0
      configure_goes.1

walk-Counted_example : Arrives (Counted deps) (Counted deps) (walk 41 deps start)
walk-Counted_example =
    walk-Counted deps 41 start start_facts.0 (omega arith) (omega (arith, start_facts.1))
      (initial_state-Counted deps "dev-1" "configure" "c0" (("spec", "c0") ∷ []) 1 "t0")

advance-cases_example : Next deps after_merger (advance deps after_merger)
advance-cases_example = advance-cases deps after_merger

run_stage-cases_example :
    Stopped at_merger after_merger
    ⊎ ((stage : Stage) × Within deps at_merger stage
        × (Finished deps at_merger stage after_merger
            ⊎ Reentered deps at_merger stage after_merger))
run_stage-cases_example = run_stage-cases deps at_merger after_merger merger_moves.0

merger-completes_example : (advance deps after_merger).terminal ≡ some complete
merger-completes_example =
    merger-completes deps at_merger after_merger refl refl merger_moves.0 merger_moves.1

-- Two re-checks without an answer, then a vote.
abbrev board : ℕ → ActResult
board call = if ltb call 2 then pends null else acts (says "success" configure)

third_call : act_or_wait 8 0 5 board ≡ acted (says "success" configure)
unfolding act_or_wait
third_call = refl

act_or_wait-Answered_example : Answered board 0 5 (says "success" configure)
act_or_wait-Answered_example =
    act_or_wait-Answered board (says "success" configure) 8 0 5 third_call
