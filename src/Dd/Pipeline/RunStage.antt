-- ===== src/Dd/Pipeline/RunStage.antt =====
-- One execution of the node `run_stage` of graphs/dd_pipeline.py.
use fleet_graph.Common.{ℕ, ◌+◌, false, Option, none, some, [], ◌∷◌, ◌++◌, ◌==◌, ltb, if◌then◌else◌}
use fleet_graph.Common.Dict.{lookup, insert}
use fleet_graph.Common.Json.{Json, obj, get_field, has_field}
use fleet_graph.Dd.Lifecycle.{Stage, stages, wrapper_steps}
use fleet_graph.Dd.Egress.{root_cause_for}
use fleet_graph.Dd.Pipeline.{
  bounds, unknown_stage, step_limit, StageOutcome, Replayed, FailureNote, ran, replayed,
  PipelineState, Dispatch, PipelineDeps, NodeEnd, moved, suspended, crashed, failure_event,
}
use fleet_graph.Dd.Pipeline.Ending.{empty_receipt, end_with, end_fault, dispatch_for}
use fleet_graph.Dd.Pipeline.Steps.{
  Frame, StepEnd, goes_on, ends, suspends, fails, seal_all, run_steps,
}

module _ (deps : PipelineDeps) (state : PipelineState) (stage : Stage) (steps : ℕ)
    (dispatch : Dispatch) where
  -- The stage's own receipt, else on a failure the one that was carried here.
  unfoldable pub carried_receipt : StageOutcome → Json
  carried_receipt outcome = elim outcome.receipt [
    | some r ↦ r
    | none ↦ if outcome.event == failure_event then state.last_receipt else empty_receipt
  ]

  unfoldable pub rebase_of : Option Json → Option Json
  rebase_of (some (obj fields)) =
      if has_field "rebase" fields then some (get_field "rebase" fields) else none
  rebase_of _ = none

  unfoldable pub failure_note : StageOutcome → Option FailureNote
  failure_note outcome =
      if outcome.event == failure_event
      then some (record {
        failure_code = outcome.failure_code;
        detail = outcome.detail;
        root_cause = root_cause_for outcome.failure_code outcome.detail none;
      })
      else none

  -- What the node returns when every step has gone on.
  unfoldable pub stage_done : Frame → StageOutcome → PipelineState
  stage_done frame outcome = record state {
    steps = steps;
    artifacts = frame.artifacts;
    receipt_digests = frame.digests;
    head_commit = frame.head_commit;
    re_adopt = insert stage.id outcome.run_in_flight state.re_adopt;
    last_event = outcome.event;
    last_receipt = carried_receipt outcome;
    last_failure_code = outcome.failure_code;
    last_failure_detail = if outcome.event == failure_event then outcome.detail else "";
    history =
        state.history
        ++ ran stage.id outcome.event dispatch.attempt frame.head_commit (rebase_of outcome.receipt)
            (failure_note outcome)
          ∷ [];
  }

  unfoldable pub finish : StepEnd → NodeEnd
  finish (goes_on frame) = elim frame.outcome [
    | none ↦ crashed
    | some outcome ↦ moved (stage_done frame outcome)
  ]
  finish (ends final) = moved final
  finish (suspends suspension) = suspended suspension
  finish fails = crashed

  abbrev pub start_frame : Frame
  start_frame = record {
    artifacts = state.artifacts;
    digests = state.receipt_digests;
    outcome = none;
    head_commit = state.head_commit;
  }

  -- A stage that a replayed receipt stands in for.
  unfoldable pub replay_state : Replayed → PipelineState
  replay_state r = record state {
    steps = steps;
    artifacts = seal_all stage.produced_artifacts r.output_commit state.artifacts;
    receipt_digests = insert stage.id (deps.digest (some r.receipt)) state.receipt_digests;
    head_commit = r.output_commit;
    mode = if r.mode == "" then state.mode else r.mode;
    pinned_attempt_id = if r.attempt_id == "" then state.pinned_attempt_id else r.attempt_id;
    last_event = r.event;
    last_receipt = r.receipt;
    last_failure_code = "";
    last_failure_detail = "";
    history = state.history ++ replayed stage.id r.event dispatch.attempt r.output_commit ∷ [];
  }

  unfoldable pub replay_of : Option Replayed
  replay_of = elim deps.replayer [ none ↦ none | some replay ↦ replay steps stage dispatch ]

  unfoldable pub run_known_stage : NodeEnd
  run_known_stage = elim replay_of [
    | some r ↦ moved (replay_state r)
    | none ↦
        finish (run_steps deps state stage steps dispatch (wrapper_steps deps.contract) start_frame)
  ]

unfoldable pub run_stage : PipelineDeps → PipelineState → NodeEnd
run_stage deps state = elim (lookup state.stage (stages deps.contract)) [
  | none ↦ moved (end_fault deps state unknown_stage)
  | some stage ↦
      if ltb deps.bounds.max_steps (state.steps + 1)
      then moved (end_with deps state bounds step_limit false "STEP_LIMIT_REACHED")
      else run_known_stage deps state stage (state.steps + 1) (dispatch_for deps state stage)
]
