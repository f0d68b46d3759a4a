-- ===== src/Dd/Pipeline/Cases.antt =====
-- The ways in which one execution of `run_stage` of graphs/dd_pipeline.py can end.
use fleet_graph.Common.{
  Bool-cases, Option-cases, arith, false, inl, inr, is_some, ltb, none, refl, some, ◌+◌, ◌∙◌, ◌≡◌,
  ◌≢◌, ◌≤◌, ◌⊎◌,
}
use fleet_graph.Common.Dict.{lookup}
use fleet_graph.Dd.Lifecycle.{Stage, stages, wrapper_steps}
use fleet_graph.Dd.Pipeline.{PipelineDeps, PipelineState, Replayed, StageOutcome, complete, moved}
use fleet_graph.Dd.Pipeline.Ending.{dispatch_for, end_with}
use fleet_graph.Dd.Pipeline.RunStage.{
  finish, replay_of, replay_state, run_known_stage, run_stage, stage_done, start_frame,
}
use fleet_graph.Dd.Pipeline.Steps.{Frame, StepEnd, ends, fails, goes_on, run_steps, suspends}
use fleet_graph.Dd.Pipeline.Stopping.{Stopped, run_steps-Stopped}

-- A stage that ran to the end of its steps.
pub record Finished (deps : PipelineDeps) (state : PipelineState) (stage : Stage)
    (final : PipelineState) : Type 0 where
  pub frame : Frame
  pub outcome : StageOutcome
  pub stepped :
      run_steps deps state stage
        (state.steps + 1)
        (dispatch_for deps state stage)
        (wrapper_steps deps.contract)
        (start_frame deps state stage (state.steps + 1) (dispatch_for deps state stage))
      ≡ goes_on frame
  pub reported : frame.outcome ≡ some outcome
  pub result :
      final
      ≡ stage_done deps state stage (state.steps + 1) (dispatch_for deps state stage) frame outcome

-- A stage that a sealed receipt stood in for.
pub record Reentered (deps : PipelineDeps) (state : PipelineState) (stage : Stage)
    (final : PipelineState) : Type 0 where
  pub replay : Replayed
  pub found :
      replay_of deps state stage (state.steps + 1) (dispatch_for deps state stage) ≡ some replay
  pub result :
      final ≡ replay_state deps state stage (state.steps + 1) (dispatch_for deps state stage) replay

-- The stage of the state is declared and is within the step bound.
pub record Within (deps : PipelineDeps) (state : PipelineState) (stage : Stage) : Type 0 where
  pub declared : lookup state.stage (stages deps.contract) ≡ some stage
  pub room : state.steps + 1 ≤ deps.bounds.max_steps

module _ (deps : PipelineDeps) (state : PipelineState) where
  module _ (stage : Stage) where
    finish-cases :
        (e : StepEnd) (final : PipelineState)
        → run_steps deps state stage
            (state.steps + 1)
            (dispatch_for deps state stage)
            (wrapper_steps deps.contract)
            (start_frame deps state stage (state.steps + 1) (dispatch_for deps state stage))
          ≡ e
        → finish deps state stage (state.steps + 1) (dispatch_for deps state stage) e ≡ moved final
        → Stopped state final ⊎ Finished deps state stage final
    unfolding finish
    finish-cases (goes_on frame) final e h = elim (Option-cases frame.outcome) [
      | inl q ↦ absurd (ground arith)
      | inr (outcome, q) ↦ inr (record {
        frame = frame;
        outcome = outcome;
        stepped = e;
        reported = q;
        result = ground arith;
      })
    ]
    finish-cases (ends f) final e h = inl (
        run_steps-Stopped deps state stage (state.steps + 1) (dispatch_for deps state stage)
          (wrapper_steps deps.contract) _ final (e ∙ ground arith))
    finish-cases (suspends s) final e h = cc
    finish-cases fails final e h = cc

  -- One execution of the node either ends the walk, not by completion, or is of a declared stage
  -- within the step bound, which ran through its steps or was replayed.
  pub run_stage-cases :
      (final : PipelineState)
      → run_stage deps state ≡ moved final
      → Stopped state final
        ⊎ ((stage : Stage) × Within deps state stage
            × (Finished deps state stage final ⊎ Reentered deps state stage final))
  unfolding run_stage run_known_stage end_with
  run_stage-cases final h = elim (Option-cases (lookup state.stage (stages deps.contract))) [
    | inl e ↦ inl (ground arith)
    | inr (stage, e) ↦ elim (Bool-cases (ltb deps.bounds.max_steps (state.steps + 1))) [
      | inl l ↦ inl (ground arith)
      | inr l ↦
          elim (Option-cases
            (replay_of deps state stage (state.steps + 1) (dispatch_for deps state stage))) [
              | inr (r, q) ↦ inr (
                stage,
                record { declared = e; room = ground arith },
                inr (record { replay = r; found = q; result = ground arith }),
              )
              | inl q ↦
                  elim (finish-cases stage
                    (run_steps deps state stage (state.steps + 1) (dispatch_for deps state stage)
                      (wrapper_steps deps.contract)
                      (start_frame deps state stage (state.steps + 1)
                        (dispatch_for deps state stage)))
                    final refl (ground arith)) [
                      | inl stopped ↦ inl stopped
                      | inr finished ↦
                          inr (stage, record { declared = e; room = ground arith }, inl finished)
                    ]
            ]
    ]
  ]

-- What one execution of the node keeps.
pub record Kept (state final : PipelineState) : Type 0 where
  pub stage : final.stage ≡ state.stage
  pub attempt : final.attempt ≡ state.attempt
  pub rework_count : final.rework_count ≡ state.rework_count
  pub retries : final.retries ≡ state.retries

module _ (deps : PipelineDeps) (state final : PipelineState) where
  Finished-Kept :
      (stage : Stage)
      → Finished deps state stage final
      → Kept state final × (final.steps ≡ state.steps + 1)
  unfolding stage_done
  Finished-Kept stage f = ground arith

  Reentered-Kept :
      (stage : Stage)
      → Reentered deps state stage final
      → Kept state final × (final.steps ≡ state.steps + 1)
  unfolding replay_state
  Reentered-Kept stage r = ground arith

  pub run_stage-Kept : run_stage deps state ≡ moved final → Kept state final
  run_stage-Kept h = elim (run_stage-cases deps state final h) [
    | inl s ↦ record {
      stage = s.stage;
      attempt = s.attempt;
      rework_count = s.rework_count;
      retries = s.retries;
    }
    | inr (stage, w, inl f) ↦ (Finished-Kept stage f).0
    | inr (stage, w, inr r) ↦ (Reentered-Kept stage r).0
  ]

  -- An execution that does not end the walk takes one step, within the bound.
  pub run_stage-steps :
      run_stage deps state ≡ moved final
      → is_some final.terminal ≡ false
      → (final.steps ≡ state.steps + 1) × (state.steps + 1 ≤ deps.bounds.max_steps)
  run_stage-steps h o = elim (run_stage-cases deps state final h) [
    | inl s ↦ cc (s.over)
    | inr (stage, w, inl f) ↦ ((Finished-Kept stage f).1, w.room)
    | inr (stage, w, inr r) ↦ ((Reentered-Kept stage r).1, w.room)
  ]

  -- No execution of the node completes the walk: that is for `advance`.
  pub run_stage-incomplete :
      run_stage deps state ≡ moved final → state.terminal ≡ none → final.terminal ≢ some complete
  unfolding stage_done replay_state
  run_stage-incomplete h o c = elim (run_stage-cases deps state final h) [
    | inl s ↦ s.incomplete c
    | inr (stage, w, inl f) ↦ ground arith
    | inr (stage, w, inr r) ↦ ground arith
  ]
