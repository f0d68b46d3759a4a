-- ===== src/Dd/Pipeline/Steps.antt =====
-- The wrapper steps of a stage: the loop of `run_stage` in graphs/dd_pipeline.py.
use fleet_graph.Common.{
  ℕ, String, Bool, true, false, not, Option, none, some, List, [], ◌∷◌, filter, elem, ◌==◌, get_or,
  if◌then◌else◌,
}
use fleet_graph.Common.Dict.{Dict, insert, contains}
use fleet_graph.Dd.Lifecycle.{Stage, FailureTransition, failure_transition}
use fleet_graph.Dd.Pipeline.{
  said, unknown_step, inputs_missing, no_materializer, outputs_missing, StageOutcome, Sealed,
  PipelineState, Dispatch, SealResult, seals, declines, loses, breaks, PipelineDeps, Suspension,
  failure_event,
}
use fleet_graph.Dd.Pipeline.Ending.{end_fault, refused_state}
use fleet_graph.Dd.Pipeline.Acting.{
  max_gate_rechecks, Acted, acted, waits, refused_by, faulted, transport_lost, broken, act_or_wait,
  transport_exhausted_outcome, actor_for,
}

-- The local variables of the loop over the wrapper steps.
pub record Frame : Type 0 where
  pub artifacts : Dict String
  pub digests : Dict String
  pub outcome : Option StageOutcome
  pub head_commit : String

pub data StepEnd : Type 0 where
  goes_on : Frame → StepEnd
  ends : PipelineState → StepEnd
  suspends : Suspension → StepEnd
  fails : StepEnd

unfoldable pub missing_from : Dict String → List String → List String
missing_from artifacts kinds = filter (λ k. not (contains k artifacts)) kinds

unfoldable pub seal_all : List String → String → Dict String → Dict String
seal_all [] commit artifacts = artifacts
seal_all (k ∷ ks) commit artifacts = seal_all ks commit (insert k commit artifacts)

unfoldable pub skips_seal : Option FailureTransition → Bool
skips_seal none = false
skips_seal (some exit) = not exit.materialize

abbrev pub is_declared : Option FailureTransition → Bool
is_declared none = false
is_declared (some exit) = true

abbrev pub then_step : StepEnd → (Frame → StepEnd) → StepEnd
then_step (goes_on frame) rest = rest frame
then_step (ends final) rest = ends final
then_step (suspends suspension) rest = suspends suspension
then_step fails rest = fails

module _ (deps : PipelineDeps) (state : PipelineState) (stage : Stage) (steps : ℕ)
    (dispatch : Dispatch) where
  unfoldable pub input_verify : Frame → StepEnd
  input_verify frame = elim (missing_from frame.artifacts stage.required_artifacts) [
    | [] ↦ goes_on frame
    | _ ↦ ends (end_fault deps state inputs_missing)
  ]

  -- What the node makes of an ended call of the actor.
  unfoldable pub after_act : Frame → Acted → StepEnd
  after_act frame (acted outcome) = goes_on (record frame { outcome = some outcome })
  after_act frame (waits suspension) = suspends suspension
  after_act frame (refused_by refusal) =
      ends (refused_state deps state stage.id "actor" refusal steps)
  after_act frame (faulted message) = ends (end_fault deps state (said message))
  after_act frame (transport_lost message) =
      goes_on (record frame { outcome = some (transport_exhausted_outcome message) })
  after_act frame broken = fails

  unfoldable pub capability_error : Option String
  capability_error = elim deps.capability [ none ↦ none | some require ↦ require steps ]

  unfoldable pub run_actor : Frame → StepEnd
  run_actor frame = elim capability_error [
    | some message ↦ ends (end_fault deps state (said message))
    | none ↦ elim (actor_for deps stage) [
      | none ↦ ends (end_fault deps state (said "script stage with no registered script"))
      | some actor ↦ after_act frame (
          act_or_wait max_gate_rechecks 0 (deps.resume_values steps)
            (λ call. actor steps call stage dispatch))
    ]
  ]

  -- The receipt and the artifacts of the sealer stand in for those of the actor.
  unfoldable pub sealed_outcome : Sealed → StageOutcome → StageOutcome
  sealed_outcome sealed outcome = record outcome {
    receipt = elim sealed.receipt [ none ↦ outcome.receipt | some r ↦ some r ];
    produced = get_or sealed.produced outcome.produced;
  }

  unfoldable pub after_seal : Frame → StageOutcome → SealResult → StepEnd
  after_seal frame outcome (seals sealed) =
      let outcome' = sealed_outcome sealed outcome in
      goes_on (record {
        artifacts = seal_all outcome'.produced sealed.commit frame.artifacts;
        digests = elim sealed.produced [
          | none ↦ frame.digests
          | some _ ↦ insert stage.id (deps.digest sealed.receipt) frame.digests
        ];
        outcome = some outcome';
        head_commit = sealed.commit;
      })
  after_seal frame outcome (declines refusal) =
      ends (refused_state deps state stage.id "materialize" refusal steps)
  after_seal frame outcome (loses message) =
      goes_on (record frame { outcome = some (transport_exhausted_outcome message) })
  after_seal frame outcome (breaks message) = ends (end_fault deps state (said message))

  unfoldable pub materialize : Frame → StepEnd
  materialize frame = elim frame.outcome [
    | none ↦ fails
    | some outcome ↦
        if skips_seal (failure_transition deps.contract stage.id outcome.event)
        then goes_on frame
        else elim deps.materializer [
          | none ↦ ends (end_fault deps state no_materializer)
          | some sealer ↦ after_seal frame outcome (sealer steps stage dispatch outcome)
        ]
  ]

  unfoldable pub output_verify : Frame → StepEnd
  output_verify frame = elim frame.outcome [
    | none ↦ fails
    | some outcome ↦
        if is_declared (failure_transition deps.contract stage.id outcome.event)
        then goes_on frame
        else if outcome.event == failure_event
        then goes_on frame
        else elim (filter (λ k. not (elem k outcome.produced)) stage.produced_artifacts) [
          | [] ↦ goes_on frame
          | _ ↦ ends (end_fault deps state outputs_missing)
        ]
  ]

  unfoldable pub wrapper_step : String → Frame → StepEnd
  wrapper_step step frame =
      if step == "input_verify"
      then input_verify frame
      else if step == "actor"
      then run_actor frame
      else if step == "materialize"
      then materialize frame
      else if step == "output_verify"
      then output_verify frame
      else ends (end_fault deps state unknown_step)

  unfoldable pub run_steps : List String → Frame → StepEnd
  run_steps [] frame = goes_on frame
  run_steps (step ∷ rest) frame = then_step (wrapper_step step frame) (λ next. run_steps rest next)
