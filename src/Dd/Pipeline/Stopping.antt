-- ===== src/Dd/Pipeline/Stopping.antt =====
-- How a wrapper step of graphs/dd_pipeline.py can end the walk.
use fleet_graph.Common.{List, String, [], arith, is_some, some, true, ℕ, ◌∷◌, ◌≡◌, ◌≢◌}
use fleet_graph.Dd.Lifecycle.{Stage}
use fleet_graph.Dd.Pipeline.{Dispatch, PipelineDeps, PipelineState, complete}
use fleet_graph.Dd.Pipeline.Ending.{end_with, refused_state}
use fleet_graph.Dd.Pipeline.Steps.{
  Frame, StepEnd, after_act, after_seal, ends, fails, goes_on, input_verify, materialize,
  output_verify, run_actor, run_steps, suspends, then_step, wrapper_step,
}

-- The walk is over, not by completion, and what the bounds count is as it was.
pub record Stopped (state final : PipelineState) : Type 0 where
  pub over : is_some final.terminal ≡ true
  pub incomplete : final.terminal ≢ some complete
  pub stage : final.stage ≡ state.stage
  pub attempt : final.attempt ≡ state.attempt
  pub rework_count : final.rework_count ≡ state.rework_count
  pub retries : final.retries ≡ state.retries

module _ (deps : PipelineDeps) (state : PipelineState) (stage : Stage) (steps : ℕ)
    (dispatch : Dispatch) where
  input_verify-Stopped :
      (frame : Frame) (final : PipelineState)
      → input_verify deps state stage steps dispatch frame ≡ ends final
      → Stopped state final
  unfolding input_verify end_with
  input_verify-Stopped frame final h = ground arith

  run_actor-Stopped :
      (frame : Frame) (final : PipelineState)
      → run_actor deps state stage steps dispatch frame ≡ ends final
      → Stopped state final
  unfolding run_actor after_act end_with refused_state
  run_actor-Stopped frame final h = ground arith

  materialize-Stopped :
      (frame : Frame) (final : PipelineState)
      → materialize deps state stage steps dispatch frame ≡ ends final
      → Stopped state final
  unfolding materialize after_seal end_with refused_state
  materialize-Stopped frame final h = ground arith

  output_verify-Stopped :
      (frame : Frame) (final : PipelineState)
      → output_verify deps state stage steps dispatch frame ≡ ends final
      → Stopped state final
  unfolding output_verify end_with
  output_verify-Stopped frame final h = ground arith

  wrapper_step-Stopped :
      (step : String) (frame : Frame) (final : PipelineState)
      → wrapper_step deps state stage steps dispatch step frame ≡ ends final
      → Stopped state final
  unfolding wrapper_step end_with
  wrapper_step-Stopped step frame final h = ground (
    arith,
    input_verify-Stopped frame final,
    run_actor-Stopped frame final,
    materialize-Stopped frame final,
    output_verify-Stopped frame final,
  )

  after_step-Stopped :
      (e : StepEnd) (rest : Frame → StepEnd) (final : PipelineState)
      → ((f : PipelineState) → e ≡ ends f → Stopped state f)
      → ((next : Frame) → rest next ≡ ends final → Stopped state final)
      → then_step e rest ≡ ends final
      → Stopped state final
  after_step-Stopped (goes_on next) rest final now later h = later next h
  after_step-Stopped (ends f) rest final now later h = now final h
  after_step-Stopped (suspends s) rest final now later h = cc
  after_step-Stopped fails rest final now later h = cc

  pub run_steps-Stopped :
      (todo : List String) (frame : Frame) (final : PipelineState)
      → run_steps deps state stage steps dispatch todo frame ≡ ends final
      → Stopped state final
  unfolding run_steps
  run_steps-Stopped [] frame final h = cc
  run_steps-Stopped (step ∷ rest) frame final h =
      after_step-Stopped (wrapper_step deps state stage steps dispatch step frame)
        (λ next. run_steps deps state stage steps dispatch rest next) final
        (λ f e. wrapper_step-Stopped step frame f e) (λ next e. run_steps-Stopped rest next final e)
        h
