-- ===== src/Dd/Pipeline/Walk.antt =====
-- The graph of graphs/dd_pipeline.py: `run_stage` and `advance` in turn until a terminal.
use fleet_graph.Common.{ℕ, zero, suc, String, Bool, false, none, [], is_some, if◌then◌else◌}
use fleet_graph.Common.Dict.{Dict}
use fleet_graph.Dd.Pipeline.{
  PipelineState, PipelineDeps, moved, suspended, crashed, Suspension, no_reason, mode_initial,
}
use fleet_graph.Dd.Pipeline.Ending.{empty_receipt}
use fleet_graph.Dd.Pipeline.RunStage.{run_stage}
use fleet_graph.Dd.Pipeline.Advance.{advance}
use fleet_graph.Dd.Pipeline.{NodeEnd}

pub data WalkEnd : Type 0 where
  ended : PipelineState → WalkEnd
  -- suspended with the state that the next resume starts from
  waiting : PipelineState → Suspension → WalkEnd
  -- broken off by an exception in `run_stage`, with the state before it
  broke : PipelineState → WalkEnd
  out_of_fuel : WalkEnd

-- END if state.get("terminal")
abbrev pub is_over : PipelineState → Bool
is_over state = is_some state.terminal

-- The edges behind a node: from `run_stage` to `advance`, and from there to the next stage.
abbrev pub after_node : (PipelineState → WalkEnd) → PipelineDeps → PipelineState → NodeEnd → WalkEnd
after_node again deps state (suspended suspension) = waiting state suspension
after_node again deps state crashed = broke state
after_node again deps state (moved ran) =
    if is_over ran
    then ended ran
    else let next = advance deps ran in
      let rest = again next in if is_over next then ended next else rest

unfoldable pub walk : ℕ → PipelineDeps → PipelineState → WalkEnd
walk zero deps state = out_of_fuel
walk (suc fuel) deps state =
    after_node (λ next. walk fuel deps next) deps state (run_stage deps state)

unfoldable pub initial_state : String → String → String → Dict String → ℕ → String → PipelineState
initial_state development_id stage head_commit artifacts generation attempt_started_at = record {
  development_id = development_id;
  stage = stage;
  mode = mode_initial;
  generation = generation;
  attempt = 1;
  attempt_started_at = attempt_started_at;
  pinned_attempt_id = "";
  head_commit = head_commit;
  artifacts = artifacts;
  steps = 0;
  rework_count = 0;
  retries = [];
  re_adopt = [];
  last_receipt = empty_receipt;
  receipt_digests = [];
  last_event = "";
  last_failure_code = "";
  last_failure_detail = "";
  history = [];
  terminal = none;
  terminal_reason = no_reason;
  terminal_code = "";
  is_fault = false;
  costs = [];
}
