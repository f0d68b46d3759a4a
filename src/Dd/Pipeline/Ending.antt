-- ===== src/Dd/Pipeline/Ending.antt =====
-- How the walk ends, what a stage is handed, and what is recorded of a refusal: `_terminal`,
-- `_dispatch_for` and `_refused` of graphs/dd_pipeline.py.
use fleet_graph.Common.{
  ℕ, String, Bool, true, false, not, ◌&&◌, none, some, List, [], ◌∷◌, ◌++◌, ◌==◌, get_or,
  if◌then◌else◌,
}
use fleet_graph.Common.Dict.{lookup}
use fleet_graph.Common.Json.{Json, obj, end}
use fleet_graph.Dd.Lifecycle.{Stage}
use fleet_graph.Dd.Pipeline.{
  Terminal, complete, refused, fault, Reason, said, Refusal, refused_at, CostFact,
  absent_if_missing, management, PipelineState, Dispatch, PipelineDeps,
}

abbrev pub empty_receipt : Json
empty_receipt = obj end

-- The facts that the cost plane gets when the order ends.
unfoldable pub ending_costs : PipelineDeps → Terminal → String → List CostFact
ending_costs deps kind order_id =
    if deps.cost_plane && not (order_id == "")
    then (elim kind [ complete ↦ [] | _ ↦ absent_if_missing order_id ∷ [] ])
      ++ (elim deps.management_cost [
        | none ↦ []
        | some cost ↦ management order_id (cost order_id) ∷ []
      ])
    else []

unfoldable pub end_with :
    PipelineDeps → PipelineState → Terminal → Reason → Bool → String → PipelineState
end_with deps state kind reason is_fault code = record state {
  terminal = some kind;
  terminal_reason = reason;
  terminal_code = code;
  is_fault = is_fault;
  costs = state.costs ++ ending_costs deps kind state.development_id;
}

abbrev pub end_fault : PipelineDeps → PipelineState → Reason → PipelineState
end_fault deps state reason = end_with deps state fault reason true ""

unfoldable pub dispatch_for : PipelineDeps → PipelineState → Stage → Dispatch
dispatch_for deps state stage = record {
  development_id = state.development_id;
  stage = stage.id;
  mode = state.mode;
  generation = state.generation;
  attempt = state.attempt;
  attempt_started_at = state.attempt_started_at;
  pinned_attempt_id = state.pinned_attempt_id;
  retry = get_or (lookup stage.id state.retries) 0;
  re_adopt = get_or (lookup stage.id state.re_adopt) false;
  input_commit = state.head_commit;
  parent_receipt = state.last_receipt;
  receipt_digests = state.receipt_digests;
  artifact_commits = state.artifacts;
  required_artifacts = stage.required_artifacts;
  produced_artifacts = stage.produced_artifacts;
  contract_version = deps.contract.contract_version;
}

unfoldable pub refused_state :
    PipelineDeps → PipelineState → String → String → Refusal → ℕ → PipelineState
refused_state deps state stage_id step refusal steps =
    record (end_with deps state refused (said refusal.message) false refusal.code) {
      steps = steps;
      history = state.history ++ refused_at stage_id step refusal.message refusal.code ∷ [];
    }
