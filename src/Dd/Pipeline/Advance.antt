-- ===== src/Dd/Pipeline/Advance.antt =====
-- The node `advance` of graphs/dd_pipeline.py: where the walk goes after a stage.
use fleet_graph.Common.{
  ◌+◌, String, Bool, true, false, not, ◌&&◌, ◌||◌, Option, none, some, List, [], ◌∷◌, ◌++◌, ◌==◌,
  ltb, get_or, is_some, Result, ok, err, if◌then◌else◌,
}
use fleet_graph.Common.Dict.{lookup, insert}
use fleet_graph.Common.Json.{Json, null, str, obj, end, one_field}
use fleet_graph.Dd.Lifecycle.{
  Transition, LifecycleError, is_rework, is_retryable, failure_transition, events_from,
}
use fleet_graph.Dd.Lifecycle.Spine.{is_terminal, spine}
use fleet_graph.Dd.Lifecycle.Bindings
use fleet_graph.Dd.Egress.{RootCause, transport, root_cause_for}
use fleet_graph.Dd.Pipeline.{
  complete, failed, bounds, last_stage, stage_failed, no_edge, ambiguous, rework_limit, settlement,
  CostFact, PipelineState, PipelineDeps, failure_event, spine_event, mode_inherit,
}
use fleet_graph.Dd.Pipeline.Ending.{end_with, end_fault}
use fleet_graph.Common.Dict.{Dict}

-- last_receipt or None
unfoldable pub receipt_of : Json → Option Json
receipt_of null = none
receipt_of (obj end) = none
receipt_of r = some r

is_transport : RootCause → Bool
is_transport transport = true
is_transport _ = false

unfoldable pub settled_costs : PipelineDeps → PipelineState → List CostFact
settled_costs deps state =
    if deps.cost_plane && not (state.development_id == "")
    then settlement state.development_id ∷ []
    else []

-- Whether the failure of this stage is retried or ends the order: a declared failure exit, or a
-- transport failure of a stage that declares none.
unfoldable pub routes_failure : PipelineDeps → PipelineState → Bool
unfolding is_transport
routes_failure deps state =
    is_some (failure_transition deps.contract state.stage state.last_event)
    || ((state.last_event == failure_event)
        && is_transport (root_cause_for state.last_failure_code state.last_failure_detail none))

unfoldable pub retry_or_fail : PipelineDeps → PipelineState → PipelineState
retry_or_fail deps state =
    let used = get_or (lookup state.stage state.retries) 0 in
    if is_retryable deps.contract state.last_failure_code && ltb used deps.bounds.max_retries
    then record state { retries = insert state.stage (used + 1) state.retries }
    else end_with deps state failed stage_failed false state.last_failure_code

abbrev pub follow_spine : PipelineDeps → PipelineState → Option String → PipelineState
follow_spine deps state none = end_fault deps state no_edge
follow_spine deps state (some successor) = record state { stage = successor }

abbrev pub read_spine :
    PipelineDeps → PipelineState → Result LifecycleError (Dict String) → PipelineState
read_spine deps state (err e) = end_fault deps state ambiguous
read_spine deps state (ok m) = follow_spine deps state (lookup state.stage m)

abbrev pub try_spine : PipelineDeps → PipelineState → List String → PipelineState
try_spine deps state [] = read_spine deps state (spine deps.contract)
try_spine deps state (event ∷ more) = end_fault deps state no_edge

-- No declared edge: only a stage with no verdict edges may take the spine, on the spine event.
unfoldable pub without_edge : PipelineDeps → PipelineState → PipelineState
without_edge deps state =
    if not (state.last_event == spine_event)
    then end_fault deps state no_edge
    else try_spine deps state (events_from deps.contract state.stage)

unfoldable pub take_edge : PipelineDeps → PipelineState → Transition → PipelineState
take_edge deps state t =
    if not (is_rework t)
    then record state {
      stage = t.target;
      mode = if t.next_mode == mode_inherit then state.mode else t.next_mode;
    }
    else if ltb deps.bounds.max_rework (state.rework_count + 1)
    then end_with deps state bounds rework_limit false "REWORK_LIMIT_REACHED"
    else record state {
      stage = t.target;
      mode = t.next_mode;
      attempt = state.attempt + 1;
      attempt_started_at = deps.stamp state.steps;
      pinned_attempt_id = "";
      rework_count = state.rework_count + 1;
    }

-- The edge of the contract for the event that the stage reported, with its bindings checked.
unfoldable pub edge_of : PipelineDeps → PipelineState → Result LifecycleError Transition
edge_of deps state =
    Bindings.advance deps.contract state.stage state.last_event (receipt_of state.last_receipt)
      (some (one_field "input_commit" (str state.head_commit)))

abbrev pub follow : PipelineDeps → PipelineState → Result LifecycleError Transition → PipelineState
follow deps state (ok t) = take_edge deps state t
follow deps state (err e) = without_edge deps state

unfoldable pub route : PipelineDeps → PipelineState → PipelineState
route deps state = follow deps state (edge_of deps state)

unfoldable pub advance : PipelineDeps → PipelineState → PipelineState
advance deps state =
    if is_terminal deps.contract state.stage
    then end_with deps (record state { costs = state.costs ++ settled_costs deps state }) complete
        last_stage false ""
    else if routes_failure deps state
    then retry_or_fail deps state
    else route deps state
