-- ===== src/Samples/Machine.antt =====
-- The theorems on the stage machine at the shipped contract.
use fleet_graph.Common.{Option, Result, String, err, none, ok, refl, some, ◌↔◌, ◌≡◌}
use fleet_graph.Common.Dict.{lookup}
use fleet_graph.Common.Json.{Json, end, field, obj, one_field, str}
use fleet_graph.Dd.Lifecycle.Bindings
use fleet_graph.Dd.Lifecycle.{LifecycleError, Stage, Transition, stages, transition}
use fleet_graph.Dd.Lifecycle.Edges.{Honours, advance_iff}
use fleet_graph.Dd.Lifecycle.Shipped.{shipped}
use fleet_graph.Dd.Lifecycle.Spine.{
  artifact_consumers, artifact_producers, artifact_successor, carried,
}
use fleet_graph.Dd.Lifecycle.Succession.{Carries, successor_unique}

abbrev approve : Option Json
approve = some (obj (field "output_commit" (str "c1") (field "verdict" (str "APPROVE") end)))

abbrev next : Option Json
next = some (one_field "input_commit" (str "c1"))

abbrev edge_taken : Result LifecycleError Transition → Transition
edge_taken (ok t) = t
edge_taken (err e) = record {
  source = "";
  event = "";
  target = "";
  next_mode = "";
  required_receipt = none;
  commit_binding = none;
  event_binding = none;
}

abbrev approval : Transition
approval = edge_taken (transition shipped "final_review" "APPROVE")

advance_iff_example :
    (Bindings.advance shipped "final_review" "APPROVE" approve next ≡ ok approval)
    ↔ ((transition shipped "final_review" "APPROVE" ≡ ok approval) × Honours approval approve next)
advance_iff_example = advance_iff shipped "final_review" "APPROVE" approve next approval

after_acceptance : artifact_successor shipped "acceptance" ≡ ok (some "human_gate")
unfolding artifact_successor shipped stages lookup carried artifact_producers artifact_consumers
after_acceptance = refl

successor_unique_example :
    (current : Stage) × (lookup "acceptance" (stages shipped) ≡ some current)
    × Carries shipped "acceptance" current.produced_artifacts "human_gate"
    × ((u : String) → Carries shipped "acceptance" current.produced_artifacts u → u ≡ "human_gate")
successor_unique_example = successor_unique shipped "acceptance" "human_gate" after_acceptance

carries_result : carried shipped "acceptance" "acceptance_result" ≡ some "human_gate"
unfolding carried shipped stages lookup artifact_producers artifact_consumers
carries_result = refl
