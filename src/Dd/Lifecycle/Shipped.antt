-- ===== src/Dd/Lifecycle/Shipped.antt =====
-- The contract of dd/contracts/development-lifecycle.json, with the descriptions left out.
use fleet_graph.Common.{String, Option, none, some, List, [], ◌∷◌, true, false}
use fleet_graph.Dd.Lifecycle.{Contract, RawStage, RawTransition, RawFailure, Binding}

abbrev script_stage : String → List String → List String → RawStage
script_stage id required produced = record {
  id = id;
  actor = "script";
  wrapper = some true;
  required_artifacts = some required;
  produced_artifacts = some produced;
  protocol_artifacts = [];
}

abbrev llm_stage : String → List String → List String → List String → RawStage
llm_stage id required produced protocol = record {
  id = id;
  actor = "llm";
  wrapper = some true;
  required_artifacts = some required;
  produced_artifacts = some produced;
  protocol_artifacts =
      ("dev-dispatch.attempt-context/v1", record { produced_artifacts = some protocol }) ∷ [];
}

abbrev commit_chain : Binding
commit_chain = record {
  source = "required_receipt.output_commit";
  target = "next_dispatch.input_commit";
  operator = some "equal";
}

abbrev verdict_is_event : Binding
verdict_is_event = record {
  source = "required_receipt.verdict";
  target = "transition.on";
  operator = some "equal";
}

abbrev edge : String → String → String → String → Option Binding → RawTransition
edge source event target mode event_binding = record {
  source = source;
  event = event;
  target = target;
  next_mode = some mode;
  required_receipt = some source;
  commit_binding = some commit_chain;
  event_binding = event_binding;
}

abbrev failure_exit : String → RawFailure
failure_exit source = record {
  source = source;
  event = "failed";
  required_transport_record = "review_stage_failure";
  terminal = some true;
  materialize = some false;
  receipt = some false;
}

unfoldable pub shipped : Contract
shipped = record {
  contract_version = 2;
  stages =
      (script_stage "configure" ("spec" ∷ []) ("run_config" ∷ []))
      ∷ (llm_stage "implement" ("spec" ∷ "run_config" ∷ [])
          ("implementation_evidence" ∷ "product_code" ∷ [])
          ("attempt_context_implement_handoff" ∷ []))
      ∷ (llm_stage "continuous_review" ("spec" ∷ "implementation_evidence" ∷ [])
          ("continuous_verdict" ∷ "feedback" ∷ [])
          ("attempt_context_review" ∷ "attempt_context_feedback_index" ∷ []))
      ∷ (llm_stage "final_review" ("spec" ∷ "continuous_verdict" ∷ []) ("final_verdict" ∷ [])
          ("attempt_context_review" ∷ "attempt_context_feedback_index" ∷ []))
      ∷ (script_stage "acceptance" ("spec" ∷ []) ("acceptance_result" ∷ []))
      ∷ (script_stage "human_gate" ("acceptance_result" ∷ []) ("gate_decision" ∷ []))
      ∷ (script_stage "merger" ("gate_decision" ∷ []) ("merge_result" ∷ []))
      ∷ [];
  transitions =
      (edge "implement" "success" "continuous_review" "inherit" none)
      ∷ (edge "continuous_review" "REJECT" "implement" "rework" (some verdict_is_event))
      ∷ (edge "continuous_review" "APPROVE" "final_review" "inherit" (some verdict_is_event))
      ∷ (edge "final_review" "REJECT" "implement" "rework" (some verdict_is_event))
      ∷ (edge "final_review" "APPROVE" "acceptance" "inherit" (some verdict_is_event))
      ∷ [];
  wrapper = some ("input_verify" ∷ "actor" ∷ "materialize" ∷ "output_verify" ∷ []);
  failure_transitions =
      (failure_exit "implement")
      ∷ (failure_exit "continuous_review")
      ∷ (failure_exit "final_review")
      ∷ [];
  failure_taxonomy =
      ("INVALID_HANDOFF_SCHEMA", some false)
      ∷ ("INVALID_WORKTREE", some false)
      ∷ ("DIRTY_WORKTREE", some false)
      ∷ ("LOCAL_COMMIT_MISMATCH", some false)
      ∷ ("INVALID_ARTIFACT_PATH", some false)
      ∷ ("ARTIFACT_BLOB_MISMATCH", some false)
      ∷ ("REMOTE_HEAD_CONFLICT", some false)
      ∷ ("MR_NOT_FOUND", some true)
      ∷ ("MR_AMBIGUOUS", some false)
      ∷ ("MR_STATE_INVALID", some false)
      ∷ ("MR_IDENTITY_MISMATCH", some false)
      ∷ ("MR_COMMIT_MISMATCH", some false)
      ∷ ("HANDOFF_CHAIN_MISMATCH", some false)
      ∷ ("PLUGIN_CONTRACT_MISMATCH", some false)
      ∷ ("MATERIALIZATION_FAILED", some true)
      ∷ ("PROVIDER_UNAVAILABLE", some true)
      ∷ ("ATTESTATION_WRITE_FAILED", some true)
      ∷ ("SECRET_SENTINEL_DETECTED", some false)
      ∷ ("ATTESTATION_MISMATCH", some false)
      ∷ ("UNDECLARED_ARTIFACT", some false)
      ∷ ("ARTIFACT_CONTENT_MISMATCH", some false)
      ∷ ("REVIEWER_GIT_MUTATION", some false)
      ∷ ("INVALID_REVIEW_LOCATION", some false)
      ∷ ("INVALID_REQUIREMENT_MAPPER_ENVELOPE", some false)
      ∷ ("INVALID_VERDICT_AUDITOR_ENVELOPE", some false)
      ∷ ("EXTERNAL_REVIEW_RESULT_SCHEMA_MISMATCH", some false)
      ∷ ("UNVERIFIED_TEST_CLAIM", some false)
      ∷ [];
}
