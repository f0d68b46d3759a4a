-- ===== src/Dd/Pipeline/Acting.antt =====
-- One call of a stage's actor, with the suspensions of the human gate: `_act_or_wait` of
-- graphs/dd_pipeline.py.
use fleet_graph.Common.{ℕ, zero, suc, ◌+◌, String, false, Option, none, some, [], if◌then◌else◌}
use fleet_graph.Common.Dict.{lookup}
use fleet_graph.Dd.Lifecycle.{Stage, is_llm}
use fleet_graph.Dd.Egress.{provider_unavailable}
use fleet_graph.Dd.Pipeline.{
  StageOutcome, Refusal, ActResult, acts, pends, refuses, faults, exhausts, raises, Actor,
  PipelineDeps, Suspension, awaiting, refused_pending, failure_event,
}

abbrev pub max_gate_rechecks : ℕ
max_gate_rechecks = 8

-- The ways that `_act_or_wait` ends.
pub data Acted : Type 0 where
  acted : StageOutcome → Acted
  waits : Suspension → Acted
  refused_by : Refusal → Acted
  faulted : String → Acted
  transport_lost : String → Acted
  broken : Acted

-- The loop over the re-checks: `left` of them are left, `call` calls have been made, and `resumes`
-- resume values are unread. An interrupt with no resume value suspends the graph.
unfoldable pub act_or_wait : ℕ → ℕ → ℕ → (ℕ → ActResult) → Acted
act_or_wait zero call resumes act = faulted "re-checked the board without suspending"
act_or_wait (suc left) call resumes act = elim (act call) [
  | acts outcome ↦ acted outcome
  | pends ticket ↦ elim resumes [
    | zero ↦ waits (awaiting ticket)
    | suc more ↦ act_or_wait left (call + 1) more act
  ]
  | refuses refusal ↦
      if refusal.resumable
      then elim resumes [ zero ↦ waits (refused_pending refusal) | suc more ↦ refused_by refusal ]
      else refused_by refusal
  | faults message ↦ faulted message
  | exhausts message ↦ transport_lost message
  | raises ↦ broken
]

unfoldable pub transport_exhausted_outcome : String → StageOutcome
transport_exhausted_outcome message = record {
  event = failure_event;
  receipt = none;
  produced = [];
  failure_code = provider_unavailable;
  detail = message;
  run_in_flight = false;
}

-- The actor that the contract's `actor` field names.
unfoldable pub actor_for : PipelineDeps → Stage → Option Actor
actor_for deps stage = if is_llm stage then some deps.dispatcher else lookup stage.id deps.scripts
