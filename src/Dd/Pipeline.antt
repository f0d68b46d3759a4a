-- ===== src/Dd/Pipeline.antt =====
-- The data of the pipeline that walks the stage machine: graphs/dd_pipeline.py. What the pipeline
-- talks to (actors, sealer, replayer, capability lock, clock, digest) is a field of `PipelineDeps`.
-- An answer may change over time, so each takes the number of the step that asks.
pub mod Ending
pub mod Acting
pub mod Steps
pub mod RunStage
pub mod Advance
pub mod Walk
pub mod Stopping
pub mod Cases
pub mod Bounds
pub mod Routes
pub mod Counting
pub mod Standing
pub mod Gates
pub mod Voting
pub mod Verified
pub mod FailedMerge
use fleet_graph.Common.{ℕ, String, Bool, true, false, Option, none, some, List, [], ◌∷◌, ◌==◌}
use fleet_graph.Common.Dict.{Dict}
use fleet_graph.Common.Json.{Json}
use fleet_graph.Dd.Lifecycle.{Contract, Stage}
use fleet_graph.Dd.Egress.{RootCause}

abbrev pub spine_event : String
spine_event = "success"

abbrev pub failure_event : String
failure_event = "failed"

abbrev pub mode_initial : String
mode_initial = "initial"

abbrev pub mode_inherit : String
mode_inherit = "inherit"

unfoldable pub known_wrapper_steps : List String
known_wrapper_steps = "input_verify" ∷ "actor" ∷ "materialize" ∷ "output_verify" ∷ []

pub data Terminal : Type 0 where
  complete failed refused bounds fault : Terminal

-- The reasons that a terminal records. `said` is the text of an exception.
pub data Reason : Type 0 where
  no_reason unknown_stage step_limit unknown_step inputs_missing no_materializer outputs_missing
        last_stage stage_failed no_edge ambiguous rework_limit :
      Reason
  said : String → Reason

-- What an actor reports.
pub record StageOutcome : Type 0 where
  pub event : String
  pub receipt : Option Json
  pub produced : List String
  pub failure_code : String
  pub detail : String
  pub run_in_flight : Bool

-- `StageRefused`.
pub record Refusal : Type 0 where
  pub message : String
  pub code : String
  pub resumable : Bool
  pub ticket : Option Json

pub record Sealed : Type 0 where
  pub commit : String
  pub receipt : Option Json
  pub produced : Option (List String)

pub record Replayed : Type 0 where
  pub event : String
  pub receipt : Json
  pub output_commit : String
  pub attempt_id : String
  pub mode : String

pub record PipelineBounds : Type 0 where
  pub max_steps : ℕ
  pub max_rework : ℕ
  pub max_retries : ℕ

abbrev pub default_bounds : PipelineBounds
default_bounds = record { max_steps = 40; max_rework = 6; max_retries = 2 }

pub record FailureNote : Type 0 where
  pub failure_code : String
  pub detail : String
  pub root_cause : RootCause

-- The entries of the recorded history: a stage that ran (stage, event, attempt, output commit, the
-- rebase fact and the failure), one that was replayed, and one that was refused (stage, step,
-- message, code).
pub data Entry : Type 0 where
  ran : String → String → ℕ → String → Option Json → Option FailureNote → Entry
  replayed : String → String → ℕ → String → Entry
  refused_at : String → String → String → String → Entry

-- The facts that the cost plane is told: what is missing, the management cost, the settlement.
pub data CostFact : Type 0 where
  absent_if_missing : String → CostFact
  management : String → ℕ → CostFact
  settlement : String → CostFact

pub record PipelineState : Type 0 where
  pub development_id : String
  pub stage : String
  pub mode : String
  pub generation : ℕ
  pub attempt : ℕ
  pub attempt_started_at : String
  pub pinned_attempt_id : String
  pub head_commit : String
  pub artifacts : Dict String
  pub steps : ℕ
  pub rework_count : ℕ
  pub retries : Dict ℕ
  pub re_adopt : Dict Bool
  pub last_receipt : Json
  pub receipt_digests : Dict String
  pub last_event : String
  pub last_failure_code : String
  pub last_failure_detail : String
  pub history : List Entry
  pub terminal : Option Terminal
  pub terminal_reason : Reason
  pub terminal_code : String
  pub is_fault : Bool
  -- what the cost plane has been told
  pub costs : List CostFact

pub record Dispatch : Type 0 where
  pub development_id : String
  pub stage : String
  pub mode : String
  pub generation : ℕ
  pub attempt : ℕ
  pub attempt_started_at : String
  pub pinned_attempt_id : String
  pub retry : ℕ
  pub re_adopt : Bool
  pub input_commit : String
  pub parent_receipt : Json
  pub receipt_digests : Dict String
  pub artifact_commits : Dict String
  pub required_artifacts : List String
  pub produced_artifacts : List String
  pub contract_version : ℕ

-- How a call of an actor ends: an outcome, `GatePending`, `StageRefused`, `PipelineFault`,
-- `TransportExhausted`, or an exception that the walker does not catch.
pub data ActResult : Type 0 where
  acts : StageOutcome → ActResult
  pends : Json → ActResult
  refuses : Refusal → ActResult
  faults : String → ActResult
  exhausts : String → ActResult
  raises : ActResult

-- By the step of the walk, the number of the call in this step, the stage and its dispatch.
abbrev pub Actor : Type 0
Actor = ℕ → ℕ → Stage → Dispatch → ActResult

pub data SealResult : Type 0 where
  seals : Sealed → SealResult
  declines : Refusal → SealResult
  loses : String → SealResult
  breaks : String → SealResult

pub record PipelineDeps : Type 0 where
  pub contract : Contract
  pub dispatcher : Actor
  pub scripts : Dict Actor
  pub materializer : Option (ℕ → Stage → Dispatch → StageOutcome → SealResult)
  pub replayer : Option (ℕ → Stage → Dispatch → Option Replayed)
  -- `require`: the text of the error, or none
  pub capability : Option (ℕ → Option String)
  pub bounds : PipelineBounds
  pub cost_plane : Bool
  pub management_cost : Option (String → ℕ)
  pub stamp : ℕ → String
  pub digest : Option Json → String
  -- how many resume values the caller has handed to the node of this step
  pub resume_values : ℕ → ℕ

-- The payload of an interrupt.
pub data Suspension : Type 0 where
  awaiting : Json → Suspension
  refused_pending : Refusal → Suspension

-- What one execution of a node comes to.
pub data NodeEnd : Type 0 where
  moved : PipelineState → NodeEnd
  suspended : Suspension → NodeEnd
  crashed : NodeEnd
