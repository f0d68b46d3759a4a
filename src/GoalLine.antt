-- ===== src/GoalLine.antt =====
-- The graph of a goal line: graphs/goal_line.py. What a coordinator declares is a record of the texts
-- that `str` and the defaults of `get` read from it; a text is its code points. The coordinator, the
-- worker with the decoder of its report, the acceptance runner, the reading of declared actions, the
-- acknowledgements of drained messages, the clock and the decision port are fields of `LineDeps`, given
-- what the line has done so far.
pub mod Verdict
pub mod Working
pub mod Graph
pub mod FanOut
pub mod Rounds
pub mod Termination
pub mod Accounting
pub mod Asking
pub mod Repeats
use fleet_graph.Common.{Bool, List, Option, String, ℕ}
use fleet_graph.Graphs.Guards.{LineGuards, PromptCheck, StopReason, Text}

pub data Terminal : Type 0 where
  done blocked bounds fault failed : Terminal

pub data WaitingOn : Type 0 where
  on_decision on_external on_dd on_nothing : WaitingOn

-- terminal_reason
pub data Reason : Type 0 where
  said : Text → Reason
  stopped : StopReason → Reason
  unrecognised_verdict : Text → Reason
  empty_prompt : Reason
  report_refused : Text → Text → Reason
  worker_blocked : Text → Text → Reason

pub record CoordinatorResult : Type 0 where
  pub verdict : Text
  pub reason : Text
  pub next_prompt : Text
  pub no_progress : Bool
  pub waiting_on : Option Text
  pub dd_development_id : Text
  pub acknowledged_message_id : Text
  pub decision_message_id : Text

pub data WorkOutcome : Type 0 where
  completed : WorkOutcome
  work_blocked : Text → Text → WorkOutcome
  work_failed : WorkOutcome

-- A report that passed the protocol, and the other ends of one call of the worker.
pub record WorkReport : Type 0 where
  pub outcome : WorkOutcome
  pub summary : Text

pub data WorkerAnswer : Type 0 where
  reported : WorkReport → WorkerAnswer
  refused : Text → Text → WorkerAnswer
  timed_out : Text → WorkerAnswer

pub data ActionKind : Type 0 where
  dispatch gate_release other_kind : ActionKind

pub record Action : Type 0 where
  pub kind : ActionKind
  pub idempotency_key : String

pub data Acceptance : Type 0 where
  not_declared : Acceptance
  facts : Text → Acceptance
  runner_error : Text → Acceptance

-- One line of the rounds' ledger, by its verdict and reason.
pub data RoundRecord : Type 0 where
  invalid_mismatch : ℕ → RoundRecord
  not_injected : ℕ → PromptCheck → RoundRecord
  timeout_round : ℕ → String → RoundRecord
  protocol_failure : ℕ → ℕ → RoundRecord
  worked : ℕ → WorkOutcome → ℕ → RoundRecord
  message_acks : ℕ → Bool → RoundRecord

pub record TerminalRecord : Type 0 where
  pub terminal : Terminal
  pub rounds : ℕ
  pub reason : Option Reason
  pub pump_fault : Bool
  pub waiting_on : WaitingOn

-- The state's keys, an absent one by the default its readers give it.
pub record LineState : Type 0 where
  pub round_no : ℕ
  pub rounds_recorded : ℕ
  pub terminal : Option Terminal
  pub terminal_reason : Option Reason
  pub pump_fault : Bool
  pub waiting_on : Option WaitingOn
  pub waiting_on_declared : Option Text
  pub dd_development_id : Option Text
  pub goal_revision : Option Text
  pub pending_prompt : Text
  pub pending_sha : String
  pub pending_actions : List Action
  pub last_turn_output : Text
  pub last_turn_report : Option WorkReport
  pub last_timeout : Option Text
  pub last_acceptance : Option Acceptance

-- A line in the middle of its life: the state with what the guards count and the artifacts hold.
-- `turns` are the prompts the worker was called with, newest first.
pub record Line : Type 0 where
  pub state : LineState
  pub guards : LineGuards
  pub rounds : List RoundRecord
  pub terminals : List TerminalRecord
  pub turns : List Text

pub record LineDeps : Type 0 where
  pub coordinator : Line → ℕ → CoordinatorResult
  pub worker : List Text → Text → ℕ → WorkerAnswer
  pub acceptance : Option (Line → Acceptance)
  pub declared : Line → CoordinatorResult → List Action
  -- whether messages were drained that ask for acknowledgement, and whether one went without
  pub acknowledged : Line → CoordinatorResult → Bool × Bool
  pub overall : Text
  pub goal_revision : Line → Option Text
  pub digest : Text → String
  pub clock : Line → Option ℕ
  pub report_request : Text
  pub retry_suffix : Text → Text → Text
  pub worker_report_retry_limit : ℕ
  pub has_interrupt : Bool
