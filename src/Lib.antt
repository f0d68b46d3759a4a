-- ===== src/Lib.antt =====
-- The orchestration core of fleet-graph: the dev-dispatch stage machine and its walker, the egress
-- layer below them, the decision to start a line, the graph of its rounds with the guards that stop
-- it, the store of questions to a human, the bridge that takes their decisions to the waiting owners,
-- the release of a gate under a preauth, and the queue of enrollment applications.
--
-- How the parts interact. The scheduler accounts a line's last terminal, parks a line that waits,
-- applies a revocation of a done one, and starts a line where `decide` says so; a line's rounds are
-- counted and its prompts compared by the guards. A line that needs a human decision asks through its
-- port, which keeps the question, the decision and the charged turn in the interrupt store; the
-- decision bridge takes what a human has published to the owner that waits for it, under a key that
-- the owner knows again. A development walks the stages of a contract: `run_stage` runs the wrapper
-- steps of one stage, `advance` asks the stage machine for the next, and the two take turns until a
-- terminal. A failure that carries transport evidence is classified by the egress layer, which is
-- also what retries the remote operations below the actors. Applications for new lines wait in the
-- enrollment queue for a decision. The supervisor audits a gate and, under a preauth of a human on the
-- board, publishes the one decision that releases it.
--
-- Dd/Lifecycle.antt and its children model fleet_graph/dd/lifecycle.py: the contract is a record with
-- the keys of the JSON, `stages`, `transitions` and `failure_transitions` decode it, Spine derives the
-- edges that artifacts carry, Bindings checks receipts. Shipped is
-- fleet_graph/dd/contracts/development-lifecycle.json.
--
-- Dd/Egress.antt and Dd/Egress/Retry.antt model fleet_graph/dd/egress.py: the transport markers,
-- `classify_git_failure`, `root_cause_for`, and `retry_remote` with the evidence it leaves. Seconds are
-- whole, the jitter is in hundredths and a random number in thousandths, so a delay is exact. An
-- evidence line keeps the whole stderr and not its last 400 characters.
--
-- Dd/Pipeline.antt and its children model fleet_graph/graphs/dd_pipeline.py: `PipelineState` has the
-- keys of the typed dict, with the defaults of `get` for absent ones; Acting is `_act_or_wait`, Steps
-- the loop over the wrapper steps, RunStage the node `run_stage`, Advance the node `advance`, Walk the
-- graph. The actors, the sealer, the replayer, the capability lock, the clock, the digest of a receipt
-- and the resume values are fields of `PipelineDeps`. The walk runs on fuel; one step more than the
-- step bound still allows is enough. Texts of reasons are data.
--
-- Scheduler/Ignition.antt models fleet_graph/scheduler/ignition.py: `decide` and `backoff_seconds`,
-- with times in whole seconds.
--
-- The rest of Scheduler models fleet_graph/scheduler/daemon.py for one line: Stall is the stall-state file
-- with the accounting of terminals, Parking and Waking are `park_state`, Reading the terminal and the
-- checkpoints, Tick the revival and the body of the loop of `tick`; Revive is
-- fleet_graph/scheduler/revive.py. A `Moment` holds what the probes, the clock, the units and the writes
-- answer in one tick. Seat overrides, the merge of the roster, the texts of questions and blockers, the
-- observer and the sleep between launches are left out.
--
-- Supervise.antt and its children model the release of a gate under a preauth: Protocol and Release are
-- fleet_graph/supervise/preauth.py, Intake the board question of `intake`, Judging `classify` with its
-- predicates, Acting `act` up to the decision, of fleet_graph/graphs/supervisor.py, with
-- fleet_graph/supervise/decision_publisher.py. Times are whole seconds. A turn is given its event, checked
-- before, the board's answers, the audit's report with typed fields, the client and the clock; texts of
-- reasons, the rationale and the excerpts of failures are left out.
--
-- Graphs/Guards.antt models fleet_graph/graphs/guards.py: the bounds, the similarity of prompts as a
-- fraction, the exact and the near repeat, the streaks. SHA-256 is a parameter.
--
-- GoalInterrupt.antt and its children model fleet_graph/goal_interrupt/store.py: the tables as dicts
-- under their keys, Writes and Reads the methods, each with what SQLite made of the call; History is a
-- sequence of calls and what the committed ones say. Port is `LineInterruptPort` of
-- fleet_graph/goal_interrupt/runtime.py, with the values of fleet_graph/goal_interrupt/contract.py, and
-- Turns the charged turn of `decision_interrupt`.
--
-- DecisionBridge.antt and its children model the bridge that takes published decisions to waiting
-- owners: Store is fleet_graph/decision_bridge/store.py, Bridge the work on a page of messages in
-- fleet_graph/decision_bridge/bridge.py. The resolver of a decision, the answer of its owner and what
-- SQLite makes of each access are fields of `BridgeDeps`, one for each message. Details are kept whole,
-- and the record that a cycle returns is left out. Resolver is fleet_graph/decision_bridge/resolver.py
-- with the fallback of fleet_graph/goal_interrupt/resolver.py, without the texts of reasons. Common/Sqlite.antt is what both stores see of their
-- database.
--
-- GoalLine.antt and its children model fleet_graph/graphs/goal_line.py: Verdict is `_verdict_update`,
-- Working the node `worker_turn`, Graph the other nodes and the edges. The coordinator, the worker with
-- the decoder of its report, the acceptance runner, the parser of declared actions, the acknowledgements
-- and the clock are fields of `LineDeps` that may depend on all the line has done. A walk runs on fuel;
-- five steps for each round that is left and two more are enough. Exceptions of the coordinator or of
-- the worker that end the process are left out, as are the envelope given to the coordinator and the
-- variables recorded with a timeout.
--
-- GoalEnroll/Queue.antt models fleet_graph/goal_enroll/queue.py: applications are dicts of JSON values,
-- each synchronized operation reads the text of the file line by line, works on the memory and writes
-- the text. `json.dumps` and `json.loads` are a parameter; what the theorems suppose of a record that is
-- written stands in `Written`, in GoalEnroll/Queue/Filing.antt. The lock makes
-- the operations a sequence. The refusal history, the plain reads and the migration of old files are
-- not modelled.
--
-- Common holds what the parts share: tests, lists, dicts with Python's insertion order, JSON values,
-- texts as code points, and the result type. Samples holds concrete runs.
--
-- Not modelled: processes, HTTP, git and files, the LangGraph runtime but for its interrupts, the MCP
-- surfaces and the command line, the research graphs, the control plane, the arbiter, the rest of the
-- supervision face and the read models.
pub mod Common
pub mod Dd
pub mod Scheduler
pub mod Supervise
pub mod GoalEnroll
pub mod Graphs
pub mod GoalInterrupt
pub mod GoalLine
pub mod DecisionBridge
pub mod Samples
