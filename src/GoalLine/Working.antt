-- ===== src/GoalLine/Working.antt =====
-- The worker's half of a round: `_worker_prompt` and the node `worker_turn` of graphs/goal_line.py.
-- The variables recorded with a timeout and the metrics are left out.
use fleet_graph.Common.{List, [], false, if◌then◌else◌, none, some, suc, zero, ℕ, ◌++◌, ◌+◌, ◌∷◌}
use fleet_graph.GoalLine.{
  Line, LineDeps, LineState, Reason, RoundRecord, Terminal, WaitingOn, WorkOutcome, WorkReport,
  WorkerAnswer,
}
use fleet_graph.GoalLine.Verdict.{ended, faulted, is_nil, next_round, trim}
use fleet_graph.Graphs.Guards.{Text, record_timeout, record_turn_ok}

abbrev pub worker_prompt : LineDeps → Text → Text
worker_prompt deps pending =
    if is_nil (trim pending) then deps.report_request else trim pending ++ deps.report_request

-- How the calls of one round end, with the re-asks that were used.
pub data WorkEnd : Type 0 where
  answered : WorkReport → ℕ → WorkEnd
  out_of_time : Text → WorkEnd
  refused_again : Text → Text → ℕ → WorkEnd

-- One pass of the loop; `again` is what a refused report leads to.
abbrev pub attempted :
    WorkerAnswer → List Text → ℕ → (Text → Text → List Text × WorkEnd) → List Text × WorkEnd
attempted (WorkerAnswer.reported report) turns used again = (turns, WorkEnd.answered report used)
attempted (WorkerAnswer.timed_out detail) turns used again = (turns, WorkEnd.out_of_time detail)
attempted (WorkerAnswer.refused kind detail) turns used again = again kind detail

-- The loop over the attempts; `retries` re-asks are left, `used` were made, and `turns` are the
-- prompts of the calls so far, newest first.
unfoldable pub calls_from : LineDeps → ℕ → Text → Text → ℕ → ℕ → List Text → List Text × WorkEnd
calls_from deps round_no base prompt zero used turns =
    attempted (deps.worker turns prompt round_no) (prompt ∷ turns) used
      (λ kind detail. (prompt ∷ turns, WorkEnd.refused_again kind detail used))
calls_from deps round_no base prompt (suc retries) used turns =
    attempted (deps.worker turns prompt round_no) (prompt ∷ turns) used (λ kind detail.
      calls_from deps round_no base (base ++ deps.retry_suffix kind detail) retries (used + 1)
        (prompt ∷ turns))

abbrev pub progressed : LineState → ℕ → WorkReport → LineState
progressed state round_no report = record (next_round state round_no) {
  last_turn_output = report.summary;
  last_turn_report = some report;
  last_timeout = none;
}

abbrev pub after_report : LineState → WorkReport → WorkOutcome → LineState
after_report state report WorkOutcome.completed = state
after_report state report (WorkOutcome.work_blocked kind detail) =
    record (ended state Terminal.blocked (Reason.worker_blocked kind detail)) {
      waiting_on = some WaitingOn.on_nothing;
      waiting_on_declared = none;
    }
after_report state report WorkOutcome.work_failed =
    record (ended state Terminal.failed (Reason.said report.summary)) { pump_fault = false }

unfoldable pub settled : Line → ℕ → List Text × WorkEnd → Line
settled line round_no (turns, WorkEnd.out_of_time detail) = record line {
  state = record (next_round line.state round_no) {
    last_timeout = some detail;
    last_turn_output = [];
    last_turn_report = none;
  };
  guards = record_timeout line.guards;
  rounds = line.rounds ++ RoundRecord.timeout_round round_no line.state.pending_sha ∷ [];
  turns = turns;
}
settled line round_no (turns, WorkEnd.refused_again kind detail used) =
    record (faulted line (Reason.report_refused kind detail)) {
      rounds = line.rounds ++ RoundRecord.protocol_failure round_no used ∷ [];
      turns = turns;
    }
settled line round_no (turns, WorkEnd.answered report used) = record line {
  state = after_report (progressed line.state round_no report) report report.outcome;
  guards = record_turn_ok line.guards;
  rounds = line.rounds ++ RoundRecord.worked round_no report.outcome used ∷ [];
  turns = turns;
}

unfoldable pub worker_turn : LineDeps → Line → Line
unfolding settled calls_from
worker_turn deps line =
    let prompt = worker_prompt deps line.state.pending_prompt in
    settled line line.state.round_no (
      calls_from deps line.state.round_no prompt prompt deps.worker_report_retry_limit 0 line.turns)
