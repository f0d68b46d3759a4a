-- ===== src/GoalLine/Asking.antt =====
-- The bounded re-ask of a worker in graphs/goal_line.py.
use fleet_graph.Common.{
  List, arith, length, none, some, suc, zero, ℕ, ◌++◌, ◌+◌, ◌-◌, ◌<◌, ◌∷◌, ◌≡◌, ◌≢◌, ◌≤◌,
}
use fleet_graph.GoalInterrupt.Reads.{before}
use fleet_graph.GoalLine.{
  Line, LineDeps, LineState, Terminal, WorkOutcome, WorkReport, WorkerAnswer,
}
use fleet_graph.GoalLine.Working.{
  WorkEnd, after_report, attempted, calls_from, progressed, settled, worker_prompt, worker_turn,
}
use fleet_graph.Graphs.Guards.{Text}

-- What the end of the attempts says of the number of calls.
abbrev pub Asked : ℕ → ℕ → ℕ → List Text × WorkEnd → Type 0
Asked before used limit (turns, WorkEnd.answered report n) =
    (length turns ≡ before + n + 1 - used) × (n ≤ limit)
Asked before used limit (turns, WorkEnd.out_of_time detail) =
    (before < length turns) × (length turns ≤ before + limit + 1 - used)
Asked before used limit (turns, WorkEnd.refused_again kind detail n) =
    (length turns ≡ before + n + 1 - used) × (n ≡ limit)

attempted-Asked :
    (answer : WorkerAnswer) (before used limit : ℕ) (turns : List Text)
    (again : Text → Text → List Text × WorkEnd)
    → length turns ≡ before + 1
    → used ≤ limit
    → ((kind detail : Text) → Asked before used limit (again kind detail))
    → Asked before used limit (attempted answer turns used again)
attempted-Asked (WorkerAnswer.reported report) before used limit turns again n h next =
    (omega (arith, n), h)
attempted-Asked (WorkerAnswer.timed_out detail) before used limit turns again n h next =
    (omega (arith, n), omega (arith, n, h))
attempted-Asked (WorkerAnswer.refused kind detail) before used limit turns again n h next =
    next kind detail

-- One call more was made before.
Asked-later :
    (before used limit : ℕ) (end_of : List Text × WorkEnd)
    → Asked (suc before) (used + 1) limit end_of
    → Asked before used limit end_of
Asked-later before used limit (turns, WorkEnd.answered report n) (a, b) = (omega (arith, a), b)
Asked-later before used limit (turns, WorkEnd.out_of_time detail) (a, b) =
    (omega (arith, a), omega (arith, b))
Asked-later before used limit (turns, WorkEnd.refused_again kind detail n) (a, b) =
    (omega (arith, a), b)

calls-Asked :
    (deps : LineDeps) (round_no : ℕ) (base prompt : Text) (retries used limit : ℕ)
    (turns : List Text)
    → used + retries ≡ limit
    → Asked (length turns) used limit (calls_from deps round_no base prompt retries used turns)
unfolding calls_from
calls-Asked deps round_no base prompt zero used limit turns h =
    attempted-Asked (deps.worker turns prompt round_no) (length turns) used limit (prompt ∷ turns)
      (λ kind detail. (prompt ∷ turns, WorkEnd.refused_again kind detail used)) (omega arith)
      (omega (arith, h)) (λ kind detail. (omega arith, omega (arith, h)))
calls-Asked deps round_no base prompt (suc retries) used limit turns h =
    attempted-Asked (deps.worker turns prompt round_no) (length turns) used limit (prompt ∷ turns)
      (λ kind detail.
        calls_from deps round_no base (base ++ deps.retry_suffix kind detail) retries (used + 1)
          (prompt ∷ turns))
      (omega arith) (omega (arith, h))
      (λ kind detail.
        Asked-later (length turns) used limit
          (calls_from deps round_no base (base ++ deps.retry_suffix kind detail) retries (used + 1)
            (prompt ∷ turns))
          (calls-Asked deps round_no base (base ++ deps.retry_suffix kind detail) retries (used + 1)
            limit (prompt ∷ turns) (omega (arith, h))))

abbrev pub Calls : ℕ → Line → Line → Type 0
Calls limit old new =
    (length old.turns < length new.turns)
    × (length new.turns ≤ length old.turns + limit + 1)
    × (new.state.terminal ≡ some Terminal.fault → length new.turns ≡ length old.turns + limit + 1)

after_report-no_fault :
    (state : LineState) (report : WorkReport) (outcome : WorkOutcome)
    → state.terminal ≡ none
    → (after_report state report outcome).terminal ≢ some Terminal.fault
after_report-no_fault state report WorkOutcome.completed h = λ e. cc
after_report-no_fault state report (WorkOutcome.work_blocked kind detail) h = λ e. cc
after_report-no_fault state report WorkOutcome.work_failed h = λ e. cc

settled-Calls :
    (limit : ℕ) (line : Line) (work : List Text × WorkEnd)
    → line.state.terminal ≡ none
    → Asked (length line.turns) 0 limit work
    → Calls limit line (settled line line.state.round_no work)
unfolding settled
settled-Calls limit line (turns, WorkEnd.answered report n) h (a, b) = (
  omega (arith, a),
  omega (arith, a, b),
  λ e.
      elim (after_report-no_fault (progressed line.state line.state.round_no report) report
        report.outcome h e) [ ],
)
settled-Calls limit line (turns, WorkEnd.out_of_time detail) h (a, b) =
    (a, omega (arith, b), λ e. cc)
settled-Calls limit line (turns, WorkEnd.refused_again kind detail n) h (a, b) =
    (omega (arith, a), omega (arith, a, b), λ e. omega (arith, a, b))

-- A worker turn calls the worker at least once and at most once more than re-asks are allowed,
-- and a running line is faulted by it only after all those calls.
pub worker_turn-Calls :
    (deps : LineDeps) (line : Line)
    → line.state.terminal ≡ none
    → Calls deps.worker_report_retry_limit line (worker_turn deps line)
unfolding worker_turn
worker_turn-Calls deps line h =
    let prompt = worker_prompt deps line.state.pending_prompt in
    settled-Calls deps.worker_report_retry_limit line
      (calls_from deps line.state.round_no prompt prompt deps.worker_report_retry_limit 0
        line.turns)
      h
      (calls-Asked deps line.state.round_no prompt prompt deps.worker_report_retry_limit 0
        deps.worker_report_retry_limit line.turns (omega arith))
