-- ===== src/Samples/Rounds.antt =====
-- The theorems on the graph of a goal line at concrete lines.
use fleet_graph.Common.{[], false, none, refl, some, true, ◌*◌, ◌+◌, ◌-◌, ◌∷◌, ◌≡◌}
use fleet_graph.Common.Dict.{lookup}
use fleet_graph.Common.Text.{codes, lower}
use fleet_graph.GoalLine.{
  CoordinatorResult, Line, LineDeps, LineState, Terminal, WorkOutcome, WorkerAnswer,
}
use fleet_graph.GoalLine.Accounting.{Settled, line_of, walk-rounds}
use fleet_graph.GoalLine.Asking.{Calls, worker_turn-Calls}
use fleet_graph.GoalLine.Graph.{Node, acceptance_step, step, walk}
use fleet_graph.GoalLine.Repeats.{RefusedRound, last_round-overridden, refused-reaches_worker}
use fleet_graph.GoalLine.Termination.{has_stopped, walk-stops}
use fleet_graph.GoalLine.Verdict.{is_nil, trim}
use fleet_graph.GoalLine.Working.{calls_from, settled, worker_turn}
use fleet_graph.Graphs.Guards.{check_prompt, default_bounds}

abbrev fresh_state : LineState
fresh_state = record {
  round_no = 1;
  rounds_recorded = 0;
  terminal = none;
  terminal_reason = none;
  pump_fault = false;
  waiting_on = none;
  waiting_on_declared = none;
  dd_development_id = none;
  goal_revision = none;
  pending_prompt = [];
  pending_sha = "";
  pending_actions = [];
  last_turn_output = [];
  last_turn_report = none;
  last_timeout = none;
  last_acceptance = none;
}

abbrev fresh_line : Line
fresh_line = record {
  state = fresh_state;
  guards = record {
    bounds = record default_bounds { max_rounds = 2 };
    prompts_seen = [];
    prev_prompt = none;
    noop_streak = 0;
    timeout_streak = 0;
  };
  rounds = [];
  terminals = [];
  turns = [];
}

-- A coordinator that always gives the same prompt, and a worker whose report is refused.
abbrev goes_on : CoordinatorResult
goes_on = record {
  verdict = codes " Continue";
  reason = [];
  next_prompt = codes "go";
  no_progress = false;
  waiting_on = none;
  dd_development_id = [];
  acknowledged_message_id = [];
  decision_message_id = [];
}

abbrev stuck_deps : LineDeps
stuck_deps = record {
  coordinator = λ line round_no. goes_on;
  worker = λ turns prompt round_no. WorkerAnswer.refused [] [];
  acceptance = none;
  declared = λ line result. [];
  acknowledged = λ line result. (false, false);
  overall = [];
  goal_revision = λ line. none;
  digest = λ text. "digest";
  clock = λ line. none;
  report_request = codes "report";
  retry_suffix = λ kind detail. codes "again";
  worker_report_retry_limit = 1;
  has_interrupt = false;
}

walk-stops_example :
    has_stopped (walk stuck_deps (5 * (2 + 1 - 1) + 2) Node.check_bounds fresh_line) ≡ true
walk-stops_example = walk-stops stuck_deps fresh_line

walk-rounds_example : Settled 2 (line_of (walk stuck_deps 12 Node.check_bounds fresh_line))
walk-rounds_example = walk-rounds stuck_deps 12 fresh_line refl refl

worker_turn-Calls_example : Calls 1 fresh_line (worker_turn stuck_deps fresh_line)
worker_turn-Calls_example = worker_turn-Calls stuck_deps fresh_line refl

-- The second round of a line whose first prompt was handed to the worker.
abbrev second_line : Line
second_line = record fresh_line {
  state = record fresh_state {
    round_no = 2;
    rounds_recorded = 1;
    pending_prompt = codes "go";
    pending_sha = "digest";
  };
  guards = record fresh_line.guards {
    prompts_seen = ("digest", 1) ∷ [];
    prev_prompt = some (codes "go");
  };
  turns = codes "goreport" ∷ [];
}

refused : RefusedRound stuck_deps second_line
unfolding codes trim lower check_prompt lookup
refused = record {
  running = refl;
  idle = refl;
  undeclared = refl;
  quiet = refl;
  goes_on = refl;
  worded = refl;
  rejected = refl;
}

pending : is_nil second_line.state.pending_prompt ≡ false
unfolding codes
pending = refl

refused-reaches_worker_example :
    ((step stuck_deps Node.coordinator second_line).0 ≡ Node.worker)
    × ((step stuck_deps Node.coordinator second_line).1.state.pending_prompt
        ≡ second_line.state.pending_prompt)
refused-reaches_worker_example = refused-reaches_worker stuck_deps second_line refused pending

abbrev giving_up : LineDeps
giving_up = record stuck_deps {
  worker = λ turns prompt round_no.
      WorkerAnswer.reported (record { outcome = WorkOutcome.work_failed; summary = [] });
}

moves_on : (worker_turn giving_up second_line).state.round_no ≡ 2 + 1
unfolding worker_turn calls_from settled
moves_on = refl

last_round-overridden_example :
    (step giving_up Node.check_bounds
      (acceptance_step giving_up (worker_turn giving_up second_line))).1.state.terminal
    ≡ some Terminal.bounds
last_round-overridden_example = last_round-overridden giving_up second_line refl moves_on
