-- ===== src/GoalLine/Graph.antt =====
-- The nodes and edges of graphs/goal_line.py, `build_goal_line_graph`. A decision that is waited for
-- in the graph suspends the line. Of the nodes that consume a declared action only the removal of the
-- action is kept.
use fleet_graph.Common.{
  Bool, List, Option, String, [], elem, false, filter, get_or, if◌then◌else◌, is_some, none, not,
  some, suc, true, zero, ℕ, ◌&&◌, ◌++◌, ◌∷◌,
}
use fleet_graph.GoalLine.{
  Acceptance, Action, ActionKind, Line, LineDeps, LineState, Reason, RoundRecord, Terminal,
  WaitingOn,
}
use fleet_graph.GoalLine.Verdict.{ended, is_nil, or_keep, verdict_update}
use fleet_graph.GoalLine.Working.{worker_turn}
use fleet_graph.Graphs.Guards.{StopReason, Text, bounds_exceeded, record_noop, streak_exceeded}

pub data Node : Type 0 where
  check_bounds coordinator worker acceptance decision_interrupt finalise over : Node
  acting : List Action → Node

abbrev pub stopped_line : Line → Option StopReason → Option StopReason → Line
stopped_line line (some reason) streak = record line {
  state = ended line.state Terminal.bounds (Reason.stopped reason);
}
stopped_line line none (some streak) = record line {
  state = ended line.state Terminal.blocked (Reason.stopped streak);
}
stopped_line line none none = line

unfoldable pub bounds_checked : LineDeps → Line → Line
bounds_checked deps line =
    stopped_line line (bounds_exceeded line.guards line.state.round_no (deps.clock line))
      (streak_exceeded line.guards)

-- Drained messages that ask for acknowledgement are recorded; one that went without makes the round
-- idle.
abbrev pub acked : Line → ℕ → Bool → Bool → Line
acked line round_no drained unacked = record line {
  guards = if drained && unacked then record_noop line.guards else line.guards;
  rounds =
      if drained
      then line.rounds ++ RoundRecord.message_acks round_no unacked ∷ []
      else line.rounds;
}

-- merge_pending_actions on what a coordinator declares.
abbrev merged : List Action → List Action → List Action
merged left [] = left
merged left (action ∷ more) = action ∷ more

abbrev pub with_declared : Line → List Action → Option Text → Line
with_declared line actions revision = record line {
  state = record line.state {
    pending_actions = merged line.state.pending_actions actions;
    goal_revision = or_keep revision line.state.goal_revision;
  };
}

unfoldable pub coordinator_turn : LineDeps → Line → Line
unfolding verdict_update
coordinator_turn deps line =
    let result = deps.coordinator line line.state.round_no in
    with_declared
      (verdict_update deps
        (acked line line.state.round_no (deps.acknowledged line result).0
          (deps.acknowledged line result).1)
        line.state.round_no result)
      (deps.declared line result) (deps.goal_revision line)

unfoldable pub acceptance_step : LineDeps → Line → Line
acceptance_step deps line = record line {
  state = record line.state {
    last_acceptance =
        some (elim deps.acceptance [ none ↦ Acceptance.not_declared | some script ↦ script line ]);
  };
}

unfoldable pub finalised : Line → Line
finalised line = record line {
  terminals =
      line.terminals
      ++ record {
        terminal = get_or line.state.terminal Terminal.fault;
        rounds = line.state.rounds_recorded;
        reason = line.state.terminal_reason;
        pump_fault = line.state.pump_fault;
        waiting_on = get_or line.state.waiting_on WaitingOn.on_nothing;
      }
        ∷ [];
}

abbrev pub is_dispatch : Action → Bool
is_dispatch action = elim action.kind [ ActionKind.dispatch ↦ true | _ ↦ false ]

abbrev pub is_release : Action → Bool
is_release action = elim action.kind [ ActionKind.gate_release ↦ true | _ ↦ false ]

-- The Sends of the declared actions.
unfoldable pub sends : List Action → List Action
sends actions = filter is_dispatch actions ++ filter is_release actions

abbrev pub keys_of : List Action → List String
keys_of [] = []
keys_of (action ∷ more) = action.idempotency_key ∷ keys_of more

-- The removal markers of the fan-out, merged.
unfoldable pub consumed : List Action → List Action → List Action
consumed sent actions = filter (λ a. not (elem a.idempotency_key (keys_of sent))) actions

unfoldable pub after_bounds : LineState → Node
after_bounds state = if is_some state.terminal then Node.finalise else Node.coordinator

abbrev pub awaits_decision : LineDeps → LineState → Bool
awaits_decision deps state =
    deps.has_interrupt
    && (elim state.terminal [ some Terminal.blocked ↦ true | _ ↦ false ])
    && (elim state.waiting_on [ some WaitingOn.on_decision ↦ true | _ ↦ false ])

abbrev pub without_actions : LineDeps → LineState → Node
without_actions deps state =
    if is_some state.terminal
    then if awaits_decision deps state then Node.decision_interrupt else Node.finalise
    else if is_nil state.pending_prompt
    then Node.check_bounds
    else Node.worker

abbrev pub with_sends : LineDeps → LineState → List Action → Node
with_sends deps state [] = without_actions deps state
with_sends deps state (action ∷ more) = Node.acting (action ∷ more)

unfoldable pub after_coordinator : LineDeps → LineState → Node
unfolding sends
after_coordinator deps state = with_sends deps state (sends state.pending_actions)

abbrev pub joined : Line → List Action → Line
joined line sent = record line {
  state = record line.state { pending_actions = consumed sent line.state.pending_actions };
}

unfoldable pub step : LineDeps → Node → Line → Node × Line
unfolding bounds_checked coordinator_turn worker_turn acceptance_step finalised consumed
    after_bounds after_coordinator
step deps Node.check_bounds line =
    let checked = bounds_checked deps line in (after_bounds checked.state, checked)
step deps Node.coordinator line =
    let next = coordinator_turn deps line in (after_coordinator deps next.state, next)
step deps (Node.acting sent) line =
    let next = joined line sent in (after_coordinator deps next.state, next)
step deps Node.worker line = (Node.acceptance, worker_turn deps line)
step deps Node.acceptance line = (Node.check_bounds, acceptance_step deps line)
step deps Node.finalise line = (Node.over, finalised line)
step deps Node.decision_interrupt line = (Node.decision_interrupt, line)
step deps Node.over line = (Node.over, line)

-- The line comes to its end, waits for a decision, or is still under way when the fuel is used up.
pub data LineEnd : Type 0 where
  at_end at_question under_way : Line → LineEnd

unfoldable pub walk : LineDeps → ℕ → Node → Line → LineEnd
unfolding step
walk deps fuel Node.over line = LineEnd.at_end line
walk deps fuel Node.decision_interrupt line = LineEnd.at_question line
walk deps zero node line = LineEnd.under_way line
walk deps (suc fuel) node line =
    let (next, later) = step deps node line in walk deps fuel next later
