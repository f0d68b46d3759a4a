-- ===== src/GoalLine/Repeats.antt =====
-- What becomes of a refused prompt and of a worker's verdict in the last round: graphs/goal_line.py.
use fleet_graph.Common.{
  [], ap, arith, false, ltb, lt→ltb, none, refl, some, subst, sym, true, ◌+◌, ◌≡◌,
}
use fleet_graph.Common.Text.{codes}
use fleet_graph.GoalLine.{CoordinatorResult, Line, LineDeps, RoundRecord, Terminal}
use fleet_graph.GoalLine.Graph.{
  Node, acceptance_step, after_coordinator, bounds_checked, coordinator_turn, sends, step,
  with_declared,
}
use fleet_graph.GoalLine.Rounds.{worker_turn-Worked}
use fleet_graph.GoalLine.Verdict.{
  continue_update, is_nil, prompt_update, trim, verdict_of, verdict_update, wasted,
}
use fleet_graph.GoalLine.Working.{worker_turn}
use fleet_graph.Graphs.Guards.{bounds_exceeded, check_prompt, injectable}

-- A round in which the coordinator goes on with a prompt that the guards refuse, and declares nothing
-- else, while the prompt of an earlier round is still in the state.
pub record RefusedRound (deps : LineDeps) (line : Line) : Type 0 where
  pub running : line.state.terminal ≡ none
  pub idle : line.state.pending_actions ≡ []
  pub undeclared : deps.declared line (deps.coordinator line line.state.round_no) ≡ []
  pub quiet : deps.acknowledged line (deps.coordinator line line.state.round_no) ≡ (false, false)
  pub goes_on : verdict_of (deps.coordinator line line.state.round_no) ≡ codes "continue"
  pub worded : is_nil (trim (deps.coordinator line line.state.round_no).next_prompt) ≡ false
  pub rejected :
      injectable (
        check_prompt deps.digest line.guards
          (deps.coordinator line line.state.round_no).next_prompt)
      ≡ false

refused-verdict :
    (deps : LineDeps) (line : Line) (result : CoordinatorResult)
    → verdict_of result ≡ codes "continue"
    → is_nil (trim result.next_prompt) ≡ false
    → injectable (check_prompt deps.digest line.guards result.next_prompt) ≡ false
    → verdict_update deps line line.state.round_no result
      ≡ wasted line line.state.round_no (
          RoundRecord.not_injected line.state.round_no
            (check_prompt deps.digest line.guards result.next_prompt))
unfolding verdict_update continue_update prompt_update codes
refused-verdict deps line result v w r = rw (v, w, r) refl

refused-turn :
    (deps : LineDeps) (line : Line)
    → RefusedRound deps line
    → coordinator_turn deps line
      ≡ with_declared
          (wasted line line.state.round_no (
            RoundRecord.not_injected line.state.round_no (
              check_prompt deps.digest line.guards
                (deps.coordinator line line.state.round_no).next_prompt)))
          []
          (deps.goal_revision line)
unfolding coordinator_turn
refused-turn deps line r =
    rw (r.quiet, r.undeclared)
      (ap (λ l. with_declared l [] (deps.goal_revision line))
        (refused-verdict deps line (deps.coordinator line line.state.round_no) r.goes_on r.worded
          r.rejected))

-- Where the coordinator goes on with a prompt that the guards refuse, and nothing else happens
-- in the round, the line goes to the worker with the prompt of the earlier round that is still
-- in the state.
pub refused-reaches_worker :
    (deps : LineDeps) (line : Line)
    → RefusedRound deps line
    → is_nil line.state.pending_prompt ≡ false
    → ((step deps Node.coordinator line).0 ≡ Node.worker)
      × ((step deps Node.coordinator line).1.state.pending_prompt ≡ line.state.pending_prompt)
unfolding step after_coordinator sends
refused-reaches_worker deps line r h =
    subst
      (λ next.
        (after_coordinator deps next.state ≡ Node.worker)
        × (next.state.pending_prompt ≡ line.state.pending_prompt))
      (sym (refused-turn deps line r)) (rw (r.idle, r.running, h) refl, refl)

-- Where the worker turn of the last allowed round is counted as a round, the check that follows
-- puts the terminal bounds in the place of whatever the worker declared.
pub last_round-overridden :
    (deps : LineDeps) (line : Line)
    → line.guards.bounds.max_rounds ≡ line.state.round_no
    → let worked = worker_turn deps line in
      (worked.state.round_no ≡ line.state.round_no + 1)
      → (step deps Node.check_bounds (acceptance_step deps worked)).1.state.terminal
        ≡ some Terminal.bounds
unfolding step bounds_checked bounds_exceeded acceptance_step
last_round-overridden deps line last more =
    let worked = worker_turn deps line in
    let (kept, counted) = worker_turn-Worked deps line in
    let over : ltb worked.guards.bounds.max_rounds worked.state.round_no ≡ true =
      lt→ltb worked.guards.bounds.max_rounds worked.state.round_no
        (rw (kept, more, last) (omega arith)) in
    rw over refl
