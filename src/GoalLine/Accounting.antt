-- ===== src/GoalLine/Accounting.antt =====
-- The rounds that a line of graphs/goal_line.py records.
use fleet_graph.Common.{
  Bool-cases, List, Option, [], arith, inl, inr, is_some, none, refl, some, suc, zero, ℕ, ◌+◌, ◌∷◌,
  ◌≡◌, ◌≤◌,
}
use fleet_graph.GoalLine.{Action, Line, LineDeps}
use fleet_graph.GoalLine.Graph.{
  LineEnd, Node, acceptance_step, after_bounds, after_coordinator, awaits_decision, bounds_checked,
  coordinator_turn, finalised, joined, sends, step, stopped_line, walk, with_sends, without_actions,
}
use fleet_graph.GoalLine.Rounds.{Counted, coordinator_turn-Weighed, worker_turn-Worked}
use fleet_graph.GoalLine.Verdict.{is_nil}
use fleet_graph.GoalLine.Working.{worker_turn}
use fleet_graph.Graphs.Guards.{StopReason, bounds_exceeded, streak_exceeded}

abbrev pub line_of : LineEnd → Line
line_of (LineEnd.at_end line) = line
line_of (LineEnd.at_question line) = line
line_of (LineEnd.under_way line) = line

-- How far the rounds can have come at a node, for a bound on them.
abbrev reach : Node → ℕ → ℕ
reach Node.coordinator bound = bound
reach Node.worker bound = bound + 1
reach (Node.acting sent) bound = bound + 1
reach _ bound = bound + 2

pub record Accounted (bound : ℕ) (node : Node) (line : Line) : Type 0 where
  pub counted : line.state.round_no ≡ line.state.rounds_recorded + 1
  pub bounded : line.guards.bounds.max_rounds ≡ bound
  pub reached : line.state.round_no ≤ reach node bound

abbrev Kept : ℕ → Node × Line → Type 0
Kept bound (node, line) = Accounted bound node line

further :
    (bound : ℕ) (line : Line) {from to : Node}
    → Accounted bound from line
    → reach from bound ≤ reach to bound
    → Accounted bound to line
further bound line a h = record {
  counted = a.counted;
  bounded = a.bounded;
  reached = omega (arith, a.reached, h);
}

route-Accounted :
    (deps : LineDeps) (bound : ℕ) (line : Line)
    → Accounted bound Node.worker line
    → Accounted bound (without_actions deps line.state) line
route-Accounted deps bound line a = elim (Bool-cases (is_some line.state.terminal)) [
  | inl e ↦ elim (Bool-cases (awaits_decision deps line.state)) [
    | inl f ↦ rw (e, f) (further bound line a (omega arith))
    | inr f ↦ rw (e, f) (further bound line a (omega arith))
  ]
  | inr e ↦ elim (Bool-cases (is_nil line.state.pending_prompt)) [
    | inl f ↦ rw (e, f) (further bound line a (omega arith))
    | inr f ↦ rw (e, f) a
  ]
]

sent-Accounted :
    (deps : LineDeps) (bound : ℕ) (line : Line) (sent : List Action)
    → Accounted bound Node.worker line
    → Accounted bound (with_sends deps line.state sent) line
sent-Accounted deps bound line [] a = route-Accounted deps bound line a
sent-Accounted deps bound line (action ∷ more) a = record {
  counted = a.counted;
  bounded = a.bounded;
  reached = a.reached;
}

Counted-Accounted :
    (why : Type 0) (bound : ℕ) (old new : Line) (from to : Node)
    → reach from bound + 1 ≤ reach to bound
    → Counted why old new
    → Accounted bound from old
    → Accounted bound to new
Counted-Accounted why bound old new from to h (kept, inl (same, recorded, w)) a = record {
  counted = omega (arith, same, recorded, a.counted);
  bounded = rw kept a.bounded;
  reached = omega (arith, same, a.reached, h);
}
Counted-Accounted why bound old new from to h (kept, inr (more, recorded)) a = record {
  counted = omega (arith, more, recorded, a.counted);
  bounded = rw kept a.bounded;
  reached = omega (arith, more, a.reached, h);
}

stopped-Accounted :
    (bound : ℕ) (line : Line) (over streak : Option StopReason)
    → (over ≡ none → line.state.round_no ≤ line.guards.bounds.max_rounds)
    → Accounted bound Node.check_bounds line
    → Kept bound (after_bounds (stopped_line line over streak).state, stopped_line line over streak)
unfolding after_bounds
stopped-Accounted bound line (some reason) streak h a = record {
  counted = a.counted;
  bounded = a.bounded;
  reached = a.reached;
}
stopped-Accounted bound line none (some streak) h a = record {
  counted = a.counted;
  bounded = a.bounded;
  reached = a.reached;
}
stopped-Accounted bound line none none h a = elim (Bool-cases (is_some line.state.terminal)) [
  | inl e ↦ rw e (further bound line a (omega arith))
  | inr e ↦ rw e (record {
    counted = a.counted;
    bounded = a.bounded;
    reached = omega (arith, h refl, a.bounded);
  })
]

pub step-Accounted :
    (deps : LineDeps) (bound : ℕ) (node : Node) (line : Line)
    → Accounted bound node line
    → Kept bound (step deps node line)
unfolding step bounds_checked bounds_exceeded acceptance_step finalised after_coordinator
step-Accounted deps bound Node.check_bounds line a =
    stopped-Accounted bound line (bounds_exceeded line.guards line.state.round_no (deps.clock line))
      (streak_exceeded line.guards) (λ e. ground arith) a
step-Accounted deps bound Node.coordinator line a =
    let next = coordinator_turn deps line in
    sent-Accounted deps bound next (sends next.state.pending_actions) (
      Counted-Accounted _ bound line next Node.coordinator Node.worker (omega arith)
        (coordinator_turn-Weighed deps line) a)
step-Accounted deps bound Node.worker line a =
    Counted-Accounted _ bound line (worker_turn deps line) Node.worker Node.acceptance (omega arith)
      (worker_turn-Worked deps line) a
step-Accounted deps bound Node.acceptance line a = record {
  counted = a.counted;
  bounded = a.bounded;
  reached = a.reached;
}
step-Accounted deps bound Node.finalise line a = record {
  counted = a.counted;
  bounded = a.bounded;
  reached = a.reached;
}
step-Accounted deps bound Node.decision_interrupt line a = a
step-Accounted deps bound Node.over line a = a
step-Accounted deps bound (Node.acting sent) line a =
    let next = joined line sent in
    sent-Accounted deps bound next (sends next.state.pending_actions)
      (record { counted = a.counted; bounded = a.bounded; reached = a.reached })

abbrev pub Settled : ℕ → Line → Type 0
Settled bound line =
    (line.state.round_no ≡ line.state.rounds_recorded + 1)
    × (line.state.rounds_recorded ≤ bound + 1)

reach-bound : (node : Node) (bound : ℕ) → reach node bound ≤ bound + 2
reach-bound Node.coordinator bound = omega arith
reach-bound Node.worker bound = omega arith
reach-bound (Node.acting sent) bound = omega arith
reach-bound Node.check_bounds bound = omega arith
reach-bound Node.acceptance bound = omega arith
reach-bound Node.finalise bound = omega arith
reach-bound Node.decision_interrupt bound = omega arith
reach-bound Node.over bound = omega arith

settle : (bound : ℕ) (node : Node) (line : Line) → Accounted bound node line → Settled bound line
settle bound node line a = (a.counted, omega (arith, a.counted, a.reached, reach-bound node bound))

walk-Accounted :
    (deps : LineDeps) (bound fuel : ℕ) (node : Node) (line : Line)
    → Accounted bound node line
    → Settled bound (line_of (walk deps fuel node line))
unfolding walk
walk-Accounted deps bound fuel Node.over line a = settle bound Node.over line a
walk-Accounted deps bound fuel Node.decision_interrupt line a =
    settle bound Node.decision_interrupt line a
walk-Accounted deps bound zero Node.check_bounds line a = settle bound Node.check_bounds line a
walk-Accounted deps bound (suc fuel) Node.check_bounds line a =
    walk-Accounted deps bound fuel _ _ (step-Accounted deps bound Node.check_bounds line a)
walk-Accounted deps bound zero Node.coordinator line a = settle bound Node.coordinator line a
walk-Accounted deps bound (suc fuel) Node.coordinator line a =
    walk-Accounted deps bound fuel _ _ (step-Accounted deps bound Node.coordinator line a)
walk-Accounted deps bound zero Node.worker line a = settle bound Node.worker line a
walk-Accounted deps bound (suc fuel) Node.worker line a =
    walk-Accounted deps bound fuel _ _ (step-Accounted deps bound Node.worker line a)
walk-Accounted deps bound zero Node.acceptance line a = settle bound Node.acceptance line a
walk-Accounted deps bound (suc fuel) Node.acceptance line a =
    walk-Accounted deps bound fuel _ _ (step-Accounted deps bound Node.acceptance line a)
walk-Accounted deps bound zero Node.finalise line a = settle bound Node.finalise line a
walk-Accounted deps bound (suc fuel) Node.finalise line a =
    walk-Accounted deps bound fuel _ _ (step-Accounted deps bound Node.finalise line a)
walk-Accounted deps bound zero (Node.acting sent) line a = settle bound (Node.acting sent) line a
walk-Accounted deps bound (suc fuel) (Node.acting sent) line a =
    walk-Accounted deps bound fuel _ _ (step-Accounted deps bound (Node.acting sent) line a)

-- At every moment of a line that starts in its first round, the round is one more than the
-- rounds recorded, and the rounds recorded are at most one more than the bound on rounds.
pub walk-rounds :
    (deps : LineDeps) (fuel : ℕ) (line : Line)
    → line.state.round_no ≡ 1
    → line.state.rounds_recorded ≡ 0
    → Settled line.guards.bounds.max_rounds (line_of (walk deps fuel Node.check_bounds line))
walk-rounds deps fuel line first fresh =
    walk-Accounted deps line.guards.bounds.max_rounds fuel Node.check_bounds line (record {
      counted = omega (arith, first, fresh);
      bounded = refl;
      reached = omega (arith, first);
    })
