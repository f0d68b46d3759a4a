-- ===== src/GoalLine/Termination.antt =====
-- Every line of graphs/goal_line.py comes to an end or waits for a decision.
use fleet_graph.Common.{
  Bool, Bool-cases, List, Option, [], arith, false, if◌then◌else◌, inl, inr, is_some, max, none,
  refl, some, suc, true, zero, ℕ, ◌*◌, ◌+◌, ◌-◌, ◌<◌, ◌∷◌, ◌≡◌, ◌≤◌, ◌⊎◌,
}
use fleet_graph.GoalLine.{Action, Line, LineDeps}
use fleet_graph.GoalLine.FanOut.{sends-consumed}
use fleet_graph.GoalLine.Graph.{
  LineEnd, Node, acceptance_step, after_bounds, after_coordinator, awaits_decision, bounds_checked,
  coordinator_turn, joined, sends, step, stopped_line, walk, with_sends, without_actions,
}
use fleet_graph.GoalLine.Rounds.{Ended, coordinator_turn-Weighed, worker_turn-Worked}
use fleet_graph.GoalLine.Verdict.{ended, is_nil}
use fleet_graph.GoalLine.Working.{worker_turn}
use fleet_graph.Graphs.Guards.{StopReason, bounds_exceeded, streak_exceeded}

-- Rounds that are left, the present one included.
abbrev left : Line → ℕ
left line = line.guards.bounds.max_rounds + 1 - line.state.round_no

-- A bound on the steps still to come, where no declared action is sent.
abbrev rank_of : Node → Bool → ℕ → ℕ
rank_of Node.over ended k = 0
rank_of Node.decision_interrupt ended k = 0
rank_of Node.finalise ended k = 1
rank_of Node.check_bounds ended k = if ended then 2 else 5 * k + 2
rank_of Node.acceptance ended k = if ended then 3 else 5 * k + 3
rank_of Node.worker ended k = max 4 (5 * k - 1)
rank_of Node.coordinator ended k = 5 * k + 1
rank_of (Node.acting sent) ended k = 0

abbrev rank : Node → Line → ℕ
rank node line = rank_of node (is_some line.state.terminal) (left line)

abbrev pub steps : LineDeps → Node → Line → ℕ
steps deps (Node.acting sent) line = suc (rank (without_actions deps line.state) line)
steps deps node line = rank node line

abbrev pub Ready : Node → Line → Type 0
Ready Node.coordinator line = line.state.round_no ≤ line.guards.bounds.max_rounds
Ready (Node.acting sent) line = sent ≡ sends line.state.pending_actions
Ready _ line = Unit

-- A step comes closer to the end.
abbrev Closer : LineDeps → Node → Line → Node × Line → Type 0
Closer deps node line (next, later) =
    (steps deps next later < steps deps node line) × Ready next later

route-rank :
    (deps : LineDeps) (line : Line)
    → rank (without_actions deps line.state) line ≤ max 4 (5 * left line + 2)
route-rank deps line = elim (Bool-cases (is_some line.state.terminal)) [
  | inl e ↦ elim (Bool-cases (awaits_decision deps line.state)) [
    | inl f ↦ rw (e, f) (omega arith)
    | inr f ↦ rw (e, f) (omega arith)
  ]
  | inr e ↦ elim (Bool-cases (is_nil line.state.pending_prompt)) [
    | inl f ↦ rw (e, f) (omega arith)
    | inr f ↦ rw (e, f) (omega arith)
  ]
]

route-rank_going :
    (deps : LineDeps) (line : Line)
    → Ended line ⊎ (is_nil line.state.pending_prompt ≡ false)
    → rank (without_actions deps line.state) line ≤ max 4 (5 * left line - 1)
route-rank_going deps line why = elim (Bool-cases (is_some line.state.terminal)) [
  | inl e ↦ elim (Bool-cases (awaits_decision deps line.state)) [
    | inl f ↦ rw (e, f) (omega arith)
    | inr f ↦ rw (e, f) (omega arith)
  ]
  | inr e ↦ elim why [ inl f ↦ cc | inr f ↦ rw (e, f) (omega arith) ]
]

route-plain :
    (deps : LineDeps) (line : Line)
    → (steps deps (without_actions deps line.state) line
        ≡ rank (without_actions deps line.state) line)
      × Ready (without_actions deps line.state) line
route-plain deps line = elim (Bool-cases (is_some line.state.terminal)) [
  | inl e ↦ elim (Bool-cases (awaits_decision deps line.state)) [
    | inl f ↦ rw (e, f) (refl, tt)
    | inr f ↦ rw (e, f) (refl, tt)
  ]
  | inr e ↦ elim (Bool-cases (is_nil line.state.pending_prompt)) [
    | inl f ↦ rw (e, f) (rw e refl, tt)
    | inr f ↦ rw (e, f) (refl, tt)
  ]
]

with_sends-steps :
    (deps : LineDeps) (line : Line) (n : ℕ) (sent : List Action)
    → sent ≡ sends line.state.pending_actions
    → rank (without_actions deps line.state) line + 1 < n
    → (steps deps (with_sends deps line.state sent) line < n)
      × Ready (with_sends deps line.state sent) line
with_sends-steps deps line n [] e h =
    let (same, ready) = route-plain deps line in (omega (arith, same, h), ready)
with_sends-steps deps line n (action ∷ more) e h = (omega arith, e)

-- The rounds that are left after a round.
left-stays :
    (old new : Line)
    → new.guards.bounds ≡ old.guards.bounds
    → new.state.round_no ≡ old.state.round_no
    → left new ≡ left old
left-stays old new b r = rw (b, r) refl

left-moves :
    (old new : Line)
    → new.guards.bounds ≡ old.guards.bounds
    → new.state.round_no ≡ old.state.round_no + 1
    → left new ≡ left old - 1
left-moves old new b r = rw (b, r) (omega arith)

coordinator-Closer :
    (deps : LineDeps) (line : Line)
    → line.state.round_no ≤ line.guards.bounds.max_rounds
    → Closer deps Node.coordinator line (step deps Node.coordinator line)
unfolding step after_coordinator
coordinator-Closer deps line h =
    let next = coordinator_turn deps line in
    let (kept, counted) = coordinator_turn-Weighed deps line in
    with_sends-steps deps next (5 * left line + 1) (sends next.state.pending_actions) refl
      (elim counted [
        | inl (same, recorded, why) ↦
            omega (arith, route-rank_going deps next why, left-stays line next kept same, h)
        | inr (more, recorded) ↦
            omega (arith, route-rank deps next, left-moves line next kept more, h)
      ])

worker-Closer :
    (deps : LineDeps) (line : Line) → Closer deps Node.worker line (step deps Node.worker line)
unfolding step
worker-Closer deps line =
    let next = worker_turn deps line in
    let (kept, counted) = worker_turn-Worked deps line in
    elim counted [
      | inl (same, recorded, ended) ↦ rw ended (omega arith, tt)
      | inr (more, recorded) ↦ elim (Bool-cases (is_some next.state.terminal)) [
        | inl e ↦ rw e (omega arith, tt)
        | inr e ↦ rw e (omega (arith, left-moves line next kept more), tt)
      ]
    ]

acceptance-Closer :
    (deps : LineDeps) (line : Line)
    → Closer deps Node.acceptance line (step deps Node.acceptance line)
unfolding step acceptance_step
acceptance-Closer deps line = elim (Bool-cases (is_some line.state.terminal)) [
  | inl e ↦ rw e (omega arith, tt)
  | inr e ↦ rw e (omega arith, tt)
]

-- The sends of what is left after the fan-out are none.
acting-Closer :
    (deps : LineDeps) (sent : List Action) (line : Line)
    → sent ≡ sends line.state.pending_actions
    → Closer deps (Node.acting sent) line (step deps (Node.acting sent) line)
unfolding step after_coordinator
acting-Closer deps sent line h =
    let next = joined line sent in
    let none_left : sends next.state.pending_actions ≡ [] =
      rw h (sends-consumed line.state.pending_actions) in
    let (same, ready) = route-plain deps next in
    let alike : rank (without_actions deps next.state) next
        ≡ rank (without_actions deps line.state) line =
      refl in
    let closer : steps deps (without_actions deps next.state) next
        < suc (rank (without_actions deps line.state) line) =
      omega (arith, same, alike) in
    rw none_left (closer, ready)

stopped-Closer :
    (deps : LineDeps) (line : Line) (bound streak : Option StopReason)
    → (bound ≡ none → line.state.round_no ≤ line.guards.bounds.max_rounds)
    → Closer deps Node.check_bounds line
        (after_bounds (stopped_line line bound streak).state, stopped_line line bound streak)
unfolding after_bounds
stopped-Closer deps line (some reason) streak h = elim (Bool-cases (is_some line.state.terminal)) [
  | inl e ↦ rw e (omega arith, tt)
  | inr e ↦ rw e (omega arith, tt)
]
stopped-Closer deps line none (some streak) h = elim (Bool-cases (is_some line.state.terminal)) [
  | inl e ↦ rw e (omega arith, tt)
  | inr e ↦ rw e (omega arith, tt)
]
stopped-Closer deps line none none h = elim (Bool-cases (is_some line.state.terminal)) [
  | inl e ↦ rw e (omega arith, tt)
  | inr e ↦ rw e (omega arith, h refl)
]

check-Closer :
    (deps : LineDeps) (line : Line)
    → Closer deps Node.check_bounds line (step deps Node.check_bounds line)
unfolding step bounds_checked bounds_exceeded
check-Closer deps line =
    stopped-Closer deps line (bounds_exceeded line.guards line.state.round_no (deps.clock line))
      (streak_exceeded line.guards) (λ e. ground arith)

abbrev pub has_stopped : LineEnd → Bool
has_stopped (LineEnd.at_end line) = true
has_stopped (LineEnd.at_question line) = true
has_stopped (LineEnd.under_way line) = false

-- Enough fuel: as many steps as are still to come.
walk-stops_from :
    (deps : LineDeps) (fuel : ℕ) (node : Node) (line : Line)
    → Ready node line
    → steps deps node line ≤ fuel
    → has_stopped (walk deps fuel node line) ≡ true
unfolding walk
walk-stops_from deps fuel Node.over line r h = refl
walk-stops_from deps fuel Node.decision_interrupt line r h = refl
walk-stops_from deps zero Node.check_bounds line r h =
    let none : ⊥ = omega (arith, (check-Closer deps line).0, h) in elim none [ ]
walk-stops_from deps (suc fuel) Node.check_bounds line r h =
    let (closer, ready) = check-Closer deps line in
    walk-stops_from deps fuel (step deps Node.check_bounds line).0
      (step deps Node.check_bounds line).1 ready (omega (arith, closer, h))
walk-stops_from deps zero Node.coordinator line r h =
    let none : ⊥ = omega (arith, (coordinator-Closer deps line r).0, h) in elim none [ ]
walk-stops_from deps (suc fuel) Node.coordinator line r h =
    let (closer, ready) = coordinator-Closer deps line r in
    walk-stops_from deps fuel (step deps Node.coordinator line).0
      (step deps Node.coordinator line).1 ready (omega (arith, closer, h))
walk-stops_from deps zero Node.worker line r h =
    let none : ⊥ = omega (arith, (worker-Closer deps line).0, h) in elim none [ ]
walk-stops_from deps (suc fuel) Node.worker line r h =
    let (closer, ready) = worker-Closer deps line in
    walk-stops_from deps fuel (step deps Node.worker line).0 (step deps Node.worker line).1 ready
      (omega (arith, closer, h))
walk-stops_from deps zero Node.acceptance line r h =
    let none : ⊥ = omega (arith, (acceptance-Closer deps line).0, h) in elim none [ ]
walk-stops_from deps (suc fuel) Node.acceptance line r h =
    let (closer, ready) = acceptance-Closer deps line in
    walk-stops_from deps fuel (step deps Node.acceptance line).0 (step deps Node.acceptance line).1
      ready (omega (arith, closer, h))
walk-stops_from deps zero Node.finalise line r h = let none : ⊥ = omega (arith, h) in elim none [ ]
walk-stops_from deps (suc fuel) Node.finalise line r h = refl
walk-stops_from deps zero (Node.acting sent) line r h =
    let none : ⊥ = omega (arith, (acting-Closer deps sent line r).0, h) in elim none [ ]
walk-stops_from deps (suc fuel) (Node.acting sent) line r h =
    let (closer, ready) = acting-Closer deps sent line r in
    walk-stops_from deps fuel (step deps (Node.acting sent) line).0
      (step deps (Node.acting sent) line).1 ready (omega (arith, closer, h))

-- Whatever its coordinator and its worker answer, a goal line stops, in a terminal or at a
-- question to a human, within five steps for each round that is left and two more.
pub walk-stops :
    (deps : LineDeps) (line : Line)
    → has_stopped (
        walk deps
          (5 * (line.guards.bounds.max_rounds + 1 - line.state.round_no) + 2)
          Node.check_bounds
          line)
      ≡ true
walk-stops deps line =
    walk-stops_from deps (5 * left line + 2) Node.check_bounds line tt
      (elim (Bool-cases (is_some line.state.terminal)) [
        | inl e ↦ rw e (omega arith)
        | inr e ↦ rw e (omega arith)
      ])
