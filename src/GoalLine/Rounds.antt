-- ===== src/GoalLine/Rounds.antt =====
-- How the nodes of graphs/goal_line.py count rounds.
use fleet_graph.Common.{
  Bool, Bool-cases, List, [], false, if◌then◌else◌, inl, inr, is_some, refl, true, ℕ, ◌+◌, ◌∙◌, ◌∷◌,
  ◌≡◌, ◌⊎◌,
}
use fleet_graph.GoalLine.{CoordinatorResult, Line, LineDeps, LineState, WorkOutcome, WorkReport}
use fleet_graph.GoalLine.Graph.{acked, coordinator_turn}
use fleet_graph.GoalLine.Verdict.{
  blocked_update, continue_update, is_nil, is_text, n7_rejects_blocked, prompt_recorded,
  prompt_update, trim, verdict_of, verdict_update,
}
use fleet_graph.GoalLine.Working.{
  WorkEnd, after_report, calls_from, progressed, settled, worker_prompt, worker_turn,
}
use fleet_graph.Graphs.Guards.{
  LineGuards, PromptCheck, Text, accept_prompt, check_prompt, injectable, record_noop,
  record_progress,
}

-- The round stays, for a reason, or is counted.
abbrev pub Counted : Type 0 → Line → Line → Type 0
Counted why old new =
    (new.guards.bounds ≡ old.guards.bounds)
    × (((new.state.round_no ≡ old.state.round_no)
          × (new.state.rounds_recorded ≡ old.state.rounds_recorded)
          × why)
        ⊎ ((new.state.round_no ≡ old.state.round_no + 1)
            × (new.state.rounds_recorded ≡ old.state.rounds_recorded + 1)))

abbrev pub Ended : Line → Type 0
Ended line = is_some line.state.terminal ≡ true

-- A coordinator's round that stays ends the line or has a prompt to go on with.
abbrev pub Weighed : Line → Line → Type 0
Weighed old new = Counted (Ended new ⊎ (is_nil new.state.pending_prompt ≡ false)) old new

abbrev pub Worked : Line → Line → Type 0
Worked old new = Counted (Ended new) old new

trim-nil : (text : Text) → is_nil (trim text) ≡ false → is_nil text ≡ false
unfolding trim
trim-nil [] h = h
trim-nil (c ∷ cs) h = refl

accept-bounds :
    (g : LineGuards) (check : PromptCheck) (prompt : Text) (round_no : ℕ)
    → (prompt_recorded g (accept_prompt g check prompt round_no)).bounds ≡ g.bounds
unfolding accept_prompt
accept-bounds g check prompt round_no = elim (Bool-cases (injectable check)) [
  | inl e ↦ rw e refl
  | inr e ↦ rw e refl
]

count-bounds :
    (b : Bool) (g : LineGuards) → (if b then record_noop g else record_progress g).bounds ≡ g.bounds
count-bounds true g = refl
count-bounds false g = refl

prompt_update-Weighed :
    (deps : LineDeps) (line : Line) (result : CoordinatorResult) (check : PromptCheck)
    → is_nil (trim result.next_prompt) ≡ false
    → Weighed line (prompt_update deps line line.state.round_no result check)
unfolding prompt_update
prompt_update-Weighed deps line result check h = elim (Bool-cases (injectable check)) [
  | inl e ↦ rw e (
    accept-bounds _ check result.next_prompt line.state.round_no
        ∙ count-bounds result.no_progress line.guards,
    inl (refl, refl, inr (trim-nil result.next_prompt h)),
  )
  | inr e ↦ rw e (refl, inr (refl, refl))
]

blocked_update-Weighed :
    (deps : LineDeps) (line : Line) (result : CoordinatorResult)
    → Weighed line (blocked_update deps line line.state.round_no result)
unfolding blocked_update
blocked_update-Weighed deps line result =
    elim (Bool-cases (n7_rejects_blocked result.reason deps.overall)) [
      | inl e ↦ rw e (refl, inr (refl, refl))
      | inr e ↦ rw e (refl, inl (refl, refl, inl refl))
    ]

pub verdict_update-Weighed :
    (deps : LineDeps) (line : Line) (result : CoordinatorResult)
    → Weighed line (verdict_update deps line line.state.round_no result)
unfolding verdict_update continue_update
verdict_update-Weighed deps line result = elim (Bool-cases (is_text "done" (verdict_of result))) [
  | inl e ↦ rw e (refl, inl (refl, refl, inl refl))
  | inr e ↦ rw e (elim (Bool-cases (is_text "blocked" (verdict_of result))) [
    | inl f ↦ rw f (blocked_update-Weighed deps line result)
    | inr f ↦ rw f (elim (Bool-cases (is_text "continue" (verdict_of result))) [
      | inl g ↦ rw g (elim (Bool-cases (is_nil (trim result.next_prompt))) [
        | inl h ↦ rw h (refl, inl (refl, refl, inl refl))
        | inr h ↦ rw h (
            prompt_update-Weighed deps line result
              (check_prompt deps.digest line.guards result.next_prompt) h)
      ])
      | inr g ↦ rw g (refl, inl (refl, refl, inl refl))
    ])
  ])
]

acked-bounds :
    (line : Line) (round_no : ℕ) (drained unacked : Bool)
    → (acked line round_no drained unacked).guards.bounds ≡ line.guards.bounds
acked-bounds line round_no true true = refl
acked-bounds line round_no true false = refl
acked-bounds line round_no false unacked = refl

pub coordinator_turn-Weighed :
    (deps : LineDeps) (line : Line) → Weighed line (coordinator_turn deps line)
unfolding coordinator_turn
coordinator_turn-Weighed deps line =
    let result = deps.coordinator line line.state.round_no in
    let (drained, unacked) = deps.acknowledged line result in
    let (kept, counted) =
      verdict_update-Weighed deps (acked line line.state.round_no drained unacked) result in
    (kept ∙ acked-bounds line line.state.round_no drained unacked, counted)

after_report-counts :
    (state : LineState) (report : WorkReport) (outcome : WorkOutcome)
    → ((after_report state report outcome).round_no ≡ state.round_no)
      × ((after_report state report outcome).rounds_recorded ≡ state.rounds_recorded)
after_report-counts state report WorkOutcome.completed = (refl, refl)
after_report-counts state report (WorkOutcome.work_blocked kind detail) = (refl, refl)
after_report-counts state report WorkOutcome.work_failed = (refl, refl)

settled-Worked :
    (line : Line) (work : List Text × WorkEnd) → Worked line (settled line line.state.round_no work)
unfolding settled
settled-Worked line (turns, WorkEnd.answered report used) = (
  refl,
  inr (
      after_report-counts (progressed line.state line.state.round_no report) report report.outcome),
)
settled-Worked line (turns, WorkEnd.out_of_time detail) = (refl, inr (refl, refl))
settled-Worked line (turns, WorkEnd.refused_again kind detail used) = (refl, inl (refl, refl, refl))

pub worker_turn-Worked : (deps : LineDeps) (line : Line) → Worked line (worker_turn deps line)
unfolding worker_turn
worker_turn-Worked deps line =
    let prompt = worker_prompt deps line.state.pending_prompt in
    settled-Worked line (
      calls_from deps line.state.round_no prompt prompt deps.worker_report_retry_limit 0 line.turns)
