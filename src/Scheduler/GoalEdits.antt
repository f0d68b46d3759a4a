-- ===== src/Scheduler/GoalEdits.antt =====
-- An edit of the goal and a parked line: `_establish_park` and `_check_wake` of scheduler/daemon.py.
-- Parked on a run, with the revision that the line had read.
use fleet_graph.Common.{
  Bool, Bool-cases, Option, Result, String, ap, err, false, get_or, inl, inr, is_some, none, ok,
  refl, some, subst, true, ◌==◌, ◌∙◌, ◌≡◌,
}
use fleet_graph.Scheduler.Once.{dd-no_decision, is_word-some, park_state-blocked}
use fleet_graph.Scheduler.Parking.{
  Board, LineSpec, Parked, WakeSignals, World, anchor_of, ask_board, asked, consider,
  establish_from, establish_park, inbox_probe, on_anchor, snapshot, with_card,
}
use fleet_graph.Scheduler.Stall.{
  StallFile, StallState, TerminalRecord, present, same_run, stall_state, write_stall_state,
}
use fleet_graph.Scheduler.Streaks.{same_run_refl}
use fleet_graph.Scheduler.Waking.{
  check_wake, decision_park, decision_probe, is_parked_on, park_state, wake_on_decision,
  wake_on_goal, wake_on_mail,
}

abbrev Anchored : String → String → StallState → Type 0
Anchored run c s = (is_parked_on run s ≡ true) × (s.parked_goal_revision ≡ some c)

asked-Anchored :
    (run c card : String) (s : StallState) (reply : Result String String)
    → Anchored run c s
    → Anchored run c (asked card s reply).0
asked-Anchored run c card s (ok note) h = h
asked-Anchored run c card s (err tag) h = h

card-Anchored :
    (run c : String) (board : Board) (s : StallState) (reply : Result String String)
    → Anchored run c s
    → Anchored run c (with_card board run s reply).0
card-Anchored run c board s (ok card) h =
    asked-Anchored run c card (record s { board_card_entity_id = some card }) (board.ask card run) h
card-Anchored run c board s (err tag) h = h

ask_board-Anchored :
    (run c folder : String) (board : Option Board) (s : StallState)
    → Anchored run c s
    → Anchored run c (ask_board board folder run s).0
ask_board-Anchored run c folder none s h = h
ask_board-Anchored run c folder (some board) s h =
    elim (Bool-cases (present s.board_card_entity_id)) [
      | inl p ↦ rw p (
          asked-Anchored run c (get_or s.board_card_entity_id "") s
            (board.ask (get_or s.board_card_entity_id "") run) h)
      | inr p ↦ rw p (card-Anchored run c board s (board.publish folder) h)
    ]

write-Anchored :
    (run c : String) (s : StallState) (file : StallFile)
    → Anchored run c s
    → Anchored run c (stall_state (write_stall_state true s file))
unfolding write_stall_state
write-Anchored run c s StallFile.absent h = h
write-Anchored run c s StallFile.unreadable h = h
write-Anchored run c s (StallFile.stored old) h = h

-- Where parking is established, it is on the revision of the terminal.
abbrev Anchors : String → String → Parked → Type 0
Anchors run c p = p.outcome.parked ≡ true → Anchored run c (stall_state p.file)

module _ (w : World) (line : LineSpec) (r : TerminalRecord) (run c : String)
    (on : w.parking_writes ≡ true) (read : r.goal_revision ≡ some c) where
  anchor-Anchors :
      (inbox : Bool) (tag : Option String) (s : StallState) (file : StallFile)
      (anchor : Result String (Option String))
      → Anchors run c (on_anchor w line r run inbox tag s file anchor)
  anchor-Anchors inbox tag s file (err e) = λ p. cc
  anchor-Anchors inbox tag s file (ok none) = λ p. cc
  anchor-Anchors inbox tag s file (ok (some g)) = elim (Bool-cases (present r.goal_revision)) [
    | inl h ↦ rw h (λ p. rw on (
        write-Anchored run c
          (ask_board w.board line.folder_id run
            (snapshot w run (get_or r.goal_revision "") inbox s)).0
          file
          (ask_board-Anchored run c line.folder_id w.board
            (snapshot w run (get_or r.goal_revision "") inbox s)
            (rw (same_run_refl run) refl, ap (λ o. some (get_or o "")) read))))
    | inr h ↦ rw h (λ p. cc)
  ]

  establish-Anchors :
      (s : StallState) (file : StallFile) (mail : Option (Result String Bool))
      → Anchors run c (establish_from w line r run s file mail)
  establish-Anchors s file (some (ok true)) = λ p. cc
  establish-Anchors s file (some (ok false)) =
      anchor-Anchors true none s file (anchor_of w.wake line.folder_id)
  establish-Anchors s file (some (err tag)) =
      anchor-Anchors false (some tag) s file (anchor_of w.wake line.folder_id)
  establish-Anchors s file none = anchor-Anchors false none s file (anchor_of w.wake line.folder_id)

  decision_park-Anchors :
      (file : StallFile)
      → is_parked_on run (stall_state file) ≡ false
      → Anchors run c (decision_park w line r run file)
  unfolding decision_park establish_park
  decision_park-Anchors file free =
      rw free (elim (Bool-cases (same_run run (stall_state file).park_considered_run_id)) [
        | inl g ↦ rw g (λ p. cc)
        | inr g ↦ rw g (
            establish-Anchors (consider run (stall_state file)) file
              (inbox_probe w.wake line.alias r.at_epoch))
      ])

-- The revision is another one now.
abbrev Wakes : Parked → Type 0
Wakes p = p.outcome.parked ≡ false

module _ (w : World) (line : LineSpec) (r : TerminalRecord) (s : StallState) (file : StallFile)
    (c edited : String) (signals : WakeSignals) (source : w.wake ≡ some signals)
    (seen : signals.goal_revision line.folder_id ≡ ok (some edited))
    (kept : s.parked_goal_revision ≡ some c) (changed : (edited == c) ≡ false) where
  goal-Wakes : Wakes (wake_on_goal w line s file w.wake)
  goal-Wakes = rw (source, seen, kept, changed) refl

  mail-Wakes : (mail : Option (Result String Bool)) → Wakes (wake_on_mail w line s file mail)
  mail-Wakes (some (ok true)) = refl
  mail-Wakes (some (ok false)) = goal-Wakes
  mail-Wakes (some (err tag)) = goal-Wakes
  mail-Wakes none = goal-Wakes

  decision-Wakes :
      (ruling : Option (Result String Bool)) → Wakes (wake_on_decision w line r s file ruling)
  decision-Wakes (some (ok true)) = refl
  decision-Wakes (some (err tag)) = refl
  decision-Wakes (some (ok false)) = mail-Wakes (inbox_probe w.wake line.alias r.at_epoch)
  decision-Wakes none = mail-Wakes (inbox_probe w.wake line.alias r.at_epoch)

  check_wake-Wakes : Wakes (check_wake w line r s file)
  unfolding check_wake
  check_wake-Wakes = elim (Bool-cases (is_some s.dispatched_decision_consumed_at)) [
    | inl h ↦ rw h refl
    | inr h ↦ rw h (decision-Wakes (decision_probe w s w.wake))
  ]

decision-blocked :
    (w : World) (line : LineSpec) (r : TerminalRecord) (run : String) (file : StallFile)
    → r.terminal ≡ some "blocked"
    → r.run_id ≡ some run
    → r.waiting_on ≡ some "decision"
    → park_state w line (some r) file ≡ decision_park w line r run file
decision-blocked w line r run file blocked e waits =
    park_state-blocked w line r run file blocked e
    ∙ rw (dd-no_decision r.waiting_on waits, is_word-some "decision" r.waiting_on waits) refl

Anchored-Wakes :
    (w : World) (line : LineSpec) (r : TerminalRecord) (run c edited : String)
    (signals : WakeSignals) (file : StallFile)
    → Anchored run c (stall_state file)
    → w.wake ≡ some signals
    → signals.goal_revision line.folder_id ≡ ok (some edited)
    → (edited == c) ≡ false
    → Wakes (decision_park w line r run file)
unfolding decision_park
Anchored-Wakes w line r run c edited signals file (parked, kept) source seen changed =
    rw parked
      (check_wake-Wakes w line r (stall_state file) file c edited signals source seen kept changed)

-- A line that a tick with working writes parks on a decision wakes in the next tick whose probe
-- names another goal revision than the one its terminal has read, also where the goal was
-- edited before the parking.
pub goal_edit-wakes :
    (w later : World) (line : LineSpec) (r : TerminalRecord) (run c edited : String)
    (signals : WakeSignals) (file : StallFile)
    → w.parking_writes ≡ true
    → r.terminal ≡ some "blocked"
    → r.run_id ≡ some run
    → r.waiting_on ≡ some "decision"
    → r.goal_revision ≡ some c
    → is_parked_on run (stall_state file) ≡ false
    → (park_state w line (some r) file).outcome.parked ≡ true
    → later.wake ≡ some signals
    → signals.goal_revision line.folder_id ≡ ok (some edited)
    → (edited == c) ≡ false
    → (park_state later line (some r) (park_state w line (some r) file).file).outcome.parked ≡ false
goal_edit-wakes w later line r run c edited signals file on blocked e waits read free parked source
      seen changed =
    let first = decision-blocked w line r run file blocked e waits in
    let anchored =
      decision_park-Anchors w line r run c on read file free
        (subst (λ p. p.outcome.parked ≡ true) first parked) in
    rw
      (
        first,
        decision-blocked later line r run (decision_park w line r run file).file blocked e waits,
      )
      (Anchored-Wakes later line r run c edited signals (decision_park w line r run file).file
        anchored source seen changed)
