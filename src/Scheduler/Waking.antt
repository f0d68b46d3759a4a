-- ===== src/Scheduler/Waking.antt =====
-- The facts that wake a parked line, and the parking on a development: `_check_wake`, `_dd_park` and
-- `park_state` of scheduler/daemon.py.
use fleet_graph.Common.{
  Bool, Option, Result, String, err, false, get_or, if◌then◌else◌, is_some, ltb, max, none, ok,
  some, true, ℕ, ◌&&◌, ◌*◌, ◌-◌, ◌==◌, ◌||◌,
}
use fleet_graph.GoalLine.Graph.{consumed}
use fleet_graph.Scheduler.Parking.{
  LineSpec, ParkEvent, Parked, WakeSignals, World, consider, considered_only, establish_park, held,
  inbox_probe, left, no_park,
}
use fleet_graph.Scheduler.Stall.{
  StallFile, StallState, TerminalRecord, is_word, present, same_run, stall_state, state_word,
  unparked, write_stall_state,
}

-- max(0, now - max(consumed, parked)), where it reaches the threshold.
abbrev pub waited_since : World → ℕ → Option ℕ
waited_since w baseline =
    if ltb (w.clock - baseline) (w.decision_wake_stall_ticks * w.interval_seconds)
    then none
    else some (w.clock - baseline)

abbrev pub decision_wake_stall : World → StallState → Option ℕ
decision_wake_stall w s = elim s.dispatched_decision_consumed_at [
  | none ↦ none
  | some consumed ↦ waited_since w (max consumed (get_or s.parked_at consumed))
]

-- The snapshot is cleared; the terminal stays considered.
abbrev pub wake_up : World → StallState → ParkEvent → Option ℕ → StallFile → Parked
wake_up w s event stall file =
    left (write_stall_state w.parking_writes (unparked s.park_considered_run_id s) file)
      (record (no_park (some event)) { decision_wake_stall = stall })

-- The goal text is compared with the revision that the line has consumed.
abbrev pub on_revision : World → StallState → StallFile → Result String (Option String) → Parked
on_revision w s file (err tag) = left file (held "decision" (some (ParkEvent.held_goal_failed tag)))
on_revision w s file (ok none) = left file (held "decision" (some ParkEvent.held_no_goal_fact))
on_revision w s file (ok (some revision)) =
    if same_run revision s.parked_goal_revision
    then left file (held "decision" none)
    else wake_up w s ParkEvent.woken_goal_revision none file

abbrev pub wake_on_goal : World → LineSpec → StallState → StallFile → Option WakeSignals → Parked
wake_on_goal w line s file none =
    wake_up w s (ParkEvent.woken_probe_failed "RuntimeError") none file
wake_on_goal w line s file (some signals) =
    on_revision w s file (signals.goal_revision line.folder_id)

-- A failure of the inbox is passed over.
abbrev pub wake_on_mail :
    World → LineSpec → StallState → StallFile → Option (Result String Bool) → Parked
wake_on_mail w line s file (some (ok true)) = wake_up w s ParkEvent.woken_inbox none file
wake_on_mail w line s file (some (ok false)) = wake_on_goal w line s file w.wake
wake_on_mail w line s file (some (err tag)) = wake_on_goal w line s file w.wake
wake_on_mail w line s file none = wake_on_goal w line s file w.wake

abbrev pub decision_probe : World → StallState → Option WakeSignals → Option (Result String Bool)
decision_probe w s none = none
decision_probe w s (some signals) =
    if present s.board_question_note_id
    then some (signals.decision_landed (get_or s.board_question_note_id "") (get_or s.parked_at 0))
    else none

abbrev pub wake_on_decision :
    World
    → LineSpec
    → TerminalRecord
    → StallState
    → StallFile
    → Option (Result String Bool)
    → Parked
wake_on_decision w line r s file (some (ok true)) =
    wake_up w s ParkEvent.woken_board_decision none file
wake_on_decision w line r s file (some (err tag)) =
    wake_up w s (ParkEvent.woken_probe_failed tag) none file
wake_on_decision w line r s file (some (ok false)) =
    wake_on_mail w line s file (inbox_probe w.wake line.alias r.at_epoch)
wake_on_decision w line r s file none =
    wake_on_mail w line s file (inbox_probe w.wake line.alias r.at_epoch)

unfoldable pub check_wake : World → LineSpec → TerminalRecord → StallState → StallFile → Parked
check_wake w line r s file =
    if is_some s.dispatched_decision_consumed_at
    then wake_up w s ParkEvent.woken_decision_consumed (decision_wake_stall w s) file
    else wake_on_decision w line r s file (decision_probe w s w.wake)

-- _dd_fact: without a source the probe fails.
abbrev pub dd_fact : World → String → Result String (Option String)
dd_fact w development = elim w.dd [ none ↦ err "RuntimeError" | some probe ↦ probe development ]

abbrev pub wakes_dd : String → Bool
wakes_dd fact = (fact == "awaiting_gate") || (fact == "terminal")

abbrev pub gate_of : String → String → Option String
gate_of fact development = if fact == "awaiting_gate" then some development else none

abbrev pub dd_snapshot : World → TerminalRecord → String → String → StallState → StallState
dd_snapshot w r run development s = record s {
  parked_run_id = some run;
  parked_at = some w.now;
  parked_dd_development_id = some development;
  line_state = state_word r;
}

abbrev pub dd_park_on : World → TerminalRecord → String → String → StallState → StallFile → Parked
dd_park_on w r run development s file =
    left (write_stall_state w.parking_writes (dd_snapshot w r run development s) file)
      (held "dd" (some ParkEvent.established_dd))

abbrev pub dd_establish_on :
    World
    → TerminalRecord
    → String
    → String
    → StallState
    → StallFile
    → Result String (Option String)
    → Parked
dd_establish_on w r run development s file (err tag) =
    considered_only w s (ParkEvent.dd_probe_failed tag) file
dd_establish_on w r run development s file (ok none) = dd_park_on w r run development s file
dd_establish_on w r run development s file (ok (some fact)) =
    if wakes_dd fact
    then record (considered_only w s (ParkEvent.dd_already fact) file) {
      dd_gate = gate_of fact development;
    }
    else dd_park_on w r run development s file

unfoldable pub dd_establish_park : World → TerminalRecord → String → StallState → StallFile → Parked
dd_establish_park w r run s file =
    let development = get_or r.dd_development_id "" in
    if development == ""
    then considered_only w s ParkEvent.no_dd_development file
    else dd_establish_on w r run development s file (dd_fact w development)

abbrev pub dd_wake_on :
    World → String → StallState → StallFile → Result String (Option String) → Parked
dd_wake_on w development s file (err tag) =
    wake_up w s (ParkEvent.woken_dd_probe_failed tag) none file
dd_wake_on w development s file (ok none) = left file (held "dd" none)
dd_wake_on w development s file (ok (some fact)) =
    if wakes_dd fact
    then record (wake_up w s (ParkEvent.woken_dd fact) none file) {
      dd_gate = gate_of fact development;
    }
    else left file (held "dd" none)

abbrev pub dd_anchor : TerminalRecord → StallState → String
dd_anchor r s =
    if present s.parked_dd_development_id
    then get_or s.parked_dd_development_id ""
    else get_or r.dd_development_id ""

unfoldable pub dd_check_wake : World → TerminalRecord → StallState → StallFile → Parked
dd_check_wake w r s file =
    if dd_anchor r s == ""
    then wake_up w s ParkEvent.woken_dd_anchor_lost none file
    else dd_wake_on w (dd_anchor r s) s file (dd_fact w (dd_anchor r s))

abbrev pub is_parked_on : String → StallState → Bool
is_parked_on run s = same_run run s.parked_run_id && is_some s.parked_at

unfoldable pub dd_park : World → TerminalRecord → String → StallFile → Parked
dd_park w r run file =
    let s = stall_state file in
    if is_parked_on run s
    then dd_check_wake w r s file
    else if same_run run s.park_considered_run_id
    then left file (no_park none)
    else dd_establish_park w r run (consider run s) file

unfoldable pub decision_park : World → LineSpec → TerminalRecord → String → StallFile → Parked
decision_park w line r run file =
    let s = stall_state file in
    if is_parked_on run s
    then check_wake w line r s file
    else if same_run run s.park_considered_run_id
    then left file (no_park none)
    else establish_park w line r run s file

abbrev pub park_blocked : World → LineSpec → TerminalRecord → Option String → StallFile → Parked
park_blocked w line r none file = left file (no_park none)
park_blocked w line r (some run) file =
    if is_word "dd" r.waiting_on
    then dd_park w r run file
    else if is_word "decision" r.waiting_on
    then decision_park w line r run file
    else left file (no_park none)

-- Establishes a parking, holds it, or wakes the line.
unfoldable pub park_state : World → LineSpec → Option TerminalRecord → StallFile → Parked
park_state w line none file = left file (no_park none)
park_state w line (some r) file =
    if is_word "blocked" r.terminal
    then park_blocked w line r r.run_id file
    else left file (no_park none)
