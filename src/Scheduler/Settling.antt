-- ===== src/Scheduler/Settling.antt =====
-- A blocked terminal is parked once: `park_state` of scheduler/daemon.py.
-- The terminal of a run was considered, and is not parked now.
use fleet_graph.Common.{
  Bool, Bool-cases, Option, Result, String, err, false, get_or, inl, inr, is_some, none, ok, refl,
  some, true, ℕ, ◌==◌, ◌≡◌,
}
use fleet_graph.Scheduler.Parking.{
  LineSpec, ParkEvent, Parked, WakeSignals, World, anchor_of, consider, considered_only,
  establish_from, inbox_probe, on_anchor,
}
use fleet_graph.Scheduler.Stall.{
  StallFile, StallState, TerminalRecord, present, same_run, stall_state, unparked,
  write_stall_state,
}
use fleet_graph.Scheduler.Streaks.{same_run_refl}
use fleet_graph.Scheduler.Waking.{
  check_wake, dd_anchor, dd_check_wake, dd_establish_on, dd_establish_park, dd_fact, dd_wake_on,
  decision_probe, decision_wake_stall, is_parked_on, on_revision, wake_on_decision, wake_on_goal,
  wake_on_mail, wake_up, wakes_dd,
}

abbrev pub Settled : String → StallFile → Type 0
Settled run file =
    (same_run run (stall_state file).park_considered_run_id ≡ true)
    × (is_parked_on run (stall_state file) ≡ false)

-- What is parked was considered.
abbrev pub Considered : String → StallFile → Type 0
Considered run file =
    is_parked_on run (stall_state file) ≡ true
    → same_run run (stall_state file).park_considered_run_id ≡ true

abbrev pub Settles : String → Parked → Type 0
Settles run p = p.outcome.parked ≡ false → Settled run p.file

write-Settled :
    (run : String) (s : StallState) (file : StallFile)
    → same_run run s.park_considered_run_id ≡ true
    → is_parked_on run s ≡ false
    → Settled run (write_stall_state true s file)
unfolding write_stall_state
write-Settled run s StallFile.absent c p = (c, p)
write-Settled run s StallFile.unreadable c p = (c, p)
write-Settled run s (StallFile.stored old) c p = (c, p)

module _ (w : World) (run : String) (on : w.parking_writes ≡ true) where
  pub considered_only-Settles :
      (s : StallState) (event : ParkEvent) (file : StallFile)
      → is_parked_on run s ≡ false
      → Settles run (considered_only w (consider run s) event file)
  considered_only-Settles s event file free h =
      rw on (write-Settled run (consider run s) file (same_run_refl run) free)

  pub wake_up-Settles :
      (s : StallState) (event : ParkEvent) (stall : Option ℕ) (file : StallFile)
      → same_run run s.park_considered_run_id ≡ true
      → Settles run (wake_up w s event stall file)
  wake_up-Settles s event stall file c h =
      rw on (write-Settled run (unparked s.park_considered_run_id s) file c refl)

  pub on_anchor-Settles :
      (line : LineSpec) (r : TerminalRecord) (inbox : Bool) (tag : Option String) (s : StallState)
      (file : StallFile) (anchor : Result String (Option String))
      → is_parked_on run s ≡ false
      → Settles run (on_anchor w line r run inbox tag (consider run s) file anchor)
  on_anchor-Settles line r inbox tag s file (err e) free =
      considered_only-Settles s (ParkEvent.probe_failed e) file free
  on_anchor-Settles line r inbox tag s file (ok none) free =
      considered_only-Settles s ParkEvent.no_goal_fact file free
  on_anchor-Settles line r inbox tag s file (ok (some g)) free =
      elim (Bool-cases (present r.goal_revision)) [
        | inl h ↦ rw h (λ p. cc)
        | inr h ↦ rw h (considered_only-Settles s ParkEvent.no_consumed_revision file free)
      ]

  pub establish-Settles :
      (line : LineSpec) (r : TerminalRecord) (s : StallState) (file : StallFile)
      (mail : Option (Result String Bool))
      → is_parked_on run s ≡ false
      → Settles run (establish_from w line r run (consider run s) file mail)
  establish-Settles line r s file (some (ok true)) free =
      considered_only-Settles s ParkEvent.inbox_already_has_mail file free
  establish-Settles line r s file (some (ok false)) free =
      on_anchor-Settles line r true none s file (anchor_of w.wake line.folder_id) free
  establish-Settles line r s file (some (err tag)) free =
      on_anchor-Settles line r false (some tag) s file (anchor_of w.wake line.folder_id) free
  establish-Settles line r s file none free =
      on_anchor-Settles line r false none s file (anchor_of w.wake line.folder_id) free

  revision-Settles :
      (s : StallState) (file : StallFile) (now_ : Result String (Option String))
      → same_run run s.park_considered_run_id ≡ true
      → Settles run (on_revision w s file now_)
  revision-Settles s file (err tag) c = λ p. cc
  revision-Settles s file (ok none) c = λ p. cc
  revision-Settles s file (ok (some g)) c = elim (Bool-cases (same_run g s.parked_goal_revision)) [
    | inl h ↦ rw h (λ p. cc)
    | inr h ↦ rw h (wake_up-Settles s ParkEvent.woken_goal_revision none file c)
  ]

  goal-Settles :
      (line : LineSpec) (s : StallState) (file : StallFile) (signals : Option WakeSignals)
      → same_run run s.park_considered_run_id ≡ true
      → Settles run (wake_on_goal w line s file signals)
  goal-Settles line s file none c =
      wake_up-Settles s (ParkEvent.woken_probe_failed "RuntimeError") none file c
  goal-Settles line s file (some signals) c =
      revision-Settles s file (signals.goal_revision line.folder_id) c

  mail-Settles :
      (line : LineSpec) (s : StallState) (file : StallFile) (mail : Option (Result String Bool))
      → same_run run s.park_considered_run_id ≡ true
      → Settles run (wake_on_mail w line s file mail)
  mail-Settles line s file (some (ok true)) c = wake_up-Settles s ParkEvent.woken_inbox none file c
  mail-Settles line s file (some (ok false)) c = goal-Settles line s file w.wake c
  mail-Settles line s file (some (err tag)) c = goal-Settles line s file w.wake c
  mail-Settles line s file none c = goal-Settles line s file w.wake c

  decision-Settles :
      (line : LineSpec) (r : TerminalRecord) (s : StallState) (file : StallFile)
      (ruling : Option (Result String Bool))
      → same_run run s.park_considered_run_id ≡ true
      → Settles run (wake_on_decision w line r s file ruling)
  decision-Settles line r s file (some (ok true)) c =
      wake_up-Settles s ParkEvent.woken_board_decision none file c
  decision-Settles line r s file (some (err tag)) c =
      wake_up-Settles s (ParkEvent.woken_probe_failed tag) none file c
  decision-Settles line r s file (some (ok false)) c =
      mail-Settles line s file (inbox_probe w.wake line.alias r.at_epoch) c
  decision-Settles line r s file none c =
      mail-Settles line s file (inbox_probe w.wake line.alias r.at_epoch) c

  pub check_wake-Settles :
      (line : LineSpec) (r : TerminalRecord) (s : StallState) (file : StallFile)
      → same_run run s.park_considered_run_id ≡ true
      → Settles run (check_wake w line r s file)
  unfolding check_wake
  check_wake-Settles line r s file c =
      elim (Bool-cases (is_some s.dispatched_decision_consumed_at)) [
        | inl h ↦
            rw h
              (wake_up-Settles s ParkEvent.woken_decision_consumed (decision_wake_stall w s) file c)
        | inr h ↦ rw h (decision-Settles line r s file (decision_probe w s w.wake) c)
      ]

  dd_establish_on-Settles :
      (r : TerminalRecord) (development : String) (s : StallState) (file : StallFile)
      (fact : Result String (Option String))
      → is_parked_on run s ≡ false
      → Settles run (dd_establish_on w r run development (consider run s) file fact)
  dd_establish_on-Settles r development s file (err tag) free =
      considered_only-Settles s (ParkEvent.dd_probe_failed tag) file free
  dd_establish_on-Settles r development s file (ok none) free = λ p. cc
  dd_establish_on-Settles r development s file (ok (some fact)) free =
      elim (Bool-cases (wakes_dd fact)) [
        | inl h ↦ rw h (considered_only-Settles s (ParkEvent.dd_already fact) file free)
        | inr h ↦ rw h (λ p. cc)
      ]

  pub dd_establish-Settles :
      (r : TerminalRecord) (s : StallState) (file : StallFile)
      → is_parked_on run s ≡ false
      → Settles run (dd_establish_park w r run (consider run s) file)
  unfolding dd_establish_park
  dd_establish-Settles r s file free =
      let development = get_or r.dd_development_id "" in
      elim (Bool-cases (development == "")) [
        | inl h ↦ rw h (considered_only-Settles s ParkEvent.no_dd_development file free)
        | inr h ↦ rw h (dd_establish_on-Settles r development s file (dd_fact w development) free)
      ]

  dd_wake_on-Settles :
      (development : String) (s : StallState) (file : StallFile)
      (fact : Result String (Option String))
      → same_run run s.park_considered_run_id ≡ true
      → Settles run (dd_wake_on w development s file fact)
  dd_wake_on-Settles development s file (err tag) c =
      wake_up-Settles s (ParkEvent.woken_dd_probe_failed tag) none file c
  dd_wake_on-Settles development s file (ok none) c = λ p. cc
  dd_wake_on-Settles development s file (ok (some fact)) c = elim (Bool-cases (wakes_dd fact)) [
    | inl h ↦ rw h (wake_up-Settles s (ParkEvent.woken_dd fact) none file c)
    | inr h ↦ rw h (λ p. cc)
  ]

  pub dd_check_wake-Settles :
      (r : TerminalRecord) (s : StallState) (file : StallFile)
      → same_run run s.park_considered_run_id ≡ true
      → Settles run (dd_check_wake w r s file)
  unfolding dd_check_wake
  dd_check_wake-Settles r s file c = elim (Bool-cases (dd_anchor r s == "")) [
    | inl h ↦ rw h (wake_up-Settles s ParkEvent.woken_dd_anchor_lost none file c)
    | inr h ↦ rw h (dd_wake_on-Settles (dd_anchor r s) s file (dd_fact w (dd_anchor r s)) c)
  ]
