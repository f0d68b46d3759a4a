-- ===== src/Scheduler/DoneLine.antt =====
-- What a tick makes of a finished line: scheduler/daemon.py.
-- The checkpoints of a line: done at the generation before, and nothing of this one yet.
use fleet_graph.Common.{
  Bool, Bool-cases, List, Option, Result, String, [], ap, arith, eq_iff, err, false, get_or,
  if◌then◌else◌, inl, inr, is_some, max, none, ok, refl, some, subst, sym, true, ℕ, ◌-◌, ◌∙◌, ◌∷◌,
  ◌≡◌, ◌≤◌,
}
use fleet_graph.Graphs.Guards.{Text}
use fleet_graph.Scheduler.Ignition.{Facts, IgnitionDecision, LineStatus, decide}
use fleet_graph.Scheduler.Ignition.Gates.{decide_iff}
use fleet_graph.Scheduler.Parking.{LineSpec, Parked, World, left, no_park}
use fleet_graph.Scheduler.Reading.{
  CheckpointTerminal, Config, Line, Moment, checkpoint_reading, read_terminal, record_from,
  terminal_of, terminal_record,
}
use fleet_graph.Scheduler.Revive.{ReviveError, ReviveRecord, get}
use fleet_graph.Scheduler.Stall.{
  StallFile, StallState, TerminalRecord, account_last_run, account_run, accounted, adopted,
  empty_state, generation_of, is_word, present, same_run, write_stall_state,
}
use fleet_graph.Scheduler.Tick.{TickResult, gated, ignite_on, pruned}
use fleet_graph.Scheduler.Waking.{park_state}

abbrev pub DoneBefore : ℕ → (ℕ → CheckpointTerminal) → TerminalRecord → Type 0
DoneBefore generation read d =
    (2 ≤ generation)
    × (read generation ≡ record { at_end = none; authoritative = false; fault = none })
    × (read (generation - 1) ≡ record { at_end = some d; authoritative = true; fault = none })
    × (d.terminal ≡ some "done")

-- The moments to come all find these checkpoints.
abbrev pub Unmoved : (ℕ → CheckpointTerminal) → List Moment → Type 0
Unmoved read [] = Unit
Unmoved read (m ∷ ms) = (m.checkpoints ≡ some read) × Unmoved read ms

reading-done :
    (generation : ℕ) (read : ℕ → CheckpointTerminal) (d : TerminalRecord)
    → DoneBefore generation read d
    → checkpoint_reading read generation
      ≡ some (record { at_end = some d; authoritative = true; fault = none })
reading-done generation read d (far, silent, done_, word) = ground (arith, far, silent, done_)

pub is_word-done : (o : Option String) → o ≡ some "done" → is_word "done" o ≡ true
is_word-done none e = cc
is_word-done (some t) e = ground (arith, eq_iff t "done")

done-unblocked : (o : Option String) → o ≡ some "done" → is_word "blocked" o ≡ false
done-unblocked o e = subst (λ p. is_word "blocked" p ≡ false) (sym e) refl

pub terminal_of-done :
    (d : TerminalRecord) → d.terminal ≡ some "done" → terminal_of (some d) ≡ some "done"
terminal_of-done d e = subst (λ o. (if present o then o else none) ≡ some "done") (sym e) refl

pub record_done :
    (m : Moment) (line : LineSpec) (file : StallFile) (read : ℕ → CheckpointTerminal)
    (d : TerminalRecord)
    → m.checkpoints ≡ some read
    → DoneBefore (generation_of line.generation file) read d
    → terminal_record m line file ≡ some d
unfolding terminal_record
record_done m line file read d e done_ =
    ap (record_from m.terminal_json (generation_of line.generation file)) e
    ∙ ap (read_terminal m.terminal_json)
        (reading-done (generation_of line.generation file) read d done_)

max_idem : (a b : ℕ) → max (max a b) b ≡ max a b
max_idem a b = ground arith

write-generation :
    (writes : Bool) (base : ℕ) (s : StallState) (file : StallFile)
    → max (get_or s.generation base) base ≡ generation_of base file
    → generation_of base (write_stall_state writes s file) ≡ generation_of base file
unfolding write_stall_state
write-generation false base s file h = refl
write-generation true base s StallFile.absent h = h
write-generation true base s StallFile.unreadable h = h
write-generation true base s (StallFile.stored old) h = h

-- A done terminal leaves the generation.
account_run-generation :
    (writes : Bool) (base : ℕ) (d : TerminalRecord) (o : Option String) (file : StallFile)
    → is_word "done" d.terminal ≡ true
    → generation_of base (account_run writes base d o file).0 ≡ generation_of base file
unfolding account_run
account_run-generation writes base d none file h = refl
account_run-generation writes base d (some run) StallFile.absent h =
    write-generation writes base (adopted base d run) StallFile.absent (rw h (omega arith))
account_run-generation writes base d (some run) StallFile.unreadable h =
    write-generation writes base (accounted base d run empty_state) StallFile.unreadable
      (rw h (max_idem base base))
account_run-generation writes base d (some run) (StallFile.stored s) h =
    elim (Bool-cases (same_run run s.accounted_run_id)) [
      | inl g ↦ rw g refl
      | inr g ↦ rw g (
          write-generation writes base (accounted base d run s) (StallFile.stored s)
            (rw h (max_idem (get_or s.generation base) base)))
    ]

pub account-generation :
    (writes : Bool) (base : ℕ) (d : TerminalRecord) (file : StallFile)
    → is_word "done" d.terminal ≡ true
    → generation_of base (account_last_run writes base (some d) file).0 ≡ generation_of base file
unfolding account_last_run
account-generation writes base d file h = account_run-generation writes base d d.run_id file h

pub park-done :
    (w : World) (line : LineSpec) (d : TerminalRecord) (file : StallFile)
    → d.terminal ≡ some "done"
    → park_state w line (some d) file ≡ left file (no_park none)
unfolding park_state
park-done w line d file e = rw (done-unblocked d.terminal e) refl

-- A done line that is not revived is refused.
pub refused-done :
    (status : LineStatus) (f : Facts)
    → status.terminal ≡ some "done"
    → f.revived ≡ false
    → (decide status f).ignite ≡ false
refused-done status f e h = elim (Bool-cases (decide status f).ignite) [
  | inl lit ↦ let bad : true ≡ false = sym (((decide_iff status f).0 lit).0.unlatched e) ∙ h in cc
  | inr dark ↦ dark
]

pub gated-dark :
    (m : Moment) (o : Option TerminalRecord) (decision : IgnitionDecision)
    → decision.ignite ≡ false
    → (gated m o decision).ignite ≡ false
gated-dark m none decision h = h
gated-dark m (some r) decision h = ground arith

abbrev pub launches_in : Result ReviveError TickResult → Bool
launches_in (err e) = false
launches_in (ok t) = is_some t.launch

-- What a tick leaves that starts nothing.
abbrev pub Quiet : ℕ → Text → LineSpec → Line × Result ReviveError TickResult → Type 0
Quiet generation key line (s, answer) =
    (generation_of line.generation s.file ≡ generation)
    × (get key s.revives ≡ none)
    × (launches_in answer ≡ false)

pub ignite_on-dark :
    (config : Config) (m : Moment) (line : LineSpec) (streak : ℕ) (park : Parked)
    (revoked : Option ReviveRecord) (s : Line) (decision : IgnitionDecision)
    → decision.ignite ≡ false
    → ((ignite_on config m line streak park revoked s decision).0 ≡ pruned config m s)
      × (is_some (ignite_on config m line streak park revoked s decision).1.launch ≡ false)
unfolding ignite_on
ignite_on-dark config m line streak park revoked s decision h = simp h (refl, refl)
