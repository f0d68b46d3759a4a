-- ===== src/Scheduler/Once.antt =====
-- What parking does over several ticks with one terminal: `park_state` of scheduler/daemon.py.
use fleet_graph.Common.{
  Bool, Bool-cases, List, Option, String, [], ap, arith, eq_iff, false, inl, inr, none, refl, some,
  subst, sym, true, ◌||◌, ◌∙◌, ◌∷◌, ◌≡◌, ◌⊎◌,
}
use fleet_graph.Scheduler.Parking.{LineSpec, World, establish_park, inbox_probe, left, no_park}
use fleet_graph.Scheduler.Settling.{
  Considered, Settled, Settles, check_wake-Settles, dd_check_wake-Settles, dd_establish-Settles,
  establish-Settles,
}
use fleet_graph.Scheduler.Stall.{StallFile, TerminalRecord, is_word, same_run, stall_state}
use fleet_graph.Scheduler.Waking.{dd_park, decision_park, is_parked_on, park_blocked, park_state}

Settled-blocked :
    (w : World) (line : LineSpec) (r : TerminalRecord) (run : String) (file : StallFile)
    → Settled run file
    → park_blocked w line r (some run) file ≡ left file (no_park none)
unfolding dd_park decision_park
Settled-blocked w line r run file (c, p) = elim (Bool-cases (is_word "dd" r.waiting_on)) [
  | inl h ↦ rw (h, p, c) refl
  | inr h ↦ rw h (elim (Bool-cases (is_word "decision" r.waiting_on)) [
    | inl g ↦ rw (g, p, c) refl
    | inr g ↦ rw g refl
  ])
]

pub park_state-blocked :
    (w : World) (line : LineSpec) (r : TerminalRecord) (run : String) (file : StallFile)
    → r.terminal ≡ some "blocked"
    → r.run_id ≡ some run
    → park_state w line (some r) file ≡ park_blocked w line r (some run) file
unfolding park_state
park_state-blocked w line r run file blocked e = simp (blocked, e)

Settled-park :
    (w : World) (line : LineSpec) (r : TerminalRecord) (run : String) (file : StallFile)
    → r.run_id ≡ some run
    → Settled run file
    → park_state w line (some r) file ≡ left file (no_park none)
unfolding park_state
Settled-park w line r run file e calm = elim (Bool-cases (is_word "blocked" r.terminal)) [
  | inl h ↦ rw h (ap (λ o. park_blocked w line r o file) e ∙ Settled-blocked w line r run file calm)
  | inr h ↦ rw h refl
]

dd_park-Settles :
    (w : World) (r : TerminalRecord) (run : String) (file : StallFile)
    → w.parking_writes ≡ true
    → Considered run file
    → Settles run (dd_park w r run file)
unfolding dd_park
dd_park-Settles w r run file on known = elim (Bool-cases (is_parked_on run (stall_state file))) [
  | inl h ↦ rw h (dd_check_wake-Settles w run on r (stall_state file) file (known h))
  | inr h ↦ rw h (elim (Bool-cases (same_run run (stall_state file).park_considered_run_id)) [
    | inl g ↦ rw g (λ p. (g, h))
    | inr g ↦ rw g (dd_establish-Settles w run on r (stall_state file) file h)
  ])
]

decision_park-Settles :
    (w : World) (line : LineSpec) (r : TerminalRecord) (run : String) (file : StallFile)
    → w.parking_writes ≡ true
    → Considered run file
    → Settles run (decision_park w line r run file)
unfolding decision_park establish_park
decision_park-Settles w line r run file on known =
    elim (Bool-cases (is_parked_on run (stall_state file))) [
      | inl h ↦ rw h (check_wake-Settles w run on line r (stall_state file) file (known h))
      | inr h ↦ rw h (elim (Bool-cases (same_run run (stall_state file).park_considered_run_id)) [
        | inl g ↦ rw g (λ p. (g, h))
        | inr g ↦ rw g (
            establish-Settles w run on line r (stall_state file) file
              (inbox_probe w.wake line.alias r.at_epoch) h)
      ])
    ]

-- Whether one of the ticks to come parks the line.
abbrev pub parks : List World → LineSpec → TerminalRecord → StallFile → Bool
parks [] line r file = false
parks (w ∷ ws) line r file =
    let now_ = park_state w line (some r) file in
    let rest = parks ws line r now_.file in now_.outcome.parked || rest

Settled-parks :
    (ws : List World) (line : LineSpec) (r : TerminalRecord) (run : String) (file : StallFile)
    → r.run_id ≡ some run
    → Settled run file
    → parks ws line r file ≡ false
Settled-parks [] line r run file e calm = refl
Settled-parks (w ∷ ws) line r run file e calm =
    rw (Settled-park w line r run file e calm) (Settled-parks ws line r run file e calm)

-- The terminal waits on a decision or on a development.
abbrev pub Waits : TerminalRecord → String → Type 0
Waits r run =
    (r.terminal ≡ some "blocked")
    × (r.run_id ≡ some run)
    × ((r.waiting_on ≡ some "dd") ⊎ (r.waiting_on ≡ some "decision"))

pub is_word-some : (word : String) (o : Option String) → o ≡ some word → is_word word o ≡ true
is_word-some word none e = cc
is_word-some word (some t) e = ground (arith, eq_iff t word)

pub dd-no_decision : (o : Option String) → o ≡ some "decision" → is_word "dd" o ≡ false
dd-no_decision none e = cc
dd-no_decision (some t) e = subst (λ o. is_word "dd" o ≡ false) (sym e) refl

blocked-Settles :
    (w : World) (line : LineSpec) (r : TerminalRecord) (run : String) (file : StallFile)
    → w.parking_writes ≡ true
    → Considered run file
    → (r.waiting_on ≡ some "dd") ⊎ (r.waiting_on ≡ some "decision")
    → Settles run (park_blocked w line r (some run) file)
blocked-Settles w line r run file on known (inl e) =
    rw (is_word-some "dd" r.waiting_on e) (dd_park-Settles w r run file on known)
blocked-Settles w line r run file on known (inr e) =
    rw (dd-no_decision r.waiting_on e, is_word-some "decision" r.waiting_on e)
      (decision_park-Settles w line r run file on known)

park-Settles :
    (w : World) (line : LineSpec) (r : TerminalRecord) (run : String) (file : StallFile)
    → w.parking_writes ≡ true
    → Considered run file
    → Waits r run
    → Settles run (park_state w line (some r) file)
park-Settles w line r run file on known (blocked, e, waits) =
    subst (Settles run) (sym (park_state-blocked w line r run file blocked e))
      (blocked-Settles w line r run file on known waits)

-- A terminal that waits on a decision or a development, and is left unparked in a tick whose
-- writes work, is parked by no later tick, whatever the probes answer, provided that it was
-- considered if it was parked before.
pub unparked-parks :
    (w : World) (ws : List World) (line : LineSpec) (r : TerminalRecord) (run : String)
    (file : StallFile)
    → w.parking_writes ≡ true
    → Considered run file
    → Waits r run
    → (park_state w line (some r) file).outcome.parked ≡ false
    → parks ws line r (park_state w line (some r) file).file ≡ false
unparked-parks w ws line r run file on known (blocked, e, waits) free =
    Settled-parks ws line r run (park_state w line (some r) file).file e
      (park-Settles w line r run file on known (blocked, e, waits) free)
