-- ===== src/Scheduler/Streaks.antt =====
-- The accounting of terminals: `account_last_run` of scheduler/daemon.py.
use fleet_graph.Common.{
  Bool, Bool-cases, List, Option, String, [], any, arith, eq_iff, false, if◌then◌else◌, inl, inr,
  length, ltb, none, refl, some, true, ℕ, ◌+◌, ◌||◌, ◌∙◌, ◌∷◌, ◌≡◌,
}
use fleet_graph.Scheduler.Stall.{
  StallFile, StallState, TerminalRecord, account_last_run, account_run, accounted, adopted,
  generation_of, is_word, same_run, stall_state, streak_after, waits_on_dd, with_board_of,
  write_stall_state,
}

pub same_run_refl : (run : String) → same_run run (some run) ≡ true
same_run_refl run = (eq_iff run run).1 refl

account_run-once :
    (writes : Bool) (base : ℕ) (r : TerminalRecord) (o : Option String) (f : StallFile)
    → account_run writes base r o (account_run true base r o f).0 ≡ account_run true base r o f
unfolding account_run write_stall_state
account_run-once writes base r none f = refl
account_run-once writes base r (some run) StallFile.absent = rw (same_run_refl run) refl
account_run-once writes base r (some run) StallFile.unreadable = rw (same_run_refl run) refl
account_run-once writes base r (some run) (StallFile.stored s) =
    elim (Bool-cases (same_run run s.accounted_run_id)) [
      | inl h ↦ rw (h, h) refl
      | inr h ↦ rw (h, same_run_refl run) refl
    ]

-- Accounting a terminal again, after a write that worked, changes neither the file nor the
-- streak.
pub account_last_run-once :
    (writes : Bool) (base : ℕ) (r : Option TerminalRecord) (f : StallFile)
    → account_last_run writes base r (account_last_run true base r f).0
      ≡ account_last_run true base r f
unfolding account_last_run
account_last_run-once writes base none f = refl
account_last_run-once writes base (some r) f = account_run-once writes base r r.run_id f

-- A terminal after which the line has something to show, or waits for a development.
abbrev pub is_productive : TerminalRecord → Bool
is_productive r = ltb 0 r.rounds || is_word "done" r.terminal || waits_on_dd r

-- Each terminal is of another run than the one accounted before it.
abbrev pub Fresh : Option String → List TerminalRecord → Type 0
Fresh last [] = Unit
Fresh last (r ∷ rs) =
    (run : String) × (r.run_id ≡ some run) × (same_run run last ≡ false) × Fresh (some run) rs

abbrev pub account_all : ℕ → List TerminalRecord → StallFile → StallFile
account_all base [] f = f
account_all base (r ∷ rs) f = account_all base rs (account_last_run true base (some r) f).0

abbrev pub productive : List TerminalRecord → Bool
productive rs = any is_productive rs

-- The terminals after the last productive one.
abbrev pub unproductive_tail : List TerminalRecord → ℕ
unproductive_tail [] = 0
unproductive_tail (r ∷ rs) =
    let rest = unproductive_tail rs in if productive (r ∷ rs) then rest else length (r ∷ rs)

-- The terminals that leave a spent thread.
abbrev pub spent : List TerminalRecord → ℕ
spent [] = 0
spent (r ∷ rs) = let rest = spent rs in if is_word "done" r.terminal then rest else rest + 1

-- One new terminal.
account-step :
    (base : ℕ) (r : TerminalRecord) (run : String) (s : StallState)
    → r.run_id ≡ some run
    → same_run run s.accounted_run_id ≡ false
    → (account_last_run true base (some r) (StallFile.stored s)).0
      ≡ StallFile.stored (with_board_of (StallFile.stored s) (accounted base r run s))
unfolding account_last_run account_run write_stall_state
account-step base r run s e new = rw (e, new) refl

unproductive_tail-all :
    (rs : List TerminalRecord) → productive rs ≡ false → unproductive_tail rs ≡ length rs
unproductive_tail-all [] h = refl
unproductive_tail-all (r ∷ rs) h = rw h refl

streak-split :
    (r : TerminalRecord) (rs : List TerminalRecord) (n : ℕ)
    → (if productive rs then unproductive_tail rs else streak_after r n + length rs)
      ≡ (if productive (r ∷ rs) then unproductive_tail (r ∷ rs) else n + length (r ∷ rs))
streak-split r rs n = elim (Bool-cases (is_productive r)) [
  | inl p ↦ rw p (elim (Bool-cases (productive rs)) [
    | inl h ↦ rw h refl
    | inr h ↦ rw h (omega (arith, unproductive_tail-all rs h))
  ])
  | inr p ↦
      rw p (elim (Bool-cases (productive rs)) [ inl h ↦ rw h refl | inr h ↦ rw h (omega arith) ])
]

-- From a file that was read.
stored-counts :
    (base : ℕ) (rs : List TerminalRecord) (s : StallState)
    → Fresh s.accounted_run_id rs
    → ((stall_state (account_all base rs (StallFile.stored s))).streak
        ≡ (if productive rs then unproductive_tail rs else s.streak + length rs))
      × (generation_of base (account_all base rs (StallFile.stored s))
          ≡ generation_of base (StallFile.stored s) + spent rs)
stored-counts base [] s h = (omega arith, omega arith)
stored-counts base (r ∷ rs) s (run, e, new, more) =
    let t = with_board_of (StallFile.stored s) (accounted base r run s) in
    let (streaks, generations) = stored-counts base rs t more in
    rw (account-step base r run s e new)
      (streaks ∙ streak-split r rs s.streak, ground (arith, generations))

-- The terminals that count: a file that was not there adopts the first one.
abbrev pub counted : StallFile → List TerminalRecord → List TerminalRecord
counted StallFile.absent [] = []
counted StallFile.absent (r ∷ rs) = rs
counted StallFile.unreadable rs = rs
counted (StallFile.stored s) rs = rs

-- Over any terminals each of another run than the one before, where every write works, the
-- streak is the number of those since the last productive one, added to the old streak where
-- none is, and the generation has grown by the number of those that are not done; where the
-- file was not there, the first terminal is adopted and does not count for the streak.
pub account_all-counts :
    (base : ℕ) (rs : List TerminalRecord) (f : StallFile)
    → Fresh (stall_state f).accounted_run_id rs
    → ((stall_state (account_all base rs f)).streak ≡ (
        if productive (counted f rs)
        then unproductive_tail (counted f rs)
        else (stall_state f).streak + length (counted f rs)))
      × (generation_of base (account_all base rs f) ≡ generation_of base f + spent rs)
unfolding account_last_run account_run write_stall_state
account_all-counts base rs (StallFile.stored s) h = stored-counts base rs s h
account_all-counts base [] StallFile.absent h = (omega arith, omega arith)
account_all-counts base [] StallFile.unreadable h = (omega arith, omega arith)
account_all-counts base (r ∷ rs) StallFile.absent (run, e, new, more) =
    let t = with_board_of StallFile.absent (adopted base r run) in
    let (streaks, generations) = stored-counts base rs t more in
    rw e (streaks, ground (arith, generations))
account_all-counts base (r ∷ rs) StallFile.unreadable (run, e, new, more) =
    let t =
      with_board_of StallFile.unreadable
        (accounted base r run (stall_state StallFile.unreadable)) in
    let (streaks, generations) = stored-counts base rs t more in
    rw e (streaks ∙ streak-split r rs 0, ground (arith, generations))
