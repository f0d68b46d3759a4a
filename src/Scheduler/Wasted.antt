-- ===== src/Scheduler/Wasted.antt =====
-- A finished line whose revocation is spent: `tick` of scheduler/daemon.py.
use fleet_graph.Common.{
  Bool, List, [], ap, false, if◌then◌else◌, none, ok, refl, some, subst, sym, true, ℕ, ◌+◌, ◌∙◌,
  ◌∷◌, ◌≡◌,
}
use fleet_graph.Scheduler.DoneLine.{
  DoneBefore, Quiet, Unmoved, account-generation, gated-dark, ignite_on-dark, is_word-done,
  launches_in, park-done, record_done, refused-done, terminal_of-done,
}
use fleet_graph.Scheduler.Ignition.{decide}
use fleet_graph.Scheduler.Parking.{LineSpec, ParkOutcome, Parked, left, no_park}
use fleet_graph.Scheduler.Reading.{
  CheckpointTerminal, Config, Line, Moment, terminal_of, terminal_record,
}
use fleet_graph.Scheduler.Revive.{get}
use fleet_graph.Scheduler.Revocations.{key_of, took, took-gone}
use fleet_graph.Scheduler.Stall.{StallFile, TerminalRecord, account_last_run, generation_of}
use fleet_graph.Scheduler.Tick.{
  after_revival, facts_of, gated, if_enabled, revive_matching, revive_outcome, status_of, tick_line,
}
use fleet_graph.Scheduler.Waking.{park_state}

module _ (config : Config) (m : Moment) (line : LineSpec) (read : ℕ → CheckpointTerminal)
    (d : TerminalRecord) (generation : ℕ) (source : m.checkpoints ≡ some read)
    (done_ : DoneBefore generation read d) where
  terminal-some :
      (s : Line)
      → generation_of line.generation s.file ≡ generation
      → terminal_record m line s.file ≡ some d
  terminal-some s e =
      record_done m line s.file read d source (subst (λ g. DoneBefore g read d) (sym e) done_)

  decided-dark :
      (s : Line) (streak : ℕ) (park : ParkOutcome)
      → generation_of line.generation s.file ≡ generation
      → (gated m
          (terminal_record m line s.file)
          (decide (status_of m line s) (facts_of config m line streak park false s))).ignite
        ≡ false
  decided-dark s streak park e =
      gated-dark m (terminal_record m line s.file)
        (decide (status_of m line s) (facts_of config m line streak park false s))
        (refused-done (status_of m line s) (facts_of config m line streak park false s)
          (ap terminal_of (terminal-some s e) ∙ terminal_of-done d done_.3) refl)

  after-Quiet :
      (s : Line) (streak : ℕ) (park : Parked)
      → generation_of line.generation s.file ≡ generation
      → get (key_of line) s.revives ≡ none
      → Quiet generation (key_of line) line (after_revival config m line streak park (s, ok none))
  unfolding after_revival
  after-Quiet s streak park e gone =
      let (same, dark) =
        ignite_on-dark config m line streak park none s
          (gated m (terminal_record m line s.file)
            (decide (status_of m line s) (facts_of config m line streak park.outcome false s)))
          (decided-dark s streak park.outcome e) in
      (
        ap (λ t. generation_of line.generation t.file) same ∙ e,
        ap (λ t. get (key_of line) t.revives) same ∙ gone,
        dark,
      )

  revive_none :
      (s : Line) → get (key_of line) s.revives ≡ none → revive_outcome m line s ≡ (s, ok none)
  unfolding revive_outcome
  revive_none s gone = ap (λ o. revive_matching m line o s) gone

  enabled-Quiet :
      (s : Line) (file : StallFile) (streak : ℕ) (b : Bool)
      → generation_of line.generation file ≡ generation
      → get (key_of line) s.revives ≡ none
      → Quiet generation (key_of line) line (if_enabled config m line s file streak b)
  enabled-Quiet s file streak true e gone =
      let held_ = terminal-some (record s { file = file }) e in
      let park = park_state m.world line (terminal_record m line file) file in
      let same : park ≡ left file (no_park none) =
        ap (λ o. park_state m.world line o file) held_ ∙ park-done m.world line d file done_.3 in
      let t : Line = record s { file = park.file } in
      subst (λ p. Quiet generation (key_of line) line (after_revival config m line streak park p))
        (sym (revive_none t gone))
        (after-Quiet t streak park (ap (λ p. generation_of line.generation p.file) same ∙ e) gone)
  enabled-Quiet s file streak false e gone =
      after-Quiet (record s { file = file }) streak (left file (no_park none)) e gone

  tick-Quiet :
      (s : Line)
      → generation_of line.generation s.file ≡ generation
      → get (key_of line) s.revives ≡ none
      → Quiet generation (key_of line) line (tick_line config m line s)
  unfolding tick_line
  tick-Quiet s e gone =
      let o = terminal_record m line s.file in
      let counted = account_last_run m.accounting_writes line.generation o s.file in
      enabled-Quiet s counted.0 counted.1 line.enabled
        (ap
            (λ p.
              generation_of line.generation
                (account_last_run m.accounting_writes line.generation p s.file).0)
            (terminal-some s e)
          ∙ account-generation m.accounting_writes line.generation d s.file
              (is_word-done d.terminal done_.3)
          ∙ e)
        gone

-- The launches over several ticks.
abbrev pub launches_of : Config → List Moment → LineSpec → Line → ℕ
launches_of config [] line s = 0
launches_of config (m ∷ ms) line s =
    let (later, result) = tick_line config m line s in
    let rest = launches_of config ms line later in if launches_in result then rest + 1 else rest

quiet-launches :
    (config : Config) (ms : List Moment) (line : LineSpec) (read : ℕ → CheckpointTerminal)
    (d : TerminalRecord) (generation : ℕ) (s : Line)
    → Unmoved read ms
    → DoneBefore generation read d
    → generation_of line.generation s.file ≡ generation
    → get (key_of line) s.revives ≡ none
    → launches_of config ms line s ≡ 0
quiet-launches config [] line read d generation s u done_ e gone = refl
quiet-launches config (m ∷ ms) line read d generation s (source, u) done_ e gone =
    let (same, empty, dark) = tick-Quiet config m line read d generation source done_ s e gone in
    rw dark (
      quiet-launches config ms line read d generation (tick_line config m line s).0 u done_ same
        empty)

-- After a tick that applied a revocation, the line is never launched again, in whatever
-- moments, while the checkpoints hold the done terminal one generation back and nothing of the
-- present one, and nobody writes another revocation.
pub revoked-unlaunched :
    (config : Config) (m : Moment) (ms : List Moment) (line : LineSpec) (s : Line)
    (read : ℕ → CheckpointTerminal) (d : TerminalRecord)
    → took (tick_line config m line s).1 ≡ true
    → Unmoved read ms
    → DoneBefore (generation_of line.generation (tick_line config m line s).0.file) read d
    → launches_of config ms line (tick_line config m line s).0 ≡ 0
revoked-unlaunched config m ms line s read d taken u done_ =
    quiet-launches config ms line read d
      (generation_of line.generation (tick_line config m line s).0.file)
      (tick_line config m line s).0 u done_ refl (took-gone config m line s taken)
