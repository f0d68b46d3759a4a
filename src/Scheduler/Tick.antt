-- ===== src/Scheduler/Tick.antt =====
-- One line in one tick: scheduler/daemon.py, `_revive_outcome` and the body of the
-- loop of `tick`. Seats, the roster's merge, the observer and the sleep between launches are left out.
use fleet_graph.Common.{
  Bool, List, Option, Result, String, [], eqb, err, false, filter, get_or, if◌then◌else◌, is_some,
  leb, length, ltb, none, not, ok, some, true, ℕ, ◌&&◌, ◌++◌, ◌+◌, ◌||◌, ◌∷◌,
}
use fleet_graph.Common.Text.{codes}
use fleet_graph.Scheduler.Ignition.{Facts, IgnitionDecision, LineStatus, Refusal, decide, refuse}
use fleet_graph.Scheduler.Parking.{LineSpec, ParkOutcome, Parked, left, no_park}
use fleet_graph.Scheduler.Reading.{
  Config, Line, Moment, current_done_generation, terminal_of, terminal_record,
}
use fleet_graph.Scheduler.Revive.{ReviveError, ReviveRecord, ReviveStore, consume, get}
use fleet_graph.Scheduler.Stall.{
  StallFile, TerminalRecord, account_last_run, generation_of, is_word, next_generation,
  record_start, stall_state, write_stall_state,
}
use fleet_graph.Scheduler.Waking.{park_state}

unfoldable pub force_revive_bump : Moment → LineSpec → StallFile → StallFile
force_revive_bump m line file =
    write_stall_state m.bump_writes
      (record (stall_state file) {
        generation = some (next_generation (generation_of line.generation file) (some "done") true);
      })
      file

abbrev pub same_generation : ℕ → Option ℕ → Bool
same_generation generation none = false
same_generation generation (some done) = eqb generation done

abbrev pub applied :
    Moment
    → LineSpec
    → ReviveRecord
    → Line
    → ReviveStore × Result ReviveError (Option ReviveRecord)
    → Line × Result ReviveError (Option ReviveRecord)
applied m line r s (store, err e) = (record s { revives = store }, err e)
applied m line r s (store, ok taken) =
    (record s { revives = store; file = force_revive_bump m line s.file }, ok (some r))

abbrev pub revive_matching :
    Moment → LineSpec → Option ReviveRecord → Line → Line × Result ReviveError (Option ReviveRecord)
revive_matching m line none s = (s, ok none)
revive_matching m line (some r) s =
    if same_generation r.generation (current_done_generation m line s.file)
    then applied m line r s
        (consume m.revive_writes m.history_writes (codes line.folder_id) s.revives)
    else (s, ok none)

-- A revocation of exactly the done generation is consumed, and the generation bumped.
unfoldable pub revive_outcome :
    Moment → LineSpec → Line → Line × Result ReviveError (Option ReviveRecord)
revive_outcome m line s = revive_matching m line (get (codes line.folder_id) s.revives) s

abbrev pub last_start_of : Line → Option ℕ
last_start_of s = elim (stall_state s.file).last_start_at [
  | none ↦ s.last_start_at
  | some when ↦ some when
]

abbrev pub recent : ℕ → ℕ → List ℕ → List ℕ
recent now window times = filter (λ t. leb now (t + window)) times

abbrev pub status_of : Moment → LineSpec → Line → LineStatus
status_of m line s = record {
  folder_id = line.folder_id;
  seat = line.seat;
  running = m.running (generation_of line.generation s.file);
  terminal = terminal_of (terminal_record m line s.file);
  last_start_at = last_start_of s;
}

abbrev pub facts_of : Config → Moment → LineSpec → ℕ → ParkOutcome → Bool → Line → Facts
facts_of config m line streak park revived s = record {
  now = m.world.now;
  enabled = line.enabled;
  maintenance_stop = m.maintenance_stop;
  gateway_healthy = m.gateway_healthy;
  unproductive_recent =
      length (recent m.world.now config.cap_window_seconds s.unproductive_launches);
  zero_progress_streak = streak;
  parked = park.parked;
  parked_kind = get_or park.kind "decision";
  cooldown_seconds = config.cooldown_seconds;
  total_cap = config.total_cap;
  backoff_cap_seconds = config.backoff_cap_seconds;
  revived = revived;
  acceptance_digest_pinned = line.acceptance_digest;
  acceptance_digest_current = m.digest_current;
}

abbrev pub is_refusal : Refusal → Option Refusal → Bool
is_refusal Refusal.terminal_done (some Refusal.terminal_done) = true
is_refusal _ _ = false

abbrev confirmed : Moment → TerminalRecord → Bool
confirmed m r = elim m.on_default_branch [ none ↦ true | some gate ↦ get_or (gate r) false ]

-- The completion gate: a done line whose product it does not confirm waits for it.
abbrev pub gated : Moment → Option TerminalRecord → IgnitionDecision → IgnitionDecision
gated m none decision = decision
gated m (some r) decision =
    if is_word "done" r.terminal
      && not (confirmed m r)
      && is_refusal Refusal.terminal_done decision.refusal
    then refuse Refusal.pending_default_branch
    else decision

-- The launch that a tick makes, with what the line process is told.
pub record Launch : Type 0 where
  pub generation : ℕ
  pub started : Bool
  pub revival : Option ReviveRecord
  pub dd_gate : Option String

pub record TickResult : Type 0 where
  pub decision : IgnitionDecision
  pub outcome : ParkOutcome
  pub revoked : Option ReviveRecord
  pub launch : Option Launch

abbrev pub launched : Config → Moment → LineSpec → ℕ → Bool → Line → Line
launched config m line streak started s = record s {
  total_started = s.total_started + 1;
  unproductive_launches =
      if not started || ltb 0 streak
      then recent m.world.now config.cap_window_seconds s.unproductive_launches
        ++ (m.world.now ∷ [])
      else recent m.world.now config.cap_window_seconds s.unproductive_launches;
  last_start_at = some m.world.now;
  file = record_start m.start_writes m.world.now s.file;
}

abbrev pub pruned : Config → Moment → Line → Line
pruned config m s = record s {
  unproductive_launches = recent m.world.now config.cap_window_seconds s.unproductive_launches;
}

unfoldable pub ignite_on :
    Config
    → Moment
    → LineSpec
    → ℕ
    → Parked
    → Option ReviveRecord
    → Line
    → IgnitionDecision
    → Line × TickResult
ignite_on config m line streak park revoked s decision =
    let generation = generation_of line.generation s.file in
    if decision.ignite
    then (
      launched config m line streak (m.launches generation) s,
      record {
        decision = decision;
        outcome = park.outcome;
        revoked = revoked;
        launch = some (record {
          generation = generation;
          started = m.launches generation;
          revival = revoked;
          dd_gate = park.dd_gate;
        });
      },
    )
    else (
      pruned config m s,
      record { decision = decision; outcome = park.outcome; revoked = revoked; launch = none },
    )

unfoldable pub after_revival :
    Config
    → Moment
    → LineSpec
    → ℕ
    → Parked
    → Line × Result ReviveError (Option ReviveRecord)
    → Line × Result ReviveError TickResult
after_revival config m line streak park (s, err e) = (s, err e)
after_revival config m line streak park (s, ok revoked) =
    let decision =
      decide (status_of m line s)
        (facts_of config m line streak park.outcome (is_some revoked) s) in
    let (later, result) =
      ignite_on config m line streak park revoked s
        (gated m (terminal_record m line s.file) decision) in
    (later, ok result)

abbrev pub with_park :
    Config → Moment → LineSpec → ℕ → Line → Parked → Line × Result ReviveError TickResult
with_park config m line streak s park =
    after_revival config m line streak park (revive_outcome m line (record s { file = park.file }))

-- A disabled line is neither parked nor revived.
abbrev pub if_enabled :
    Config → Moment → LineSpec → Line → StallFile → ℕ → Bool → Line × Result ReviveError TickResult
if_enabled config m line s file streak true =
    with_park config m line streak s (park_state m.world line (terminal_record m line file) file)
if_enabled config m line s file streak false =
    after_revival config m line streak (left file (no_park none))
      (record s { file = file }, ok none)

abbrev pub after_accounting :
    Config → Moment → LineSpec → Line → StallFile × ℕ → Line × Result ReviveError TickResult
after_accounting config m line s (file, streak) =
    if_enabled config m line s file streak line.enabled

-- Accounting, parking, revival, decision and launch of one line.
unfoldable pub tick_line : Config → Moment → LineSpec → Line → Line × Result ReviveError TickResult
tick_line config m line s =
    after_accounting config m line s
      (account_last_run m.accounting_writes line.generation (terminal_record m line s.file) s.file)
