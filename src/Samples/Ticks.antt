-- ===== src/Samples/Ticks.antt =====
-- The theorems on the scheduler's bookkeeping, parking and revival at a concrete line.
use fleet_graph.Common.{
  Bool, List, Option, String, [], arith, eqb, false, if◌then◌else◌, inr, length, none, ok, refl,
  some, true, ℕ, ◌+◌, ◌∷◌, ◌≡◌, ◌≤◌,
}
use fleet_graph.Common.Order.{codes_leb}
use fleet_graph.Common.Text.{codes}
use fleet_graph.GoalLine.Verdict.{trim}
use fleet_graph.Scheduler.GoalEdits.{goal_edit-wakes}
use fleet_graph.Scheduler.Ignition.{decide}
use fleet_graph.Scheduler.Once.{parks, unparked-parks}
use fleet_graph.Scheduler.Parking.{LineSpec, WakeSignals, World, establish_park}
use fleet_graph.Scheduler.Reading.{
  CheckpointTerminal, Config, Line, Moment, current_done_generation, terminal_record,
}
use fleet_graph.Scheduler.Revive.{RawGeneration, RawRevive, consume, load_from, validate_revive}
use fleet_graph.Scheduler.Revocations.{revocations, revocations-once, took}
use fleet_graph.Scheduler.Stall.{
  StallFile, StallState, TerminalRecord, account_last_run, account_run, generation_of, record_start,
  stall_state, write_stall_state,
}
use fleet_graph.Scheduler.Streaks.{
  account_all, account_all-counts, account_last_run-once, counted, productive, spent,
  unproductive_tail,
}
use fleet_graph.Scheduler.Tick.{
  after_revival, force_revive_bump, ignite_on, revive_outcome, tick_line,
}
use fleet_graph.Scheduler.Waking.{decision_park}
use fleet_graph.Scheduler.Wasted.{launches_of, revoked-unlaunched}
use fleet_graph.Scheduler.Stall.{empty_state}
use fleet_graph.Scheduler.Waking.{park_state}
use fleet_graph.Scheduler.Revive.{get}
use fleet_graph.Scheduler.Revive.{load}

abbrev blocked_record : TerminalRecord
blocked_record = record {
  terminal = some "blocked";
  rounds = 0;
  run_id = some "run-2";
  waiting_on = some "decision";
  at_epoch = some 900;
  pump_fault = false;
  goal_revision = some "rev-1";
  dd_development_id = none;
}

abbrev bounds_record : TerminalRecord
bounds_record = record blocked_record {
  terminal = some "bounds";
  run_id = some "run-3";
  waiting_on = some "none";
}

abbrev witnessed : StallState
witnessed = record empty_state { accounted_run_id = some "run-1"; generation = some 2 }

account_last_run-once_example :
    account_last_run true 1
      (some blocked_record)
      (account_last_run true 1 (some blocked_record) (StallFile.stored witnessed)).0
    ≡ account_last_run true 1 (some blocked_record) (StallFile.stored witnessed)
account_last_run-once_example =
    account_last_run-once true 1 (some blocked_record) (StallFile.stored witnessed)

abbrev terminals : List TerminalRecord
terminals = blocked_record ∷ bounds_record ∷ []

-- A file that was not there: the first terminal is adopted.
account_all-counts_example :
    ((stall_state (account_all 1 terminals StallFile.absent)).streak ≡ (
      if productive (counted StallFile.absent terminals)
      then unproductive_tail (counted StallFile.absent terminals)
      else 0 + length (counted StallFile.absent terminals)))
    × (generation_of 1 (account_all 1 terminals StallFile.absent)
        ≡ generation_of 1 StallFile.absent + spent terminals)
account_all-counts_example =
    account_all-counts 1 terminals StallFile.absent ("run-2", refl, refl, ("run-3", refl, refl, tt))

abbrev sample_line : LineSpec
sample_line = record {
  folder_id = "f1";
  seat = "seat-1";
  alias = some "anna";
  generation = 1;
  enabled = true;
  acceptance_digest = none;
}

-- No mail and no ruling; the goal has the given revision.
abbrev signals_at : String → WakeSignals
signals_at revision = record {
  inbox_message_after = λ alias since. ok false;
  goal_revision = λ folder. ok (some revision);
  decision_landed = λ note since. ok false;
}

abbrev world_at : ℕ → Option WakeSignals → World
world_at now wake = record {
  now = now;
  clock = now;
  wake = wake;
  dd = none;
  board = none;
  parking_writes = true;
  decision_wake_stall_ticks = 3;
  interval_seconds = 60;
}

abbrev unseen : StallFile
unseen = StallFile.stored witnessed

-- The goal was edited before the line was parked.
unparked-parks_example :
    parks
      (world_at 1100 (some (signals_at "rev-2")) ∷ [])
      sample_line
      blocked_record
      (park_state (world_at 1000 none) sample_line (some blocked_record) unseen).file
    ≡ false
unfolding park_state decision_park establish_park write_stall_state
unparked-parks_example =
    unparked-parks (world_at 1000 none) (world_at 1100 (some (signals_at "rev-2")) ∷ []) sample_line
      blocked_record "run-2" unseen refl (λ h. cc) (refl, refl, inr refl) refl

goal_edit-wakes_example :
    (park_state
      (world_at 1100 (some (signals_at "rev-2")))
      sample_line
      (some blocked_record)
      (park_state
        (world_at 1000 (some (signals_at "rev-2")))
        sample_line
        (some blocked_record)
        unseen).file).outcome.parked
    ≡ false
unfolding park_state decision_park establish_park write_stall_state
goal_edit-wakes_example =
    goal_edit-wakes (world_at 1000 (some (signals_at "rev-2")))
      (world_at 1100 (some (signals_at "rev-2"))) sample_line blocked_record "run-2" "rev-1" "rev-2"
      (signals_at "rev-2") unseen refl refl refl refl refl refl refl refl refl refl

abbrev done_record : TerminalRecord
done_record = record blocked_record { terminal = some "done"; run_id = some "run-1" }

-- Generation 2 is done, and 3 has not begun.
abbrev done_at_two : ℕ → CheckpointTerminal
done_at_two generation =
    if eqb generation 2
    then record { at_end = some done_record; authoritative = true; fault = none }
    else record { at_end = none; authoritative = false; fault = none }

-- A tick while the fleet is stopped, or not.
abbrev moment_at : Bool → ℕ → Moment
moment_at stopped now = record {
  world = world_at now none;
  terminal_json = some done_record;
  checkpoints = some done_at_two;
  running = λ generation. false;
  maintenance_stop = stopped;
  gateway_healthy = some true;
  digest_current = none;
  launches = λ generation. true;
  on_default_branch = none;
  accounting_writes = true;
  bump_writes = true;
  start_writes = true;
  revive_writes = true;
  history_writes = true;
}

abbrev config : Config
config = record {
  cooldown_seconds = 300;
  total_cap = 60;
  cap_window_seconds = 21600;
  backoff_cap_seconds = 21600;
}

abbrev overturn : RawRevive
overturn = record {
  folder_id = none;
  who = codes "anna";
  basis = codes "msg-1";
  generation = RawGeneration.integer 2;
  since = codes "t";
  reason = [];
}

abbrev finished_line : Line
finished_line = record {
  file = unseen;
  revives = record { active = (codes "f1", overturn) ∷ []; history = [] };
  last_start_at = none;
  unproductive_launches = [];
  total_started = 0;
}

revocations-once_example :
    revocations config (moment_at true 1000 ∷ moment_at false 9000 ∷ []) sample_line finished_line
    ≤ 1
revocations-once_example =
    revocations-once config (moment_at true 1000 ∷ moment_at false 9000 ∷ []) sample_line
      finished_line

taken_while_stopped :
    took (tick_line config (moment_at true 1000) sample_line finished_line).1 ≡ true
unfolding tick_line account_last_run account_run terminal_record park_state revive_outcome
    current_done_generation force_revive_bump get load load_from validate_revive consume
    after_revival ignite_on write_stall_state record_start decide codes trim codes_leb
taken_while_stopped = refl

bumped :
    generation_of 1 (tick_line config (moment_at true 1000) sample_line finished_line).0.file ≡ 3
unfolding tick_line account_last_run account_run terminal_record park_state revive_outcome
    current_done_generation force_revive_bump get load load_from validate_revive consume
    after_revival ignite_on write_stall_state record_start decide codes trim codes_leb
bumped = refl

revoked-unlaunched_example :
    launches_of config
      (moment_at false 9000 ∷ [])
      sample_line
      (tick_line config (moment_at true 1000) sample_line finished_line).0
    ≡ 0
revoked-unlaunched_example =
    revoked-unlaunched config (moment_at true 1000) (moment_at false 9000 ∷ []) sample_line
      finished_line done_at_two done_record taken_while_stopped (refl, tt)
      (rw bumped (omega arith, refl, refl, refl))
