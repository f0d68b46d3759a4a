-- ===== src/Scheduler/Reading.antt =====
-- What the scheduler reads of a line in one tick: scheduler/daemon.py, `terminal_record` and
-- `_current_done_generation`, with the readings of scheduler/checkpoint_terminal.py.
use fleet_graph.Common.{
  Bool, List, Option, String, false, if◌then◌else◌, is_some, ltb, none, some, ℕ, ◌-◌, ◌||◌,
}
use fleet_graph.Scheduler.Parking.{LineSpec, World}
use fleet_graph.Scheduler.Revive.{ReviveStore}
use fleet_graph.Scheduler.Stall.{StallFile, TerminalRecord, generation_of, is_word, present}

-- What the checkpoint of one generation says.
pub record CheckpointTerminal : Type 0 where
  pub at_end : Option TerminalRecord
  pub authoritative : Bool
  pub fault : Option String

pub record Moment : Type 0 where
  pub world : World
  pub terminal_json : Option TerminalRecord
  pub checkpoints : Option (ℕ → CheckpointTerminal)
  pub running : ℕ → Bool
  pub maintenance_stop : Bool
  pub gateway_healthy : Option Bool
  pub digest_current : Option String
  pub launches : ℕ → Bool
  pub on_default_branch : Option (TerminalRecord → Option Bool)
  pub accounting_writes : Bool
  pub bump_writes : Bool
  pub start_writes : Bool
  pub revive_writes : Bool
  pub history_writes : Bool

pub record Config : Type 0 where
  pub cooldown_seconds : ℕ
  pub total_cap : ℕ
  pub cap_window_seconds : ℕ
  pub backoff_cap_seconds : ℕ

-- What the scheduler holds: the stall files under the folders, the surface of revocations, the starts
-- in memory, and the times of the launches that got nowhere.
pub record Line : Type 0 where
  pub file : StallFile
  pub revives : ReviveStore
  pub last_start_at : Option ℕ
  pub unproductive_launches : List ℕ
  pub total_started : ℕ

-- The first of two generations whose checkpoint answers or fails.
abbrev pub reading_of :
    Option CheckpointTerminal → Option CheckpointTerminal → Option CheckpointTerminal
reading_of (some reading) later =
    if is_some reading.fault || reading.authoritative then some reading else later
reading_of none later = later

abbrev pub read_at : (ℕ → CheckpointTerminal) → ℕ → Option CheckpointTerminal
read_at read generation = if ltb generation 1 then none else some (read generation)

abbrev previous : ℕ → ℕ
previous generation = generation - 1

abbrev pub checkpoint_reading : (ℕ → CheckpointTerminal) → ℕ → Option CheckpointTerminal
checkpoint_reading read generation =
    reading_of (read_at read generation) (reading_of (read_at read (previous generation)) none)

abbrev pub is_fault : TerminalRecord → Bool
is_fault r = is_word "fault" r.terminal || r.pump_fault

-- Where a checkpoint holds no terminal, the file speaks of a fault only.
abbrev pub fault_only : Option TerminalRecord → Option TerminalRecord
fault_only none = none
fault_only (some r) = if is_fault r then some r else none

abbrev pub read_terminal : Option TerminalRecord → Option CheckpointTerminal → Option TerminalRecord
read_terminal file none = file
read_terminal file (some reading) =
    if is_some reading.at_end
    then reading.at_end
    else if reading.authoritative
    then fault_only file
    else file

abbrev pub record_from :
    Option TerminalRecord → ℕ → Option (ℕ → CheckpointTerminal) → Option TerminalRecord
record_from file generation none = file
record_from file generation (some read) = read_terminal file (checkpoint_reading read generation)

unfoldable pub terminal_record : Moment → LineSpec → StallFile → Option TerminalRecord
terminal_record m line file =
    record_from m.terminal_json (generation_of line.generation file) m.checkpoints

abbrev pub terminal_of : Option TerminalRecord → Option String
terminal_of none = none
terminal_of (some r) = if present r.terminal then r.terminal else none

abbrev pub is_done_record : Option TerminalRecord → Bool
is_done_record none = false
is_done_record (some r) = is_word "done" r.terminal

-- The generation that answers, if its terminal is done.
abbrev pub done_at : ℕ → Option CheckpointTerminal → Option ℕ → Option ℕ
done_at generation none later = later
done_at generation (some reading) later =
    if is_some reading.fault
    then none
    else if reading.authoritative
    then (if is_done_record reading.at_end then some generation else none)
    else later

abbrev pub done_from : (ℕ → CheckpointTerminal) → ℕ → Option ℕ
done_from read generation =
    done_at generation (read_at read generation)
      (done_at (previous generation) (read_at read (previous generation)) none)

abbrev pub done_by : ℕ → Option (ℕ → CheckpointTerminal) → Option ℕ
done_by generation none = none
done_by generation (some read) = done_from read generation

unfoldable pub current_done_generation : Moment → LineSpec → StallFile → Option ℕ
current_done_generation m line file = done_by (generation_of line.generation file) m.checkpoints
