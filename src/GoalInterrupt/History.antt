-- ===== src/GoalInterrupt/History.antt =====
-- A life of the store in goal_interrupt/store.py: calls of its writes in the order in which the
-- database takes them, and what the calls that committed say of each key.
use fleet_graph.Common.{
  In, List, Option, String, [], if◌then◌else◌, max, none, some, true, ℕ, ◌==◌, ◌∷◌, ◌≡◌,
}
use fleet_graph.Common.Dict.{Dict}
use fleet_graph.Common.Json.{Json}
use fleet_graph.Common.Order.{pair_leb}
use fleet_graph.Common.Sqlite.{Io}
use fleet_graph.GoalInterrupt.{DecisionInput, GoalInterruptStore, InterruptCheckpoint}
use fleet_graph.GoalInterrupt.Writes.{
  advance_cursor, claim_turn, put_interrupt, record_compensation, record_resume, record_turn_result,
}

pub data Op : Type 0 where
  put : String → InterruptCheckpoint → Op
  resume : String → DecisionInput → Op
  compensate : String → String → String → ℕ → Op
  claim : String → String → Op
  settle : String → String → Dict Json → Op
  move : String → ℕ → Op

abbrev pub Call : Type 0
Call = Io × Op

abbrev pub perform : Call → GoalInterruptStore → GoalInterruptStore
perform (io, Op.put now c) s = (put_interrupt io now c s).0
perform (io, Op.resume now d) s = (record_resume io now d s).0
perform (io, Op.compensate now key message_id seq) s =
    (record_compensation io now key message_id seq s).0
perform (io, Op.claim now turn_id) s = (claim_turn io now turn_id s).0
perform (io, Op.settle now turn_id result) s = (record_turn_result io now turn_id result s).0
perform (io, Op.move now seq) s = (advance_cursor io now seq s).0

abbrev pub run : List Call → GoalInterruptStore → GoalInterruptStore
run [] s = s
run (call ∷ later) s = run later (perform call s)

-- What one committed call says of a key.
abbrev pub put_by : String → Call → Option InterruptCheckpoint
put_by key (Io.works, Op.put now c) = if c.resume_key == key then some c else none
put_by key _ = none

abbrev pub resumed_by : String → Call → Option DecisionInput
resumed_by key (Io.works, Op.resume now d) = if d.resume_key == key then some d else none
resumed_by key _ = none

abbrev pub compensated_by : String → Call → Option (ℕ × String)
compensated_by key (Io.works, Op.compensate now k message_id seq) =
    if k == key then some (seq, message_id) else none
compensated_by key _ = none

abbrev pub claimed_by : String → Call → Option ℕ
claimed_by turn_id (Io.works, Op.claim now t) = if t == turn_id then some 1 else none
claimed_by turn_id _ = none

abbrev pub settled_by : String → Call → Option (Dict Json)
settled_by turn_id (Io.works, Op.settle now t result) = if t == turn_id then some result else none
settled_by turn_id _ = none

abbrev pub moved_by : Call → ℕ
moved_by (Io.works, Op.move now seq) = seq
moved_by _ = 0

-- What a whole history says: the first word, the last word, the greatest.
abbrev pub or_else : {A : Type 0} → Option A → Option A → Option A
or_else none later = later
or_else (some a) later = some a

abbrev pub first_of : {A : Type 0} → (Call → Option A) → List Call → Option A
first_of says [] = none
first_of says (call ∷ later) = or_else (says call) (first_of says later)

abbrev pub last_of : {A : Type 0} → (Call → Option A) → List Call → Option A
last_of says [] = none
last_of says (call ∷ later) = or_else (last_of says later) (says call)

abbrev pub furthest : List Call → ℕ
furthest [] = 0
furthest (call ∷ later) = max (moved_by call) (furthest later)

-- A word is at most the pair, if it says anything.
abbrev pub Below : Option (ℕ × String) → ℕ × String → Type 0
Below none p = Unit
Below (some (k, a)) (n, m) = pair_leb k a n m ≡ true

-- The greatest word there is, and none where there is no word.
abbrev pub Newest : (Call → Option (ℕ × String)) → List Call → Option (ℕ × String) → Type 0
Newest says log none = (call : Call) → In call log → says call ≡ none
Newest says log (some p) =
    ((call : Call) × In call log × (says call ≡ some p))
    × ((call : Call) → In call log → Below (says call) p)
