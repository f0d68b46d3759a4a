-- ===== src/GoalInterrupt/Effects.antt =====
-- What one call of a write does to each table of goal_interrupt/store.py.
use fleet_graph.Common.{
  Option, Option-cases, String, arith, eq_iff, if◌then◌else◌, inl, inr, none, refl, some, ℕ, ◌==◌,
  ◌≡◌,
}
use fleet_graph.Common.Dict.{Dict, lookup, lookup-insert}
use fleet_graph.Common.Json.{Json}
use fleet_graph.Common.Sqlite.{Io}
use fleet_graph.GoalInterrupt.{
  CompensationRow, DecisionInput, GoalInterruptStore, InterruptCheckpoint, insert_new,
}
use fleet_graph.GoalInterrupt.History.{Call, Op, claimed_by, or_else, perform, put_by, resumed_by}
use fleet_graph.GoalInterrupt.Writes.{
  advance_cursor, claim_turn, interrupt_row, put_interrupt, record_compensation, record_resume,
  record_turn_result, resume_row, usage_row,
}

pub or_else-none : {A : Type 0} (o : Option A) → o ≡ or_else o none
or_else-none none = refl
or_else-none (some a) = refl

abbrev pub field_of : {R A : Type 0} → (R → A) → Option R → Option A
field_of get none = none
field_of get (some row) = some (get row)

-- A row that is there stays; a new one is what the insert says.
insert_new-lookup :
    {V A : Type 0} (get : V → A) (key asked : String) (row : V) (table : Dict V)
    → field_of get (lookup asked (insert_new key row table).0)
      ≡ or_else (field_of get (lookup asked table)) (if key == asked then some (get row) else none)
insert_new-lookup get key asked row table = elim (Option-cases (lookup key table)) [
  | inl e ↦ rw e (ground (arith, eq_iff key asked, lookup-insert key asked row table))
  | inr (old, e) ↦ rw e (ground (arith, eq_iff key asked))
]

pub perform-idle_fails : (op : Op) (s : GoalInterruptStore) → perform (Io.fails, op) s ≡ s
unfolding put_interrupt record_resume record_compensation claim_turn record_turn_result
    advance_cursor
perform-idle_fails (Op.put now c) s = refl
perform-idle_fails (Op.resume now d) s = refl
perform-idle_fails (Op.compensate now key message_id seq) s = refl
perform-idle_fails (Op.claim now turn_id) s = refl
perform-idle_fails (Op.settle now turn_id result) s = refl
perform-idle_fails (Op.move now seq) s = refl

pub perform-idle_closed : (op : Op) (s : GoalInterruptStore) → perform (Io.not_open, op) s ≡ s
unfolding put_interrupt record_resume record_compensation claim_turn record_turn_result
    advance_cursor
perform-idle_closed (Op.put now c) s = refl
perform-idle_closed (Op.resume now d) s = refl
perform-idle_closed (Op.compensate now key message_id seq) s = refl
perform-idle_closed (Op.claim now turn_id) s = refl
perform-idle_closed (Op.settle now turn_id result) s = refl
perform-idle_closed (Op.move now seq) s = refl

-- What the tables hold for a key.
abbrev pub checkpoint_at : String → GoalInterruptStore → Option InterruptCheckpoint
checkpoint_at key s = field_of (λ r. r.checkpoint) (lookup key s.interrupts)

abbrev pub envelope_at : String → GoalInterruptStore → Option DecisionInput
envelope_at key s = field_of (λ r. r.envelope) (lookup key s.resume_receipts)

abbrev pub charge_at : String → GoalInterruptStore → Option ℕ
charge_at turn_id s = field_of (λ r. r.model_invocations) (lookup turn_id s.turn_usage)

abbrev pub result_at : String → GoalInterruptStore → Option (Dict Json)
result_at turn_id s = field_of (λ r. r.result) (lookup turn_id s.turn_results)

abbrev pub pair_of : CompensationRow → ℕ × String
pair_of r = (r.last_decision_seq, r.last_decision_message_id)

abbrev pub compensated_at : String → GoalInterruptStore → Option (ℕ × String)
compensated_at key s = field_of pair_of (lookup key s.compensation_receipts)

pub put-effect :
    (key : String) (call : Call) (s : GoalInterruptStore)
    → checkpoint_at key (perform call s) ≡ or_else (checkpoint_at key s) (put_by key call)
unfolding put_interrupt record_resume record_compensation claim_turn record_turn_result
    advance_cursor
put-effect key (Io.works, Op.put now c) s =
    insert_new-lookup (λ r. r.checkpoint) c.resume_key key (interrupt_row now c) s.interrupts
put-effect key (Io.works, Op.resume now d) s = or_else-none (checkpoint_at key s)
put-effect key (Io.works, Op.compensate now k message_id seq) s = or_else-none (checkpoint_at key s)
put-effect key (Io.works, Op.claim now t) s = or_else-none (checkpoint_at key s)
put-effect key (Io.works, Op.settle now t result) s = or_else-none (checkpoint_at key s)
put-effect key (Io.works, Op.move now seq) s = or_else-none (checkpoint_at key s)
put-effect key (Io.fails, op) s = rw (perform-idle_fails op s) (or_else-none (checkpoint_at key s))
put-effect key (Io.not_open, op) s =
    rw (perform-idle_closed op s) (or_else-none (checkpoint_at key s))

pub resume-effect :
    (key : String) (call : Call) (s : GoalInterruptStore)
    → envelope_at key (perform call s) ≡ or_else (envelope_at key s) (resumed_by key call)
unfolding put_interrupt record_resume record_compensation claim_turn record_turn_result
    advance_cursor
resume-effect key (Io.works, Op.put now c) s = or_else-none (envelope_at key s)
resume-effect key (Io.works, Op.resume now d) s =
    insert_new-lookup (λ r. r.envelope) d.resume_key key (resume_row now d) s.resume_receipts
resume-effect key (Io.works, Op.compensate now k message_id seq) s =
    or_else-none (envelope_at key s)
resume-effect key (Io.works, Op.claim now t) s = or_else-none (envelope_at key s)
resume-effect key (Io.works, Op.settle now t result) s = or_else-none (envelope_at key s)
resume-effect key (Io.works, Op.move now seq) s = or_else-none (envelope_at key s)
resume-effect key (Io.fails, op) s = rw (perform-idle_fails op s) (or_else-none (envelope_at key s))
resume-effect key (Io.not_open, op) s =
    rw (perform-idle_closed op s) (or_else-none (envelope_at key s))

pub claim-effect :
    (turn_id : String) (call : Call) (s : GoalInterruptStore)
    → charge_at turn_id (perform call s) ≡ or_else (charge_at turn_id s) (claimed_by turn_id call)
unfolding put_interrupt record_resume record_compensation claim_turn record_turn_result
    advance_cursor
claim-effect turn_id (Io.works, Op.put now c) s = or_else-none (charge_at turn_id s)
claim-effect turn_id (Io.works, Op.resume now d) s = or_else-none (charge_at turn_id s)
claim-effect turn_id (Io.works, Op.compensate now k message_id seq) s =
    or_else-none (charge_at turn_id s)
claim-effect turn_id (Io.works, Op.claim now t) s =
    insert_new-lookup (λ r. r.model_invocations) t turn_id (usage_row now) s.turn_usage
claim-effect turn_id (Io.works, Op.settle now t result) s = or_else-none (charge_at turn_id s)
claim-effect turn_id (Io.works, Op.move now seq) s = or_else-none (charge_at turn_id s)
claim-effect turn_id (Io.fails, op) s =
    rw (perform-idle_fails op s) (or_else-none (charge_at turn_id s))
claim-effect turn_id (Io.not_open, op) s =
    rw (perform-idle_closed op s) (or_else-none (charge_at turn_id s))
