-- ===== src/GoalInterrupt/Forward.antt =====
-- What one call of a write does to the turn results, the compensation receipts and the cursor of
-- goal_interrupt/store.py.
use fleet_graph.Common.{
  Bool-cases, Option, Option-cases, String, arith, eq_iff, if◌then◌else◌, inl, inr, max, none, refl,
  some, ℕ, ◌==◌, ◌≡◌,
}
use fleet_graph.Common.Dict.{
  Dict, insert, lookup, lookup-insert, lookup-insert_ne, lookup-insert_self,
}
use fleet_graph.Common.Json.{Json}
use fleet_graph.Common.Order.{pair_leb}
use fleet_graph.Common.Sqlite.{Io}
use fleet_graph.GoalInterrupt.{CompensationRow, CursorRow, GoalInterruptStore, TurnRow}
use fleet_graph.GoalInterrupt.Effects.{
  compensated_at, field_of, pair_of, perform-idle_closed, perform-idle_fails, result_at,
}
use fleet_graph.GoalInterrupt.History.{
  Call, Op, compensated_by, moved_by, or_else, perform, settled_by,
}
use fleet_graph.GoalInterrupt.Reads.{seq_of}
use fleet_graph.GoalInterrupt.Writes.{
  advance_cursor, claim_turn, compensated, compensation_row, cursor_moved, put_interrupt,
  record_compensation, record_resume, record_turn_result, supersedes, turn_row,
}

abbrev pub newer : Option (ℕ × String) → Option (ℕ × String) → Option (ℕ × String)
newer none word = word
newer (some old) none = some old
newer (some (n, a)) (some (m, b)) = if pair_leb m b n a then some (n, a) else some (m, b)

abbrev pub seq_at : GoalInterruptStore → ℕ
seq_at s = seq_of s.cursor_row

newer-none : (o : Option (ℕ × String)) → o ≡ newer o none
newer-none none = refl
newer-none (some a) = refl

max_zero : (n : ℕ) → n ≡ max n 0
max_zero n = omega arith

upsert-lookup :
    {V A : Type 0} (get : V → A) (key asked : String) (row : V) (table : Dict V) (a : A)
    → get row ≡ a
    → field_of get (lookup asked (insert key row table))
      ≡ or_else (if key == asked then some a else none) (field_of get (lookup asked table))
upsert-lookup get key asked row table a e =
    ground (arith, eq_iff key asked, lookup-insert key asked row table)

turn_row-result :
    (now : String) (result : Dict Json) (row : Option TurnRow)
    → (turn_row now result row).result ≡ result
turn_row-result now result none = refl
turn_row-result now result (some row) = refl

pub settle-effect :
    (turn_id : String) (call : Call) (s : GoalInterruptStore)
    → result_at turn_id (perform call s) ≡ or_else (settled_by turn_id call) (result_at turn_id s)
unfolding put_interrupt record_resume record_compensation claim_turn record_turn_result
    advance_cursor
settle-effect turn_id (Io.works, Op.put now c) s = refl
settle-effect turn_id (Io.works, Op.resume now d) s = refl
settle-effect turn_id (Io.works, Op.compensate now k message_id seq) s = refl
settle-effect turn_id (Io.works, Op.claim now t) s = refl
settle-effect turn_id (Io.works, Op.settle now t result) s =
    upsert-lookup (λ r. r.result) t turn_id (turn_row now result (lookup t s.turn_results))
      s.turn_results result (turn_row-result now result (lookup t s.turn_results))
settle-effect turn_id (Io.works, Op.move now seq) s = refl
settle-effect turn_id (Io.fails, op) s = rw (perform-idle_fails op s) refl
settle-effect turn_id (Io.not_open, op) s = rw (perform-idle_closed op s) refl

compensated_self :
    (now key message_id : String) (seq : ℕ) (table : Dict CompensationRow)
    → field_of pair_of (lookup key (compensated now key message_id seq table).0)
      ≡ newer (field_of pair_of (lookup key table)) (some (seq, message_id))
compensated_self now key message_id seq table = elim (Option-cases (lookup key table)) [
  | inl e ↦ rw (e, lookup-insert_self key (compensation_row now message_id seq) table) refl
  | inr (old, e) ↦
      elim (Bool-cases
        (pair_leb seq message_id old.last_decision_seq old.last_decision_message_id)) [
          | inl h ↦ rw (e, h, e) refl
          | inr h ↦
              rw (e, h, lookup-insert_self key (compensation_row now message_id seq) table) refl
        ]
]

compensated-lookup :
    (now key asked message_id : String) (seq : ℕ) (table : Dict CompensationRow)
    → field_of pair_of (lookup asked (compensated now key message_id seq table).0)
      ≡ newer
          (field_of pair_of (lookup asked table))
          (if key == asked then some (seq, message_id) else none)
compensated-lookup now key asked message_id seq table = elim (Bool-cases (key == asked)) [
  | inl e ↦ rw (e, (eq_iff key asked).0 e) (compensated_self now asked message_id seq table)
  | inr e ↦ rw e (elim (Bool-cases (supersedes message_id seq (lookup key table))) [
    | inl h ↦
        rw
          (
            h,
            lookup-insert_ne key asked (compensation_row now message_id seq) table
                (λ q. ground (arith, eq_iff key asked)),
          )
          (newer-none (field_of pair_of (lookup asked table)))
    | inr h ↦ rw h (newer-none (field_of pair_of (lookup asked table)))
  ])
]

cursor_moved-seq :
    (now : String) (seq : ℕ) (row : Option CursorRow)
    → (cursor_moved now seq row).board_seq ≡ max (seq_of row) seq
cursor_moved-seq now seq none = omega arith
cursor_moved-seq now seq (some row) = ground arith

pub compensate-effect :
    (key : String) (call : Call) (s : GoalInterruptStore)
    → compensated_at key (perform call s) ≡ newer (compensated_at key s) (compensated_by key call)
unfolding put_interrupt record_resume record_compensation claim_turn record_turn_result
    advance_cursor
compensate-effect key (Io.works, Op.put now c) s = newer-none (compensated_at key s)
compensate-effect key (Io.works, Op.resume now d) s = newer-none (compensated_at key s)
compensate-effect key (Io.works, Op.compensate now k message_id seq) s =
    compensated-lookup now k key message_id seq s.compensation_receipts
compensate-effect key (Io.works, Op.claim now t) s = newer-none (compensated_at key s)
compensate-effect key (Io.works, Op.settle now t result) s = newer-none (compensated_at key s)
compensate-effect key (Io.works, Op.move now seq) s = newer-none (compensated_at key s)
compensate-effect key (Io.fails, op) s =
    rw (perform-idle_fails op s) (newer-none (compensated_at key s))
compensate-effect key (Io.not_open, op) s =
    rw (perform-idle_closed op s) (newer-none (compensated_at key s))

pub move-effect :
    (call : Call) (s : GoalInterruptStore)
    → seq_at (perform call s) ≡ max (seq_at s) (moved_by call)
unfolding put_interrupt record_resume record_compensation claim_turn record_turn_result
    advance_cursor
move-effect (Io.works, Op.put now c) s = max_zero (seq_at s)
move-effect (Io.works, Op.resume now d) s = max_zero (seq_at s)
move-effect (Io.works, Op.compensate now k message_id seq) s = max_zero (seq_at s)
move-effect (Io.works, Op.claim now t) s = max_zero (seq_at s)
move-effect (Io.works, Op.settle now t result) s = max_zero (seq_at s)
move-effect (Io.works, Op.move now seq) s = cursor_moved-seq now seq s.cursor_row
move-effect (Io.fails, op) s = rw (perform-idle_fails op s) (max_zero (seq_at s))
move-effect (Io.not_open, op) s = rw (perform-idle_closed op s) (max_zero (seq_at s))
