-- ===== src/GoalInterrupt/Once.antt =====
-- How often the writes of goal_interrupt/store.py tell a caller that it is the first.
use fleet_graph.Common.{
  Bool, Bool-cases, List, Option, Option-cases, Result, String, [], arith, eq_iff, err, false,
  if◌then◌else◌, inl, inr, is_some, none, ok, refl, some, true, ℕ, ◌+◌, ◌==◌, ◌∷◌, ◌≡◌,
}
use fleet_graph.Common.Dict.{Dict, lookup}
use fleet_graph.Common.Sqlite.{Io, StoreError}
use fleet_graph.GoalInterrupt.{GoalInterruptStore, insert_new}
use fleet_graph.GoalInterrupt.Effects.{
  charge_at, claim-effect, envelope_at, field_of, resume-effect,
}
use fleet_graph.GoalInterrupt.History.{Call, Op, claimed_by, first_of, or_else, perform, resumed_by}
use fleet_graph.GoalInterrupt.Writes.{claim_turn, record_resume, resume_row, usage_row}
use fleet_graph.GoalLine.Graph.{step}

abbrev pub granted : Result StoreError Bool → ℕ
granted (ok true) = 1
granted (ok false) = 0
granted (err e) = 0

abbrev pub turn_granted : String → Call → GoalInterruptStore → ℕ
turn_granted turn_id (io, Op.claim now t) s =
    if t == turn_id then granted (claim_turn io now t s).1 else 0
turn_granted turn_id _ s = 0

abbrev pub resume_granted : String → Call → GoalInterruptStore → ℕ
resume_granted key (io, Op.resume now d) s =
    if d.resume_key == key then granted (record_resume io now d s).1 else 0
resume_granted key _ s = 0

-- Over a whole history.
abbrev pub total : (Call → GoalInterruptStore → ℕ) → List Call → GoalInterruptStore → ℕ
total count [] s = 0
total count (call ∷ later) s = count call s + total count later (perform call s)

abbrev pub once : Bool → ℕ
once b = if b then 1 else 0

total-once :
    {A : Type 0} (held : GoalInterruptStore → Option A) (says : Call → Option A)
    (count : Call → GoalInterruptStore → ℕ)
    → ((call : Call) (s : GoalInterruptStore)
        → held (perform call s) ≡ or_else (held s) (says call))
    → ((call : Call) (s : GoalInterruptStore)
        → count call s ≡ (if is_some (held s) then 0 else once (is_some (says call))))
    → (log : List Call) (s : GoalInterruptStore)
    → total count log s ≡ (if is_some (held s) then 0 else once (is_some (first_of says log)))
total-once held says count step counts [] s = ground arith
total-once held says count step counts (call ∷ later) s =
    let rest = total-once held says count step counts later (perform call s) in
    ground (arith, rest, step call s, counts call s)

-- An insert is granted where the key is new.
insert_new-granted :
    {V A B : Type 0} (get : V → A) (word : B) (key asked : String) (row : V) (table : Dict V)
    → (if key == asked then granted (ok (insert_new key row table).1) else 0) ≡ (
        if is_some (field_of get (lookup asked table))
        then 0
        else once (is_some (if key == asked then some word else none)))
insert_new-granted get word key asked row table = elim (Bool-cases (key == asked)) [
  | inl e ↦ elim (Option-cases (lookup asked table)) [
    | inl h ↦ rw (e, (eq_iff key asked).0 e, h) refl
    | inr (old, h) ↦ rw (e, (eq_iff key asked).0 e, h) refl
  ]
  | inr e ↦ ground arith
]

turn-counts :
    (turn_id : String) (call : Call) (s : GoalInterruptStore)
    → turn_granted turn_id call s
      ≡ (if is_some (charge_at turn_id s) then 0 else once (is_some (claimed_by turn_id call)))
unfolding claim_turn
turn-counts turn_id (io, Op.put now c) s = ground arith
turn-counts turn_id (io, Op.resume now d) s = ground arith
turn-counts turn_id (io, Op.compensate now k message_id seq) s = ground arith
turn-counts turn_id (Io.works, Op.claim now t) s =
    insert_new-granted (λ r. r.model_invocations) 1 t turn_id (usage_row now) s.turn_usage
turn-counts turn_id (Io.fails, Op.claim now t) s = ground arith
turn-counts turn_id (Io.not_open, Op.claim now t) s = ground arith
turn-counts turn_id (io, Op.settle now t result) s = ground arith
turn-counts turn_id (io, Op.move now seq) s = ground arith

resume-counts :
    (key : String) (call : Call) (s : GoalInterruptStore)
    → resume_granted key call s
      ≡ (if is_some (envelope_at key s) then 0 else once (is_some (resumed_by key call)))
unfolding record_resume
resume-counts key (io, Op.put now c) s = ground arith
resume-counts key (Io.works, Op.resume now d) s =
    insert_new-granted (λ r. r.envelope) d d.resume_key key (resume_row now d) s.resume_receipts
resume-counts key (Io.fails, Op.resume now d) s = ground arith
resume-counts key (Io.not_open, Op.resume now d) s = ground arith
resume-counts key (io, Op.compensate now k message_id seq) s = ground arith
resume-counts key (io, Op.claim now t) s = ground arith
resume-counts key (io, Op.settle now t result) s = ground arith
resume-counts key (io, Op.move now seq) s = ground arith

-- Over any history of calls a turn is granted once if a claim of it commits and no charge was
-- there before, and otherwise never.
pub turn_granted-once :
    (turn_id : String) (log : List Call) (s : GoalInterruptStore)
    → total (turn_granted turn_id) log s ≡ (
        if is_some (charge_at turn_id s)
        then 0
        else once (is_some (first_of (claimed_by turn_id) log)))
turn_granted-once turn_id =
    total-once (charge_at turn_id) (claimed_by turn_id) (turn_granted turn_id)
      (claim-effect turn_id) (turn-counts turn_id)

-- Over any history of calls the decision of a question is reported as new once if a delivery of
-- it commits and none was there before, and otherwise never.
pub resume_granted-once :
    (key : String) (log : List Call) (s : GoalInterruptStore)
    → total (resume_granted key) log s
      ≡ (if is_some (envelope_at key s) then 0 else once (is_some (first_of (resumed_by key) log)))
resume_granted-once key =
    total-once (envelope_at key) (resumed_by key) (resume_granted key) (resume-effect key)
      (resume-counts key)
