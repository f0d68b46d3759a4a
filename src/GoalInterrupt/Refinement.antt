-- ===== src/GoalInterrupt/Refinement.antt =====
-- The store of goal_interrupt/store.py holds of a history what the history says: for a question or
-- a turn the first word or the last or the newest, for the board the furthest position.
use fleet_graph.Common.{List, Option, String, [], arith, max, none, refl, some, sym, ◌∙◌, ◌∷◌, ◌≡◌}
use fleet_graph.Common.Dict.{lookup}
use fleet_graph.GoalInterrupt.{GoalInterruptStore, empty_store}
use fleet_graph.GoalInterrupt.Effects.{
  charge_at, checkpoint_at, claim-effect, compensated_at, envelope_at, or_else-none, put-effect,
  result_at, resume-effect,
}
use fleet_graph.GoalInterrupt.Forward.{move-effect, seq_at, settle-effect}
use fleet_graph.GoalInterrupt.History.{
  Call, Newest, claimed_by, compensated_by, first_of, furthest, last_of, or_else, perform, put_by,
  resumed_by, run, settled_by,
}
use fleet_graph.GoalInterrupt.Newest.{run-Newest}
use fleet_graph.GoalLine.Graph.{step}

-- What a client may rely on, told without tables.
pub record Represents (log : List Call) (s : GoalInterruptStore) : Type 0 where
  pub asked : (key : String) → checkpoint_at key s ≡ first_of (put_by key) log
  pub answered : (key : String) → envelope_at key s ≡ first_of (resumed_by key) log
  pub charged : (turn_id : String) → charge_at turn_id s ≡ first_of (claimed_by turn_id) log
  pub settled : (turn_id : String) → result_at turn_id s ≡ last_of (settled_by turn_id) log
  pub recovered : (key : String) → Newest (compensated_by key) log (compensated_at key s)
  pub reached : seq_at s ≡ furthest log

or_else_assoc : {A : Type 0} (a b c : Option A) → or_else (or_else a b) c ≡ or_else a (or_else b c)
or_else_assoc none b c = refl
or_else_assoc (some x) b c = refl

pub run-first :
    {A : Type 0} (held : GoalInterruptStore → Option A) (says : Call → Option A)
    → ((call : Call) (s : GoalInterruptStore)
        → held (perform call s) ≡ or_else (held s) (says call))
    → (log : List Call) (s : GoalInterruptStore)
    → held (run log s) ≡ or_else (held s) (first_of says log)
run-first held says step [] s = or_else-none (held s)
run-first held says step (call ∷ later) s =
    run-first held says step later (perform call s)
    ∙ rw (step call s) (or_else_assoc (held s) (says call) (first_of says later))

pub run-last :
    {A : Type 0} (held : GoalInterruptStore → Option A) (says : Call → Option A)
    → ((call : Call) (s : GoalInterruptStore)
        → held (perform call s) ≡ or_else (says call) (held s))
    → (log : List Call) (s : GoalInterruptStore)
    → held (run log s) ≡ or_else (last_of says log) (held s)
run-last held says step [] s = refl
run-last held says step (call ∷ later) s =
    run-last held says step later (perform call s)
    ∙ rw (step call s) (sym (or_else_assoc (last_of says later) (says call) (held s)))

pub run-furthest :
    (log : List Call) (s : GoalInterruptStore) → seq_at (run log s) ≡ max (seq_at s) (furthest log)
run-furthest [] s = omega arith
run-furthest (call ∷ later) s =
    omega (arith, run-furthest later (perform call s), move-effect call s)

-- After any history of calls, the store holds the first committed checkpoint of each question,
-- the first committed decision, the first charge of each turn, its last result, the newest
-- recovered decision by position and message, and the furthest cursor.
pub run-Represents : (log : List Call) → Represents log (run log empty_store)
unfolding lookup
run-Represents log = record {
  asked = λ key. run-first (checkpoint_at key) (put_by key) (put-effect key) log empty_store;
  answered =
      λ key. run-first (envelope_at key) (resumed_by key) (resume-effect key) log empty_store;
  charged = λ turn_id.
      run-first (charge_at turn_id) (claimed_by turn_id) (claim-effect turn_id) log empty_store;
  settled = λ turn_id.
      run-last (result_at turn_id) (settled_by turn_id) (settle-effect turn_id) log empty_store
      ∙ sym (or_else-none (last_of (settled_by turn_id) log));
  recovered = λ key. run-Newest key log;
  reached = omega (arith, run-furthest log empty_store);
}
