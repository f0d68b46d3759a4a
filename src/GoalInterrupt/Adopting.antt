-- ===== src/GoalInterrupt/Adopting.antt =====
-- A turn that was charged and written back is not run again: `decision_interrupt` of
-- graphs/goal_line.py over goal_interrupt/store.py.
use fleet_graph.Common.{
  List, Option, Option-cases, Result, String, eq_refl, err, false, inl, inr, is_some, none, ok,
  refl, some, subst, sym, true, ◌∙◌, ◌≡◌,
}
use fleet_graph.Common.Dict.{Dict, lookup}
use fleet_graph.Common.Json.{Json}
use fleet_graph.Common.Sqlite.{Io, StoreError}
use fleet_graph.GoalInterrupt.{GoalInterruptStore, insert_new}
use fleet_graph.GoalInterrupt.Effects.{charge_at, claim-effect, result_at}
use fleet_graph.GoalInterrupt.Forward.{settle-effect}
use fleet_graph.GoalInterrupt.History.{
  Call, Op, claimed_by, first_of, last_of, or_else, perform, run, settled_by,
}
use fleet_graph.GoalInterrupt.Reads.{turn_result}
use fleet_graph.GoalInterrupt.Refinement.{run-first, run-last}
use fleet_graph.GoalInterrupt.Turns.{Turn, TurnIo, all_works, resumed_turn, turn_of, write_back}
use fleet_graph.GoalInterrupt.Writes.{claim_turn, record_turn_result, usage_row}

write_back-settles :
    (io : Io) (now turn_id : String) (s n : GoalInterruptStore) (found : Result StoreError Turn)
    (turn : Turn)
    → write_back io now turn_id s found ≡ (n, ok turn)
    → n ≡ perform (Io.works, Op.settle now turn_id turn.0) s
unfolding record_turn_result
write_back-settles Io.works now turn_id s n (ok found) turn h = cc
write_back-settles Io.fails now turn_id s n (ok found) turn h = cc
write_back-settles Io.not_open now turn_id s n (ok found) turn h = cc
write_back-settles io now turn_id s n (err e) turn h = cc

-- What is there after a turn that came through.
abbrev pub Kept : String → Dict Json → GoalInterruptStore → Type 0
Kept turn_id result s = (is_some (charge_at turn_id s) ≡ true) × (result_at turn_id s ≡ some result)

or_else-some : {A : Type 0} (a b : Option A) → is_some a ≡ true → is_some (or_else a b) ≡ true
or_else-some none b h = cc
or_else-some (some x) b h = refl

settle-Kept :
    (now turn_id : String) (result : Dict Json) (s : GoalInterruptStore)
    → is_some (charge_at turn_id s) ≡ true
    → Kept turn_id result (perform (Io.works, Op.settle now turn_id result) s)
settle-Kept now turn_id result s h =
    let charged = claim-effect turn_id (Io.works, Op.settle now turn_id result) s in
    let written = settle-effect turn_id (Io.works, Op.settle now turn_id result) s in
    (rw charged (or_else-some (charge_at turn_id s) none h), written ∙ rw (eq_refl turn_id) refl)

claimed-charge :
    (now turn_id : String) (s : GoalInterruptStore)
    → is_some (charge_at turn_id (perform (Io.works, Op.claim now turn_id) s)) ≡ true
claimed-charge now turn_id s =
    rw (claim-effect turn_id (Io.works, Op.claim now turn_id) s, eq_refl turn_id)
      (elim (Option-cases (charge_at turn_id s)) [ inl e ↦ rw e refl | inr (n, e) ↦ rw e refl ])

resumed_turn-Kept :
    (claiming reading writing : Io) (now turn_id : String) (fresh : Dict Json)
    (s n : GoalInterruptStore) (turn : Turn)
    → resumed_turn
        (record { claiming = claiming; reading = reading; writing = writing })
        now
        turn_id
        fresh
        s
      ≡ (n, ok turn)
    → Kept turn_id turn.0 n
unfolding resumed_turn claim_turn
resumed_turn-Kept Io.works reading writing now turn_id fresh s n turn h =
    let claimed = perform (Io.works, Op.claim now turn_id) s in
    subst (Kept turn_id turn.0)
      (sym (
        write_back-settles writing now turn_id claimed n
          (turn_of fresh (insert_new turn_id (usage_row now) s.turn_usage).1
            (turn_result reading turn_id claimed))
          turn h))
      (settle-Kept now turn_id turn.0 claimed (claimed-charge now turn_id s))
resumed_turn-Kept Io.fails reading writing now turn_id fresh s n turn h = cc
resumed_turn-Kept Io.not_open reading writing now turn_id fresh s n turn h = cc

-- The next execution of the node finds the turn charged and its result kept.
Kept-adopted :
    (now turn_id : String) (fresh result : Dict Json) (s : GoalInterruptStore)
    → Kept turn_id result s
    → (resumed_turn all_works now turn_id fresh s).1 ≡ ok (result, false)
unfolding resumed_turn claim_turn turn_result record_turn_result
Kept-adopted now turn_id fresh result s (charged, kept) =
    elim (Option-cases (lookup turn_id s.turn_usage)) [
      | inl e ↦ let gone = rw e at charged in cc
      | inr (usage, e) ↦ elim (Option-cases (lookup turn_id s.turn_results)) [
        | inl f ↦ let gone = rw f at kept in cc
        | inr (row, f) ↦ let same = rw f at kept in rw (e, f) cc
      ]
    ]

-- Once a resumed turn has come through, every later execution of it over a working store
-- returns the same result without the coordinator, whatever calls came between, provided that
-- none of them wrote a result for the turn.
pub resumed_turn-adopts :
    (io : TurnIo) (now later turn_id : String) (fresh again : Dict Json) (s n : GoalInterruptStore)
    (turn : Turn) (log : List Call)
    → resumed_turn io now turn_id fresh s ≡ (n, ok turn)
    → last_of (settled_by turn_id) log ≡ none
    → (resumed_turn all_works later turn_id again (run log n)).1 ≡ ok (turn.0, false)
resumed_turn-adopts io now later turn_id fresh again s n turn log h quiet =
    let (charged, kept) =
      resumed_turn-Kept io.claiming io.reading io.writing now turn_id fresh s n turn h in
    Kept-adopted later turn_id again turn.0 (run log n) (
      rw (run-first (charge_at turn_id) (claimed_by turn_id) (claim-effect turn_id) log n)
          (or_else-some (charge_at turn_id n) (first_of (claimed_by turn_id) log) charged),
      run-last (result_at turn_id) (settled_by turn_id) (settle-effect turn_id) log n
          ∙ rw quiet kept,
    )
