-- ===== src/GoalInterrupt/Reads.antt =====
-- The reads of goal_interrupt/store.py.
use fleet_graph.Common.{
  Bool, List, Option, Result, String, [], eqb, filter, if◌then◌else◌, none, not, some, ℕ, ◌&&◌,
  ◌==◌, ◌||◌, ◌∷◌,
}
use fleet_graph.Common.Dict.{Dict, lookup, values}
use fleet_graph.Common.Json.{Json}
use fleet_graph.Common.Order.{text_leb}
use fleet_graph.Common.Sqlite.{Io, StoreError, selected}
use fleet_graph.GoalInterrupt.{
  CompensationRow, CursorRow, GoalInterruptStore, InterruptRow, ResumeRow, TurnRow, UsageRow,
}

unfoldable pub interrupt :
    Io → String → GoalInterruptStore → Result StoreError (Option InterruptRow)
interrupt io key s = selected io (lookup key s.interrupts)

-- ORDER BY created_at, resume_key
abbrev pub before : InterruptRow → InterruptRow → Bool
before r q =
    not (text_leb q.created_at r.created_at)
    || (r.created_at == q.created_at) && text_leb r.checkpoint.resume_key q.checkpoint.resume_key

unfoldable pub in_order_with : InterruptRow → List InterruptRow → List InterruptRow
in_order_with r [] = r ∷ []
in_order_with r (q ∷ more) =
    let rest = in_order_with r more in if before r q then r ∷ q ∷ more else q ∷ rest

unfoldable pub in_order : List InterruptRow → List InterruptRow
unfolding in_order_with
in_order [] = []
in_order (r ∷ more) = in_order_with r (in_order more)

-- LIMIT 1
abbrev pub first_row : List InterruptRow → Option InterruptRow
first_row [] = none
first_row (r ∷ more) = some r

abbrev pub of_round : String → ℕ → ℕ → InterruptRow → Bool
of_round folder_id generation round_id r =
    (r.checkpoint.folder_id == folder_id)
    && eqb r.checkpoint.generation generation
    && eqb r.checkpoint.round_id round_id

unfoldable pub checkpoint_for_round :
    Io → String → ℕ → ℕ → GoalInterruptStore → Result StoreError (Option InterruptRow)
unfolding in_order
checkpoint_for_round io folder_id generation round_id s =
    selected io
      (first_row (in_order (filter (of_round folder_id generation round_id) (values s.interrupts))))

unfoldable pub all_interrupts : Io → GoalInterruptStore → Result StoreError (List InterruptRow)
unfolding in_order
all_interrupts io s = selected io (in_order (values s.interrupts))

unfoldable pub resume_receipt :
    Io → String → GoalInterruptStore → Result StoreError (Option ResumeRow)
resume_receipt io key s = selected io (lookup key s.resume_receipts)

unfoldable pub compensation_receipt :
    Io → String → GoalInterruptStore → Result StoreError (Option CompensationRow)
compensation_receipt io key s = selected io (lookup key s.compensation_receipts)

abbrev invocations_of : Option UsageRow → ℕ
invocations_of none = 0
invocations_of (some row) = row.model_invocations

unfoldable pub turn_invocations : Io → String → GoalInterruptStore → Result StoreError ℕ
turn_invocations io turn_id s = selected io (invocations_of (lookup turn_id s.turn_usage))

abbrev result_of : Option TurnRow → Option (Dict Json)
result_of none = none
result_of (some row) = some row.result

unfoldable pub turn_result :
    Io → String → GoalInterruptStore → Result StoreError (Option (Dict Json))
turn_result io turn_id s = selected io (result_of (lookup turn_id s.turn_results))

abbrev pub seq_of : Option CursorRow → ℕ
seq_of none = 0
seq_of (some row) = row.board_seq

unfoldable pub cursor : Io → GoalInterruptStore → Result StoreError ℕ
cursor io s = selected io (seq_of s.cursor_row)
