-- ===== src/GoalInterrupt/Reasking.antt =====
-- A question that was persisted is the answer when its round asks again: `ask` and `persist` of
-- goal_interrupt/runtime.py.
use fleet_graph.Common.{
  Bool, List, Option, String, [], arith, eq_iff, eq_refl, filter, none, ok, refl, true, ℕ, ◌++◌,
  ◌∷◌, ◌≡◌, ◌≢◌,
}
use fleet_graph.Common.Dict.{Dict, insert, lookup, values}
use fleet_graph.Common.Sqlite.{Io}
use fleet_graph.GoalInterrupt.{GoalInterruptStore, InterruptRow, insert_new}
use fleet_graph.GoalInterrupt.Port.{
  Board, LineInterruptPort, ask, checkpoint_of_question, or_given, persist, resume_key_for,
}
use fleet_graph.GoalInterrupt.Reads.{checkpoint_for_round, in_order, in_order_with, of_round}
use fleet_graph.GoalInterrupt.Writes.{interrupt_row, put_interrupt}

values-insert_new :
    (key : String) (row : InterruptRow) (table : Dict InterruptRow)
    → lookup key table ≡ none
    → values (insert key row table) ≡ values table ++ row ∷ []
unfolding lookup insert
values-insert_new key row [] h = refl
values-insert_new key row ((k, old) ∷ more) h = ground (arith, values-insert_new key row more)

filter-append :
    (p : InterruptRow → Bool) (xs ys : List InterruptRow)
    → filter p (xs ++ ys) ≡ filter p xs ++ filter p ys
filter-append p [] ys = refl
filter-append p (x ∷ xs) ys = ground (arith, filter-append p xs ys)

of_round-own :
    (port : LineInterruptPort) (round_no : ℕ) (digest now : String) (asked : String × String)
    → of_round port.folder_id port.generation round_no
        (interrupt_row now (checkpoint_of_question port round_no digest asked))
      ≡ true
unfolding checkpoint_of_question
of_round-own port round_no digest now (question, card) = ground (arith, eq_refl port.folder_id)

-- No checkpoint of the round is there yet, and the question's key is new.
pub record Unasked (port : LineInterruptPort) (round_no : ℕ) (question : String)
    (s : GoalInterruptStore) : Type 0 where
  pub no_round :
      filter (of_round port.folder_id port.generation round_no) (values s.interrupts) ≡ []
  pub no_key : lookup (resume_key_for port.folder_id port.generation question) s.interrupts ≡ none
  pub named : question ≢ ""

persisted-round :
    (port : LineInterruptPort) (round_no : ℕ) (digest now question card : String)
    (s : GoalInterruptStore)
    → Unasked port round_no question s
    → let c = checkpoint_of_question port round_no digest (question, card) in
      filter
        (of_round port.folder_id port.generation round_no)
        (values (insert_new c.resume_key (interrupt_row now c) s.interrupts).0)
      ≡ interrupt_row now c ∷ []
unfolding checkpoint_of_question
persisted-round port round_no digest now question card s u =
    let c = checkpoint_of_question port round_no digest (question, card) in
    let mine = of_round port.folder_id port.generation round_no in
    rw
      (
        u.no_key,
        values-insert_new c.resume_key (interrupt_row now c) s.interrupts u.no_key,
        filter-append mine (values s.interrupts) (interrupt_row now c ∷ []),
        u.no_round,
        of_round-own port round_no digest now (question, card),
      )
      refl

-- A question that was persisted for a round without a checkpoint, under a key of its own, is
-- the answer when the round asks again, with or without a board.
pub ask-stable :
    (board : Option Board) (port : LineInterruptPort) (round_no : ℕ)
    (digest now question card : String) (s : GoalInterruptStore)
    → Unasked port round_no question s
    → ask Io.works board port round_no
        (persist Io.works now (checkpoint_of_question port round_no digest (question, card)) s).0
      ≡ ok (question, or_given port.card_entity_id card)
unfolding ask checkpoint_for_round put_interrupt in_order in_order_with checkpoint_of_question
ask-stable board port round_no digest now question card s u =
    rw (persisted-round port round_no digest now question card s u)
      (ground (arith, eq_iff question "", u.named))
