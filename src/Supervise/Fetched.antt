-- ===== src/Supervise/Fetched.antt =====
-- Where the candidates of `intake` come from.
use fleet_graph.Common.{
  >>=-eq-ok, Bool, In, List, Option, Result, [], ap, err, false, if◌then◌else◌, inl, inr, is_some,
  none, ok, ok_injective, refl, some, subst, sym, true, ◌∙◌, ◌∷◌, ◌≡◌, ◌⊎◌,
}
use fleet_graph.Common.Json.{Fields, has_field}
use fleet_graph.DecisionBridge.Resolver.{among}
use fleet_graph.Supervise.{Fault, PreauthDeps}
use fleet_graph.Supervise.Intake.{
  Board, Event, IntakeFacts, after_decision, after_head, after_message, candidates_among,
  first_facts, head_of, intake, is_board_question, is_candidate, kept, no_facts, question_facts,
  with_candidates, with_decision, with_head, with_notes,
}

kept-In :
    (m n : Fields) (b : Bool) (ms : List Fields)
    → In n (kept m b ms)
    → ((m ≡ n) × (b ≡ true)) ⊎ In n ms
kept-In m n true ms (inl e) = inl (e, refl)
kept-In m n true ms (inr i) = inr i
kept-In m n false ms i = inr i

-- A candidate is a message whose kind and payload say so.
candidates_among-In :
    (ms : List Fields) {cs : List Fields} (n : Fields)
    → candidates_among ms ≡ ok cs
    → In n cs
    → In n ms × (is_candidate n ≡ ok true)
unfolding candidates_among
candidates_among-In [] {cs} n h i = elim (subst (In n) (sym (ok_injective h)) i) [ ]
candidates_among-In (m ∷ ms) {cs} n h i =
    let (b, is_one, h1) = >>=-eq-ok (is_candidate m) _ h in
    let (rest, among, h2) = >>=-eq-ok (candidates_among ms) _ h1 in
    elim (kept-In m n b rest (subst (In n) (sym (ok_injective h2)) i)) [
      | inl (e, t) ↦ (inl e, ap is_candidate (sym e) ∙ is_one ∙ ap ok t)
      | inr j ↦ let (k, c) = candidates_among-In ms n among j in (inr k, c)
    ]

-- A candidate was read from the board, after the decision of the question had been asked for.
pub record Read (board : Option Board) (facts : IntakeFacts) (m : Fields) : Type 0 where
  pub seen : Board
  pub there : board ≡ some seen
  pub notes : List Fields
  pub listed : seen.messages ≡ some notes
  pub member : In m notes
  pub candidate : is_candidate m ≡ ok true
  pub decision : Option Fields
  pub asked : seen.decision_for ≡ some decision
  pub decided : facts.already_decided ≡ is_some decision

module _ (board : Board) (m : Fields) where
  abbrev Found : IntakeFacts → IntakeFacts → Type 0
  Found facts last =
      In m last.preauth_candidates
      → (notes : List Fields) × (board.messages ≡ some notes)
        × In m notes
        × (is_candidate m ≡ ok true)
        × (last.already_decided ≡ facts.already_decided)

  with_candidates-Found :
      (facts : IntakeFacts) (notes : List Fields) (r : Result Fault (List Fields))
      → facts.preauth_candidates ≡ []
      → board.messages ≡ some notes
      → candidates_among notes ≡ r
      → Found facts (with_candidates facts r)
  with_candidates-Found facts notes (err e) bare listed among i = elim (subst (In m) bare i) [ ]
  with_candidates-Found facts notes (ok cs) bare listed among i =
      let (j, c) = candidates_among-In notes m among i in (notes, listed, j, c, refl)

  with_notes-Found :
      (facts : IntakeFacts) (notes : Option (List Fields))
      → facts.preauth_candidates ≡ []
      → board.messages ≡ notes
      → Found facts (with_notes facts notes)
  with_notes-Found facts none bare listed i = elim (subst (In m) bare i) [ ]
  with_notes-Found facts (some notes) bare listed i =
      with_candidates-Found facts notes _ bare listed refl i

  after_head-Found :
      (facts : IntakeFacts) (head : Option (Option Fields))
      → facts.preauth_candidates ≡ []
      → Found facts (after_head board facts head)
  after_head-Found facts none bare i = elim (subst (In m) bare i) [ ]
  after_head-Found facts (some none) bare i = with_notes-Found facts _ bare refl i
  after_head-Found facts (some (some head)) bare i =
      with_notes-Found (with_head facts (some head)) _ bare refl i

  after_decision-Read :
      (facts : IntakeFacts) (decision : Option (Option Fields))
      → facts.preauth_candidates ≡ []
      → board.decision_for ≡ decision
      → In m (after_decision board facts decision).preauth_candidates
      → Read (some board) (after_decision board facts decision) m
  after_decision-Read facts none bare asked i = elim (subst (In m) bare i) [ ]
  after_decision-Read facts (some decision) bare asked i =
      let decided = with_decision facts decision in
      let (notes, listed, j, c, same) = after_head-Found decided (head_of board decided) bare i in
      record {
        seen = board;
        there = refl;
        notes = notes;
        listed = listed;
        member = j;
        candidate = c;
        decision = decision;
        asked = asked;
        decided = same;
      }

  after_message-Read :
      (facts : IntakeFacts) (note : Option (Option Fields))
      → facts.preauth_candidates ≡ []
      → In m (after_message board facts note).preauth_candidates
      → Read (some board) (after_message board facts note) m
  after_message-Read facts none bare i = elim (subst (In m) bare i) [ ]
  after_message-Read facts (some _) bare i = after_decision-Read facts _ bare refl i

  board_intake-Read :
      (b : Bool) (facts : IntakeFacts)
      → facts.preauth_candidates ≡ []
      → In m (if b then after_message board facts board.message else facts).preauth_candidates
      → Read (some board) (if b then after_message board facts board.message else facts) m
  board_intake-Read true facts bare i = after_message-Read facts board.message bare i
  board_intake-Read false facts bare i = elim (subst (In m) bare i) [ ]

question_facts-Read :
    (deps : PreauthDeps) (board : Option Board) (event : Event) (m : Fields)
    → In m (question_facts deps board event).preauth_candidates
    → Read board (question_facts deps board event) m
question_facts-Read deps none event m i = elim i [ ]
question_facts-Read deps (some board) event m i =
    board_intake-Read board m (has_field "question_note_id" event.payload) (first_facts deps event)
      refl i

by_type-Read :
    (deps : PreauthDeps) (board : Option Board) (event : Event) (m : Fields) (is_question : Bool)
    → In m (if is_question then question_facts deps board event else no_facts).preauth_candidates
    → Read board (if is_question then question_facts deps board event else no_facts) m
by_type-Read deps board event m true i = question_facts-Read deps board event m i
by_type-Read deps board event m false i = elim i [ ]

pub intake-Read :
    (deps : PreauthDeps) (board : Option Board) (event : Event) (m : Fields)
    → In m (intake deps board event).preauth_candidates
    → Read board (intake deps board event) m
unfolding intake
intake-Read deps board event m i = by_type-Read deps board event m (is_board_question event.type) i
