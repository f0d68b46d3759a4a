-- ===== src/Supervise/Narrow.antt =====
-- The narrow door: what stands behind a decision that a turn publishes.
use fleet_graph.Common.{
  >>=-eq-ok, String, [], ap, elem, eq_iff, false, none, ok, ok_injective, refl, some, subst, sym,
  true, true_not_false, ℕ, ◌<◌, ◌∙◌, ◌≡◌, ◌≤◌,
}
use fleet_graph.Common.Decimal.{concat}
use fleet_graph.Common.Json.{Fields}
use fleet_graph.Common.Text.{codes}
use fleet_graph.Supervise.{Preauth, PreauthDeps, ReleaseEvaluation}
use fleet_graph.Supervise.Acting.{
  ActResult, Release, TurnInput, act, act_card, carried, classified_turn, release_of, turn,
}
use fleet_graph.Supervise.Coverage.{UnderProtected, parsed-protects}
use fleet_graph.Supervise.Fetched.{Read, intake-Read}
use fleet_graph.Supervise.Grounded.{Grounds, evaluate-Grounds, unless_failing-released}
use fleet_graph.Supervise.Intake.{Event, IntakeFacts, intake, is_board_question, text_at}
use fleet_graph.Supervise.Judging.{
  Classification, Classified, card_of, classify, evaluate_preauth_release, is_green,
  reproducible_failures,
}
use fleet_graph.Supervise.Newest.{Candidate, Stands}
use fleet_graph.Supervise.Protocol.{given, parse_expiry, payload_of}
use fleet_graph.Supervise.Release.{ref_in_allowlist}
use fleet_graph.Supervise.Sent.{
  act_card-given, identity_bound, is_some-none, publish_decision-sent, target-anchored,
  unless_thin-released,
}

-- The ground of a published decision: a preauth on the board for its card, question and target, in a
-- turn whose evidence is green.
pub record Warranted (deps : PreauthDeps) (event : Event) (input : TurnInput) (r : Release)
    : Type 0 where
  pub p : Preauth
  pub message : Fields
  pub payload : Fields
  pub has_payload : payload_of message ≡ ok payload
  pub seq : ℕ
  pub stands : Stands deps p.card_entity_id message payload p seq
  pub newest :
      (q : Preauth) (other : ℕ)
      → Candidate deps p.card_entity_id (intake deps input.board event).preauth_candidates q other
      → other ≤ seq
  pub read : Read input.board (intake deps input.board event) message
  pub undecided : read.seen.decision_for ≡ some none
  pub is_question : is_board_question event.type ≡ true
  pub no_failures : given (reproducible_failures input.report) ≡ false
  pub green : is_green input.report ≡ true
  pub anchored : identity_bound input.report ≡ true
  pub approves : elem "approve" p.allowed_actions ≡ true
  pub in_time : (t : ℕ) × (parse_expiry deps p.expires_at ≡ ok t) × (input.now < t)
  pub sent :
      r
      ≡ release_of
          (record {
            granted = true;
            reasons = [];
            preauth_message_id = p.message_id;
            target_ref = concat "refs/heads/dd/" input.report.target;
            rejections = [];
          })
          p.card_entity_id
          (text_at deps "question_note_id" event.payload)
          (concat "supervisor-preauth:" event.key)
  pub covered : ref_in_allowlist (codes r.target_ref) p.target_ref_allowlist ≡ true
  pub unprotected : UnderProtected (codes r.target_ref) → ⊥

module _ (deps : PreauthDeps) (event : Event) (input : TurnInput) where
  abbrev facts : IntakeFacts
  facts = intake deps input.board event

  abbrev release_for : Preauth → Release
  release_for p =
      release_of
        (record {
          granted = true;
          reasons = [];
          preauth_message_id = p.message_id;
          target_ref = concat "refs/heads/dd/" input.report.target;
          rejections = [];
        })
        p.card_entity_id (text_at deps "question_note_id" event.payload)
        (concat "supervisor-preauth:" event.key)

  same_release :
      (e : ReleaseEvaluation) (p : Preauth) (card : String) {r : Release}
      → e.preauth_message_id ≡ p.message_id
      → e.target_ref ≡ concat "refs/heads/dd/" input.report.target
      → p.card_entity_id ≡ card
      → release_of e card
          (text_at deps "question_note_id" event.payload)
          (concat "supervisor-preauth:" event.key)
        ≡ r
      → r ≡ release_for p
  same_release e p card named target same sent = cc

  Grounds-Warranted :
      (e : ReleaseEvaluation) (card : String) {r : Release}
      → Grounds deps event facts input.report input.now e
      → given (reproducible_failures input.report) ≡ false
      → act_card deps event facts ≡ ok card
      → release_of e card
          (text_at deps "question_note_id" event.payload)
          (concat "supervisor-preauth:" event.key)
        ≡ r
      → Warranted deps event input r
  Grounds-Warranted e card {r} grounds clean carded sent =
      let p = grounds.p in
      let f = grounds.factors in
      let its_card = (eq_iff p.card_entity_id (card_of deps event facts)).0 f.same_card in
      let (bound, dd_ref) = target-anchored input.report f.has_target in
      let (message, payload, i, has_payload, stands) =
        subst (λ c. Candidate deps c facts.preauth_candidates p grounds.seq) (sym its_card)
          grounds.chosen in
      let read = intake-Read deps input.board event message i in
      let released =
        same_release e p card grounds.named (grounds.target ∙ dd_ref)
          (its_card ∙ act_card-given deps event facts f.has_card carded) sent in
      let target = dd_ref ∙ ap (λ k. k.target_ref) (sym released) in
      let covered =
        subst (λ t. ref_in_allowlist (codes t) p.target_ref_allowlist ≡ true) target
          f.covered_ref in
      record {
        p = p;
        message = message;
        payload = payload;
        has_payload = has_payload;
        seq = grounds.seq;
        stands = stands;
        newest = λ q other c.
            grounds.newest q other
              (subst (λ k. Candidate deps k facts.preauth_candidates q other) its_card c);
        read = read;
        undecided =
            read.asked ∙ ap some (is_some-none read.decision (sym read.decided ∙ f.open_question));
        is_question = grounds.question;
        no_failures = clean;
        green = f.green;
        anchored = bound;
        approves = f.covered_action;
        in_time = f.in_time;
        sent = released;
        covered = covered;
        unprotected = λ under. true_not_false (
            sym covered
            ∙ parsed-protects deps message payload stands.is_parsed (codes r.target_ref) under);
      }

  classified-Grounds :
      (c : Classified)
      → classified_turn deps event facts input ≡ ok c
      → c.classification ≡ Classification.preauth_release
      → (given (reproducible_failures input.report) ≡ false)
        × Grounds deps event facts input.report input.now (carried c.preauth_evaluation)
  unfolding classify evaluate_preauth_release
  classified-Grounds c classifies released =
      let (clean, (e, evaluates, grants, carries)) =
        unless_failing-released (given (reproducible_failures input.report)) _
          (unless_thin-released input.evidence_incomplete _ classifies released) released in
      (
        clean,
        subst (Grounds deps event facts input.report input.now) (ap carried (sym carries))
            (evaluate-Grounds deps event facts input.report input.now _ refl evaluates grants),
      )

  acted-Warranted :
      (c : Classified) {result : ActResult} {r : Release}
      → classified_turn deps event facts input ≡ ok c
      → act deps input.client event facts c ≡ ok result
      → result.sent ≡ some r
      → Warranted deps event input r
  unfolding act
  acted-Warranted c {result} {r} classifies acts there =
      let (card, carded, h1) = >>=-eq-ok (act_card deps event facts) _ acts in
      let (released, sent) =
        publish_decision-sent deps input.client event card c.classification c.preauth_evaluation
          (ap (λ k. k.sent) (ok_injective h1) ∙ there) in
      let (clean, grounds_of) = classified-Grounds c classifies released in
      Grounds-Warranted (carried c.preauth_evaluation) card grounds_of clean carded sent

  -- A decision that a turn of the supervisor sends is a merge-only APPROVE for a board question
  -- without a decision, in a report that is green without reproducible failures, under the
  -- newest preauth of the card among the v2 decisions read from the board, which approves, has
  -- not expired and covers the integration ref of the development, whose identity binding held,
  -- and that ref is no protected branch and lies below none.
  pub turn-Warranted :
      {result : ActResult} {r : Release}
      → turn deps event input ≡ ok result
      → result.sent ≡ some r
      → Warranted deps event input r
  unfolding turn
  turn-Warranted {result} {r} h there =
      let (c, classifies, acts) = >>=-eq-ok (classified_turn deps event facts input) _ h in
      acted-Warranted c classifies acts there
