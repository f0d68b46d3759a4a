-- ===== src/Supervise/Grounded.antt =====
-- What a release that `classify` decides on rests on.
use fleet_graph.Common.{
  >>=-eq-ok, Bool, Bool-cases, List, Option, Result, ap, arith, err, false, if◌then◌else◌, inl, inr,
  none, ok, ok_injective, refl, some, some_injective, subst, sym, true, true_not_false, ℕ, ◌>>=◌,
  ◌∙◌, ◌≡◌, ◌≤◌,
}
use fleet_graph.Common.Json.{Json}
use fleet_graph.Supervise.{Fault, Preauth, PreauthDeps, PreauthError, ReleaseEvaluation}
use fleet_graph.Supervise.Granted.{Factors, evaluate_release_iff}
use fleet_graph.Supervise.Intake.{Event, IntakeFacts, Report, is_board_question}
use fleet_graph.Supervise.Judging.{
  Classification, Classified, by_evaluation, card_of, evaluate_question, gate_of, git_target_ref,
  lifted, no_question_evaluation, preauth_in,
}
use fleet_graph.Supervise.Newest.{Candidate, Newest, latest_preauth_for-Newest}
use fleet_graph.Supervise.Protocol.{parse_expiry}
use fleet_graph.Supervise.Release.{Gate, evaluate_release, latest_preauth_for}

by_evaluation-released :
    (e : ReleaseEvaluation)
    → (by_evaluation e).classification ≡ Classification.preauth_release
    → e.granted ≡ true
by_evaluation-released e h = elim (Bool-cases e.granted) [ inl t ↦ t | inr f ↦ ground arith ]

reject_not_release : Classification.recommend_reject ≡ Classification.preauth_release → ⊥
reject_not_release h = cc

pub unless_failing-released :
    (failing : Bool) (r : Result Fault ReleaseEvaluation) {c : Classified}
    → (if failing
        then ok
            (record { classification = Classification.recommend_reject; preauth_evaluation = none })
        else do evaluation ← r; ok (by_evaluation evaluation))
      ≡ ok c
    → c.classification ≡ Classification.preauth_release
    → (failing ≡ false)
      × ((e : ReleaseEvaluation) × (r ≡ ok e)
          × (e.granted ≡ true)
          × (c.preauth_evaluation ≡ some e))
unless_failing-released true r {c} h released =
    elim (reject_not_release (ap (λ k. k.classification) (ok_injective h) ∙ released)) [ ]
unless_failing-released false r {c} h released =
    let (e, evaluates, h1) = >>=-eq-ok r _ h in
    let same = ok_injective h1 in
    (
      refl,
      (
        e,
        evaluates,
        by_evaluation-released e (ap (λ k. k.classification) same ∙ released),
        ap (λ k. k.preauth_evaluation) (sym same),
      ),
    )

-- What a granted evaluation of a turn rests on.
pub record Grounds (deps : PreauthDeps) (event : Event) (facts : IntakeFacts) (report : Report)
    (now : ℕ) (e : ReleaseEvaluation) : Type 0 where
  pub question : is_board_question event.type ≡ true
  pub p : Preauth
  pub seq : ℕ
  pub chosen : Candidate deps (card_of deps event facts) facts.preauth_candidates p seq
  pub newest :
      (q : Preauth) (other : ℕ)
      → Candidate deps (card_of deps event facts) facts.preauth_candidates q other
      → other ≤ seq
  pub factors : Factors deps (gate_of deps event facts report now) p
  pub named : e.preauth_message_id ≡ p.message_id
  pub target : e.target_ref ≡ git_target_ref report

lifted-ok : {A : Type 0} (r : Result PreauthError A) {a : A} → lifted r ≡ ok a → r ≡ ok a
lifted-ok (ok b) h = cc
lifted-ok (err e) h = cc

evaluation-named :
    (deps : PreauthDeps) (gate : Gate) (p : Preauth) (rejections : List (Json × PreauthError))
    {e : ReleaseEvaluation}
    → evaluate_release deps gate (some p) rejections ≡ ok e
    → (e.preauth_message_id ≡ p.message_id) × (e.target_ref ≡ gate.target_ref)
unfolding evaluate_release
evaluation-named deps gate p rejections h =
    let (t, reads, h1) = >>=-eq-ok (parse_expiry deps p.expires_at) _ h in
    let same = sym (ok_injective h1) in
    (ap (λ r. r.preauth_message_id) same, ap (λ r. r.target_ref) same)

preauth_in-some :
    (best : Option (Preauth × ℕ)) {p : Preauth}
    → preauth_in best ≡ some p
    → (seq : ℕ) × (best ≡ some (p, seq))
preauth_in-some none h = cc
preauth_in-some (some (q, seq)) h = (seq, ap (λ k. some (k, seq)) (some_injective h))

module _ (deps : PreauthDeps) (event : Event) (facts : IntakeFacts) (report : Report)
    (now : ℕ) where
  evaluate_question-Grounds :
      {e : ReleaseEvaluation}
      → is_board_question event.type ≡ true
      → evaluate_question deps event facts report now ≡ ok e
      → e.granted ≡ true
      → Grounds deps event facts report now e
  evaluate_question-Grounds {e} question h grants =
      let card = card_of deps event facts in
      let gate = gate_of deps event facts report now in
      let (found, chooses, h1) =
        >>=-eq-ok (latest_preauth_for deps facts.preauth_candidates card) _ h in
      let evaluates = lifted-ok _ h1 in
      let (p, there, factors) =
        (evaluate_release_iff deps gate (preauth_in found.best) found.rejections evaluates).0
          grants in
      let (seq, best) = preauth_in-some found.best there in
      let (stands, surpasses) =
        subst (Newest deps card facts.preauth_candidates) best
          (latest_preauth_for-Newest deps card facts.preauth_candidates chooses) in
      let (named, target) =
        evaluation-named deps gate p found.rejections
          (subst (λ o. evaluate_release deps gate o found.rejections ≡ ok e) there evaluates) in
      record {
        question = question;
        p = p;
        seq = seq;
        chosen = stands;
        newest = surpasses;
        factors = factors;
        named = named;
        target = target;
      }

  pub evaluate-Grounds :
      (question : Bool) {e : ReleaseEvaluation}
      → is_board_question event.type ≡ question
      → (if question
          then evaluate_question deps event facts report now
          else ok no_question_evaluation)
        ≡ ok e
      → e.granted ≡ true
      → Grounds deps event facts report now e
  evaluate-Grounds true is_one h grants = evaluate_question-Grounds is_one h grants
  evaluate-Grounds false is_one h grants =
      elim (true_not_false (sym grants ∙ ap (λ r. r.granted) (sym (ok_injective h)))) [ ]
