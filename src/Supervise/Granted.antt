-- ===== src/Supervise/Granted.antt =====
-- When a release is granted.
use fleet_graph.Common.{
  >>=-eq-ok, Bool, Bool-cases, List, Option, [], ap, arith, elem, false, inl, inr, leb, none,
  none_not_some, not, ok, ok_injective, refl, some, some_injective, subst, sym, true,
  true_not_false, ℕ, ◌++◌, ◌<◌, ◌==◌, ◌||◌, ◌↔◌, ◌∙◌, ◌∷◌, ◌≡◌,
}
use fleet_graph.Common.Json.{Json}
use fleet_graph.Common.Text.{codes}
use fleet_graph.Supervise.{Preauth, PreauthDeps, PreauthError, Reason, ReleaseEvaluation}
use fleet_graph.Supervise.Protocol.{given, parse_expiry}
use fleet_graph.Supervise.Release.{
  Gate, evaluate_release, reasons_against, ref_in_allowlist, target_reasons, when,
}

-- Every factor of a release, for a preauth and a gate.
pub record Factors (deps : PreauthDeps) (gate : Gate) (p : Preauth) : Type 0 where
  pub open_question : gate.decided ≡ false
  pub green : gate.report_green ≡ true
  pub covered_action : elem gate.action p.allowed_actions ≡ true
  pub has_card : (gate.card_entity_id == "") ≡ false
  pub same_card : (p.card_entity_id == gate.card_entity_id) ≡ true
  pub in_time : (t : ℕ) × (parse_expiry deps p.expires_at ≡ ok t) × (gate.now < t)
  pub has_target : (gate.target_ref == "") ≡ false
  pub covered_ref : ref_in_allowlist (codes gate.target_ref) p.target_ref_allowlist ≡ true
  pub has_question : (gate.question_note_id == "") ≡ false

given-append : {A : Type 0} (xs ys : List A) → given (xs ++ ys) ≡ (given xs || given ys)
given-append [] ys = refl
given-append (x ∷ xs) ys = refl

given-when : (b : Bool) (reason : Reason) → given (when b reason) ≡ b
given-when true reason = refl
given-when false reason = refl

-- Nothing is said against the target exactly where it is there and covered.
target-clear :
    (gate : Gate) (p : Preauth)
    → given (target_reasons gate p) ≡ (
        (gate.target_ref == "")
        || not (ref_in_allowlist (codes gate.target_ref) p.target_ref_allowlist))
target-clear gate p = elim (Bool-cases (gate.target_ref == "")) [
  | inl e ↦ ground arith
  | inr e ↦ ground (
    arith,
    given-when (not (ref_in_allowlist (codes gate.target_ref) p.target_ref_allowlist))
        Reason.ref_not_covered,
  )
]

abbrev objections : Gate → Preauth → ℕ → Bool
objections gate p t =
    (gate.decided || not gate.report_green)
    || not (elem gate.action p.allowed_actions)
    || (gate.card_entity_id == "" || not (p.card_entity_id == gate.card_entity_id))
    || leb t gate.now
    || (gate.target_ref == ""
        || not (ref_in_allowlist (codes gate.target_ref) p.target_ref_allowlist))
    || (gate.question_note_id == "")

given-reasons :
    (gate : Gate) (p : Preauth) (t : ℕ) → given (reasons_against gate p t) ≡ objections gate p t
given-reasons gate p t = simp (given-append, given-when, target-clear)

Factors-of :
    (deps : PreauthDeps) (gate : Gate) (p : Preauth) (t : ℕ)
    → parse_expiry deps p.expires_at ≡ ok t
    → objections gate p t ≡ false
    → Factors deps gate p
Factors-of deps gate p t reads h = record {
  open_question = ground arith;
  green = ground arith;
  covered_action = ground arith;
  has_card = ground arith;
  same_card = ground arith;
  in_time = (t, reads, ground arith);
  has_target = ground arith;
  covered_ref = ground arith;
  has_question = ground arith;
}

objections-none :
    (deps : PreauthDeps) (gate : Gate) (p : Preauth) (t : ℕ)
    → parse_expiry deps p.expires_at ≡ ok t
    → Factors deps gate p
    → objections gate p t ≡ false
objections-none deps gate p t reads f =
    let (u, again, late) = f.in_time in
    let same = ok_injective (sym again ∙ reads) in
    ground (
      arith, f.open_question, f.green, f.covered_action, f.has_card, f.same_card, f.has_target,
      f.covered_ref, f.has_question,
    )

not-false : (b : Bool) → not b ≡ true → b ≡ false
not-false b h = ground arith

-- An evaluation grants the release exactly where there is a preauth and every factor holds.
pub evaluate_release_iff :
    (deps : PreauthDeps) (gate : Gate) (preauth : Option Preauth)
    (rejections : List (Json × PreauthError)) {e : ReleaseEvaluation}
    → evaluate_release deps gate preauth rejections ≡ ok e
    → (e.granted ≡ true) ↔ ((p : Preauth) × (preauth ≡ some p) × Factors deps gate p)
unfolding evaluate_release
evaluate_release_iff deps gate none rejections {e} h = (
  λ g. elim (true_not_false (sym g ∙ ap (λ r. r.granted) (sym (ok_injective h)))) [ ],
  λ (p, eq, f). elim (none_not_some eq) [ ],
)
evaluate_release_iff deps gate (some p) rejections {e} h =
    let (t, reads, h1) = >>=-eq-ok _ _ h in
    let grants = ap (λ r. r.granted) (ok_injective h1) in
    (
      λ g. (
        p,
        refl,
        Factors-of deps gate p t reads (sym (given-reasons gate p t) ∙ not-false _ (grants ∙ g)),
      ),
      λ (q, eq, f).
          sym grants
          ∙ ap not (
              given-reasons gate p t
              ∙ objections-none deps gate p t reads
                  (subst (Factors deps gate) (some_injective (sym eq)) f)),
    )
