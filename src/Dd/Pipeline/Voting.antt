-- ===== src/Dd/Pipeline/Voting.antt =====
-- What ends the wait for a human answer: `_act_or_wait` of graphs/dd_pipeline.py.
use fleet_graph.Common.{arith, refl, subst, suc, sym, zero, ℕ, ◌+◌, ◌<◌, ◌≡◌, ◌≤◌}
use fleet_graph.Common.Json.{Json}
use fleet_graph.Dd.Pipeline.{
  ActResult, StageOutcome, acts, exhausts, faults, pends, raises, refuses,
}
use fleet_graph.Dd.Pipeline.Acting.{act_or_wait, acted}

-- The actor found no answer yet.
abbrev pub StillPends : ActResult → Type 0
StillPends (pends ticket) = Unit
StillPends _ = ⊥

-- The call that answered: one of the first that the resumes allow, with only unanswered ones before.
pub record Answered (act : ℕ → ActResult) (first resumes : ℕ) (outcome : StageOutcome)
    : Type 0 where
  pub calls : ℕ
  pub allowed : calls ≤ resumes
  pub answer : act (first + calls) ≡ acts outcome
  pub unanswered : (j : ℕ) → j < calls → StillPends (act (first + j))

earlier :
    (act : ℕ → ActResult) (first resumes : ℕ) (outcome : StageOutcome) (ticket : Json)
    → act first ≡ pends ticket
    → (a : Answered act (first + 1) resumes outcome) → (j : ℕ) → j < suc a.calls
    → StillPends (act (first + j))
earlier act first resumes outcome ticket e a zero l =
    subst (λ n. StillPends (act n)) (omega arith) (subst StillPends (sym e) tt)
earlier act first resumes outcome ticket e a (suc i) l =
    subst (λ n. StillPends (act n)) (omega arith) (a.unanswered i (omega arith))

later :
    (act : ℕ → ActResult) (first resumes : ℕ) (outcome : StageOutcome) (ticket : Json)
    → act first ≡ pends ticket
    → Answered act (first + 1) resumes outcome
    → Answered act first (suc resumes) outcome
later act first resumes outcome ticket e a = record {
  calls = suc a.calls;
  allowed = omega (arith, a.allowed);
  answer = subst (λ n. act n ≡ acts outcome) (omega arith) a.answer;
  unanswered = λ j l. earlier act first resumes outcome ticket e a j l;
}

module _ (act : ℕ → ActResult) (outcome : StageOutcome) where
  voted :
      (left first resumes : ℕ) (r : ActResult)
      → act first ≡ r
      → ((n : ℕ)
          → act_or_wait left (first + 1) n act ≡ acted outcome
          → Answered act (first + 1) n outcome)
      → act_or_wait (suc left) first resumes act ≡ acted outcome
      → Answered act first resumes outcome
  unfolding act_or_wait
  voted left first resumes (acts o) e again h = record {
    calls = 0;
    allowed = omega arith;
    answer =
        let same : first ≡ first + 0 = omega arith in
        let now : act first ≡ acts outcome = ground arith in
        subst (λ n. act n ≡ acts outcome) same now;
    unanswered = λ j l. absurd (omega arith);
  }
  voted left first zero (pends ticket) e again h = absurd (ground arith)
  voted left first (suc n) (pends ticket) e again h =
      later act first n outcome ticket e (again n (ground arith))
  voted left first resumes (refuses refusal) e again h = absurd (ground arith)
  voted left first resumes (faults message) e again h = absurd (ground arith)
  voted left first resumes (exhausts message) e again h = absurd (ground arith)
  voted left first resumes raises e again h = absurd (ground arith)

  -- An outcome that the wait returns is what the actor answered to one of the calls that the resume
  -- values allow, and every earlier call found no answer: a resume only has the actor asked again.
  pub act_or_wait-Answered :
      (left first resumes : ℕ)
      → act_or_wait left first resumes act ≡ acted outcome
      → Answered act first resumes outcome
  unfolding act_or_wait
  act_or_wait-Answered zero first resumes h = cc
  act_or_wait-Answered (suc left) first resumes h =
      voted left first resumes (act first) refl (λ n. act_or_wait-Answered left (first + 1) n) h
