-- ===== src/Dd/Pipeline/Standing.antt =====
-- What has been passed to stand at a stage of the shipped machine of graphs/dd_pipeline.py, read
-- off the history of the run.
use fleet_graph.Common.{
  List, String, [], arith, if◌then◌else◌, inl, inr, some, ℕ, ◌++◌, ◌==◌, ◌∷◌, ◌≡◌, ◌≤◌, ◌⊎◌,
}
use fleet_graph.Dd.Pipeline.{Entry, PipelineState, ran, refused_at, replayed}
use fleet_graph.Dd.Pipeline.{complete}

-- The entry records this event of this stage, fresh or replayed.
abbrev pub Reports : String → String → Entry → Type 0
Reports stage event (ran s e attempt commit rebase remark) = (s ≡ stage) × (e ≡ event)
Reports stage event (replayed s e attempt commit) = (s ≡ stage) × (e ≡ event)
Reports stage event (refused_at s step message code) = ⊥

abbrev pub Passed : String → String → List Entry → Type 0
Passed stage event [] = ⊥
Passed stage event (entry ∷ more) = Reports stage event entry ⊎ Passed stage event more

pub Passed-append_left :
    (stage event : String) (h more : List Entry)
    → Passed stage event h
    → Passed stage event (h ++ more)
Passed-append_left stage event [] more p = elim p [ ]
Passed-append_left stage event (x ∷ h) more (inl r) = inl r
Passed-append_left stage event (x ∷ h) more (inr p) = inr (Passed-append_left stage event h more p)

pub Passed-append_last :
    (stage event : String) (h : List Entry) (entry : Entry)
    → Reports stage event entry
    → Passed stage event (h ++ entry ∷ [])
Passed-append_last stage event [] entry r = inl r
Passed-append_last stage event (x ∷ h) entry r = inr (Passed-append_last stage event h entry r)

-- How far along the machine a stage stands.
abbrev pub rank : String → ℕ
rank stage =
    if stage == "merger"
    then 6
    else if stage == "human_gate"
    then 5
    else if stage == "acceptance"
    then 4
    else if stage == "final_review"
    then 3
    else if stage == "continuous_review"
    then 2
    else if stage == "implement"
    then 1
    else 0

-- What must have been passed to stand at a rank.
pub record Earned (n : ℕ) (h : List Entry) : Type 0 where
  pub implemented : 2 ≤ n → Passed "implement" "success" h
  pub reviewed : 3 ≤ n → Passed "continuous_review" "APPROVE" h
  pub approved : 4 ≤ n → Passed "final_review" "APPROVE" h
  pub accepted : 5 ≤ n → Passed "acceptance" "success" h
  pub gated : 6 ≤ n → Passed "human_gate" "success" h

pub Earned-append : (n : ℕ) (h more : List Entry) → Earned n h → Earned n (h ++ more)
Earned-append n h more e = record {
  implemented = λ p. Passed-append_left _ _ h more (e.implemented p);
  reviewed = λ p. Passed-append_left _ _ h more (e.reviewed p);
  approved = λ p. Passed-append_left _ _ h more (e.approved p);
  accepted = λ p. Passed-append_left _ _ h more (e.accepted p);
  gated = λ p. Passed-append_left _ _ h more (e.gated p);
}

-- Each pass earns the next rank.
pub earned_none : (n : ℕ) (h : List Entry) → n ≤ 1 → Earned n h
earned_none n h l = record {
  implemented = λ q. absurd (omega arith);
  reviewed = λ q. absurd (omega arith);
  approved = λ q. absurd (omega arith);
  accepted = λ q. absurd (omega arith);
  gated = λ q. absurd (omega arith);
}

pub earned_implemented : (h : List Entry) → Passed "implement" "success" h → Earned 2 h
earned_implemented h p = record {
  implemented = λ q. p;
  reviewed = λ q. absurd (omega arith);
  approved = λ q. absurd (omega arith);
  accepted = λ q. absurd (omega arith);
  gated = λ q. absurd (omega arith);
}

pub earned_reviewed :
    (h : List Entry) → Earned 2 h → Passed "continuous_review" "APPROVE" h → Earned 3 h
earned_reviewed h e p = record {
  implemented = λ q. e.implemented (omega arith);
  reviewed = λ q. p;
  approved = λ q. absurd (omega arith);
  accepted = λ q. absurd (omega arith);
  gated = λ q. absurd (omega arith);
}

pub earned_approved : (h : List Entry) → Earned 3 h → Passed "final_review" "APPROVE" h → Earned 4 h
earned_approved h e p = record {
  implemented = λ q. e.implemented (omega arith);
  reviewed = λ q. e.reviewed (omega arith);
  approved = λ q. p;
  accepted = λ q. absurd (omega arith);
  gated = λ q. absurd (omega arith);
}

pub earned_accepted : (h : List Entry) → Earned 4 h → Passed "acceptance" "success" h → Earned 5 h
earned_accepted h e p = record {
  implemented = λ q. e.implemented (omega arith);
  reviewed = λ q. e.reviewed (omega arith);
  approved = λ q. e.approved (omega arith);
  accepted = λ q. p;
  gated = λ q. absurd (omega arith);
}

pub earned_gated : (h : List Entry) → Earned 5 h → Passed "human_gate" "success" h → Earned 6 h
earned_gated h e p = record {
  implemented = λ q. e.implemented (omega arith);
  reviewed = λ q. e.reviewed (omega arith);
  approved = λ q. e.approved (omega arith);
  accepted = λ q. e.accepted (omega arith);
  gated = λ q. p;
}

abbrev pub Standing : PipelineState → Type 0
Standing s = Earned (rank s.stage) s.history

pub record PassedAll (h : List Entry) : Type 0 where
  pub implemented : Passed "implement" "success" h
  pub reviewed : Passed "continuous_review" "APPROVE" h
  pub approved : Passed "final_review" "APPROVE" h
  pub accepted : Passed "acceptance" "success" h
  pub gated : Passed "human_gate" "success" h

abbrev pub Completes : PipelineState → Type 0
Completes t = t.terminal ≡ some complete → PassedAll t.history
