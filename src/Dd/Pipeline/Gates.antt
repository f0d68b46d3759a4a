-- ===== src/Dd/Pipeline/Gates.antt =====
-- Over the shipped contract, a walk that completes has passed both reviews, the acceptance and the
-- human gate.
use fleet_graph.Common.{
  In, String, [], ap, arith, inl, inr, none, ok, some, subst, sym, true, ℕ, ◌++◌, ◌+◌, ◌<◌, ◌∙◌,
  ◌∷◌, ◌≡◌, ◌≢◌, ◌⊎◌,
}
use fleet_graph.Common.Dict.{lookup}
use fleet_graph.Dd.Lifecycle.{Stage, Transition, events_from, stages, transitions}
use fleet_graph.Dd.Lifecycle.Edges.{advance_iff, transition-declared}
use fleet_graph.Dd.Lifecycle.Shipped.{shipped}
use fleet_graph.Dd.Lifecycle.ShippedFacts.{
  lookup-Pair, shipped-edges, shipped_spine, spine-shipped, stages-HasIds, terminal-shipped,
  verdict_stages,
}
use fleet_graph.Dd.Lifecycle.Spine.{is_terminal, spine}
use fleet_graph.Dd.Pipeline.{Entry, PipelineDeps, PipelineState, moved, ran, replayed}
use fleet_graph.Dd.Pipeline.Advance.{advance, edge_of}
use fleet_graph.Dd.Pipeline.Bounds.{Arrives, walk_rule}
use fleet_graph.Dd.Pipeline.Cases.{run_stage-cases}
use fleet_graph.Dd.Pipeline.Routes.{Closed, Descended, Next, Steered, advance-cases}
use fleet_graph.Dd.Pipeline.RunStage.{replay_state, run_stage, stage_done}
use fleet_graph.Dd.Pipeline.Standing.{
  Completes, Earned, Earned-append, Passed, Passed-append_last, Reports, Standing, earned_accepted,
  earned_approved, earned_gated, earned_implemented, earned_none, earned_reviewed, rank,
}
use fleet_graph.Dd.Pipeline.Walk.{walk}
use mathlib.Core.Path.{subst₂}
use fleet_graph.Dd.Pipeline.{complete}

-- Behind `run_stage`: the event of this stage is on record.
abbrev AfterRun : PipelineState → Type 0
AfterRun t =
    (t.terminal ≡ none → Standing t × Passed t.stage t.last_event t.history)
    × (t.terminal ≢ some complete)

module _ (deps : PipelineDeps) (shipped_contract : deps.contract ≡ shipped) where
  id_of :
      (s : PipelineState) (stage : Stage)
      → lookup s.stage (stages deps.contract) ≡ some stage
      → stage.id ≡ s.stage
  id_of s stage e = stages-HasIds deps.contract s.stage stage e

  after_run :
      (s t : PipelineState) (entry : Entry)
      → t.history ≡ s.history ++ entry ∷ []
      → t.stage ≡ s.stage
      → Reports s.stage t.last_event entry
      → Standing s
      → Standing t × Passed t.stage t.last_event t.history
  after_run s t entry h st r j = (
    subst₂ (λ x y. Earned (rank x) y) (sym st) (sym h)
        (Earned-append (rank s.stage) s.history (entry ∷ []) j),
    subst₂ (λ x y. Passed x t.last_event y) (sym st) (sym h)
        (Passed-append_last s.stage t.last_event s.history entry r),
  )

  run-AfterRun :
      (s t : PipelineState)
      → Standing s
      → s.terminal ≡ none
      → run_stage deps s ≡ moved t
      → AfterRun t
  unfolding stage_done replay_state
  run-AfterRun s t j o e = elim (run_stage-cases deps s t e) [
    | inl stopped ↦ ((λ p. absurd (ground (arith, stopped.over))), stopped.incomplete)
    | inr (stage, w, inl f) ↦ (
      (λ p.
          after_run s t (ran stage.id f.outcome.event _ _ _ _)
            (ap (λ (x : PipelineState). x.history) f.result) (ground arith)
            (id_of s stage w.declared, ground arith) j),
      (λ p. ground arith),
    )
    | inr (stage, w, inr r) ↦ (
      (λ p.
          after_run s t (replayed stage.id r.replay.event _ _)
            (ap (λ (x : PipelineState). x.history) r.result) (ground arith)
            (id_of s stage w.declared, ground arith) j),
      (λ p. ground arith),
    )
  ]

  -- The edge that was taken is one of the contract's, for the stage and the event at hand.
  edge_facts :
      (t : PipelineState) (edge : Transition)
      → edge_of deps t ≡ ok edge
      → In edge (transitions shipped) × (edge.source ≡ t.stage) × (edge.event ≡ t.last_event)
  unfolding edge_of
  edge_facts t edge e =
      let (i, s, v) =
        transition-declared deps.contract t.stage t.last_event edge
          ((advance_iff deps.contract t.stage t.last_event _ _ edge).0 e).0 in
      (subst (λ c. In edge (transitions c)) shipped_contract i, s, v)

  at :
      (t : PipelineState) (stage : String)
      → Standing t
      → t.stage ≡ stage
      → Earned (rank stage) t.history
  at t stage j e = subst (λ x. Earned (rank x) t.history) e j

  did :
      (t : PipelineState) (stage event : String)
      → Passed t.stage t.last_event t.history
      → t.stage ≡ stage
      → t.last_event ≡ event
      → Passed stage event t.history
  did t stage event p e f = subst₂ (λ x y. Passed x y t.history) e f p

  steered-Standing :
      (t n : PipelineState)
      → Standing t
      → Passed t.stage t.last_event t.history
      → Steered deps t n
      → Earned (rank n.stage) t.history
  steered-Standing t n j p e =
      let (i, s, v) = edge_facts t e.edge e.declared in
      let from : (stage : String) → e.edge.source ≡ stage → t.stage ≡ stage =
        λ stage q. sym s ∙ q in
      let on : (event : String) → e.edge.event ≡ event → t.last_event ≡ event =
        λ event q. sym v ∙ q in
      elim (shipped-edges e.edge i) [
        | inl (a, b, c) ↦
            rw (e.stage, c)
              (earned_implemented t.history (did t "implement" "success" p (from _ a) (on _ b)))
        | inr (inl (a, b, c)) ↦ rw (e.stage, c) (earned_none 1 t.history (omega arith))
        | inr (inr (inl (a, b, c))) ↦
            rw (e.stage, c)
              (earned_reviewed t.history (at t "continuous_review" j (from _ a))
                (did t "continuous_review" "APPROVE" p (from _ a) (on _ b)))
        | inr (inr (inr (inl (a, b, c)))) ↦ rw (e.stage, c) (earned_none 1 t.history (omega arith))
        | inr (inr (inr (inr (a, b, c)))) ↦
            rw (e.stage, c)
              (earned_approved t.history (at t "final_review" j (from _ a))
                (did t "final_review" "APPROVE" p (from _ a) (on _ b)))
      ]

  -- The spine edges out of the stages that steer no verdict.
  descent :
      (stage next : String)
      → lookup stage shipped_spine ≡ some next
      → events_from shipped stage ≡ []
      → (("configure" ≡ stage) × (next ≡ "implement"))
        ⊎ (("acceptance" ≡ stage) × (next ≡ "human_gate"))
        ⊎ (("human_gate" ≡ stage) × (next ≡ "merger"))
  descent stage next e none_here = elim (lookup-Pair stage shipped_spine e) [
    | inl (a, b) ↦ inl (a, sym b)
    | inr (inl (a, b)) ↦
        absurd (verdict_stages.0 (subst (λ x. events_from shipped x ≡ []) (sym a) none_here))
    | inr (inr (inl (a, b))) ↦
        absurd (verdict_stages.1 (subst (λ x. events_from shipped x ≡ []) (sym a) none_here))
    | inr (inr (inr (inl (a, b)))) ↦ inr (inl (a, sym b))
    | inr (inr (inr (inr (inl (a, b))))) ↦ inr (inr (a, sym b))
    | inr (inr (inr (inr (inr nowhere)))) ↦ elim nowhere [ ]
  ]

  on_spine :
      (t n : PipelineState) → Descended deps t n → lookup t.stage shipped_spine ≡ some n.stage
  on_spine t n d =
      let derived : spine shipped ≡ ok d.spine_map =
        subst (λ c. spine c ≡ ok d.spine_map) shipped_contract d.derived in
      let same : d.spine_map ≡ shipped_spine = cc (derived, spine-shipped) in
      subst (λ m. lookup t.stage m ≡ some n.stage) same d.successor

  descended-Standing :
      (t n : PipelineState)
      → Standing t
      → Passed t.stage t.last_event t.history
      → Descended deps t n
      → Earned (rank n.stage) t.history
  descended-Standing t n j p d =
      elim (descent t.stage n.stage (on_spine t n d)
        (subst (λ c. events_from c t.stage ≡ []) shipped_contract d.unsteered)) [
          | inl (a, c) ↦ rw c (earned_none 1 t.history (omega arith))
          | inr (inl (a, c)) ↦ rw c (
              earned_accepted t.history (at t "acceptance" j (sym a))
                (did t "acceptance" "success" p (sym a) d.event))
          | inr (inr (a, c)) ↦ rw c (
              earned_gated t.history (at t "human_gate" j (sym a))
                (did t "human_gate" "success" p (sym a) d.event))
        ]

  Next-Standing :
      (t n : PipelineState)
      → Standing t
      → Passed t.stage t.last_event t.history
      → Next deps t n
      → Standing n
  Next-Standing t n j p (inl c) = rw (c.stage, c.history) j
  Next-Standing t n j p (inr (inl r)) = rw (r.stage, r.history) j
  Next-Standing t n j p (inr (inr (inl e))) = rw e.history (steered-Standing t n j p e)
  Next-Standing t n j p (inr (inr (inr d))) = rw d.history (descended-Standing t n j p d)

  all_passed : (t n : PipelineState) → Standing t → Closed deps t n → Completes n
  all_passed t n j c done =
      let e = at t "merger" j (
        terminal-shipped t.stage
          (subst (λ c. is_terminal c t.stage ≡ true) shipped_contract (c.at_end done))) in
      rw c.history (record {
        implemented = e.implemented (omega arith);
        reviewed = e.reviewed (omega arith);
        approved = e.approved (omega arith);
        accepted = e.accepted (omega arith);
        gated = e.gated (omega arith);
      })

  Next-Completes :
      (t n : PipelineState) → t.terminal ≡ none → Standing t → Next deps t n → Completes n
  Next-Completes t n o j (inl c) done = all_passed t n j c done
  Next-Completes t n o j (inr (inl r)) done = cc (r.terminal)
  Next-Completes t n o j (inr (inr (inl e))) done = cc (e.terminal)
  Next-Completes t n o j (inr (inr (inr d))) done = cc (d.terminal)

  -- Over the shipped contract and with enough fuel, a walk ends, suspends or is broken off by
  -- an exception out of a stage, and completes only with the implementation, both APPROVE
  -- verdicts, the acceptance and the human gate on record; a suspended one resumes from a state
  -- that still stands rightly, and an exception leaves such a state.
  pub walk-Completes :
      (fuel : ℕ) (state : PipelineState)
      → state.terminal ≡ none
      → 0 < fuel
      → deps.bounds.max_steps < fuel + state.steps
      → Standing state
      → Arrives Standing Completes (walk fuel deps state)
  walk-Completes =
      walk_rule deps Standing AfterRun Completes run-AfterRun (λ t over k done. absurd (k.1 done))
        (λ t o k. Next-Standing t (advance deps t) (k.0 o).0 (k.0 o).1 (advance-cases deps t))
        (λ t o k over. Next-Completes t (advance deps t) o (k.0 o).0 (advance-cases deps t))
