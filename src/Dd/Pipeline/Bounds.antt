-- ===== src/Dd/Pipeline/Bounds.antt =====
-- The walk of graphs/dd_pipeline.py ends, and what it counts stays within the bounds.
use fleet_graph.Common.{
  ℕ, zero, suc, ◌+◌, ◌<◌, true, false, none, ◌≡◌, inl, inr, refl, arith, Bool-cases,
}
use fleet_graph.Dd.Pipeline.{PipelineState, PipelineDeps, NodeEnd, moved, suspended, crashed}
use fleet_graph.Dd.Pipeline.Ending.{end_with}
use fleet_graph.Dd.Pipeline.RunStage.{run_stage}
use fleet_graph.Dd.Pipeline.Advance.{
  edge_of, retry_or_fail, without_edge, take_edge, route, advance,
}
use fleet_graph.Dd.Pipeline.Walk.{WalkEnd, ended, waiting, broke, out_of_fuel, is_over, walk}
use fleet_graph.Dd.Pipeline.Cases.{run_stage-steps}
use fleet_graph.Common.{ok, err, Result}
use fleet_graph.Dd.Lifecycle.{Transition, LifecycleError}
use fleet_graph.Dd.Pipeline.Advance.{follow}
use fleet_graph.Dd.Pipeline.Walk.{after_node}

-- Where a walk with enough fuel arrives: at an end where `Q` holds, at a suspension that the next
-- resume starts from in a state where `J` holds, or at an exception out of a stage that was entered in
-- such a state.
abbrev pub Arrives : (PipelineState → Type 0) → (PipelineState → Type 0) → WalkEnd → Type 0
Arrives J Q (ended state) = (is_over state ≡ true) × Q state
Arrives J Q (waiting state suspension) = (state.terminal ≡ none) × J state
Arrives J Q (broke state) = (state.terminal ≡ none) × J state
Arrives J Q out_of_fuel = ⊥

not_over : (state : PipelineState) → is_over state ≡ false → state.terminal ≡ none
not_over state h = ground arith

without_edge-steps :
    (deps : PipelineDeps) (state : PipelineState) → (without_edge deps state).steps ≡ state.steps
unfolding without_edge end_with
without_edge-steps deps state = ground arith

take_edge-steps :
    (deps : PipelineDeps) (state : PipelineState) (t : Transition)
    → (take_edge deps state t).steps ≡ state.steps
unfolding take_edge end_with
take_edge-steps deps state t = ground arith

follow-steps :
    (deps : PipelineDeps) (state : PipelineState) (r : Result LifecycleError Transition)
    → (follow deps state r).steps ≡ state.steps
follow-steps deps state (ok t) = take_edge-steps deps state t
follow-steps deps state (err e) = without_edge-steps deps state

pub advance-steps :
    (deps : PipelineDeps) (state : PipelineState) → (advance deps state).steps ≡ state.steps
unfolding advance route retry_or_fail end_with
advance-steps deps state = ground (arith, follow-steps deps state (edge_of deps state))

-- The rule for the walk: `J` before each `run_stage`, `K` behind it, and `Q` at the ends.
module _ (deps : PipelineDeps) (J K Q : PipelineState → Type 0)
    (run : (s t : PipelineState) → J s → s.terminal ≡ none → run_stage deps s ≡ moved t → K t)
    (stop : (t : PipelineState) → is_over t ≡ true → K t → Q t)
    (go : (t : PipelineState) → t.terminal ≡ none → K t → J (advance deps t))
    (finish : (t : PipelineState)
      → t.terminal ≡ none
      → K t
      → is_over (advance deps t) ≡ true
      → Q (advance deps t)) where
  after_run :
      (fuel : ℕ) (s : PipelineState) (e : NodeEnd)
      → run_stage deps s ≡ e
      → s.terminal ≡ none
      → deps.bounds.max_steps < suc fuel + s.steps
      → J s
      → ((t : PipelineState)
          → t.terminal ≡ none
          → 0 < fuel
          → deps.bounds.max_steps < fuel + t.steps
          → J t
          → Arrives J Q (walk fuel deps t))
      → Arrives J Q (after_node (λ next. walk fuel deps next) deps s e)
  after_run fuel s (moved t) e o f j again = elim (Bool-cases (is_over t)) [
    | inl over ↦ rw over (over, stop t over (run s t j o e))
    | inr more ↦
        let k = run s t j o e in
        let (counted, room) = run_stage-steps deps s t e more in
        elim (Bool-cases (is_over (advance deps t))) [
          | inl over ↦ rw (more, over) (over, finish t (not_over t more) k over)
          | inr still ↦
              rw (more, still)
                (again (advance deps t) (not_over (advance deps t) still) (omega arith)
                  (omega (arith, advance-steps deps t)) (go t (not_over t more) k))
        ]
  ]
  after_run fuel s (suspended suspension) e o f j again = (o, j)
  after_run fuel s crashed e o f j again = (o, j)

  pub walk_rule :
      (fuel : ℕ) (s : PipelineState)
      → s.terminal ≡ none
      → 0 < fuel
      → deps.bounds.max_steps < fuel + s.steps
      → J s
      → Arrives J Q (walk fuel deps s)
  unfolding walk
  walk_rule zero s o p f j = elim p [ ]
  walk_rule (suc fuel) s o p f j = after_run fuel s (run_stage deps s) refl o f j (walk_rule fuel)
