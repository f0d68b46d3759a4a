-- ===== src/Dd/Pipeline/FailedMerge.antt =====
-- What graphs/dd_pipeline.py makes of a merger that failed.
use fleet_graph.Common.{none, refl, some, sym, true, ◌∙◌, ◌≡◌}
use fleet_graph.Dd.Lifecycle.Shipped.{shipped}
use fleet_graph.Dd.Lifecycle.ShippedFacts.{is_terminal-merger}
use fleet_graph.Dd.Lifecycle.Spine.{is_terminal}
use fleet_graph.Dd.Pipeline.{PipelineDeps, PipelineState, complete, moved}
use fleet_graph.Dd.Pipeline.Advance.{advance}
use fleet_graph.Dd.Pipeline.Cases.{run_stage-Kept}
use fleet_graph.Dd.Pipeline.Ending.{end_with}
use fleet_graph.Dd.Pipeline.RunStage.{run_stage}
use mathlib.Core.Path.{subst₂}

terminal_end :
    (deps : PipelineDeps) (t : PipelineState)
    → is_terminal deps.contract t.stage ≡ true
    → (advance deps t).terminal ≡ some complete
unfolding advance end_with
terminal_end deps t h = rw h refl

-- Over the shipped contract, a merger that moves on without ending the run is closed as complete by
-- the next `advance`, whatever its event says: a failed one is neither retried nor ended as failed.
pub merger-completes :
    (deps : PipelineDeps) (s t : PipelineState)
    → deps.contract ≡ shipped
    → s.stage ≡ "merger"
    → run_stage deps s ≡ moved t
    → t.terminal ≡ none
    → (advance deps t).terminal ≡ some complete
merger-completes deps s t c m r o =
    let kept = run_stage-Kept deps s t r in
    terminal_end deps t
      (subst₂ (λ x y. is_terminal x y ≡ true) (sym c) (sym (kept.stage ∙ m)) is_terminal-merger)
