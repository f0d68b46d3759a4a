-- ===== src/Dd/Pipeline/Counting.antt =====
-- The walk of graphs/dd_pipeline.py ends within its fuel, with its counters within the bounds.
use fleet_graph.Common.{
  ℕ, ◌+◌, ◌≤◌, ◌<◌, String, none, ◌≡◌, inl, inr, get_or, ◌==◌, arith, Bool-cases,
}
use fleet_graph.Common.Dict.{Dict, lookup, lookup-insert}
use fleet_graph.Dd.Pipeline.{PipelineState, PipelineDeps}
use fleet_graph.Dd.Pipeline.Advance.{advance}
use fleet_graph.Dd.Pipeline.Walk.{walk, initial_state}
use fleet_graph.Dd.Pipeline.Cases.{Kept, run_stage-Kept}
use fleet_graph.Dd.Pipeline.Routes.{Retried, Steered, Next, advance-cases}
use fleet_graph.Dd.Pipeline.Bounds.{Arrives, walk_rule}

abbrev pub retries_of : PipelineState → String → ℕ
retries_of state k = get_or (lookup k state.retries) 0

-- The attempts are the reworks and the first one, and reworks and retries are within the bounds.
pub record Counted (deps : PipelineDeps) (state : PipelineState) : Type 0 where
  pub attempts : state.attempt ≡ state.rework_count + 1
  pub reworks : state.rework_count ≤ deps.bounds.max_rework
  pub retried : (k : String) → retries_of state k ≤ deps.bounds.max_retries

module _ (deps : PipelineDeps) where
  run-Counted : (s t : PipelineState) → Counted deps s → Kept s t → Counted deps t
  run-Counted s t c k = record {
    attempts = ground (arith, c.attempts);
    reworks = ground (arith, c.reworks);
    retried = λ j. rw k.retries (c.retried j);
  }

  Retried-Counted : (s t : PipelineState) → Counted deps s → Retried deps s t → Counted deps t
  Retried-Counted s t c r = record {
    attempts = ground (arith, c.attempts);
    reworks = ground (arith, c.reworks);
    retried = λ j.
        rw (r.retries, lookup-insert)
          (elim (Bool-cases (s.stage == j)) [
            | inl e ↦ rw e (omega (arith, r.room))
            | inr e ↦ rw e (c.retried j)
          ]);
  }

  Steered-Counted : (s t : PipelineState) → Counted deps s → Steered deps s t → Counted deps t
  Steered-Counted s t c e = record {
    attempts = ground (arith, c.attempts, e.counted);
    reworks = ground (arith, c.reworks, e.counted);
    retried = λ j. rw e.retries (c.retried j);
  }

  Next-Counted : (s t : PipelineState) → Counted deps s → Next deps s t → Counted deps t
  Next-Counted s t c (inl e) = record {
    attempts = ground (arith, c.attempts);
    reworks = ground (arith, c.reworks);
    retried = λ j. rw e.retries (c.retried j);
  }
  Next-Counted s t c (inr (inl r)) = Retried-Counted s t c r
  Next-Counted s t c (inr (inr (inl e))) = Steered-Counted s t c e
  Next-Counted s t c (inr (inr (inr d))) = record {
    attempts = ground (arith, c.attempts);
    reworks = ground (arith, c.reworks);
    retried = λ j. rw d.retries (c.retried j);
  }

  -- Enough fuel takes the walk from a counted state to an end, a suspension or an exception out
  -- of a stage; in the state that has ended, that waits, or that the stage was entered in,
  -- reworks and retries are within their bounds and the attempt number is the reworks and one.
  pub walk-Counted :
      (fuel : ℕ) (state : PipelineState)
      → state.terminal ≡ none
      → 0 < fuel
      → deps.bounds.max_steps < fuel + state.steps
      → Counted deps state
      → Arrives (Counted deps) (Counted deps) (walk fuel deps state)
  walk-Counted =
      walk_rule deps (Counted deps) (Counted deps) (Counted deps)
        (λ s t c o e. run-Counted s t c (run_stage-Kept deps s t e)) (λ t over c. c)
        (λ t o c. Next-Counted t (advance deps t) c (advance-cases deps t))
        (λ t o c over. Next-Counted t (advance deps t) c (advance-cases deps t))

  pub initial_state-Counted :
      (development_id stage head_commit : String) (artifacts : Dict String) (generation : ℕ)
      (at : String)
      → Counted deps (initial_state development_id stage head_commit artifacts generation at)
  unfolding initial_state lookup
  initial_state-Counted development_id stage head_commit artifacts generation at = record {
    attempts = omega arith;
    reworks = omega arith;
    retried = λ k. omega arith;
  }
