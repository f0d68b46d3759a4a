-- ===== src/Dd/Pipeline/Routes.antt =====
-- Where `advance` of graphs/dd_pipeline.py can lead.
use fleet_graph.Common.{
  ◌+◌, ◌≤◌, ◌<◌, String, true, false, ◌&&◌, Option, none, some, List, [], ◌∷◌, ◌≡◌, ◌⊎◌, inl, inr,
  refl, is_some, get_or, ltb, ◌==◌, eq_iff, arith, Bool-cases, Result, ok, err,
}
use fleet_graph.Common.Dict.{Dict, lookup, insert}
use fleet_graph.Dd.Lifecycle.{Transition, LifecycleError, is_rework, is_retryable, events_from}
use fleet_graph.Dd.Lifecycle.Spine.{is_terminal, spine}
use fleet_graph.Dd.Pipeline.{complete, PipelineState, PipelineDeps, spine_event}
use fleet_graph.Dd.Pipeline.Ending.{end_with}
use fleet_graph.Dd.Pipeline.Advance.{
  routes_failure, retry_or_fail, without_edge, take_edge, edge_of, follow, route, advance,
}
use fleet_graph.Dd.Pipeline.Advance.{try_spine}

-- The same stage is run again, with one retry more on its count.
pub record Retried (deps : PipelineDeps) (state next : PipelineState) : Type 0 where
  pub retryable : is_retryable deps.contract state.last_failure_code ≡ true
  pub room : get_or (lookup state.stage state.retries) 0 < deps.bounds.max_retries
  pub stage : next.stage ≡ state.stage
  pub retries :
      next.retries
      ≡ insert state.stage (get_or (lookup state.stage state.retries) 0 + 1) state.retries
  pub attempt : next.attempt ≡ state.attempt
  pub rework_count : next.rework_count ≡ state.rework_count
  pub receipt : next.last_receipt ≡ state.last_receipt
  pub history : next.history ≡ state.history
  pub terminal : next.terminal ≡ state.terminal

-- An edge of the contract is taken; a rework is a new attempt, within the bound.
pub record Steered (deps : PipelineDeps) (state next : PipelineState) : Type 0 where
  pub edge : Transition
  pub declared : edge_of deps state ≡ ok edge
  pub stage : next.stage ≡ edge.target
  pub retries : next.retries ≡ state.retries
  pub history : next.history ≡ state.history
  pub terminal : next.terminal ≡ state.terminal
  pub counted :
      ((is_rework edge ≡ false)
        × (next.attempt ≡ state.attempt)
        × (next.rework_count ≡ state.rework_count))
      ⊎ ((is_rework edge ≡ true)
          × (next.attempt ≡ state.attempt + 1)
          × (next.rework_count ≡ state.rework_count + 1)
          × (next.rework_count ≤ deps.bounds.max_rework)
          × (next.pinned_attempt_id ≡ ""))

-- The spine is followed, out of a stage that declares no verdict.
pub record Descended (deps : PipelineDeps) (state next : PipelineState) : Type 0 where
  pub spine_map : Dict String
  pub derived : spine deps.contract ≡ ok spine_map
  pub successor : lookup state.stage spine_map ≡ some next.stage
  pub unsteered : events_from deps.contract state.stage ≡ []
  pub event : state.last_event ≡ spine_event
  pub history : next.history ≡ state.history
  pub terminal : next.terminal ≡ state.terminal
  pub retries : next.retries ≡ state.retries
  pub attempt : next.attempt ≡ state.attempt
  pub rework_count : next.rework_count ≡ state.rework_count

-- The walk ends here; completion is for a terminal stage alone.
pub record Closed (deps : PipelineDeps) (state next : PipelineState) : Type 0 where
  pub over : is_some next.terminal ≡ true
  pub at_end : next.terminal ≡ some complete → is_terminal deps.contract state.stage ≡ true
  pub stage : next.stage ≡ state.stage
  pub retries : next.retries ≡ state.retries
  pub attempt : next.attempt ≡ state.attempt
  pub rework_count : next.rework_count ≡ state.rework_count
  pub history : next.history ≡ state.history

module _ (deps : PipelineDeps) (state : PipelineState) where
  abbrev pub Next : PipelineState → Type 0
  Next next =
      Closed deps state next
      ⊎ Retried deps state next
      ⊎ Steered deps state next
      ⊎ Descended deps state next

  retry-cases : Next (retry_or_fail deps state)
  unfolding retry_or_fail end_with
  retry-cases =
      elim (Bool-cases (
        is_retryable deps.contract state.last_failure_code
        && ltb (get_or (lookup state.stage state.retries) 0) deps.bounds.max_retries)) [
          | inl e ↦ rw e (inr (inl (ground arith)))
          | inr e ↦ rw e (inl (ground arith))
        ]

  take_edge-cases : (t : Transition) → edge_of deps state ≡ ok t → Next (take_edge deps state t)
  unfolding take_edge end_with
  take_edge-cases t e = elim (Bool-cases (is_rework t)) [
    | inr w ↦ rw w (
        inr (
          inr (
            inl (record {
              edge = t;
              declared = e;
              stage = refl;
              retries = refl;
              history = refl;
              terminal = refl;
              counted = inl (w, refl, refl);
            }))))
    | inl w ↦ elim (Bool-cases (ltb deps.bounds.max_rework (state.rework_count + 1))) [
      | inl l ↦ rw (w, l) (inl (ground arith))
      | inr l ↦
          rw (w, l)
            (inr (
              inr (
                inl (record {
                  edge = t;
                  declared = e;
                  stage = refl;
                  retries = refl;
                  history = refl;
                  terminal = refl;
                  counted = inr (w, refl, refl, ground arith, refl);
                }))))
    ]
  ]

  try_spine-cases :
      (events : List String) (r : Result LifecycleError (Dict String)) (m : Dict String)
      (o : Option String)
      → state.last_event ≡ spine_event
      → events_from deps.contract state.stage ≡ events
      → spine deps.contract ≡ r
      → ((m : Dict String) → r ≡ ok m → lookup state.stage m ≡ o)
      → Next (try_spine deps state events)
  unfolding end_with
  try_spine-cases (event ∷ more) r m o s e p q = inl (ground arith)
  try_spine-cases [] (err f) m o s e p q = rw p (inl (ground arith))
  try_spine-cases [] (ok m') m none s e p q = rw (p, q m' refl) (inl (ground arith))
  try_spine-cases [] (ok m') m (some t) s e p q =
      rw (p, q m' refl)
        (inr (
          inr (
            inr (record {
              spine_map = m';
              derived = p;
              successor = q m' refl;
              unsteered = e;
              event = s;
              retries = refl;
              history = refl;
              terminal = refl;
              attempt = refl;
              rework_count = refl;
            }))))

  spine-cases :
      (r : Result LifecycleError (Dict String))
      → spine deps.contract ≡ r
      → state.last_event ≡ spine_event
      → Next (try_spine deps state (events_from deps.contract state.stage))
  spine-cases (err e) p s = try_spine-cases _ (err e) [] none s refl p (λ m q. cc)
  spine-cases (ok m) p s = try_spine-cases _ (ok m) m (lookup state.stage m) s refl p (λ m' q. cc)

  without_edge-cases : Next (without_edge deps state)
  unfolding without_edge end_with
  without_edge-cases = elim (Bool-cases (state.last_event == spine_event)) [
    | inl e ↦
        rw e (spine-cases (spine deps.contract) refl ((eq_iff state.last_event spine_event).0 e))
    | inr e ↦ rw e (inl (ground arith))
  ]

  follow-cases :
      (r : Result LifecycleError Transition) → edge_of deps state ≡ r → Next (follow deps state r)
  follow-cases (ok t) e = take_edge-cases t e
  follow-cases (err f) e = without_edge-cases

  -- `advance` ends the walk, or runs the same stage again within the retry bound, or takes an edge
  -- that the contract declares, or follows the spine out of a stage that steers no verdict.
  pub advance-cases : Next (advance deps state)
  unfolding advance route end_with
  advance-cases = elim (Bool-cases (is_terminal deps.contract state.stage)) [
    | inl e ↦ rw e (inl (ground arith))
    | inr e ↦ elim (Bool-cases (routes_failure deps state)) [
      | inl f ↦ rw (e, f) retry-cases
      | inr f ↦ rw (e, f) (follow-cases (edge_of deps state) refl)
    ]
  ]
