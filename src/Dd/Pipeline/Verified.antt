-- ===== src/Dd/Pipeline/Verified.antt =====
-- What the wrapper of a stage has checked when the stage of graphs/dd_pipeline.py goes on.
use fleet_graph.Common.{
  Bool-cases, In, List, Option-cases, String, [], ap, arith, elem, elem-In, eq_iff, false, filter,
  filter-nil, get_or, inl, inr, none, not, refl, some, subst, sym, true, ℕ, ◌∙◌, ◌∷◌, ◌≡◌, ◌≢◌,
}
use fleet_graph.Common.Dict.{Dict, contains, insert, lookup, lookup-insert}
use fleet_graph.Dd.Lifecycle.{Stage, failure_transition}
use fleet_graph.Dd.Pipeline.{
  Dispatch, PipelineDeps, PipelineState, SealResult, StageOutcome, breaks, declines, failure_event,
  known_wrapper_steps, loses, seals,
}
use fleet_graph.Dd.Pipeline.Acting.{transport_exhausted_outcome}
use fleet_graph.Dd.Pipeline.Steps.{
  Frame, StepEnd, after_seal, ends, fails, goes_on, input_verify, materialize, missing_from,
  output_verify, run_actor, run_steps, seal_all, sealed_outcome, skips_seal, suspends, then_step,
  wrapper_step,
}

then_step-goes_on :
    (e : StepEnd) (rest : Frame → StepEnd) {f : Frame}
    → then_step e rest ≡ goes_on f
    → (m : Frame) × (e ≡ goes_on m) × (rest m ≡ goes_on f)
then_step-goes_on (goes_on m) rest h = (m, refl, h)
then_step-goes_on (ends s) rest h = cc
then_step-goes_on (suspends s) rest h = cc
then_step-goes_on fails rest h = cc

keeps_sealed :
    (k commit : String) (ks : List String) (m : Dict String)
    → lookup k m ≡ some commit
    → lookup k (seal_all ks commit m) ≡ some commit
unfolding seal_all
keeps_sealed k commit [] m h = h
keeps_sealed k commit (j ∷ ks) m h =
    keeps_sealed k commit ks (insert j commit m) (ground (arith, lookup-insert j k commit m))

lookup-seal_all :
    (k commit : String) (ks : List String) (m : Dict String)
    → In k ks
    → lookup k (seal_all ks commit m) ≡ some commit
unfolding seal_all
lookup-seal_all k commit [] m i = elim i [ ]
lookup-seal_all k commit (j ∷ ks) m (inl e) =
    keeps_sealed k commit ks (insert j commit m)
      (ground (arith, lookup-insert j k commit m, eq_iff j k))
lookup-seal_all k commit (j ∷ ks) m (inr i) = lookup-seal_all k commit ks (insert j commit m) i

missing_none :
    (k : String) (ks : List String) (m : Dict String)
    → missing_from m ks ≡ []
    → In k ks
    → contains k m ≡ true
unfolding missing_from
missing_none k ks m h i = ground (arith, filter-nil (λ j. not (contains j m)) ks k h i)

module _ (deps : PipelineDeps) (state : PipelineState) (stage : Stage) (steps : ℕ)
    (dispatch : Dispatch) where
  inputs_there :
      (f m : Frame)
      → input_verify deps state stage steps dispatch f ≡ goes_on m
      → (m ≡ f) × (missing_from f.artifacts stage.required_artifacts ≡ [])
  unfolding input_verify
  inputs_there f m h = ground arith

  not_failed :
      (f m : Frame) (x : StageOutcome)
      → x.event ≢ failure_event
      → failure_transition deps.contract stage.id x.event ≡ none
      → f.outcome ≡ some x
      → output_verify deps state stage steps dispatch f ≡ goes_on m
      → filter (λ k. not (elem k x.produced)) stage.produced_artifacts ≡ []
  unfolding output_verify
  not_failed f m x e d q h = ground (arith, eq_iff x.event failure_event)

  by_event :
      (f m : Frame) (x outcome : StageOutcome)
      → x ≡ outcome
      → f.outcome ≡ some x
      → output_verify deps state stage steps dispatch f ≡ goes_on m
      → outcome.event ≢ failure_event
      → failure_transition deps.contract stage.id outcome.event ≡ none
      → filter (λ k. not (elem k outcome.produced)) stage.produced_artifacts ≡ []
  unfolding output_verify
  by_event f m x outcome it q h e d =
      subst
        (λ (y : StageOutcome). filter (λ k. not (elem k y.produced)) stage.produced_artifacts ≡ [])
        it
        (not_failed f m x (subst (λ (y : StageOutcome). y.event ≢ failure_event) (sym it) e)
          (subst (λ (y : StageOutcome). failure_transition deps.contract stage.id y.event ≡ none)
            (sym it) d)
          q h)

  outputs_there :
      (f m : Frame) (outcome : StageOutcome)
      → output_verify deps state stage steps dispatch f ≡ goes_on m
      → m.outcome ≡ some outcome
      → (m ≡ f)
        × (outcome.event ≢ failure_event
            → failure_transition deps.contract stage.id outcome.event ≡ none
            → filter (λ k. not (elem k outcome.produced)) stage.produced_artifacts ≡ [])
  unfolding output_verify
  outputs_there f m outcome h o = elim (Option-cases f.outcome) [
    | inl n ↦ absurd (ground arith)
    | inr (x, q) ↦
        let same : m ≡ f = ground arith in
        let it : x ≡ outcome = cc (q, o, ap (λ (y : Frame). y.outcome) same) in
        (same, λ e d. by_event f m x outcome it q h e d)
  ]

  after_seal-sealed :
      (f m : Frame) (before outcome : StageOutcome) (r : SealResult)
      → after_seal deps state stage steps dispatch f before r ≡ goes_on m
      → m.outcome ≡ some outcome
      → outcome.event ≢ failure_event
      → (outcome.event ≡ before.event)
        × ((k : String) → In k outcome.produced → lookup k m.artifacts ≡ some m.head_commit)
  unfolding after_seal sealed_outcome transport_exhausted_outcome
  after_seal-sealed f m before outcome (seals sealed) h o e = (
    ground arith,
    λ k i. ground (
      arith,
      lookup-seal_all k sealed.commit (get_or sealed.produced before.produced) f.artifacts,
    ),
  )
  after_seal-sealed f m before outcome (declines refusal) h o e = cc
  after_seal-sealed f m before outcome (loses message) h o e = absurd (ground arith)
  after_seal-sealed f m before outcome (breaks message) h o e = cc

  sealing :
      (f m : Frame) (x : StageOutcome)
      → f.outcome ≡ some x
      → skips_seal (failure_transition deps.contract stage.id x.event) ≡ false
      → materialize deps state stage steps dispatch f ≡ goes_on m
      → (r : SealResult) × (after_seal deps state stage steps dispatch f x r ≡ goes_on m)
  unfolding materialize
  sealing f m x q n h = elim (Option-cases deps.materializer) [
    | inl none_there ↦ absurd (ground arith)
    | inr (sealer, there) ↦ (sealer steps stage dispatch x, ground arith)
  ]

  not_sealing :
      (f m : Frame) (x : StageOutcome)
      → f.outcome ≡ some x
      → skips_seal (failure_transition deps.contract stage.id x.event) ≡ true
      → materialize deps state stage steps dispatch f ≡ goes_on m
      → m ≡ f
  unfolding materialize
  not_sealing f m x q n h = ground arith

  produced_sealed :
      (f m : Frame) (outcome : StageOutcome)
      → materialize deps state stage steps dispatch f ≡ goes_on m
      → m.outcome ≡ some outcome
      → outcome.event ≢ failure_event
      → failure_transition deps.contract stage.id outcome.event ≡ none
      → (k : String) → In k outcome.produced
      → lookup k m.artifacts ≡ some m.head_commit
  unfolding materialize skips_seal
  produced_sealed f m outcome h o e d k i = elim (Option-cases f.outcome) [
    | inl n ↦ absurd (ground arith)
    | inr (x, q) ↦
        elim (Bool-cases (skips_seal (failure_transition deps.contract stage.id x.event))) [
          | inl skip ↦
              let same : m ≡ f = not_sealing f m x q skip h in
              let it : x ≡ outcome = cc (q, o, ap (λ (y : Frame). y.outcome) same) in
              absurd (ground (arith, it))
          | inr seal ↦
              let (r, a) = sealing f m x q seal h in (after_seal-sealed f m x outcome r a o e).1 k i
        ]
  ]

  -- Where the four wrapper steps of a stage go on, its inputs were there, and unless the stage failed
  -- or left by a declared failure exit, each artifact that it must produce stands at the sealed head.
  pub wrapper-Verified :
      (f m : Frame) (outcome : StageOutcome)
      → run_steps deps state stage steps dispatch known_wrapper_steps f ≡ goes_on m
      → m.outcome ≡ some outcome
      → ((k : String) → In k stage.required_artifacts → contains k f.artifacts ≡ true)
        × (outcome.event ≢ failure_event
            → failure_transition deps.contract stage.id outcome.event ≡ none
            → (k : String) → In k stage.produced_artifacts
            → lookup k m.artifacts ≡ some m.head_commit)
  unfolding run_steps known_wrapper_steps wrapper_step
  wrapper-Verified f m outcome h o =
      let (a, ha, ra) = then_step-goes_on (input_verify deps state stage steps dispatch f) _ h in
      let (b, hb, rb) = then_step-goes_on (run_actor deps state stage steps dispatch a) _ ra in
      let (c, hc, rc) = then_step-goes_on (materialize deps state stage steps dispatch b) _ rb in
      let (d, hd, rd) = then_step-goes_on (output_verify deps state stage steps dispatch c) _ rc in
      let end : d ≡ m = ground arith in
      let last : output_verify deps state stage steps dispatch c ≡ goes_on m =
        hd ∙ ap goes_on end in
      let (same, all_there) = outputs_there c m outcome last o in
      (
        λ k i. missing_none k stage.required_artifacts f.artifacts (inputs_there f a ha).1 i,
        λ e n k i. produced_sealed b m outcome (hc ∙ ap goes_on (sym same)) o e n k (
            elem-In k outcome.produced (
              ground (
                arith,
                filter-nil (λ j. not (elem j outcome.produced)) stage.produced_artifacts k
                    (all_there e n) i,
              ))),
      )
