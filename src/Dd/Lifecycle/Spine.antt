-- ===== src/Dd/Lifecycle/Spine.antt =====
-- The spine of the stage machine, derived from who produces and who consumes each artifact:
-- dd/lifecycle.py.
use fleet_graph.Common.{
  String, Bool, true, false, not, Option, none, some, List, [], ◌∷◌, ◌++◌, foldl, filter, ◌==◌,
  get_or, Result, ok, err, elem, strings_eq, if◌then◌else◌,
}
use fleet_graph.Common.Dict.{Dict, lookup, insert, values, keys, contains}
use fleet_graph.Dd.Lifecycle.{
  Contract, Stage, RawStage, RawProtocol, LifecycleError, ambiguous_spine, stages, events_from,
}

-- producers.setdefault(kind, []).append(id)
append_at : String → Dict (List String) → String → Dict (List String)
unfolding lookup insert
append_at id m kind = insert kind (get_or (lookup kind m) [] ++ id ∷ []) m

add_produced : Dict (List String) → Stage → Dict (List String)
unfolding append_at
add_produced m stage = foldl (append_at stage.id) m stage.produced_artifacts

unfoldable pub artifact_producers : Contract → Dict (List String)
unfolding add_produced stages
artifact_producers c = foldl add_produced [] (values (stages c))

add_required : Dict (List String) → Stage → Dict (List String)
unfolding append_at
add_required m stage = foldl (append_at stage.id) m stage.required_artifacts

unfoldable pub artifact_consumers : Contract → Dict (List String)
unfolding add_required stages
artifact_consumers c = foldl add_required [] (values (stages c))

-- The one other stage that consumes `kind`, where the artifact carries an edge out of `stage`.
unfoldable pub carried : Contract → String → String → Option String
carried c stage kind =
    let consumers =
      filter (λ x. not (x == stage)) (get_or (lookup kind (artifact_consumers c)) []) in
    if strings_eq (get_or (lookup kind (artifact_producers c)) []) (stage ∷ [])
    then elim consumers [ t ∷ rest ↦ elim rest [ [] ↦ some t | _ ↦ none ] | _ ↦ none ]
    else none

-- One turn of the loop over the produced artifacts.
abbrev pub push_target : Option String → List String → List String
push_target none targets = targets
push_target (some t) targets = if elem t targets then targets else targets ++ t ∷ []

abbrev pub add_target : Contract → String → List String → String → List String
add_target c stage targets kind = push_target (carried c stage kind) targets

unfoldable pub targets_of : Contract → String → List String → List String
targets_of c stage kinds = foldl (add_target c stage) [] kinds

unfoldable pub choose : String → List String → Result LifecycleError (Option String)
choose stage [] = ok none
choose stage (t ∷ []) = ok (some t)
choose stage (t ∷ u ∷ rest) = err (ambiguous_spine stage (t ∷ u ∷ rest))

unfoldable pub artifact_successor : Contract → String → Result LifecycleError (Option String)
unfolding targets_of choose
artifact_successor c stage = elim (lookup stage (stages c)) [
  | none ↦ ok none
  | some current ↦ choose stage (targets_of c stage current.produced_artifacts)
]

unfoldable pub no_successor : Result LifecycleError (Option String) → Bool
no_successor (ok none) = true
no_successor (ok (some t)) = false
no_successor (err e) = false

-- A stage with neither a declared edge nor a derived successor.
unfoldable pub is_terminal : Contract → String → Bool
unfolding no_successor
is_terminal c stage =
    if contains stage (stages c)
    then elim (events_from c stage) [ [] ↦ no_successor (artifact_successor c stage) | _ ↦ false ]
    else false

extend_spine :
    String
    → Result LifecycleError (Option String)
    → Result LifecycleError (Dict String)
    → Result LifecycleError (Dict String)
unfolding insert
extend_spine stage (err e) rest = err e
extend_spine stage (ok none) rest = rest
extend_spine stage (ok (some t)) (ok m) = ok ((stage, t) ∷ m)
extend_spine stage (ok (some t)) (err e) = err e

spine_of : Contract → List String → Result LifecycleError (Dict String)
unfolding extend_spine
spine_of c [] = ok []
spine_of c (stage ∷ rest) = extend_spine stage (artifact_successor c stage) (spine_of c rest)

-- Every derivable unconditional edge. It is computed whole, so one ambiguous stage is an error for
-- every caller.
unfoldable pub spine : Contract → Result LifecycleError (Dict String)
unfolding spine_of
spine c = spine_of c (keys (stages c))

add_protocol : String → Dict (List String) → String × RawProtocol → Dict (List String)
unfolding append_at
add_protocol id m (_, protocol) = foldl (append_at id) m (get_or protocol.produced_artifacts [])

add_protocols : Dict (List String) → RawStage → Dict (List String)
unfolding add_protocol
add_protocols m raw = foldl (add_protocol raw.id) m raw.protocol_artifacts

unfoldable pub protocol_producers : Contract → Dict (List String)
unfolding add_protocols
protocol_producers c = foldl add_protocols [] c.stages

sole : List String → Option String
sole (x ∷ []) = some x
sole _ = none

unfoldable pub sole_producer_of : Contract → String → Option String
unfolding protocol_producers sole lookup
sole_producer_of c artifact = sole (get_or (lookup artifact (protocol_producers c)) [])
