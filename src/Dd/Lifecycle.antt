-- ===== src/Dd/Lifecycle.antt =====
-- The dd stage machine as its contract declares it: dd/lifecycle.py. A contract is the decoded JSON
-- document; a key that the source reads by `get` with a default is an `Option` here.
pub mod Spine
pub mod Bindings
pub mod Shipped
pub mod Edges
pub mod Succession
pub mod ShippedFacts
use fleet_graph.Common.{
  ℕ, String, Bool, true, false, ◌&&◌, Option, none, some, List, [], ◌∷◌, map, foldl, filter, find,
  any, ◌==◌, get_or, Result, ok, err, if◌then◌else◌,
}
use fleet_graph.Common.Dict.{Dict, lookup, insert}

pub record RawProtocol : Type 0 where
  pub produced_artifacts : Option (List String)

pub record RawStage : Type 0 where
  pub id : String
  pub actor : String
  pub wrapper : Option Bool
  pub required_artifacts : Option (List String)
  pub produced_artifacts : Option (List String)
  pub protocol_artifacts : List (String × RawProtocol)

-- A binding that is present has a source and a target; `{}` and null are `none`.
pub record Binding : Type 0 where
  pub source : String
  pub target : String
  pub operator : Option String

pub record RawTransition : Type 0 where
  pub source : String
  pub event : String
  pub target : String
  pub next_mode : Option String
  pub required_receipt : Option String
  pub commit_binding : Option Binding
  pub event_binding : Option Binding

pub record RawFailure : Type 0 where
  pub source : String
  pub event : String
  pub required_transport_record : String
  pub terminal : Option Bool
  pub materialize : Option Bool
  pub receipt : Option Bool

pub record Contract : Type 0 where
  pub contract_version : ℕ
  pub stages : List RawStage
  pub transitions : List RawTransition
  pub wrapper : Option (List String)
  pub failure_transitions : List RawFailure
  -- each failure code with its `retryable` flag
  pub failure_taxonomy : Dict (Option Bool)

pub record Stage : Type 0 where
  pub id : String
  pub actor : String
  pub wrapper : Bool
  pub required_artifacts : List String
  pub produced_artifacts : List String

unfoldable pub is_llm : Stage → Bool
is_llm stage = stage.actor == "llm"

pub record Transition : Type 0 where
  pub source : String
  pub event : String
  pub target : String
  pub next_mode : String
  pub required_receipt : Option String
  pub commit_binding : Option Binding
  pub event_binding : Option Binding

unfoldable pub is_rework : Transition → Bool
is_rework transition = transition.next_mode == "rework"

pub record FailureTransition : Type 0 where
  pub source : String
  pub event : String
  pub required_transport_record : String
  pub terminal : Bool
  pub materialize : Bool
  pub receipt : Bool

pub data BindingFault : Type 0 where
  receipt_missing event_mismatch chain_severed : BindingFault

pub data LifecycleError : Type 0 where
  unknown_transition : String → String → LifecycleError
  binding_violation : BindingFault → LifecycleError
  ambiguous_spine : String → List String → LifecycleError

unfoldable pub decode_stage : RawStage → Stage
decode_stage raw = record {
  id = raw.id;
  actor = raw.actor;
  wrapper = get_or raw.wrapper false;
  required_artifacts = get_or raw.required_artifacts [];
  produced_artifacts = get_or raw.produced_artifacts [];
}

add_stage : Dict Stage → RawStage → Dict Stage
unfolding decode_stage insert
add_stage m raw = insert raw.id (decode_stage raw) m

-- The stages by their ids; of two with one id the later wins.
unfoldable pub stages : Contract → Dict Stage
unfolding add_stage
stages c = foldl add_stage [] c.stages

unfoldable pub decode_transition : RawTransition → Transition
decode_transition raw = record {
  source = raw.source;
  event = raw.event;
  target = raw.target;
  next_mode = get_or raw.next_mode "inherit";
  required_receipt = raw.required_receipt;
  commit_binding = raw.commit_binding;
  event_binding = raw.event_binding;
}

unfoldable pub transitions : Contract → List Transition
unfolding decode_transition
transitions c = map decode_transition c.transitions

unfoldable pub wrapper_steps : Contract → List String
wrapper_steps c = get_or c.wrapper []

unfoldable pub decode_failure : RawFailure → FailureTransition
decode_failure raw = record {
  source = raw.source;
  event = raw.event;
  required_transport_record = raw.required_transport_record;
  terminal = get_or raw.terminal true;
  materialize = get_or raw.materialize false;
  receipt = get_or raw.receipt false;
}

unfoldable pub failure_transitions : Contract → List FailureTransition
unfolding decode_failure
failure_transitions c = map decode_failure c.failure_transitions

unfoldable pub failure_transition : Contract → String → String → Option FailureTransition
unfolding failure_transitions find
failure_transition c stage event =
    find (λ f. f.source == stage && f.event == event) (failure_transitions c)

unfoldable pub is_retryable : Contract → String → Bool
unfolding lookup
is_retryable c failure_code = get_or (get_or (lookup failure_code c.failure_taxonomy) none) false

or_unknown : String → String → Option Transition → Result LifecycleError Transition
or_unknown stage event none = err (unknown_transition stage event)
or_unknown stage event (some t) = ok t

-- The first declared edge of this stage and event; an undeclared pair is an error.
unfoldable pub transition : Contract → String → String → Result LifecycleError Transition
unfolding transitions find or_unknown
transition c stage event =
    or_unknown stage event (find (λ t. t.source == stage && t.event == event) (transitions c))

unfoldable pub events_from : Contract → String → List String
unfolding transitions
events_from c stage = map (λ t. t.event) (filter (λ t. t.source == stage) (transitions c))
