-- ===== src/Dd/Lifecycle/Bindings.antt =====
-- The bindings between an edge, its receipt and the next dispatch: dd/lifecycle.py.
use fleet_graph.Common.{
  String, Bool, not, ◌&&◌, Option, none, some, ◌==◌, get_or, false, Result, ok, err, ◌>>=◌, ◌>>◌,
  if◌then◌else◌,
}
use fleet_graph.Common.Json.{Json, null, str, json_eq, dig, one_field}
use fleet_graph.Dd.Lifecycle.{
  Contract, Transition, Binding, LifecycleError, binding_violation, receipt_missing, event_mismatch,
  chain_severed, transition,
}

-- binding.get("operator", "equal") == "equal" and source != target
abbrev violates : Binding → Json → Json → Bool
violates binding source target =
    get_or binding.operator "equal" == "equal" && not (json_eq source target)

unfoldable pub event_target : Transition → Binding → Json
event_target t binding = if binding.target == "transition.on" then str t.event else null

unfoldable pub check_event_binding : Transition → Json → Result LifecycleError (Unit {0})
check_event_binding t receipt = elim t.event_binding [
  | none ↦ ok tt
  | some binding ↦
      if violates binding (dig (one_field "required_receipt" receipt) binding.source)
        (event_target t binding)
      then err (binding_violation event_mismatch)
      else ok tt
]

unfoldable pub check_commit_binding : Transition → Json → Json → Result LifecycleError (Unit {0})
check_commit_binding t receipt next_dispatch = elim t.commit_binding [
  | none ↦ ok tt
  | some binding ↦
      if violates binding (dig (one_field "required_receipt" receipt) binding.source)
        (dig (one_field "next_dispatch" next_dispatch) binding.target)
      then err (binding_violation chain_severed)
      else ok tt
]

unfoldable pub check_next : Transition → Json → Option Json → Result LifecycleError (Unit {0})
unfolding check_commit_binding
check_next t receipt none = ok tt
check_next t receipt (some next_dispatch) = check_commit_binding t receipt next_dispatch

-- Python's truth of the name of a receipt.
abbrev pub requires : Option String → Bool
requires none = false
requires (some name) = not (name == "")

unfoldable pub check_bindings :
    Transition → Option Json → Option Json → Result LifecycleError (Unit {0})
unfolding check_event_binding check_next
check_bindings t none next_dispatch =
    if requires t.required_receipt then err (binding_violation receipt_missing) else ok tt
check_bindings t (some receipt) next_dispatch = do
  check_event_binding t receipt
  check_next t receipt next_dispatch

-- Resolves the edge and enforces the bindings that it declares.
unfoldable pub advance :
    Contract → String → String → Option Json → Option Json → Result LifecycleError Transition
unfolding check_bindings
advance c stage event receipt next_dispatch = do
  t ← transition c stage event
  check_bindings t receipt next_dispatch
  ok t
