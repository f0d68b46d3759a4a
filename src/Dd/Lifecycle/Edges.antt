-- ===== src/Dd/Lifecycle/Edges.antt =====
-- What a resolved edge of the stage machine guarantees: `transition` and `advance` of dd/lifecycle.py.
use fleet_graph.Common.{
  String, true, ◌&&◌, Option, none, some, ◌==◌, eq_iff, get_or, is_some, Result, ok, err, ◌>>◌,
  >>=-eq-ok, ◌≡◌, ◌↔◌, ◌∙◌, ap, subst, refl, In, find-In, arith, Bool-cases, inl, inr, &&-true,
}
use mathlib.Core.Path.{subst₂}
use fleet_graph.Common.Json.{Json, json_eq, dig, one_field}
use fleet_graph.Dd.Lifecycle.{
  Contract, Transition, Binding, LifecycleError, transitions, transition, or_unknown,
}
use fleet_graph.Dd.Lifecycle.Bindings.{
  check_event_binding, check_commit_binding, check_next, event_target, check_bindings, advance,
  requires,
}

-- The binding is of the kind that is enforced.
abbrev pub IsEqual : Binding → Type 0
IsEqual b = (get_or b.operator "equal" == "equal") ≡ true

-- What the contract asks of an edge that is taken with this receipt into this dispatch.
pub record Honours (t : Transition) (receipt next_dispatch : Option Json) : Type 0 where
  pub receipted : requires t.required_receipt ≡ true → is_some receipt ≡ true
  pub verdict :
      (b : Binding) (r : Json)
      → t.event_binding ≡ some b
      → receipt ≡ some r
      → IsEqual b
      → json_eq (dig (one_field "required_receipt" r) b.source) (event_target t b) ≡ true
  pub chain :
      (b : Binding) (r d : Json)
      → t.commit_binding ≡ some b
      → receipt ≡ some r
      → next_dispatch ≡ some d
      → IsEqual b
      → json_eq
          (dig (one_field "required_receipt" r) b.source)
          (dig (one_field "next_dispatch" d) b.target)
        ≡ true

or_unknown-ok :
    (stage event : String) (o : Option Transition) (t : Transition)
    → or_unknown stage event o ≡ ok t
    → o ≡ some t
unfolding or_unknown
or_unknown-ok stage event none t h = cc
or_unknown-ok stage event (some u) t h = cc

pub transition-declared :
    (c : Contract) (stage event : String) (t : Transition)
    → transition c stage event ≡ ok t
    → In t (transitions c) × (t.source ≡ stage) × (t.event ≡ event)
unfolding transition
transition-declared c stage event t h =
    let (i, p) =
      find-In (λ t. t.source == stage && t.event == event) (transitions c)
        (or_unknown-ok _ _ _ t h) in
    let (a, b) = &&-true (t.source == stage) (t.event == event) p in
    (i, (eq_iff t.source stage).0 a, (eq_iff t.event event).0 b)

verdict_of_check :
    (t : Transition) (r : Json)
    → check_event_binding t r ≡ ok tt
    → (b : Binding) → t.event_binding ≡ some b
    → IsEqual b
    → json_eq (dig (one_field "required_receipt" r) b.source) (event_target t b) ≡ true
unfolding check_event_binding
verdict_of_check t r h b e q = ground arith

check_of_verdict :
    (t : Transition) (r : Json) (o : Option Binding)
    → t.event_binding ≡ o
    → ((b : Binding)
        → t.event_binding ≡ some b
        → IsEqual b
        → json_eq (dig (one_field "required_receipt" r) b.source) (event_target t b) ≡ true)
    → check_event_binding t r ≡ ok tt
unfolding check_event_binding
check_of_verdict t r none e h = rw e
check_of_verdict t r (some b) e h = elim (Bool-cases (get_or b.operator "equal" == "equal")) [
  | inl q ↦ let v = h b e q in ground arith
  | inr q ↦ ground arith
]

chain_of_check :
    (t : Transition) (r d : Json)
    → check_commit_binding t r d ≡ ok tt
    → (b : Binding) → t.commit_binding ≡ some b
    → IsEqual b
    → json_eq
        (dig (one_field "required_receipt" r) b.source)
        (dig (one_field "next_dispatch" d) b.target)
      ≡ true
unfolding check_commit_binding
chain_of_check t r d h b e q = ground arith

check_of_chain :
    (t : Transition) (r d : Json) (o : Option Binding)
    → t.commit_binding ≡ o
    → ((b : Binding)
        → t.commit_binding ≡ some b
        → IsEqual b
        → json_eq
            (dig (one_field "required_receipt" r) b.source)
            (dig (one_field "next_dispatch" d) b.target)
          ≡ true)
    → check_commit_binding t r d ≡ ok tt
unfolding check_commit_binding
check_of_chain t r d none e h = rw e
check_of_chain t r d (some b) e h = elim (Bool-cases (get_or b.operator "equal" == "equal")) [
  | inl q ↦ let v = h b e q in ground arith
  | inr q ↦ ground arith
]

run_both : (a b : Result LifecycleError (Unit {0})) → (a >> b) ≡ ok tt → (a ≡ ok tt) × (b ≡ ok tt)
run_both (ok tt) b h = (refl, h)
run_both (err e) b h = cc

Honours-of_check :
    (t : Transition) (receipt next_dispatch : Option Json)
    → check_bindings t receipt next_dispatch ≡ ok tt
    → Honours t receipt next_dispatch
unfolding check_bindings check_next
Honours-of_check t none d h = record {
  receipted = λ p. ground arith;
  verdict = λ b r e q. cc;
  chain = λ b r d e q. cc;
}
Honours-of_check t (some r) none h = record {
  receipted = λ p. refl;
  verdict = λ b r' e q i.
      subst (λ z. json_eq (dig (one_field "required_receipt" z) b.source) (event_target t b) ≡ true)
        (cc) (verdict_of_check t r (run_both (check_event_binding t r) (ok tt) h).0 b e i);
  chain = λ b r d e q w. cc;
}
Honours-of_check t (some r) (some d) h =
    let (v, w) = run_both (check_event_binding t r) (check_commit_binding t r d) h in
    record {
      receipted = λ p. refl;
      verdict = λ b r' e q i.
          subst
            (λ z. json_eq (dig (one_field "required_receipt" z) b.source) (event_target t b) ≡ true)
            (cc) (verdict_of_check t r v b e i);
      chain = λ b r' d' e q q' i.
          subst₂
            (λ z y.
              json_eq (dig (one_field "required_receipt" z) b.source)
                (dig (one_field "next_dispatch" y) b.target)
              ≡ true)
            (cc) (cc) (chain_of_check t r d w b e i);
    }

check_of_Honours :
    (t : Transition) (receipt next_dispatch : Option Json)
    → Honours t receipt next_dispatch
    → check_bindings t receipt next_dispatch ≡ ok tt
unfolding check_bindings check_next
check_of_Honours t none d h = elim (Bool-cases (requires t.required_receipt)) [
  | inl e ↦ cc (h.receipted e)
  | inr e ↦ rw e
]
check_of_Honours t (some r) none h =
    rw (check_of_verdict t r _ refl (λ b e i. h.verdict b r e refl i))
check_of_Honours t (some r) (some d) h =
    rw (check_of_verdict t r _ refl (λ b e i. h.verdict b r e refl i))
      (check_of_chain t r d _ refl (λ b e i. h.chain b r d e refl refl i))

-- `advance` succeeds with an edge exactly when that edge is the first one declared for this stage
-- and event, and the receipt and the next dispatch meet every `equal` binding that the edge
-- carries, with a receipt at hand where the edge requires one.
pub advance_iff :
    (c : Contract) (stage event : String) (receipt next_dispatch : Option Json) (t : Transition)
    → (advance c stage event receipt next_dispatch ≡ ok t)
      ↔ ((transition c stage event ≡ ok t) × Honours t receipt next_dispatch)
unfolding advance
advance_iff c stage event receipt next_dispatch t = (
  λ h.
      let (u, e, f) =
        >>=-eq-ok (transition c stage event) (λ t. check_bindings t receipt next_dispatch >> ok t)
          h in
      let (v, e', f') = >>=-eq-ok (check_bindings u receipt next_dispatch) (λ _. ok u) f in
      let p : u ≡ t = cc in
      (
        e ∙ ap ok p,
        subst (λ z. Honours z receipt next_dispatch) p
            (Honours-of_check u receipt next_dispatch e'),
      ),
  λ h. rw (h.0, check_of_Honours t receipt next_dispatch h.1),
)
