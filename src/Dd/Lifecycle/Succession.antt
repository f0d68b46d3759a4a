-- ===== src/Dd/Lifecycle/Succession.antt =====
-- What the derived spine and the end of the stage machine mean: `artifact_successor` and
-- `is_terminal` of dd/lifecycle.py.
use fleet_graph.Common.{
  String, true, not, ◌&&◌, Option, none, some, List, [], ◌∷◌, ◌++◌, map, foldl, filter, ◌==◌,
  get_or, Result, ok, err, ◌≡◌, ◌⊎◌, refl, sym, ap, In, In-append_left, In-append_last, elem,
  elem-In, strings_eq_iff, find-eq_none, filter-nil, arith, Bool-cases, inl, inr,
}
use fleet_graph.Common.Dict.{lookup}
use fleet_graph.Common.Json.{Json}
use fleet_graph.Dd.Lifecycle.{
  Contract, Stage, Transition, LifecycleError, unknown_transition, stages, transitions, transition,
  or_unknown, events_from,
}
use fleet_graph.Dd.Lifecycle.Bindings.{advance}
use fleet_graph.Dd.Lifecycle.Spine.{
  artifact_producers, artifact_consumers, carried, add_target, push_target, targets_of, choose,
  artifact_successor, no_successor, is_terminal,
}

-- An artifact that carries an edge has this stage for its one producer, and the target for its one
-- other consumer.
pub carried-exclusive :
    (c : Contract) (stage kind t : String)
    → carried c stage kind ≡ some t
    → (get_or (lookup kind (artifact_producers c)) [] ≡ stage ∷ [])
      × (filter (λ x. not (x == stage)) (get_or (lookup kind (artifact_consumers c)) []) ≡ t ∷ [])
unfolding carried
carried-exclusive c stage kind t h = (
  ground (arith, strings_eq_iff (get_or (lookup kind (artifact_producers c)) []) (stage ∷ [])),
  ground arith,
)

push_target-keeps :
    (t : String) (o : Option String) (acc : List String) → In t acc → In t (push_target o acc)
push_target-keeps t none acc i = i
push_target-keeps t (some u) acc i = elim (Bool-cases (elem u acc)) [
  | inl o ↦ rw o i
  | inr o ↦ rw o (In-append_left t acc (u ∷ []) i)
]

push_target-adds : (t : String) (acc : List String) → In t (push_target (some t) acc)
push_target-adds t acc = elim (Bool-cases (elem t acc)) [
  | inl o ↦ rw o (elem-In t acc o)
  | inr o ↦ rw o (In-append_last t acc)
]

In-append_cases : (t u : String) (acc : List String) → In t (acc ++ u ∷ []) → In t acc ⊎ (u ≡ t)
In-append_cases t u [] (inl e) = inr e
In-append_cases t u [] (inr i) = elim i [ ]
In-append_cases t u (x ∷ acc) (inl e) = inl (inl e)
In-append_cases t u (x ∷ acc) (inr i) = elim (In-append_cases t u acc i) [
  | inl j ↦ inl (inr j)
  | inr e ↦ inr e
]

push_target-from :
    (t : String) (o : Option String) (acc : List String)
    → In t (push_target o acc)
    → In t acc ⊎ (o ≡ some t)
push_target-from t none acc i = inl i
push_target-from t (some u) acc i = elim (Bool-cases (elem u acc)) [
  | inl o ↦ inl (rw o at i)
  | inr o ↦ elim (In-append_cases t u acc (rw o at i)) [ inl j ↦ inl j | inr e ↦ inr (ap some e) ]
]

-- Some of these artifacts carries an edge from the stage to `t`.
abbrev pub Carries : Contract → String → List String → String → Type 0
Carries c stage kinds t = (kind : String) × In kind kinds × (carried c stage kind ≡ some t)

module _ (c : Contract) (stage : String) where
  targets-keep :
      (t : String) (acc kinds : List String)
      → In t acc
      → In t (foldl (add_target c stage) acc kinds)
  targets-keep t acc [] i = i
  targets-keep t acc (k ∷ ks) i =
      targets-keep t (add_target c stage acc k) ks (push_target-keeps t (carried c stage k) acc i)

  targets_complete :
      (t kind : String) (acc kinds : List String)
      → In kind kinds
      → carried c stage kind ≡ some t
      → In t (foldl (add_target c stage) acc kinds)
  targets_complete t kind acc [] i e = elim i [ ]
  targets_complete t kind acc (k ∷ ks) (inl p) e =
      targets-keep t (add_target c stage acc k) ks (rw (p, e) (push_target-adds t acc))
  targets_complete t kind acc (k ∷ ks) (inr i) e =
      targets_complete t kind (add_target c stage acc k) ks i e

  targets_sound :
      (t : String) (acc kinds : List String)
      → In t (foldl (add_target c stage) acc kinds)
      → In t acc ⊎ Carries c stage kinds t
  targets_sound t acc [] i = inl i
  targets_sound t acc (k ∷ ks) i = elim (targets_sound t (add_target c stage acc k) ks i) [
    | inl j ↦ elim (push_target-from t (carried c stage k) acc j) [
      | inl h ↦ inl h
      | inr e ↦ inr (k, inl refl, e)
    ]
    | inr (kind, h, e) ↦ inr (kind, inr h, e)
  ]

choose-some :
    (stage t : String) (targets : List String)
    → choose stage targets ≡ ok (some t)
    → targets ≡ t ∷ []
unfolding choose
choose-some stage t [] h = cc
choose-some stage t (u ∷ []) h = cc
choose-some stage t (u ∷ v ∷ rest) h = cc

choose-none :
    (stage : String) (targets : List String) → choose stage targets ≡ ok none → targets ≡ []
unfolding choose
choose-none stage [] h = refl
choose-none stage (u ∷ []) h = cc
choose-none stage (u ∷ v ∷ rest) h = cc

one_member : (t u : String) → In u (t ∷ []) → u ≡ t
one_member t u (inl e) = sym e
one_member t u (inr i) = elim i [ ]

successor_of :
    (c : Contract) (stage : String) (o : Option Stage) (t : String)
    → lookup stage (stages c) ≡ o
    → artifact_successor c stage ≡ ok (some t)
    → (current : Stage) × (lookup stage (stages c) ≡ some current)
      × (targets_of c stage current.produced_artifacts ≡ t ∷ [])
unfolding artifact_successor
successor_of c stage none t e h = ground arith
successor_of c stage (some current) t e h = (
  current,
  e,
  choose-some stage t (targets_of c stage current.produced_artifacts)
      (rw (e, artifact_successor) at h),
)

-- A derived successor is carried by an artifact that the stage produces, and it is the only stage
-- that any artifact of this stage carries an edge to.
pub successor_unique :
    (c : Contract) (stage t : String)
    → artifact_successor c stage ≡ ok (some t)
    → (current : Stage) × (lookup stage (stages c) ≡ some current)
      × Carries c stage current.produced_artifacts t
      × ((u : String) → Carries c stage current.produced_artifacts u → u ≡ t)
unfolding targets_of
successor_unique c stage t h =
    let (current, e, p) = successor_of c stage (lookup stage (stages c)) t refl h in
    (
      current,
      e,
      elim (targets_sound c stage t [] current.produced_artifacts (rw p (inl refl))) [
        | inl i ↦ elim i [ ]
        | inr w ↦ w
      ],
      λ u (kind, i, q).
          one_member t u
            (rw p at (targets_complete c stage u kind [] current.produced_artifacts i q)),
    )

map-eq_nil {ℓ} : {A B : Type ℓ} (f : A → B) (xs : List A) → map f xs ≡ [] → xs ≡ []
map-eq_nil f [] h = refl
map-eq_nil f (x ∷ xs) h = cc

no_successor-none :
    (r : Result LifecycleError (Option String)) → no_successor r ≡ true → r ≡ ok none
unfolding no_successor
no_successor-none (ok none) h = refl
no_successor-none (ok (some t)) h = cc
no_successor-none (err e) h = cc

no_edge :
    (c : Contract) (stage event : String)
    → events_from c stage ≡ []
    → transition c stage event ≡ err (unknown_transition stage event)
unfolding transition events_from or_unknown
no_edge c stage event h =
    let none_here = filter-nil (λ (t : Transition). t.source == stage) (transitions c) in
    rw (
      find-eq_none (λ (t : Transition). t.source == stage && t.event == event) (transitions c)
        (λ t i. rw (none_here t (map-eq_nil _ _ h) i)))

terminal_parts :
    (c : Contract) (stage : String)
    → is_terminal c stage ≡ true
    → (events_from c stage ≡ []) × (no_successor (artifact_successor c stage) ≡ true)
unfolding is_terminal
terminal_parts c stage h = ground arith

-- A terminal stage is the end of the machine: no event leads out of it, whatever the receipt, and
-- the artifacts derive no successor for it.
pub is_terminal-final :
    (c : Contract) (stage : String)
    → is_terminal c stage ≡ true
    → ((event : String) (receipt next_dispatch : Option Json)
        → advance c stage event receipt next_dispatch ≡ err (unknown_transition stage event))
      × (artifact_successor c stage ≡ ok none)
unfolding advance
is_terminal-final c stage h =
    let (e, n) = terminal_parts c stage h in
    (
      λ event receipt next_dispatch. rw (no_edge c stage event e),
      no_successor-none (artifact_successor c stage) n,
    )
