-- ===== src/DecisionBridge/Resolving.antt =====
-- The owner that `resolve_decision` of decision_bridge/resolver.py names, apart from the legacy
-- fallback.
use fleet_graph.Common.{
  Bool, Bool-cases, In, List, Option, String, [], arith, elem, eq_iff, false, filter, get_or,
  if◌then◌else◌, inl, inr, is_some, leb, length, none, not, refl, some, subst, true, ◌&&◌, ◌==◌,
  ◌||◌, ◌∷◌, ◌≡◌, ◌⊎◌,
}
use fleet_graph.DecisionBridge.{Message, OwnerTarget}
use fleet_graph.DecisionBridge.Referenced.{In-filter, elem-referenced, filter-In, referenced-elem}
use fleet_graph.DecisionBridge.Resolver.{
  Category, ResolverDeps, Verdict, among, distinct, fallbacks, folder_ids, is_empty, is_stale,
  is_valid, matching_owners, referenced_questions, refers, refusal, resolve_among, resolve_decision,
  settled_legacy, unique_owners,
}
use fleet_graph.DecisionBridge.Sole.{Kept, Same, unique-In, unique-Kept}

-- The state in which an owner of a kind waits.
abbrev pub waiting_state : OwnerTarget → String
waiting_state t = if t.kind == "dd" then "awaiting_gate" else "parked"

abbrev pub Resolves : ResolverDeps → Message → OwnerTarget → Type 0
Resolves deps message t =
    let v = resolve_decision deps message in
    (v.category ≡ Category.resolved) × (v.target ≡ some t) × (v.legacy ≡ false)

-- A verdict names an owner without the fallback.
abbrev Names : Verdict → OwnerTarget → Type 0
Names v t = (v.category ≡ Category.resolved) × (v.target ≡ some t) × (v.legacy ≡ false)

-- Every owner that is meant is the given one.
abbrev pub Sole : ResolverDeps → Message → List OwnerTarget → OwnerTarget → Type 0
Sole deps message waiting t =
    In t waiting
    × (refers deps message.message_id t.question_note_id ≡ true)
    × ((is_empty t.state ≡ true) ⊎ (t.state ≡ waiting_state t))
    × ((u : OwnerTarget)
        → In u waiting
        → is_empty u.question_note_id ≡ false
        → refers deps message.message_id u.question_note_id ≡ true
        → Same u t)

refusal-unnamed : (category : Category) (t : OwnerTarget) → ¬ Names (refusal category) t
refusal-unnamed category t (c, n, l) = cc

legacy-unnamed :
    (found : List (OwnerTarget × String)) (t : OwnerTarget) → ¬ Names (settled_legacy found) t
legacy-unnamed [] t (c, n, l) = cc
legacy-unnamed (f ∷ []) t (c, n, l) = cc
legacy-unnamed (f ∷ g ∷ more) t (c, n, l) = cc

fallback-unnamed :
    (b : Bool) (found : List (OwnerTarget × String)) (t : OwnerTarget)
    → ¬ Names (if b then refusal Category.no_waiting_owner else settled_legacy found) t
fallback-unnamed true found t h = refusal-unnamed Category.no_waiting_owner t h
fallback-unnamed false found t h = legacy-unnamed found t h

settled-Names :
    (u t : OwnerTarget) (b : Bool)
    → Names
        (if b then record (refusal Category.stale) { target = some u } else record {
          category = Category.resolved;
          target = some u;
          question_note_id = u.question_note_id;
          card_entity_id = u.card_entity_id;
          legacy = false;
        })
        t
    → (b ≡ false) × (u ≡ t)
settled-Names u t true (c, n, l) = let bad : ⊥ = cc in elim bad [ ]
settled-Names u t false (c, n, l) = (refl, cc)

-- An owner is named where it is the only match and not stale.
among-Names :
    (deps : ResolverDeps) (message : Message) (waiting : List OwnerTarget)
    (referenced : List String) (found : List OwnerTarget) (t : OwnerTarget)
    → Names (among deps message waiting referenced found) t
    → (found ≡ t ∷ []) × (is_stale deps message referenced t ≡ false)
among-Names deps message waiting referenced [] t h =
    let owners = filter (λ u. is_empty u.question_note_id) waiting in
    let bad =
      fallback-unnamed
        (leb (length deps.question_texts) 0 || not (is_some deps.refs_to) || leb (length owners) 0)
        (fallbacks (distinct (folder_ids owners)) referenced deps.question_texts owners) t h in
    elim bad [ ]
among-Names deps message waiting referenced (u ∷ []) t h =
    let (fresh, same) = settled-Names u t (is_stale deps message referenced u) h in (cc, cc)
among-Names deps message waiting referenced (u ∷ w ∷ more) t h =
    elim (refusal-unnamed Category.ambiguous t h) [ ]

first-false : (a b c : Bool) → (a || b || c) ≡ false → a ≡ false
first-false true b c h = let bad : ⊥ = ground arith in elim bad [ ]
first-false false b c h = refl

state-waits :
    (state expected : String)
    → (not (is_empty state) && not (state == expected)) ≡ false
    → (is_empty state ≡ true) ⊎ (state ≡ expected)
state-waits state expected h = elim (Bool-cases (is_empty state)) [
  | inl e ↦ inl e
  | inr e ↦ elim (Bool-cases (state == expected)) [
    | inl g ↦ inr (ground (arith, eq_iff state expected))
    | inr g ↦ let bad : ⊥ = cc in elim bad [ ]
  ]
]

fresh-waits :
    (deps : ResolverDeps) (message : Message) (referenced : List String) (t : OwnerTarget)
    → is_stale deps message referenced t ≡ false
    → (is_empty t.state ≡ true) ⊎ (t.state ≡ waiting_state t)
fresh-waits deps message referenced t h =
    state-waits t.state (waiting_state t)
      (first-false (not (is_empty t.state) && not (t.state == waiting_state t)) _ _ h)

-- One kept owner is the one that all that match are.
Kept-Same :
    (u t : OwnerTarget) (found : List OwnerTarget) → found ≡ t ∷ [] → Kept u found → Same u t
Kept-Same u t found e k =
    let (v, i, s) = subst (λ xs. Kept u xs) e k in
    elim i [ inl q ↦ (cc, cc, cc) | inr bad ↦ elim bad [ ] ]

among-Sole :
    (deps : ResolverDeps) (message : Message) (waiting : List OwnerTarget) (t : OwnerTarget)
    → Names (resolve_among deps message (some waiting)) t
    → Sole deps message waiting t
among-Sole deps message waiting t h =
    let referenced = referenced_questions deps message.message_id waiting in
    let p : OwnerTarget → Bool = λ u. elem u.question_note_id referenced in
    let (one, fresh) =
      among-Names deps message waiting referenced (matching_owners waiting referenced) t h in
    let place : In t (unique_owners [] (filter p waiting)) = rw one (inl refl) in
    let matched : In t (filter p waiting) = elim (unique-In [] (filter p waiting) t place) [
      | inl bad ↦ elim bad [ ]
      | inr i ↦ i
    ] in
    let (there, asked) = filter-In p waiting t matched in
    (
      there,
      elem-referenced deps message.message_id waiting t.question_note_id asked,
      fresh-waits deps message referenced t fresh,
      λ u i named r. Kept-Same u t (matching_owners waiting referenced) one (
          unique-Kept [] (filter p waiting) u (
            In-filter p waiting u i (referenced-elem deps message.message_id waiting u i named r))),
    )

found-Sole :
    (deps : ResolverDeps) (message : Message) (found : Option (List OwnerTarget)) (t : OwnerTarget)
    → Names (resolve_among deps message found) t
    → (waiting : List OwnerTarget) × (found ≡ some waiting) × Sole deps message waiting t
found-Sole deps message none t h = elim (refusal-unnamed Category.no_waiting_owner t h) [ ]
found-Sole deps message (some waiting) t h = (waiting, refl, among-Sole deps message waiting t h)

checks-Names :
    (a b : Bool) (v : Verdict) (t : OwnerTarget)
    → Names (if a then (if b then v else refusal Category.invalid) else refusal Category.invalid) t
    → (a ≡ true) × (b ≡ true) × Names v t
checks-Names true true v t h = (refl, refl, h)
checks-Names true false v t h = elim (refusal-unnamed Category.invalid t h) [ ]
checks-Names false b v t h = elim (refusal-unnamed Category.invalid t h) [ ]

-- A decision that is resolved to an owner without the legacy fallback is valid, the owner is
-- one of those that wait and are in the state of waiting or in none, the decision refers to its
-- question, and every other waiting owner with a question that the decision refers to has the
-- same kind, id and generation.
pub resolve_decision-Sole :
    (deps : ResolverDeps) (message : Message) (t : OwnerTarget)
    → Resolves deps message t
    → (is_valid deps message ≡ true)
      × ((waiting : List OwnerTarget) × (deps.discover_all ≡ some waiting)
          × Sole deps message waiting t)
resolve_decision-Sole deps message t h =
    let (allowed, valid, named) =
      checks-Names (get_or deps.channel_id "board:work-notes" == "board:work-notes")
        (is_valid deps message) (resolve_among deps message deps.discover_all) t h in
    (valid, found-Sole deps message deps.discover_all t named)
