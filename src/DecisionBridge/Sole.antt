-- ===== src/DecisionBridge/Sole.antt =====
-- The owners that the resolver of decision_bridge/resolver.py keeps of those that match: one for each
-- kind, id and generation.
use fleet_graph.Common.{
  Bool, Bool-cases, In, List, [], arith, eq_iff, false, if◌then◌else◌, inl, inr, refl, true, ◌∷◌,
  ◌≡◌, ◌⊎◌,
}
use fleet_graph.DecisionBridge.{OwnerTarget}
use fleet_graph.DecisionBridge.Resolver.{add_owner, same_owner, unique_owners}

-- One owner, whatever it says of its question: the key of the resolver's dict.
abbrev pub Same : OwnerTarget → OwnerTarget → Type 0
Same t u = (t.kind ≡ u.kind) × (t.id ≡ u.id) × (t.generation ≡ u.generation)

same_owner-Same : (t u : OwnerTarget) → same_owner t u ≡ true → Same t u
same_owner-Same t u h = ground (arith, eq_iff t.kind u.kind, eq_iff t.id u.id)

-- Some owner of a list is the given one.
abbrev pub Kept : OwnerTarget → List OwnerTarget → Type 0
Kept t found = (u : OwnerTarget) × In u found × Same t u

either :
    (b : Bool) (xs ys : List OwnerTarget) (x : OwnerTarget)
    → In x (if b then xs else ys)
    → In x xs ⊎ In x ys
either true xs ys x i = inl i
either false xs ys x i = inr i

add_owner-In :
    (t : OwnerTarget) (found : List OwnerTarget) (x : OwnerTarget)
    → In x (add_owner t found)
    → (t ≡ x) ⊎ In x found
add_owner-In t [] x (inl e) = inl e
add_owner-In t [] x (inr i) = elim i [ ]
add_owner-In t (u ∷ us) x i = elim (either (same_owner t u) (t ∷ us) (u ∷ add_owner t us) x i) [
  | inl (inl e) ↦ inl e
  | inl (inr k) ↦ inr (inr k)
  | inr (inl e) ↦ inr (inl e)
  | inr (inr k) ↦ elim (add_owner-In t us x k) [ inl e ↦ inl e | inr l ↦ inr (inr l) ]
]

add_owner-Kept_self : (t : OwnerTarget) (found : List OwnerTarget) → Kept t (add_owner t found)
add_owner-Kept_self t [] = (t, inl refl, (refl, refl, refl))
add_owner-Kept_self t (u ∷ us) = elim (Bool-cases (same_owner t u)) [
  | inl h ↦ rw h (t, inl refl, (refl, refl, refl))
  | inr h ↦ let (v, i, s) = add_owner-Kept_self t us in rw h (v, inr i, s)
]

Kept-place :
    (t u : OwnerTarget) (us : List OwnerTarget) (x v : OwnerTarget)
    → In v (u ∷ us)
    → Same x v
    → Same t u
    → Kept x (t ∷ us)
Kept-place t u us x v (inl e) s r = (t, inl refl, (cc, cc, cc))
Kept-place t u us x v (inr j) s r = (v, inr j, s)

add_owner-Kept :
    (t : OwnerTarget) (found : List OwnerTarget) (x : OwnerTarget)
    → Kept x found
    → Kept x (add_owner t found)
add_owner-Kept t [] x (v, i, s) = elim i [ ]
add_owner-Kept t (u ∷ us) x (v, i, s) = elim (Bool-cases (same_owner t u)) [
  | inl h ↦ rw h (Kept-place t u us x v i s (same_owner-Same t u h))
  | inr h ↦ rw h (elim i [
    | inl e ↦ (v, inl e, s)
    | inr j ↦ let (w, k, r) = add_owner-Kept t us x (v, j, s) in (w, inr k, r)
  ])
]

pub unique-In :
    (found ts : List OwnerTarget) (x : OwnerTarget)
    → In x (unique_owners found ts)
    → In x found ⊎ In x ts
unique-In found [] x i = inl i
unique-In found (t ∷ ts) x i = elim (unique-In (add_owner t found) ts x i) [
  | inl j ↦ elim (add_owner-In t found x j) [ inl e ↦ inr (inl e) | inr k ↦ inl k ]
  | inr j ↦ inr (inr j)
]

unique-Kept_found :
    (found ts : List OwnerTarget) (x : OwnerTarget) → Kept x found → Kept x (unique_owners found ts)
unique-Kept_found found [] x k = k
unique-Kept_found found (t ∷ ts) x k =
    unique-Kept_found (add_owner t found) ts x (add_owner-Kept t found x k)

pub unique-Kept :
    (found ts : List OwnerTarget) (x : OwnerTarget) → In x ts → Kept x (unique_owners found ts)
unique-Kept found [] x i = elim i [ ]
unique-Kept found (t ∷ ts) x (inl e) =
    unique-Kept_found (add_owner t found) ts x
      (let (u, i, s) = add_owner-Kept_self t found in (u, i, (cc, cc, cc)))
unique-Kept found (t ∷ ts) x (inr i) = unique-Kept (add_owner t found) ts x i
