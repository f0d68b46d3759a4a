-- ===== src/GoalInterrupt/Newest.antt =====
-- The compensation receipt of goal_interrupt/store.py is the newest recovered decision of a history.
use fleet_graph.Common.{
  Bool-cases, In, List, Option, String, [], arith, inl, inr, none, refl, some, subst, ℕ, ◌∷◌, ◌≡◌,
  ◌⊎◌,
}
use fleet_graph.Common.Dict.{lookup}
use fleet_graph.Common.Order.{pair_leb, pair_leb-total, pair_leb_refl, pair_leb_trans}
use fleet_graph.GoalInterrupt.{GoalInterruptStore, empty_store}
use fleet_graph.GoalInterrupt.Effects.{compensated_at}
use fleet_graph.GoalInterrupt.Forward.{compensate-effect, newer}
use fleet_graph.GoalInterrupt.History.{Below, Call, Newest, compensated_by, perform, run}

abbrev Pair : Type 0
Pair = ℕ × String

-- The newest of what was there before and of what a history says.
abbrev NewestFrom : Option Pair → (Call → Option Pair) → List Call → Option Pair → Type 0
NewestFrom o says log none = (o ≡ none) × Newest says log none
NewestFrom o says log (some p) =
    ((o ≡ some p) ⊎ ((call : Call) × In call log × (says call ≡ some p)))
    × Below o p
    × ((call : Call) → In call log → Below (says call) p)

newer-eq_none : (o w : Option Pair) → newer o w ≡ none → (o ≡ none) × (w ≡ none)
newer-eq_none none w h = (refl, h)
newer-eq_none (some x) none h = cc
newer-eq_none (some (n, a)) (some (m, b)) h = ground arith

newer-cases : (o w : Option Pair) (p : Pair) → newer o w ≡ some p → (o ≡ some p) ⊎ (w ≡ some p)
newer-cases none w p h = inr h
newer-cases (some x) none p h = inl h
newer-cases (some (n, a)) (some (m, b)) p h = ground arith

newer-Below : (o w : Option Pair) (p : Pair) → Below (newer o w) p → Below o p × Below w p
newer-Below none w p h = (tt, h)
newer-Below (some x) none p h = (h, tt)
newer-Below (some (n, a)) (some (m, b)) (k, c) h = elim (Bool-cases (pair_leb m b n a)) [
  | inl e ↦ let g = rw e at h in (g, pair_leb_trans m n k b a c e g)
  | inr e ↦ let g = rw e at h in (pair_leb_trans n m k a b c (pair_leb-total m n b a e) g, g)
]

newest-step :
    (o : Option Pair) (says : Call → Option Pair) (call : Call) (later : List Call)
    (r : Option Pair)
    → NewestFrom (newer o (says call)) says later r
    → NewestFrom o says (call ∷ later) r
newest-step o says call later none (e, f) =
    let (g, h) = newer-eq_none o (says call) e in
    (g, λ c i. elim i [ inl q ↦ subst (λ x. says x ≡ none) q h | inr j ↦ f c j ])
newest-step o says call later (some p) (found, most, rest) =
    let (g, h) = newer-Below o (says call) p most in
    (
      elim found [
        | inl e ↦ elim (newer-cases o (says call) p e) [
          | inl q ↦ inl q
          | inr q ↦ inr (call, inl refl, q)
        ]
        | inr (c, i, q) ↦ inr (c, inr i, q)
      ],
      g,
      λ c i. elim i [ inl q ↦ subst (λ x. Below (says x) p) q h | inr j ↦ rest c j ],
    )

newest-start : (o : Option Pair) (says : Call → Option Pair) → NewestFrom o says [] o
newest-start none says = (refl, λ c i. elim i [ ])
newest-start (some (n, m)) says = (inl refl, pair_leb_refl n m, λ c i. elim i [ ])

run-NewestFrom :
    (key : String) (log : List Call) (s : GoalInterruptStore)
    → NewestFrom (compensated_at key s) (compensated_by key) log (compensated_at key (run log s))
run-NewestFrom key [] s = newest-start (compensated_at key s) (compensated_by key)
run-NewestFrom key (call ∷ later) s =
    newest-step (compensated_at key s) (compensated_by key) call later
      (compensated_at key (run later (perform call s)))
      (subst
        (λ o.
          NewestFrom o (compensated_by key) later (compensated_at key (run later (perform call s))))
        (compensate-effect key call s) (run-NewestFrom key later (perform call s)))

NewestFrom-none :
    (says : Call → Option Pair) (log : List Call) (r : Option Pair)
    → NewestFrom none says log r
    → Newest says log r
NewestFrom-none says log none (e, f) = f
NewestFrom-none says log (some p) (inl e, most, rest) = cc
NewestFrom-none says log (some p) (inr found, most, rest) = (found, rest)

pub run-Newest :
    (key : String) (log : List Call)
    → Newest (compensated_by key) log (compensated_at key (run log empty_store))
unfolding lookup
run-Newest key log =
    NewestFrom-none (compensated_by key) log (compensated_at key (run log empty_store))
      (run-NewestFrom key log empty_store)
