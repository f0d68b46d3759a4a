-- ===== src/GoalLine/FanOut.antt =====
-- The fan-out of declared actions in graphs/goal_line.py.
use fleet_graph.Common.{
  Bool, Bool-cases, In, In-append_left, In-append_right, List, [], arith, elem, eq_iff, filter, inl,
  inr, not, refl, subst, sym, true, ◌++◌, ◌∷◌, ◌≡◌,
}
use fleet_graph.GoalLine.{Action}
use fleet_graph.GoalLine.Graph.{consumed, is_dispatch, is_release, keys_of, sends}

In-keys : (a : Action) (xs : List Action) → In a xs → elem a.idempotency_key (keys_of xs) ≡ true
In-keys a [] i = elim i [ ]
In-keys a (x ∷ xs) (inl e) = rw e (ground (arith, eq_iff a.idempotency_key a.idempotency_key))
In-keys a (x ∷ xs) (inr i) = ground (arith, In-keys a xs i)

In-filter :
    (p : Action → Bool) (a : Action) (xs : List Action) → In a xs → p a ≡ true → In a (filter p xs)
In-filter p a [] i h = elim i [ ]
In-filter p a (x ∷ xs) (inl e) h = rw (subst (λ y. p y ≡ true) (sym e) h) (inl e)
In-filter p a (x ∷ xs) (inr i) h = elim (Bool-cases (p x)) [
  | inl e ↦ rw e (inr (In-filter p a xs i h))
  | inr e ↦ rw e (In-filter p a xs i h)
]

filter-gone :
    (p gone : Action → Bool) (xs : List Action)
    → ((a : Action) → In a xs → p a ≡ true → gone a ≡ true)
    → filter p (filter (λ a. not (gone a)) xs) ≡ []
filter-gone p gone [] h = refl
filter-gone p gone (x ∷ xs) h =
    ground (arith, filter-gone p gone xs (λ a i. h a (inr i)), h x (inl refl))

-- Once the fan-out is merged, nothing is left to send.
pub sends-consumed : (actions : List Action) → sends (consumed (sends actions) actions) ≡ []
unfolding sends consumed
sends-consumed actions =
    let sent = filter is_dispatch actions ++ filter is_release actions in
    let gone : Action → Bool = λ a. elem a.idempotency_key (keys_of sent) in
    rw
      (
        filter-gone is_dispatch gone actions (λ a i h. In-keys a sent (
            In-append_left a (filter is_dispatch actions) (filter is_release actions)
              (In-filter is_dispatch a actions i h))),
        filter-gone is_release gone actions (λ a i h. In-keys a sent (
            In-append_right a (filter is_dispatch actions) (filter is_release actions)
              (In-filter is_release a actions i h))),
      )
      refl
