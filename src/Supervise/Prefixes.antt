-- ===== src/Supervise/Prefixes.antt =====
-- Prefixes of a ref that stands at or below a branch, and what the checks of a prefix say of them.
use fleet_graph.Common.{
  Bool-cases, In, List, String, [], arith, false, inl, inr, refl, subst, true, ℕ, ◌++◌, ◌∷◌, ◌≡◌,
  ◌⊎◌,
}
use fleet_graph.Common.Text.{codes, starts_with}
use fleet_graph.Supervise.Protocol.{has_segment, head_ref, protected_branches, segments}

-- A ref that is the root, or lies below it.
abbrev pub AtOrBelow : List ℕ → List ℕ → Type 0
AtOrBelow root ref = (ref ≡ root) ⊎ ((rest : List ℕ) × (ref ≡ root ++ b'/' ∷ rest))

-- A prefix of a joined text ends in its first part, or reaches into the second.
starts_with-append :
    (x y p : List ℕ)
    → starts_with (x ++ y) p ≡ true
    → (starts_with x p ≡ true) ⊎ ((q : List ℕ) × (p ≡ x ++ q) × (starts_with y q ≡ true))
unfolding starts_with
starts_with-append [] y p h = inr (p, refl, h)
starts_with-append (c ∷ cs) y [] h = inl refl
starts_with-append (c ∷ cs) y (d ∷ ps) h = elim (starts_with-append cs y ps (ground arith)) [
  | inl e ↦ inl (ground arith)
  | inr (q, e, f) ↦ inr (q, ground arith, f)
]

starts_with-append_nil : (x : List ℕ) → starts_with x (x ++ []) ≡ true
unfolding starts_with
starts_with-append_nil [] = refl
starts_with-append_nil (c ∷ cs) = ground (arith, starts_with-append_nil cs)

into_root :
    (root rest p q : List ℕ) (segment : List ℕ)
    → starts_with root p ≡ false
    → has_segment segment p ≡ false
    → ((q : List ℕ) → has_segment segment (root ++ b'/' ∷ q) ≡ true)
    → p ≡ root ++ q
    → starts_with (b'/' ∷ rest) q ≡ true
    → ⊥
unfolding starts_with
into_root root rest p [] segment outside clear named e f =
    ground (arith, starts_with-append_nil root)
into_root root rest p (c ∷ q) segment outside clear named e f = ground (arith, named q)

-- A prefix that neither reaches the root nor names the segment covers nothing at or below the root.
pub outside-uncovered :
    (root segment ref p : List ℕ)
    → starts_with root p ≡ false
    → has_segment segment p ≡ false
    → ((q : List ℕ) → has_segment segment (root ++ b'/' ∷ q) ≡ true)
    → AtOrBelow root ref
    → starts_with ref p ≡ false
outside-uncovered root segment ref p outside clear named (inl e) = rw e outside
outside-uncovered root segment ref p outside clear named (inr (rest, e)) =
    elim (Bool-cases (starts_with ref p)) [
      | inr off ↦ off
      | inl on ↦
          elim (starts_with-append root (b'/' ∷ rest) p
            (subst (λ r. starts_with r p ≡ true) e on)) [
              | inl reached ↦ cc
              | inr (q, split, f) ↦
                  elim (into_root root rest p q segment outside clear named split f) [ ]
            ]
    ]

abbrev Named : String → Type 0
Named b =
    ((q : List ℕ) → has_segment (codes b) (codes b ++ b'/' ∷ q) ≡ true)
    × ((q : List ℕ) → has_segment (codes b) (head_ref b ++ b'/' ∷ q) ≡ true)

-- What lies below a protected branch has the name of that branch as a segment.
pub below-Named : (b : String) → In b protected_branches → Named b
unfolding segments codes
below-Named b (inl e) = subst Named e (λ q. refl, λ q. refl)
below-Named b (inr (inl e)) = subst Named e (λ q. refl, λ q. refl)
below-Named b (inr (inr (inl e))) = subst Named e (λ q. refl, λ q. refl)
below-Named b (inr (inr (inr (inl e)))) = subst Named e (λ q. refl, λ q. refl)
below-Named b (inr (inr (inr (inr none_left)))) = elim none_left [ ]
