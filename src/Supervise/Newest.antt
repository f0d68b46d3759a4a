-- ===== src/Supervise/Newest.antt =====
-- The preauth that `latest_preauth_for` chooses.
use fleet_graph.Common.{
  >>=-eq-ok, Bool, In, List, Option, Result, String, [], ap, arith, err, false, if◌then◌else◌, inl,
  inr, none, none_not_some, ok, ok_injective, ok_not_err, refl, some, some_injective, subst, sym,
  true, true_not_false, ℕ, ◌∙◌, ◌∷◌, ◌≡◌, ◌≤◌, ◌⊎◌,
}
use fleet_graph.Common.Json.{Fields, get_field}
use fleet_graph.Common.Values.{int_or_zero}
use fleet_graph.GoalLine.Termination.{steps}
use fleet_graph.Supervise.{Preauth, PreauthDeps, PreauthError}
use fleet_graph.Supervise.Protocol.{is_preauth, parsed, payload_of}
use fleet_graph.Supervise.Release.{
  Latest, for_other_card, latest_from, latest_preauth_for, not_beaten, placed, weighed,
}

-- A message whose payload is a preauth of the card at a place on the channel.
pub record Stands (deps : PreauthDeps) (card : String) (m payload : Fields) (p : Preauth) (seq : ℕ)
    : Type 0 where
  pub is_one : is_preauth payload ≡ true
  pub is_parsed : parsed deps m payload ≡ ok p
  pub for_card : for_other_card card p ≡ false
  pub place : int_or_zero deps.int_of (get_field "channel_seq" m) ≡ some seq

abbrev pub Candidate : PreauthDeps → String → List Fields → Preauth → ℕ → Type 0
Candidate deps card ms p seq =
    (m payload : Fields) × In m ms × (payload_of m ≡ ok payload) × Stands deps card m payload p seq

abbrev pub AtLeast : Option (Preauth × ℕ) → ℕ → Type 0
AtLeast none s = ⊥
AtLeast (some (p, best)) s = s ≤ best

-- What one message makes of the best so far.
abbrev From : PreauthDeps → String → Fields → Fields → Latest → Latest → Type 0
From deps card m payload found next =
    ((p : Preauth) (seq : ℕ)
      → next.best ≡ some (p, seq)
      → (found.best ≡ some (p, seq)) ⊎ Stands deps card m payload p seq)
    × ((s : ℕ) → AtLeast found.best s → AtLeast next.best s)
    × ((p : Preauth) (s : ℕ) → Stands deps card m payload p s → AtLeast next.best s)

not_beaten-le :
    (best : Option (Preauth × ℕ)) (seq s : ℕ)
    → not_beaten best seq ≡ true
    → AtLeast best s
    → s ≤ seq
not_beaten-le none seq s h a = elim a [ ]
not_beaten-le (some (p, b)) seq s h a = ground arith

beaten-AtLeast :
    (best : Option (Preauth × ℕ)) (seq : ℕ) → not_beaten best seq ≡ false → AtLeast best seq
beaten-AtLeast none seq h = cc
beaten-AtLeast (some (p, b)) seq h = ground arith

module _ (deps : PreauthDeps) (card : String) (m payload : Fields) where
  stood-once :
      {p q : Preauth} {a b : ℕ}
      → Stands deps card m payload p a
      → Stands deps card m payload q b
      → (p ≡ q) × (a ≡ b)
  stood-once x y =
      (ok_injective (sym x.is_parsed ∙ y.is_parsed), some_injective (sym x.place ∙ y.place))

  chosen :
      (b : Bool) (found : Latest) (p : Preauth) (seq : ℕ)
      → not_beaten found.best seq ≡ b
      → Stands deps card m payload p seq
      → From deps card m payload found (if b then record found { best = some (p, seq) } else found)
  chosen true found p seq h stands = (
    λ q s e. inr (subst (λ r. Stands deps card m payload r.0 r.1) (some_injective e) stands),
    λ s a. not_beaten-le found.best seq s h a,
    λ q s other. subst (λ n. n ≤ seq) (stood-once stands other).1 (omega arith),
  )
  chosen false found p seq h stands = (
    λ q s e. inl e,
    λ s a. a,
    λ q s other.
        subst (AtLeast found.best) (stood-once stands other).1 (beaten-AtLeast found.best seq h),
  )

  unchanged :
      (found next : Latest)
      → next.best ≡ found.best
      → ((p : Preauth) (s : ℕ) → Stands deps card m payload p s → ⊥)
      → From deps card m payload found next
  unchanged found next e never = (
    λ p s f. inl (sym e ∙ f),
    λ s a. subst (λ b. AtLeast b s) (sym e) a,
    λ p s stands. elim (never p s stands) [ ],
  )

  placed-From :
      (o : Option ℕ) (found next : Latest) (p : Preauth)
      → int_or_zero deps.int_of (get_field "channel_seq" m) ≡ o
      → ((s : ℕ) → o ≡ some s → Stands deps card m payload p s)
      → placed o found p ≡ ok next
      → From deps card m payload found next
  placed-From none found next p e stands h = cc
  placed-From (some seq) found next p e stands h =
      subst (From deps card m payload found) (ok_injective h)
        (chosen (not_beaten found.best seq) found p seq refl (stands seq refl))

  judged-From :
      (b : Bool) (found next : Latest) (p : Preauth)
      → for_other_card card p ≡ b
      → is_preauth payload ≡ true
      → parsed deps m payload ≡ ok p
      → (if b
          then ok found
          else placed (int_or_zero deps.int_of (get_field "channel_seq" m)) found p)
        ≡ ok next
      → From deps card m payload found next
  judged-From true found next p other one reads h =
      unchanged found next (ap (λ n. n.best) (sym (ok_injective h))) (λ q s stands. true_not_false (
        sym other
        ∙ ap (for_other_card card) (ok_injective (sym reads ∙ stands.is_parsed))
        ∙ stands.for_card))
  judged-From false found next p mine one reads h =
      placed-From _ found next p refl
        (λ s e. record { is_one = one; is_parsed = reads; for_card = mine; place = e }) h

  weighed-From :
      (r : Result PreauthError Preauth) (found next : Latest)
      → is_preauth payload ≡ true
      → parsed deps m payload ≡ r
      → weighed deps card m found r ≡ ok next
      → From deps card m payload found next
  weighed-From (err e) found next one reads h =
      unchanged found next (ap (λ n. n.best) (sym (ok_injective h)))
        (λ p s stands. ok_not_err (sym stands.is_parsed ∙ reads))
  weighed-From (ok p) found next one reads h = judged-From _ found next p refl one reads h

  considered-From :
      (b : Bool) (found next : Latest)
      → is_preauth payload ≡ b
      → (if b then weighed deps card m found (parsed deps m payload) else ok found) ≡ ok next
      → From deps card m payload found next
  considered-From true found next one h = weighed-From _ found next one refl h
  considered-From false found next never h =
      unchanged found next (ap (λ n. n.best) (sym (ok_injective h)))
        (λ p s stands. true_not_false (sym stands.is_one ∙ never))

module _ (deps : PreauthDeps) (card : String) where
  -- The best after some messages is the best before them or one of theirs, and nothing surpasses it.
  abbrev After : List Fields → Latest → Latest → Type 0
  After ms found last =
      ((p : Preauth) (seq : ℕ)
        → last.best ≡ some (p, seq)
        → (found.best ≡ some (p, seq)) ⊎ Candidate deps card ms p seq)
      × ((s : ℕ) → AtLeast found.best s → AtLeast last.best s)
      × ((p : Preauth) (s : ℕ) → Candidate deps card ms p s → AtLeast last.best s)

  After-both :
      (m payload : Fields) (ms : List Fields) (found next last : Latest)
      → payload_of m ≡ ok payload
      → From deps card m payload found next
      → After ms next last
      → After (m ∷ ms) found last
  After-both m payload ms found next last reads (came, kept_it, takes)
        (came_on, kept_on, takes_on) =
      (
        λ p s e. elim (came_on p s e) [
          | inr (n, q, i, r, stands) ↦ inr (n, q, inr i, r, stands)
          | inl f ↦ elim (came p s f) [
            | inl g ↦ inl g
            | inr stands ↦ inr (m, payload, inl refl, reads, stands)
          ]
        ],
        λ s a. kept_on s (kept_it s a),
        λ p s (n, q, i, r, stands). elim i [
          | inr j ↦ takes_on p s (n, q, j, r, stands)
          | inl e ↦ kept_on s (
              takes p s (
                subst (λ f. Stands deps card m f p s)
                  (ok_injective (sym r ∙ ap payload_of (sym e) ∙ reads))
                  (subst (λ k. Stands deps card k q p s) (sym e) stands)))
        ],
      )

  latest_from-After :
      (ms : List Fields) (found last : Latest)
      → latest_from deps card found ms ≡ ok last
      → After ms found last
  latest_from-After [] found last h = (
    λ p s e. inl (ap (λ n. n.best) (ok_injective h) ∙ e),
    λ s a. subst (λ n. AtLeast n.best s) (ok_injective h) a,
    λ p s (n, q, i, r, stands). elim i [ ],
  )
  latest_from-After (m ∷ ms) found last h =
      let (payload, reads, h1) = >>=-eq-ok _ _ h in
      let (next, steps, h2) = >>=-eq-ok _ _ h1 in
      After-both m payload ms found next last reads
        (considered-From deps card m payload (is_preauth payload) found next refl steps)
        (latest_from-After ms next last h2)

-- A best that no candidate surpasses is one of the candidates; none is best where there is none.
abbrev pub Newest : PreauthDeps → String → List Fields → Option (Preauth × ℕ) → Type 0
Newest deps card ms none = (p : Preauth) (seq : ℕ) → Candidate deps card ms p seq → ⊥
Newest deps card ms (some (p, seq)) =
    Candidate deps card ms p seq
    × ((q : Preauth) (other : ℕ) → Candidate deps card ms q other → other ≤ seq)

After-Newest :
    (deps : PreauthDeps) (card : String) (ms : List Fields) (best : Option (Preauth × ℕ))
    → ((p : Preauth) (seq : ℕ) → best ≡ some (p, seq) → Candidate deps card ms p seq)
    → ((p : Preauth) (seq : ℕ) → Candidate deps card ms p seq → AtLeast best seq)
    → Newest deps card ms best
After-Newest deps card ms none came takes = takes
After-Newest deps card ms (some (p, seq)) came takes = (came p seq refl, takes)

-- Where no message makes it raise, the preauth chosen for a card is one that stands in a
-- message of the list and is not surpassed on the channel by another one for the card, and
-- there is none for the card if none is chosen.
pub latest_preauth_for-Newest :
    (deps : PreauthDeps) (card : String) (ms : List Fields) {found : Latest}
    → latest_preauth_for deps ms card ≡ ok found
    → Newest deps card ms found.best
unfolding latest_preauth_for
latest_preauth_for-Newest deps card ms {found} h =
    let (came, _, takes) = latest_from-After deps card ms _ found h in
    After-Newest deps card ms found.best
      (λ p s e. elim (came p s e) [ inl f ↦ elim (none_not_some f) [ ] | inr c ↦ c ]) takes
