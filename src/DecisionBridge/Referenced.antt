-- ===== src/DecisionBridge/Referenced.antt =====
-- Which questions a decision refers to: `_referenced_questions` of decision_bridge/resolver.py.
use fleet_graph.Common.{
  Bool, Bool-cases, In, In-elem, List, String, [], elem, elem-In, false, filter, if◌then◌else◌, inl,
  inr, refl, sym, true, ◌++◌, ◌∷◌, ◌≡◌,
}
use fleet_graph.Common.Dict.{keys}
use fleet_graph.DecisionBridge.{OwnerTarget}
use fleet_graph.DecisionBridge.Resolver.{
  ResolverDeps, distinct, is_empty, question_ids, referenced_questions, refers,
}

module _ {A : Type 0} where
  by_test :
      (p : A → Bool) (y : A) (ys : List A) (x : A) (b : Bool)
      → p y ≡ b
      → In x (if b then y ∷ filter p ys else filter p ys)
      → (In x (filter p ys) → In x ys × (p x ≡ true))
      → In x (y ∷ ys) × (p x ≡ true)
  by_test p y ys x true h (inl e) later = (inl e, cc)
  by_test p y ys x true h (inr i) later = let (j, q) = later i in (inr j, q)
  by_test p y ys x false h i later = let (j, q) = later i in (inr j, q)

  pub filter-In : (p : A → Bool) (xs : List A) (x : A) → In x (filter p xs) → In x xs × (p x ≡ true)
  filter-In p [] x i = elim i [ ]
  filter-In p (y ∷ ys) x i = by_test p y ys x (p y) refl i (filter-In p ys x)

  pub In-filter : (p : A → Bool) (xs : List A) (x : A) → In x xs → p x ≡ true → In x (filter p xs)
  In-filter p [] x i h = elim i [ ]
  In-filter p (y ∷ ys) x (inl e) h = let there : p y ≡ true = cc in rw there (inl e)
  In-filter p (y ∷ ys) x (inr i) h = elim (Bool-cases (p y)) [
    | inl g ↦ rw g (inr (In-filter p ys x i h))
    | inr g ↦ rw g (In-filter p ys x i h)
  ]

  In-append : (xs ys : List A) (x : A) → In x xs → In x (xs ++ ys)
  In-append [] ys x i = elim i [ ]
  In-append (y ∷ xs) ys x (inl e) = inl e
  In-append (y ∷ xs) ys x (inr i) = inr (In-append xs ys x i)

In-distinct : (xs : List String) (x : String) → In x xs → In x (distinct xs)
In-distinct [] x i = elim i [ ]
In-distinct (y ∷ ys) x (inl e) = elim (Bool-cases (elem y (distinct ys))) [
  | inl h ↦ rw (h, sym e) (elem-In y (distinct ys) h)
  | inr h ↦ rw h (inl e)
]
In-distinct (y ∷ ys) x (inr i) = elim (Bool-cases (elem y (distinct ys))) [
  | inl h ↦ rw h (In-distinct ys x i)
  | inr h ↦ rw h (inr (In-distinct ys x i))
]

In-question_ids :
    (ts : List OwnerTarget) (t : OwnerTarget)
    → In t ts
    → is_empty t.question_note_id ≡ false
    → In t.question_note_id (question_ids ts)
In-question_ids [] t i h = elim i [ ]
In-question_ids (u ∷ us) t (inl e) h =
    let named : is_empty u.question_note_id ≡ false = cc in rw named (inl cc)
In-question_ids (u ∷ us) t (inr i) h = elim (Bool-cases (is_empty u.question_note_id)) [
  | inl g ↦ rw g (In-question_ids us t i h)
  | inr g ↦ rw g (inr (In-question_ids us t i h))
]

-- A question that a waiting owner names is found where the decision refers to it.
pub referenced-elem :
    (deps : ResolverDeps) (message_id : String) (waiting : List OwnerTarget) (t : OwnerTarget)
    → In t waiting
    → is_empty t.question_note_id ≡ false
    → refers deps message_id t.question_note_id ≡ true
    → elem t.question_note_id (referenced_questions deps message_id waiting) ≡ true
referenced-elem deps message_id waiting t i h r =
    let ids = question_ids waiting ++ keys deps.question_texts in
    In-elem t.question_note_id (referenced_questions deps message_id waiting) (
      In-filter (refers deps message_id) (distinct ids) t.question_note_id
        (In-distinct ids t.question_note_id (
          In-append (question_ids waiting) (keys deps.question_texts) t.question_note_id
            (In-question_ids waiting t i h)))
        r)

pub elem-referenced :
    (deps : ResolverDeps) (message_id : String) (waiting : List OwnerTarget) (question : String)
    → elem question (referenced_questions deps message_id waiting) ≡ true
    → refers deps message_id question ≡ true
elem-referenced deps message_id waiting question h =
    (filter-In (refers deps message_id)
      (distinct (question_ids waiting ++ keys deps.question_texts)) question
      (elem-In question (referenced_questions deps message_id waiting) h)).1
