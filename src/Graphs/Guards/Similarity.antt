-- ===== src/Graphs/Guards/Similarity.antt =====
-- Repeated prompts are refused: graphs/guards.py, INV-9 and INV-9b.
use fleet_graph.Common.{
  Bool, List, Option-cases, String, [], ap, arith, false, filter, inl, inr, leb, length,
  length-append, not, refl, some, true, ℕ, ◌*◌, ◌<◌, ◌∷◌, ◌≡◌, ◌≤◌,
}
use fleet_graph.Common.Dict.{lookup, lookup-insert_self}
use fleet_graph.Graphs.Guards.{
  LineGuards, PromptVerdict, Text, accept_prompt, at_least, bigram_set, bigrams_of, check_prompt,
  has, injectable, jaccard, prompt_similarity, strip, text_eq,
}

length-filter : (p : Text → Bool) (xs : List Text) → length (filter p xs) ≤ length xs
length-filter p [] = omega arith
length-filter p (x ∷ xs) = ground (arith, length-filter p xs)

text_eq_refl : (x : Text) → text_eq x x ≡ true
text_eq_refl [] = refl
text_eq_refl (c ∷ x) = ground (arith, text_eq_refl x)

has_all :
    (xs ys : List Text) → ((x : Text) → has ys x ≡ true → has xs x ≡ true) → filter (has xs) ys ≡ ys
has_all xs [] h = refl
has_all xs (y ∷ ys) h =
    rw (h y (ground (arith, text_eq_refl y)))
      (ap (λ l. y ∷ l) (has_all xs ys (λ x q. h x (ground (arith, q)))))

has_none :
    (xs ys : List Text)
    → ((x : Text) → has ys x ≡ true → has xs x ≡ true)
    → filter (λ x. not (has xs x)) ys ≡ []
has_none xs [] h = refl
has_none xs (y ∷ ys) h =
    rw (h y (ground (arith, text_eq_refl y))) (has_none xs ys (λ x q. h x (ground (arith, q))))

jaccard-bounds :
    (a b : List Text) → ((jaccard a b).part ≤ (jaccard a b).whole) × (0 < (jaccard a b).whole)
jaccard-bounds [] [] = (omega arith, omega arith)
jaccard-bounds [] (y ∷ ys) = (omega arith, omega arith)
jaccard-bounds (x ∷ xs) [] = (omega arith, omega arith)
jaccard-bounds (x ∷ xs) (y ∷ ys) =
    let l = length-filter (has (y ∷ ys)) (x ∷ xs) in
    let j = length-append (x ∷ xs) (filter (λ z. not (has (x ∷ xs) z)) (y ∷ ys)) in
    (omega (arith, l, j), omega (arith, j))

whole_self : (a : List Text) → (jaccard a a).part ≡ (jaccard a a).whole
whole_self [] = refl
whole_self (x ∷ xs) =
    let a = x ∷ xs in
    let j = length-append a (filter (λ z. not (has a z)) a) in
    let n = ap length (has_none a a (λ z h. h)) in
    let c = ap length (has_all a a (λ z h. h)) in omega (arith, j, n, c)

le→leb : (a b : ℕ) → a ≤ b → leb a b ≡ true
le→leb a b h = ground arith

alike_self : (a : List Text) (t : ℕ) → t ≤ 100 → at_least (jaccard a a) t ≡ true
alike_self a t h =
    le→leb (t * (jaccard a a).whole) (100 * (jaccard a a).part) (rw (whole_self a) (grind arith))

-- A similarity is a fraction of at most 1 with a positive denominator.
pub prompt_similarity-bounds :
    (a b : Text)
    → ((prompt_similarity a b).part ≤ (prompt_similarity a b).whole)
      × (0 < (prompt_similarity a b).whole)
prompt_similarity-bounds a b = jaccard-bounds (bigram_set a) (bigram_set b)

-- Prompts that differ in white space only are wholly alike, so that the second is never injected
-- right after the first, under any threshold of at most 1.
pub check_prompt-respaced :
    (digest : Text → String) (g : LineGuards) (prev prompt : Text)
    → g.prev_prompt ≡ some prev
    → strip prev ≡ strip prompt
    → g.bounds.repeat_hundredths ≤ 100
    → injectable (check_prompt digest g prompt) ≡ false
unfolding check_prompt
check_prompt-respaced digest g prev prompt e s t =
    let alike : at_least (prompt_similarity prev prompt) g.bounds.repeat_hundredths ≡ true =
      rw (ap bigrams_of s) (alike_self (bigram_set prompt) g.bounds.repeat_hundredths t) in
    elim (Option-cases (lookup (digest prompt) g.prompts_seen)) [
      | inl h ↦ rw (h, e, alike) refl
      | inr (r, h) ↦ rw h refl
    ]

seen_again :
    (digest : Text → String) (n : LineGuards) (prompt : Text) (round_no : ℕ)
    → lookup (digest prompt) n.prompts_seen ≡ some round_no
    → ((check_prompt digest n prompt).verdict ≡ PromptVerdict.duplicate)
      × ((check_prompt digest n prompt).first_seen_round ≡ some round_no)
unfolding check_prompt
seen_again digest n prompt round_no h = rw h (refl, refl)

sha-check :
    (digest : Text → String) (g : LineGuards) (prompt : Text)
    → (check_prompt digest g prompt).sha256 ≡ digest prompt
unfolding check_prompt
sha-check digest g prompt = ground arith

recorded :
    (digest : Text → String) (g n : LineGuards) (prompt : Text) (round_no : ℕ)
    → accept_prompt g (check_prompt digest g prompt) prompt round_no ≡ some n
    → lookup (digest prompt) n.prompts_seen ≡ some round_no
unfolding accept_prompt
recorded digest g n prompt round_no e =
    ground
      (arith, sha-check digest g prompt, lookup-insert_self (digest prompt) round_no g.prompts_seen)

-- A prompt that was accepted is refused as a duplicate when it is checked against the guards it left,
-- with the round it was accepted in.
pub accept-check :
    (digest : Text → String) (g n : LineGuards) (prompt : Text) (round_no : ℕ)
    → accept_prompt g (check_prompt digest g prompt) prompt round_no ≡ some n
    → ((check_prompt digest n prompt).verdict ≡ PromptVerdict.duplicate)
      × ((check_prompt digest n prompt).first_seen_round ≡ some round_no)
accept-check digest g n prompt round_no e =
    seen_again digest n prompt round_no (recorded digest g n prompt round_no e)
