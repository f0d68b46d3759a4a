-- ===== src/Supervise/Coverage.antt =====
-- What an accepted preauth can and cannot cover.
use fleet_graph.Common.{
  >>-eq-ok, Bool, In, List, Option, Result, String, [], any, arith, elem, false, inl, inr, none,
  not, ok, ok_injective, refl, some, subst, sym, true, ℕ, ◌==◌, ◌∷◌, ◌≡◌, ◌⊎◌,
}
use fleet_graph.Common.Json.{Fields}
use fleet_graph.Common.Text.{codes, starts_with}
use fleet_graph.Graphs.Guards.{checked}
use fleet_graph.Supervise.{Preauth, PreauthDeps, PreauthError, PrefixRefusal}
use fleet_graph.Supervise.Prefixes.{AtOrBelow, below-Named, outside-uncovered}
use fleet_graph.Supervise.Protocol.{
  allowlist_checked, branch_refusal, branches_refusal, has_segment, head_ref, or_else, parse_expiry,
  parsed, preauth_allowed_actions, prefix_refused, protected_branches, refusal_for_prefix, require,
  vetted,
}
use fleet_graph.Supervise.Release.{ref_in_allowlist}

-- What the checks of a message establish of its preauth.
pub record Accepted (deps : PreauthDeps) (p : Preauth) : Type 0 where
  pub has_card : (p.card_entity_id == "") ≡ false
  pub approves : any (λ a. not (elem a preauth_allowed_actions)) p.allowed_actions ≡ false
  pub prefixes : (checked : Bool) × (allowlist_checked p.target_ref_allowlist ≡ ok checked)
  pub expiry : (t : ℕ) × (parse_expiry deps p.expires_at ≡ ok t)
  pub has_id : (p.message_id == "") ≡ false

require-not : (e : PreauthError) (b : Bool) {v : Bool} → require e (not b) ≡ ok v → b ≡ false
require-not e true h = cc
require-not e false h = refl

pub vetted-Accepted :
    (deps : PreauthDeps) (kind : Bool) (p : Preauth) {q : Preauth}
    → vetted deps kind p ≡ ok q
    → (q ≡ p) × Accepted deps p
unfolding vetted
vetted-Accepted deps kind p {q} h =
    let (_, h1) = >>-eq-ok _ _ h in
    let (card, h2) = >>-eq-ok _ _ h1 in
    let (_, h3) = >>-eq-ok _ _ h2 in
    let (legal, h4) = >>-eq-ok _ _ h3 in
    let (_, h5) = >>-eq-ok _ _ h4 in
    let (prefixes, h6) = >>-eq-ok _ _ h5 in
    let (expiry, h7) = >>-eq-ok _ _ h6 in
    let (id, h8) = >>-eq-ok _ _ h7 in
    (
      sym (ok_injective h8),
      record {
        has_card = require-not _ _ card.1;
        approves = require-not _ _ legal.1;
        prefixes = prefixes;
        expiry = expiry;
        has_id = require-not _ _ id.1;
      },
    )

refused-none :
    (r : Option PrefixRefusal) (later : Result PreauthError Bool) {v : Bool}
    → prefix_refused r later ≡ ok v
    → (r ≡ none) × (later ≡ ok v)
refused-none (some r) later h = cc
refused-none none later h = (refl, h)

allowlist-clear :
    (ps : List String) {v : Bool}
    → allowlist_checked ps ≡ ok v
    → (p : String) → In p ps
    → refusal_for_prefix p ≡ none
allowlist-clear [] h p i = elim i [ ]
allowlist-clear (x ∷ xs) h p (inl e) =
    subst (λ y. refusal_for_prefix y ≡ none) e (refused-none _ _ h).0
allowlist-clear (x ∷ xs) h p (inr i) = allowlist-clear xs (refused-none _ _ h).1 p i

or_else-none : (r s : Option PrefixRefusal) → or_else r s ≡ none → (r ≡ none) × (s ≡ none)
or_else-none (some r) s h = cc
or_else-none none s h = (refl, h)

branch-clear :
    (prefix : List ℕ) (bs : List String) (b : String)
    → branches_refusal prefix bs ≡ none
    → In b bs
    → branch_refusal prefix b ≡ none
branch-clear prefix [] b h i = elim i [ ]
branch-clear prefix (x ∷ xs) b h (inl e) =
    subst (λ y. branch_refusal prefix y ≡ none) e (or_else-none _ _ h).0
branch-clear prefix (x ∷ xs) b h (inr i) = branch-clear prefix xs b (or_else-none _ _ h).1 i

abbrev Clear : List ℕ → String → Type 0
Clear prefix b =
    (starts_with (codes b) prefix ≡ false)
    × (starts_with (head_ref b) prefix ≡ false)
    × (has_segment (codes b) prefix ≡ false)

branch_refusal-Clear :
    (prefix : List ℕ) (b : String) → branch_refusal prefix b ≡ none → Clear prefix b
branch_refusal-Clear prefix b h = ground arith

prefix-Clear :
    (prefix b : String)
    → refusal_for_prefix prefix ≡ none
    → In b protected_branches
    → Clear (codes prefix) b
unfolding refusal_for_prefix
prefix-Clear prefix b h i =
    branch_refusal-Clear (codes prefix) b
      (branch-clear (codes prefix) protected_branches b (ground arith) i)

-- A ref that is a protected branch or lies below one, with or without refs/heads/.
abbrev pub UnderProtected : List ℕ → Type 0
UnderProtected ref =
    (b : String) × In b protected_branches × (AtOrBelow (codes b) ref ⊎ AtOrBelow (head_ref b) ref)

prefix-uncovered :
    (prefix : String) (ref : List ℕ)
    → refusal_for_prefix prefix ≡ none
    → UnderProtected ref
    → starts_with ref (codes prefix) ≡ false
prefix-uncovered prefix ref h (b, i, under) =
    let (bare, full, clear) = prefix-Clear prefix b h i in
    let (named, named_full) = below-Named b i in
    elim under [
      | inl u ↦ outside-uncovered (codes b) (codes b) ref (codes prefix) bare clear named u
      | inr u ↦ outside-uncovered (head_ref b) (codes b) ref (codes prefix) full clear named_full u
    ]

any-none :
    (f : String → Bool) (xs : List String)
    → ((x : String) → In x xs → f x ≡ false)
    → any f xs ≡ false
any-none f [] h = refl
any-none f (x ∷ xs) h = rw (h x (inl refl)) (any-none f xs (λ y i. h y (inr i)))

-- The allowlist of a preauth that was accepted covers no ref that is a protected branch or lies
-- below one, with or without refs/heads/.
pub parsed-protects :
    (deps : PreauthDeps) (message payload : Fields) {p : Preauth}
    → parsed deps message payload ≡ ok p
    → (ref : List ℕ) → UnderProtected ref
    → ref_in_allowlist ref p.target_ref_allowlist ≡ false
unfolding ref_in_allowlist
parsed-protects deps message payload {p} h [] under = refl
parsed-protects deps message payload {p} h (c ∷ cs) under =
    let (same, accepted) = vetted-Accepted deps _ _ h in
    let (_, checked) = (subst (Accepted deps) (sym same) accepted).prefixes in
    any-none _ p.target_ref_allowlist (λ x i.
      prefix-uncovered x (c ∷ cs) (allowlist-clear p.target_ref_allowlist checked x i) under)
