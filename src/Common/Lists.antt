-- ===== src/Common/Lists.antt =====
-- Lists over the native numbers and Boolean tests, under the library's names.
use Prim.Native.Nat.{ℕ, suc, ◌+◌}
use Prim.Native.String.{String}
use mathlib.Core.Path.{◌≡◌, refl}
use mathlib.Core.Logic.{◌⊎◌, inl, inr}
use mathlib.Core.Bool.{Bool, true, false, ◌&&◌, ◌||◌}
use mathlib.Core.Option.{Option, none, some}
use mathlib.Core.List.{List, [], ◌∷◌, ◌++◌}
use native.Mathlib.Omega.{arith}
use text.Mathlib.Text.{◌==◌}
use text.Mathlib.TextEquality.{eq_iff}
use fleet_graph.Common.Tests.{if◌then◌else◌, Bool-cases}

module _ {ℓ} {A : Type ℓ} where
  abbrev pub length : List A → ℕ
  length [] = 0
  length (x ∷ xs) = suc (length xs)

  abbrev pub filter : (A → Bool) → List A → List A
  filter p [] = []
  filter p (x ∷ xs) = let rest = filter p xs in if p x then x ∷ rest else rest

  -- The first element that passes the test: a `for` loop with an early `return`.
  unfoldable pub find : (A → Bool) → List A → Option A
  find p [] = none
  find p (x ∷ xs) = let rest = find p xs in if p x then some x else rest

  abbrev pub all : (A → Bool) → List A → Bool
  all p [] = true
  all p (x ∷ xs) = p x && all p xs

  abbrev pub any : (A → Bool) → List A → Bool
  any p [] = false
  any p (x ∷ xs) = p x || any p xs

  pub length-append : (xs ys : List A) → length (xs ++ ys) ≡ length xs + length ys
  length-append [] ys = omega arith
  length-append (x ∷ xs) ys = omega (arith, length-append xs ys)

module _ {A : Type 0} where
  -- Membership, with the place kept.
  abbrev pub In : A → List A → Type 0
  In a [] = ⊥
  In a (x ∷ xs) = (x ≡ a) ⊎ In a xs

  pub find-In : (p : A → Bool) (xs : List A) {x : A} → find p xs ≡ some x → In x xs × (p x ≡ true)
  unfolding find
  find-In p [] h = cc
  find-In p (y ∷ ys) {x} h = elim (Bool-cases (p y)) [
    | inl e ↦ ground arith
    | inr e ↦ let (i, t) = find-In p ys {x = x} (ground arith) in (inr i, t)
  ]

  pub find-none : (p : A → Bool) (xs : List A) (x : A) → find p xs ≡ none → In x xs → p x ≡ false
  unfolding find
  find-none p [] x h i = elim i [ ]
  find-none p (y ∷ ys) x h (inl e) = ground arith
  find-none p (y ∷ ys) x h (inr i) = ground (arith, find-none p ys x)

  -- Where nothing passes the test, the search finds nothing.
  pub find-eq_none :
      (p : A → Bool) (xs : List A) → ((x : A) → In x xs → p x ≡ false) → find p xs ≡ none
  unfolding find
  find-eq_none p [] h = refl
  find-eq_none p (y ∷ ys) h = rw (h y (inl refl)) (find-eq_none p ys (λ x i. h x (inr i)))

  pub filter-nil : (p : A → Bool) (xs : List A) (x : A) → filter p xs ≡ [] → In x xs → p x ≡ false
  filter-nil p [] x h i = elim i [ ]
  filter-nil p (y ∷ ys) x h (inl e) = ground arith
  filter-nil p (y ∷ ys) x h (inr i) = ground (arith, filter-nil p ys x)

  pub In-append_left : (x : A) (xs ys : List A) → In x xs → In x (xs ++ ys)
  In-append_left x [] ys i = elim i [ ]
  In-append_left x (y ∷ xs) ys (inl e) = inl e
  In-append_left x (y ∷ xs) ys (inr i) = inr (In-append_left x xs ys i)

  pub In-append_right : (x : A) (xs ys : List A) → In x ys → In x (xs ++ ys)
  In-append_right x [] ys i = i
  In-append_right x (y ∷ xs) ys i = inr (In-append_right x xs ys i)

  pub In-append_last : (x : A) (xs : List A) → In x (xs ++ x ∷ [])
  In-append_last x xs = In-append_right x xs (x ∷ []) (inl refl)

abbrev pub elem : String → List String → Bool
elem a [] = false
elem a (x ∷ xs) = (x == a) || elem a xs

pub elem-In : (a : String) (xs : List String) → elem a xs ≡ true → In a xs
elem-In a (x ∷ xs) h = ground (arith, eq_iff x a, elem-In a xs)
elem-In a [] h = cc

pub In-elem : (a : String) (xs : List String) → In a xs → elem a xs ≡ true
In-elem a [] i = elim i [ ]
In-elem a (x ∷ xs) (inl e) = ground (arith, eq_iff x a)
In-elem a (x ∷ xs) (inr i) = ground (arith, In-elem a xs)

-- Python's `==` on tuples and lists of texts.
abbrev pub strings_eq : List String → List String → Bool
strings_eq [] [] = true
strings_eq (x ∷ xs) (y ∷ ys) = (x == y) && strings_eq xs ys
strings_eq _ _ = false

pub strings_eq_iff : (xs ys : List String) → strings_eq xs ys ≡ true → xs ≡ ys
strings_eq_iff [] [] h = refl
strings_eq_iff (x ∷ xs) (y ∷ ys) h = ground (arith, eq_iff x y, strings_eq_iff xs ys)
strings_eq_iff [] (y ∷ ys) h = cc
strings_eq_iff (x ∷ xs) [] h = cc

pub strings_eq_refl : (xs : List String) → strings_eq xs xs ≡ true
strings_eq_refl [] = refl
strings_eq_refl (x ∷ xs) = ground (arith, eq_iff x x, strings_eq_refl xs)
