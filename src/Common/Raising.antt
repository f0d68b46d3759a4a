-- ===== src/Common/Raising.antt =====
-- A value, or what a raised exception carries.
use mathlib.Core.Bool.{Bool, false, true}
use mathlib.Core.Path.{refl, ◌≡◌}

pub data Result {ℓ} (E A : Type ℓ) : Type ℓ where
  ok : A → Result E A
  err : E → Result E A

infixl 5 ◌>>=◌ ◌>>◌
abbrev pub ◌>>=◌ {ℓ} : {E A B : Type ℓ} → Result E A → (A → Result E B) → Result E B
m >>= f = elim m [ err raised ↦ err raised | ok value ↦ f value ]

abbrev pub ◌>>◌ {ℓ} : {E A B : Type ℓ} → Result E A → Result E B → Result E B
m >> next = elim m [ err raised ↦ err raised | ok _ ↦ next ]

-- A chain that came through came through its first link, whose value the rest was given.
pub >>=-eq-ok {ℓ} :
    {E A B : Type ℓ} (first : Result E A) (rest : A → Result E B) {last : B}
    → (first >>= rest) ≡ ok last
    → (middle : A) × (first ≡ ok middle) × (rest middle ≡ ok last)
>>=-eq-ok (err raised) rest through = cc
>>=-eq-ok (ok middle) rest through = (middle, refl, through)

pub >>-eq-ok {ℓ} :
    {E A B : Type ℓ} (first : Result E A) (next : Result E B) {last : B}
    → (first >> next) ≡ ok last
    → ((middle : A) × (first ≡ ok middle)) × (next ≡ ok last)
>>-eq-ok (err raised) next through = cc
>>-eq-ok (ok middle) next through = ((middle, refl), through)

pub ok_injective {ℓ} : {E A : Type ℓ} {a b : A} → ◌≡◌ {A = Result E A} (ok a) (ok b) → a ≡ b
ok_injective h = cc

pub ok_not_err {ℓ} : {E A : Type ℓ} {a : A} {e : E} → ◌≡◌ {A = Result E A} (ok a) (err e) → ⊥
ok_not_err h = cc

abbrev pub is_ok {ℓ} : {E A : Type ℓ} → Result E A → Bool
is_ok (ok a) = true
is_ok (err e) = false
