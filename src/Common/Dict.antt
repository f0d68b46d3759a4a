-- ===== src/Common/Dict.antt =====
-- Python's `dict` with text keys, in insertion order: a write to a present key keeps its place, and
-- a new key goes to the end.
use mathlib.Core.Path.{◌≡◌, refl}
use mathlib.Core.Logic.{◌≢◌}
use mathlib.Core.Bool.{Bool}
use mathlib.Core.Option.{Option, none, some}
use mathlib.Core.List.{List, [], ◌∷◌}
use Prim.Native.String.{String}
use native.Mathlib.Omega.{arith}
use text.Mathlib.Text.{◌==◌}
use text.Mathlib.TextEquality.{eq_iff}
use fleet_graph.Common.Tests.{if◌then◌else◌, is_some}

abbrev pub Dict {ℓ} : Type ℓ → Type ℓ
Dict V = List (String × V)

module _ {ℓ} {V : Type ℓ} where
  -- d.get(key)
  unfoldable pub lookup : String → Dict V → Option V
  lookup key [] = none
  lookup key ((here, v) ∷ more) =
      let later = lookup key more in if here == key then some v else later

  -- d[key] = new
  unfoldable pub insert : String → V → Dict V → Dict V
  insert key new [] = (key, new) ∷ []
  insert key new ((here, old) ∷ more) =
      let later = insert key new more in
      if here == key then (here, new) ∷ more else (here, old) ∷ later

  -- d.pop(k, None)
  unfoldable pub remove : String → Dict V → Dict V
  remove k [] = []
  remove k ((j, w) ∷ m) = let rest = remove k m in if j == k then rest else (j, w) ∷ rest

  abbrev pub values : Dict V → List V
  values [] = []
  values ((j, v) ∷ m) = v ∷ values m

  abbrev pub keys : Dict V → List String
  keys [] = []
  keys ((j, v) ∷ m) = j ∷ keys m

module _ {ℓ} {V : Type ℓ} where
  -- k in d
  abbrev pub contains : String → Dict V → Bool
  contains k m = is_some (lookup k m)

  pub lookup-remove :
      (gone asked : String) (m : Dict V)
      → lookup asked (remove gone m) ≡ (if gone == asked then none else lookup asked m)
  unfolding lookup remove
  lookup-remove gone asked [] = ground arith
  lookup-remove gone asked ((i, w) ∷ m) =
      let rest = lookup-remove gone asked m in
      ground (arith, rest, eq_iff i asked, eq_iff i gone, eq_iff gone asked)

  pub lookup-insert :
      (written asked : String) (new : V) (m : Dict V)
      → lookup asked (insert written new m)
        ≡ (if written == asked then some new else lookup asked m)
  unfolding lookup insert
  lookup-insert written asked new [] = refl
  lookup-insert written asked new ((i, w) ∷ m) =
      let rest = lookup-insert written asked new m in
      ground (arith, rest, eq_iff i asked, eq_iff i written, eq_iff written asked)

  pub lookup-insert_self :
      (written : String) (new : V) (m : Dict V) → lookup written (insert written new m) ≡ some new
  lookup-insert_self written new m =
      ground (arith, eq_iff written written, lookup-insert written written new m)

  pub lookup-insert_ne :
      (written asked : String) (new : V) (m : Dict V)
      → written ≢ asked
      → lookup asked (insert written new m) ≡ lookup asked m
  lookup-insert_ne written asked new m h =
      ground (arith, eq_iff written asked, lookup-insert written asked new m)
