-- ===== src/Common/Text.antt =====
-- Texts as lists of code points, where the program searches inside them.
use fleet_graph.Common.{any, arith, refl, ◌++◌, ◌≡◌}
use fleet_graph.Common.Tests.{eqb, if◌then◌else◌, leb}
use Prim.Native.Char.{code}
use Prim.Native.Nat.{ℕ, ◌+◌}
use Prim.Native.String.{String}
use mathlib.Core.Bool.{Bool, false, true, ◌&&◌, ◌||◌}
use mathlib.Core.List.{List, [], ◌∷◌}

unfoldable pub codes : String → List ℕ
codes String.[] = []
codes (String.◌∷◌ c s) = code c ∷ codes s

-- `str.lower` on the ASCII letters; the other code points stay.
unfoldable pub lower : List ℕ → List ℕ
lower [] = []
lower (c ∷ cs) = (if leb 65 c && leb c 90 then c + 32 else c) ∷ lower cs

unfoldable pub starts_with : List ℕ → List ℕ → Bool
starts_with cs [] = true
starts_with [] (p ∷ ps) = false
starts_with (c ∷ cs) (p ∷ ps) = eqb c p && starts_with cs ps

-- part in text
unfoldable pub contains_part : List ℕ → List ℕ → Bool
unfolding starts_with
contains_part part [] = starts_with [] part
contains_part part (c ∷ cs) = starts_with (c ∷ cs) part || contains_part part cs

-- One more code at the front of the first part.
abbrev pub add_code : ℕ → List (List ℕ) → List (List ℕ)
add_code c [] = (c ∷ []) ∷ []
add_code c (part ∷ parts) = (c ∷ part) ∷ parts

-- A code point that ends a line for `str.splitlines`.
abbrev pub is_boundary : ℕ → Bool
is_boundary c =
    leb 10 c && leb c 13 || leb 28 c && leb c 30 || eqb c 133 || eqb c 8232 || eqb c 8233

-- `str.splitlines` as its reader sees it: a carriage return before a newline ends a line of its own
-- here, and the empty line after it is passed over.
unfoldable pub splitlines : List ℕ → List (List ℕ)
splitlines [] = []
splitlines (c ∷ cs) =
    let rest = splitlines cs in if is_boundary c then [] ∷ rest else add_code c rest

-- A text without such a code is the first line of what follows it after a newline.
pub splitlines-line :
    (line rest : List ℕ)
    → any is_boundary line ≡ false
    → splitlines (line ++ b'\n' ∷ rest) ≡ line ∷ splitlines rest
unfolding splitlines
splitlines-line [] rest h = refl
splitlines-line (c ∷ cs) rest h = ground (arith, splitlines-line cs rest)
