-- ===== src/Common/Order.antt =====
-- Python's order on texts and on pairs of a number and a text, which is also SQLite's.
use fleet_graph.Common.{
  Bool, List, String, [], arith, eqb, false, ltb, refl, true, ℕ, ◌&&◌, ◌||◌, ◌∷◌, ◌≡◌,
}
use fleet_graph.Common.Text.{codes}

unfoldable pub codes_leb : List ℕ → List ℕ → Bool
codes_leb [] ds = true
codes_leb (c ∷ cs) [] = false
codes_leb (c ∷ cs) (d ∷ ds) = ltb c d || (eqb c d && codes_leb cs ds)

-- a <= b
unfoldable pub text_leb : String → String → Bool
unfolding codes_leb
text_leb a b = codes_leb (codes a) (codes b)

-- (m, a) <= (n, b)
unfoldable pub pair_leb : ℕ → String → ℕ → String → Bool
unfolding text_leb
pair_leb m a n b = ltb m n || (eqb m n && text_leb a b)

codes_leb_refl : (cs : List ℕ) → codes_leb cs cs ≡ true
unfolding codes_leb
codes_leb_refl [] = refl
codes_leb_refl (c ∷ cs) = ground (arith, codes_leb_refl cs)

codes_leb-total : (cs ds : List ℕ) → codes_leb cs ds ≡ false → codes_leb ds cs ≡ true
unfolding codes_leb
codes_leb-total [] ds h = cc
codes_leb-total (c ∷ cs) [] h = refl
codes_leb-total (c ∷ cs) (d ∷ ds) h = ground (arith, codes_leb-total cs ds)

codes_leb_trans :
    (cs ds es : List ℕ) → codes_leb cs ds ≡ true → codes_leb ds es ≡ true → codes_leb cs es ≡ true
unfolding codes_leb
codes_leb_trans [] ds es h g = refl
codes_leb_trans (c ∷ cs) [] es h g = cc
codes_leb_trans (c ∷ cs) (d ∷ ds) [] h g = cc
codes_leb_trans (c ∷ cs) (d ∷ ds) (e ∷ es) h g = ground (arith, codes_leb_trans cs ds es)

pub pair_leb_refl : (m : ℕ) (a : String) → pair_leb m a m a ≡ true
unfolding pair_leb text_leb
pair_leb_refl m a = ground (arith, codes_leb_refl (codes a))

pub pair_leb-total : (m n : ℕ) (a b : String) → pair_leb m a n b ≡ false → pair_leb n b m a ≡ true
unfolding pair_leb text_leb
pair_leb-total m n a b h = ground (arith, codes_leb-total (codes a) (codes b))

pub pair_leb_trans :
    (m n k : ℕ) (a b c : String)
    → pair_leb m a n b ≡ true
    → pair_leb n b k c ≡ true
    → pair_leb m a k c ≡ true
unfolding pair_leb text_leb
pair_leb_trans m n k a b c h g = ground (arith, codes_leb_trans (codes a) (codes b) (codes c))
