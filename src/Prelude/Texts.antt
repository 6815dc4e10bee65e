-- ===== src/Prelude/Texts.antt =====
-- What the program asks of texts: `strip`, and the order of code points.
use Prim.Native.Nat.{ℕ}
use Prim.Native.Char.{code}
use Prim.Native.String.{String}
use mathlib.Core.Bool.{Bool, true, false, ◌&&◌, ◌||◌}
use mathlib.Core.List.{List, [], ◌∷◌}
use mathlib.Core.Path.{◌≡◌, refl}
use native.Mathlib.Omega.{arith}
use knowledge_agent.Prelude.Tests.{ltb, leb, nat_eqb, if◌then◌else◌}

-- The code points of a text.
abbrev pub codes : String → List ℕ
codes String.[] = []
codes (String.◌∷◌ c s) = code c ∷ codes s

-- The characters that `str.strip` removes (`str.isspace`).
abbrev pub is_space : ℕ → Bool
is_space c =
    (leb 9 c && leb c 13)
    || (leb 28 c && leb c 32)
    || nat_eqb c 0x85
    || nat_eqb c 0xa0
    || nat_eqb c 0x1680
    || (leb 0x2000 c && leb c 0x200a)
    || nat_eqb c 0x2028
    || nat_eqb c 0x2029
    || nat_eqb c 0x202f
    || nat_eqb c 0x205f
    || nat_eqb c 0x3000

all_spaces : List ℕ → Bool
all_spaces [] = true
all_spaces (c ∷ cs) = is_space c && all_spaces cs

-- `not text.strip()`
unfoldable pub is_blank : String → Bool
unfolding all_spaces
is_blank s = all_spaces (codes s)

-- `a <= b` on texts, by code points.
codes_leb : List ℕ → List ℕ → Bool
codes_leb [] ys = true
codes_leb (x ∷ xs) [] = false
codes_leb (x ∷ xs) (y ∷ ys) = let rest = codes_leb xs ys in if nat_eqb x y then rest else ltb x y

unfoldable pub text_leb : String → String → Bool
unfolding codes_leb
text_leb s t = codes_leb (codes s) (codes t)

codes_leb_total : (xs ys : List ℕ) → codes_leb xs ys ≡ false → codes_leb ys xs ≡ true
unfolding codes_leb
codes_leb_total [] ys h = ground arith
codes_leb_total (x ∷ xs) [] h = refl
codes_leb_total (x ∷ xs) (y ∷ ys) h = ground (arith, codes_leb_total xs ys)

pub text_leb_total : (s t : String) → text_leb s t ≡ false → text_leb t s ≡ true
unfolding text_leb
text_leb_total s t h = codes_leb_total (codes s) (codes t) h
