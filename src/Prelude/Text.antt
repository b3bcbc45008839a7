-- ===== src/Prelude/Text.antt =====
-- The order of texts: Python compares strings by code points, lexicographically.
use Prim.Native.Char.{code}
use Prim.Native.String.{String}
use Prim.Native.Nat.{ℕ}
use mathlib.Core.Path.{◌≡◌, refl}
use mathlib.Core.Bool.{Bool, true, false}
use mathlib.Core.List.{List, [], ◌∷◌}
use native.Mathlib.Omega.{arith}
use skateboard.Prelude.Tests.{ltb, if◌then◌else◌}

-- The code points of a text.
abbrev pub codes : String → List ℕ
codes String.[] = []
codes (String.◌∷◌ c s) = code c ∷ codes s

unfoldable pub text_leb : List ℕ → List ℕ → Bool
text_leb [] ys = true
text_leb (x ∷ xs) [] = false
text_leb (x ∷ xs) (y ∷ ys) =
    let rest = text_leb xs ys in if ltb x y then true else if ltb y x then false else rest

pub text_leb_refl : (xs : List ℕ) → text_leb xs xs ≡ true
unfolding text_leb
text_leb_refl [] = refl
text_leb_refl (x ∷ xs) = ground (arith, text_leb_refl xs)

pub text_leb-total : (xs ys : List ℕ) → text_leb xs ys ≡ false → text_leb ys xs ≡ true
unfolding text_leb
text_leb-total [] ys h = absurd (ground arith)
text_leb-total (x ∷ xs) [] h = refl
text_leb-total (x ∷ xs) (y ∷ ys) h = ground (arith, text_leb-total xs ys)

pub text_leb_trans :
    (xs ys zs : List ℕ) → text_leb xs ys ≡ true → text_leb ys zs ≡ true → text_leb xs zs ≡ true
unfolding text_leb
text_leb_trans [] ys zs h k = refl
text_leb_trans (x ∷ xs) [] zs h k = absurd (ground arith)
text_leb_trans (x ∷ xs) (y ∷ ys) [] h k = absurd (ground arith)
text_leb_trans (x ∷ xs) (y ∷ ys) (z ∷ zs) h k = ground (arith, text_leb_trans xs ys zs)

pub text_leb_antisymm : (xs ys : List ℕ) → text_leb xs ys ≡ true → text_leb ys xs ≡ true → xs ≡ ys
unfolding text_leb
text_leb_antisymm [] [] h k = refl
text_leb_antisymm [] (y ∷ ys) h k = absurd (ground arith)
text_leb_antisymm (x ∷ xs) [] h k = absurd (ground arith)
text_leb_antisymm (x ∷ xs) (y ∷ ys) h k = ground (arith, text_leb_antisymm xs ys)

-- `a <= b` on strings.
unfoldable pub str_leb : String → String → Bool
unfolding text_leb
str_leb a b = text_leb (codes a) (codes b)

pub str_leb-total : (a b : String) → str_leb a b ≡ false → str_leb b a ≡ true
unfolding str_leb
str_leb-total a b = text_leb-total (codes a) (codes b)

pub str_leb_trans : (a b c : String) → str_leb a b ≡ true → str_leb b c ≡ true → str_leb a c ≡ true
unfolding str_leb
str_leb_trans a b c = text_leb_trans (codes a) (codes b) (codes c)

pub str_leb_refl : (a : String) → str_leb a a ≡ true
unfolding str_leb
str_leb_refl a = text_leb_refl (codes a)
