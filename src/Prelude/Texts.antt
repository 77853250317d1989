-- ===== src/Prelude/Texts.antt =====
-- The order of texts in the database's BINARY collation: that of their code points, which is the
-- order of their bytes in UTF-8.
use Prim.Native.Nat.{ℕ}
use Prim.Native.Char.{code}
use Prim.Native.String.{String}
use mathlib.Core.Path.{◌≡◌, refl}
use mathlib.Core.Bool.{Bool, true, false}
use mathlib.Core.List.{List, [], ◌∷◌}
use native.Mathlib.Omega.{arith}
use ping_mesh.Prelude.Tests.{ltb, nat_eq, if◌then◌else◌}

abbrev pub codes : String → List ℕ
codes String.[] = []
codes (String.◌∷◌ c s) = code c ∷ codes s

abbrev pub lex_le : List ℕ → List ℕ → Bool
lex_le [] ys = true
lex_le (x ∷ xs) [] = false
lex_le (x ∷ xs) (y ∷ ys) = if ltb x y then true else if nat_eq x y then lex_le xs ys else false

abbrev pub text_le : String → String → Bool
text_le s t = lex_le (codes s) (codes t)

pub lex_le-IsTotal : (xs ys : List ℕ) → lex_le xs ys ≡ false → lex_le ys xs ≡ true
lex_le-IsTotal [] ys h = ground arith
lex_le-IsTotal (x ∷ xs) [] h = refl
lex_le-IsTotal (x ∷ xs) (y ∷ ys) h = ground (arith, lex_le-IsTotal xs ys)

pub lex_le-IsTrans :
    (xs ys zs : List ℕ) → lex_le xs ys ≡ true → lex_le ys zs ≡ true → lex_le xs zs ≡ true
lex_le-IsTrans [] ys zs h k = refl
lex_le-IsTrans (x ∷ xs) [] zs h k = ground arith
lex_le-IsTrans (x ∷ xs) (y ∷ ys) [] h k = ground arith
lex_le-IsTrans (x ∷ xs) (y ∷ ys) (z ∷ zs) h k = ground (arith, lex_le-IsTrans xs ys zs)
