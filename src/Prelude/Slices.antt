-- ===== src/Prelude/Slices.antt =====
-- What `take`, `drop` and `set` do to each other.
use Prim.Native.Nat.{ℕ, zero, suc, ◌-◌, ◌≤◌, ◌<◌}
use mathlib.Core.Path.{◌≡◌, refl, ap}
use mathlib.Core.List.{List, [], ◌∷◌, ◌++◌}
use native.Mathlib.Omega.{arith}
use ping_mesh.Prelude.Lists.{length, take, drop, set}

module _ {A : Type 0} where
  pub length-set : (xs : List A) (n : ℕ) (a : A) → length (set xs n a) ≡ length xs
  length-set [] n a = refl
  length-set (x ∷ xs) zero a = refl
  length-set (x ∷ xs) (suc n) a = omega (arith, length-set xs n a)

  pub take-set :
      (xs : List A) (n : ℕ) (a : A)
      → n < length xs
      → take (suc n) (set xs n a) ≡ take n xs ++ a ∷ []
  take-set [] n a h = absurd (omega arith)
  take-set (x ∷ xs) zero a h = refl
  take-set (x ∷ xs) (suc n) a h = ap (λ (l : List A). x ∷ l) (take-set xs n a (omega arith))

  pub drop-set : (xs : List A) (n : ℕ) (a : A) → drop (suc n) (set xs n a) ≡ drop (suc n) xs
  drop-set [] n a = refl
  drop-set (x ∷ xs) zero a = refl
  drop-set (x ∷ xs) (suc n) a = drop-set xs n a

  pub take-all : (n : ℕ) (xs : List A) → length xs ≤ n → take n xs ≡ xs
  take-all zero [] h = refl
  take-all zero (x ∷ xs) h = absurd (omega arith)
  take-all (suc n) [] h = refl
  take-all (suc n) (x ∷ xs) h = ap (λ (l : List A). x ∷ l) (take-all n xs (omega arith))

  pub length-take : (n : ℕ) (xs : List A) → n ≤ length xs → length (take n xs) ≡ n
  length-take zero xs h = refl
  length-take (suc n) [] h = absurd (omega arith)
  length-take (suc n) (x ∷ xs) h = omega (arith, length-take n xs (omega arith))

  pub length-drop : (n : ℕ) (xs : List A) → length (drop n xs) ≡ length xs - n
  length-drop zero xs = omega arith
  length-drop (suc n) [] = omega arith
  length-drop (suc n) (x ∷ xs) = omega (arith, length-drop n xs)

  -- Of a list that goes on after `n`, the part behind `n` and one more.
  pub drop-one :
      (xs : List A) (n : ℕ) (ys : List A)
      → n < length xs
      → drop 1 (drop n xs ++ ys) ≡ drop (suc n) xs ++ ys
  drop-one [] n ys h = absurd (omega arith)
  drop-one (x ∷ xs) zero ys h = refl
  drop-one (x ∷ xs) (suc n) ys h = drop-one xs n ys (omega arith)
