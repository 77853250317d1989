-- ===== src/Prelude/Members.antt =====
-- Membership in a list.
use mathlib.Core.Path.{◌≡◌, refl, sym, ap, ◌∙◌}
use mathlib.Core.Logic.{◌⊎◌, inl, inr}
use mathlib.Core.Bool.{Bool}
use mathlib.Core.List.{map, List, [], ◌∷◌, ◌++◌, Permᴰ}
use mathlib.Core.Option.{some}
use native.Mathlib.Omega.{arith}
use ping_mesh.Prelude.Lists.{head?, keep_if}

module _ {A : Type 0} where
  -- The element stands in the list.
  abbrev pub Elem : A → List A → Type 0
  Elem a [] = ⊥
  Elem a (x ∷ xs) = (x ≡ a) ⊎ Elem a xs

  pub Elem-Permᴰ : (a : A) {xs ys : List A} → Permᴰ xs ys → Elem a xs → Elem a ys
  Elem-Permᴰ a Permᴰ.nil h = h
  Elem-Permᴰ a (Permᴰ.cons e p) (inl h) = inl (sym e ∙ h)
  Elem-Permᴰ a (Permᴰ.cons e p) (inr h) = inr (Elem-Permᴰ a p h)
  Elem-Permᴰ a (Permᴰ.swap e f) (inl h) = inr (inl (sym e ∙ h))
  Elem-Permᴰ a (Permᴰ.swap e f) (inr (inl h)) = inl (sym f ∙ h)
  Elem-Permᴰ a (Permᴰ.swap e f) (inr (inr h)) = inr (inr h)
  Elem-Permᴰ a (Permᴰ.trans p q) h = Elem-Permᴰ a q (Elem-Permᴰ a p h)

  pub Elem-head? : (a : A) (xs : List A) → head? xs ≡ some a → Elem a xs
  Elem-head? a [] e = cc
  Elem-head? a (x ∷ xs) e = inl (cc)

  pub Elem-keep_if : (a : A) (p : A → Bool) (xs : List A) → Elem a (keep_if p xs) → Elem a xs
  Elem-keep_if a p [] h = h
  Elem-keep_if a p (x ∷ xs) h = ground (arith, Elem-keep_if a p xs)

  pub Elem-append_one : (a : A) (xs : List A) → Elem a (xs ++ a ∷ [])
  Elem-append_one a [] = inl refl
  Elem-append_one a (x ∷ xs) = inr (Elem-append_one a xs)

pub Elem-map : {A B : Type 0} (f : A → B) (a : A) (xs : List A) → Elem a xs → Elem (f a) (map f xs)
Elem-map f a [] h = elim h [ ]
Elem-map f a (x ∷ xs) (inl e) = inl (ap f e)
Elem-map f a (x ∷ xs) (inr h) = inr (Elem-map f a xs h)
