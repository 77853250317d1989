-- ===== src/Prelude/Sorting.antt =====
-- ORDER BY: what the database engine promises of a sort, and an insertion sort that keeps the promise.
use mathlib.Core.Path.{◌≡◌, refl}
use mathlib.Core.Logic.{inl, inr}
use mathlib.Core.Bool.{Bool, true, false}
use mathlib.Core.List.{List, [], ◌∷◌, Permᴰ}
use mathlib.Core.List.Permᴰ
use native.Mathlib.Omega.{arith}
use ping_mesh.Prelude.Tests.{if◌then◌else◌, Bool-cases}
use ping_mesh.Prelude.Lists.{All}

module _ {A : Type 0} (le : A → A → Bool) where
  abbrev pub IsOrdered : List A → Type 0
  IsOrdered [] = Unit
  IsOrdered (x ∷ xs) = All (λ y. le x y ≡ true) xs × IsOrdered xs

-- The rows in the order asked for. Rows that compare as equal may come in any order.
pub record Sorter {A : Type 0} (le : A → A → Bool) : Type 0 where
  pub sort : List A → List A
  pub sort_perm : (xs : List A) → Permᴰ xs (sort xs)
  pub sort_ordered : (xs : List A) → IsOrdered le (sort xs)

abbrev pub IsTotal : {A : Type 0} → (A → A → Bool) → Type 0
IsTotal {A} le = (x y : A) → le x y ≡ false → le y x ≡ true

abbrev pub IsTrans : {A : Type 0} → (A → A → Bool) → Type 0
IsTrans {A} le = (x y z : A) → le x y ≡ true → le y z ≡ true → le x z ≡ true

module _ {A : Type 0} (le : A → A → Bool) where
  abbrev pub insert_sorted : A → List A → List A
  insert_sorted x [] = x ∷ []
  insert_sorted x (y ∷ ys) = if le x y then x ∷ y ∷ ys else y ∷ insert_sorted x ys

  abbrev pub insertion_sort : List A → List A
  insertion_sort [] = []
  insertion_sort (x ∷ xs) = insert_sorted x (insertion_sort xs)

  insert_sorted-perm : (x : A) (xs : List A) → Permᴰ (x ∷ xs) (insert_sorted x xs)
  insert_sorted-perm x [] = Permᴰ.refl (x ∷ [])
  insert_sorted-perm x (y ∷ ys) = elim (Bool-cases (le x y)) [
    | inl e ↦ rw e (Permᴰ.refl (x ∷ y ∷ ys))
    | inr e ↦ rw e (Permᴰ.trans (Permᴰ.swap refl refl) (Permᴰ.cons refl (insert_sorted-perm x ys)))
  ]

  pub insertion_sort-perm : (xs : List A) → Permᴰ xs (insertion_sort xs)
  insertion_sort-perm [] = Permᴰ.nil
  insertion_sort-perm (x ∷ xs) =
      Permᴰ.trans (Permᴰ.cons refl (insertion_sort-perm xs))
        (insert_sorted-perm x (insertion_sort xs))

  module _ (total : IsTotal le) (trans : IsTrans le) where
    All-le_trans :
        (x y : A) (ys : List A)
        → le x y ≡ true
        → All (λ z. le y z ≡ true) ys
        → All (λ z. le x z ≡ true) ys
    All-le_trans x y [] e h = tt
    All-le_trans x y (z ∷ zs) e h = (trans x y z e h.0, All-le_trans x y zs e h.1)

    All-insert_sorted :
        (w x : A) (xs : List A)
        → le w x ≡ true
        → All (λ z. le w z ≡ true) xs
        → All (λ z. le w z ≡ true) (insert_sorted x xs)
    All-insert_sorted w x [] e h = (e, tt)
    All-insert_sorted w x (y ∷ ys) e h = ground (arith, All-insert_sorted w x ys e h.1)

    insert_sorted-IsOrdered :
        (x : A) (xs : List A) → IsOrdered le xs → IsOrdered le (insert_sorted x xs)
    insert_sorted-IsOrdered x [] h = (tt, tt)
    insert_sorted-IsOrdered x (y ∷ ys) h = elim (Bool-cases (le x y)) [
      | inl e ↦ rw e ((e, All-le_trans x y ys e h.0), h)
      | inr e ↦ rw e (All-insert_sorted y x ys (total x y e) h.0, insert_sorted-IsOrdered x ys h.1)
    ]

    pub insertion_sort-IsOrdered : (xs : List A) → IsOrdered le (insertion_sort xs)
    insertion_sort-IsOrdered [] = tt
    insertion_sort-IsOrdered (x ∷ xs) =
        insert_sorted-IsOrdered x (insertion_sort xs) (insertion_sort-IsOrdered xs)

    abbrev pub insertion_sorter : Sorter le
    insertion_sorter = record {
      sort = insertion_sort;
      sort_perm = insertion_sort-perm;
      sort_ordered = insertion_sort-IsOrdered;
    }
