-- ===== src/Prelude/Pages.antt =====
-- A page: the first rows, in an order, of those that are asked for.
use Prim.Native.Nat.{ℕ, zero, suc, ◌≤◌}
use mathlib.Core.Path.{◌≡◌, refl, ap, subst, ◌∙◌}
use mathlib.Core.Logic.{◌⊎◌, ◌↔◌, inl, inr}
use mathlib.Core.Bool.{Bool, true}
use mathlib.Core.List.{List, [], ◌∷◌}
use mathlib.Core.List.Permᴰ
use ping_mesh.Prelude.Lists.{All, keep_if, length, take, length-take-le}
use ping_mesh.Prelude.Members.{Elem, Elem-Permᴰ}
use ping_mesh.Prelude.Tests.{Bool-cases}
use ping_mesh.Prelude.Sorting.{IsOrdered, Sorter}

module _ {A : Type 0} where
  All-Elem : (P : A → Type 0) (x : A) (xs : List A) → All P xs → Elem x xs → P x
  All-Elem P x [] a h = elim h [ ]
  All-Elem P x (y ∷ ys) a (inl e) = subst P e a.0
  All-Elem P x (y ∷ ys) a (inr h) = All-Elem P x ys a.1 h

  All-take : (P : A → Type 0) (k : ℕ) (xs : List A) → All P xs → All P (take k xs)
  All-take P zero xs a = tt
  All-take P (suc k) [] a = tt
  All-take P (suc k) (x ∷ xs) a = (a.0, All-take P k xs a.1)

  Elem-take : (x : A) (k : ℕ) (xs : List A) → Elem x (take k xs) → Elem x xs
  Elem-take x zero xs h = absurd h
  Elem-take x (suc k) [] h = absurd h
  Elem-take x (suc k) (y ∷ ys) (inl e) = inl e
  Elem-take x (suc k) (y ∷ ys) (inr h) = inr (Elem-take x k ys h)

  -- The rows that pass a test, where the test decides the condition.
  keep_if-chosen :
      (Wanted : A → Type 0) (p : A → Bool)
      → ((x : A) → (p x ≡ true) ↔ Wanted x)
      → (x : A) (xs : List A) → Elem x (keep_if p xs)
      → Elem x xs × Wanted x
  keep_if-chosen Wanted p decides x [] h = elim h [ ]
  keep_if-chosen Wanted p decides x (y ∷ ys) h = elim (Bool-cases (p y)) [
    | inl e ↦ elim (rw e at h) [
      | inl same ↦ (inl same, subst Wanted same ((decides y).0 e))
      | inr below ↦ let rest = keep_if-chosen Wanted p decides x ys below in (inr rest.0, rest.1)
    ]
    | inr e ↦ let rest = keep_if-chosen Wanted p decides x ys (rw e at h) in (inr rest.0, rest.1)
  ]

  chosen-keep_if :
      (p : A → Bool) (x : A) (xs : List A) → Elem x xs → p x ≡ true → Elem x (keep_if p xs)
  chosen-keep_if p x [] h e = elim h [ ]
  chosen-keep_if p x (y ∷ ys) (inl same) e = rw (ap p same ∙ e) (inl same)
  chosen-keep_if p x (y ∷ ys) (inr h) e = elim (Bool-cases (p y)) [
    | inl t ↦ rw t (inr (chosen-keep_if p x ys h e))
    | inr t ↦ rw t (chosen-keep_if p x ys h e)
  ]

module _ {A : Type 0} (le : A → A → Bool) where
  -- A page of the wanted rows among those stored: at most `limit` rows, in order, all stored and
  -- wanted; and a stored row that is wanted and not on the page comes after a full page.
  pub record IsPage (Wanted : A → Type 0) (limit : ℕ) (stored page : List A) : Type 0 where
    pub bounded : length page ≤ limit
    pub ordered : IsOrdered le page
    pub chosen : (x : A) → Elem x page → Elem x stored × Wanted x
    pub complete :
        (x : A)
        → Elem x stored
        → Wanted x
        → Elem x page ⊎ ((length page ≡ limit) × All (λ y. le y x ≡ true) page)

  take-IsOrdered : (k : ℕ) (xs : List A) → IsOrdered le xs → IsOrdered le (take k xs)
  take-IsOrdered zero xs o = tt
  take-IsOrdered (suc k) [] o = tt
  take-IsOrdered (suc k) (x ∷ xs) o = (All-take _ k xs o.0, take-IsOrdered k xs o.1)

  on_or_after :
      (x : A) (k : ℕ) (xs : List A)
      → IsOrdered le xs
      → Elem x xs
      → Elem x (take k xs) ⊎ ((length (take k xs) ≡ k) × All (λ y. le y x ≡ true) (take k xs))
  on_or_after x zero xs o h = inr (refl, tt)
  on_or_after x (suc k) [] o h = elim h [ ]
  on_or_after x (suc k) (y ∷ ys) o (inl e) = inl (inl e)
  on_or_after x (suc k) (y ∷ ys) o (inr h) = elim (on_or_after x k ys o.1 h) [
    | inl m ↦ inl (inr m)
    | inr (l, a) ↦ inr (ap suc l, (All-Elem _ x ys o.0 h, a))
  ]

  pub take-IsPage :
      (Wanted : A → Type 0) (p : A → Bool)
      → ((x : A) → (p x ≡ true) ↔ Wanted x)
      → (s : Sorter le) (k : ℕ) (stored : List A)
      → IsPage Wanted k stored (take k (s.sort (keep_if p stored)))
  take-IsPage Wanted p decides s k stored =
      let xs = keep_if p stored in
      record {
        bounded = length-take-le k (s.sort xs);
        ordered = take-IsOrdered k (s.sort xs) (s.sort_ordered xs);
        chosen = λ x h.
            keep_if-chosen Wanted p decides x stored
              (Elem-Permᴰ x (Permᴰ.symm (s.sort_perm xs)) (Elem-take x k (s.sort xs) h));
        complete = λ x h wanted.
            on_or_after x k (s.sort xs) (s.sort_ordered xs)
              (Elem-Permᴰ x (s.sort_perm xs) (chosen-keep_if p x stored h ((decides x).1 wanted)));
      }
