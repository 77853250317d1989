-- ===== src/Db/Keys.antt =====
-- Rows that share a key in a table where keys are unique, and keys in another order.
use ping_mesh.Prelude.{
  ◌≡◌, refl, sym, ◌∙◌, ap₂, String, Bool, true, false, ◌||◌, List, [], ◌∷◌, arith, ◌==◌, eq_iff,
  eq_refl, All, All-map,
}
use mathlib.Core.List.{Permᴰ}
use ping_mesh.Db.Table.{has, IsUnique}

or_swap : (p q r : Bool) → (p || (q || r)) ≡ (q || (p || r))
or_swap p q r = ground arith

module _ {A : Type 0} (key : A → String) where
  -- Every row has its key.
  pub has_self : (rs : List A) → All (λ r. has key (key r) rs ≡ true) rs
  unfolding has
  has_self [] = tt
  has_self (r ∷ rs) = (rw eq_refl refl, All-map _ _ (λ x h. ground arith) rs (has_self rs))

  has-swap :
      (id : String) (a b a' b' : A) (l : List A)
      → a ≡ b'
      → b ≡ a'
      → has key id (a ∷ b ∷ l) ≡ has key id (a' ∷ b' ∷ l)
  unfolding has
  has-swap id a b a' b' l e f =
      ap₂ (λ x y. (key x == id) || ((key y == id) || has key id l)) e f
      ∙ or_swap (key b' == id) (key a' == id) (has key id l)

  pub has-Permᴰ : (id : String) {xs ys : List A} → Permᴰ xs ys → has key id xs ≡ has key id ys
  unfolding has
  has-Permᴰ id Permᴰ.nil = refl
  has-Permᴰ id (Permᴰ.cons e p) = ap₂ (λ x b. (key x == id) || b) e (has-Permᴰ id p)
  has-Permᴰ id (Permᴰ.swap e f) = has-swap id _ _ _ _ _ e f
  has-Permᴰ id (Permᴰ.trans p q) = has-Permᴰ id p ∙ has-Permᴰ id q

  others :
      (r : A) (rs : List A)
      → has key (key r) rs ≡ false
      → All (λ n. (key r == key n) ≡ true → n ≡ r) rs
  unfolding has
  others r [] h = tt
  others r (n ∷ rs) h =
      (λ e. ground (arith, eq_iff (key r) (key n), eq_refl (key n)), others r rs (ground arith))

  -- Rows with the same key are the same row.
  pub rows_by_key :
      (rs : List A) → IsUnique key rs → All (λ r. All (λ n. (key r == key n) ≡ true → n ≡ r) rs) rs
  rows_by_key [] u = tt
  rows_by_key (x ∷ rs) u = (
    (λ e. refl, others x rs u.0),
    All-map _ _ (λ r h. h) rs (both rs (others x rs u.0) (rows_by_key rs u.1)),
  )
    where
      both :
          (ys : List A)
          → All (λ n. (key x == key n) ≡ true → n ≡ x) ys
          → All (λ r. All (λ n. (key r == key n) ≡ true → n ≡ r) rs) ys
          → All (λ r. All (λ n. (key r == key n) ≡ true → n ≡ r) (x ∷ rs)) ys
      both [] p q = tt
      both (y ∷ ys) p q = (
        (λ e. sym (p.0 (ground (arith, eq_iff (key y) (key x), eq_iff (key x) (key y)))), q.0),
        both ys p.1 q.1,
      )
