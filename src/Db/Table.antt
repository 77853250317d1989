-- ===== src/Db/Table.antt =====
-- Tables with a text as primary key: the rows in the order of their insertion.
use ping_mesh.Prelude.{
  String, ◌≡◌, refl, Bool, true, false, ◌||◌, Option, none, some, List, [], ◌∷◌, ◌++◌, arith, ◌==◌,
  eq_iff, if◌then◌else◌,
}

module _ {A : Type 0} (key : A → String) where
  -- SELECT … WHERE id = ?
  unfoldable pub find : String → List A → Option A
  find id [] = none
  find id (r ∷ rs) = if key r == id then some r else find id rs

  unfoldable pub has : String → List A → Bool
  has id [] = false
  has id (r ∷ rs) = (key r == id) || has id rs

  -- UPDATE … SET … WHERE id = ?
  unfoldable pub update : String → (A → A) → List A → List A
  update id f [] = []
  update id f (r ∷ rs) = (if key r == id then f r else r) ∷ update id f rs

  -- DELETE … WHERE id = ?
  unfoldable pub delete : String → List A → List A
  delete id [] = []
  delete id (r ∷ rs) = if key r == id then delete id rs else r ∷ delete id rs

  -- No two rows have the same key.
  abbrev pub IsUnique : List A → Type 0
  IsUnique [] = Unit
  IsUnique (r ∷ rs) = (has (key r) rs ≡ false) × IsUnique rs

  pub has-append_one :
      (id : String) (r : A) (rs : List A) → has id (rs ++ r ∷ []) ≡ (has id rs || (key r == id))
  unfolding has
  has-append_one id r [] = ground arith
  has-append_one id r (x ∷ rs) = ground (arith, has-append_one id r rs)

  pub find-append_one :
      (id : String) (r : A) (rs : List A)
      → find id (rs ++ r ∷ [])
        ≡ (if has id rs then find id rs else if key r == id then some r else none)
  unfolding find has
  find-append_one id r [] = refl
  find-append_one id r (x ∷ rs) = ground (arith, find-append_one id r rs)

  pub IsUnique-append_one :
      (r : A) (rs : List A) → has (key r) rs ≡ false → IsUnique rs → IsUnique (rs ++ r ∷ [])
  unfolding has
  IsUnique-append_one r [] h u = (refl, tt)
  IsUnique-append_one r (x ∷ rs) h u = ground (
    arith,
    has-append_one (key x) r rs,
    eq_iff (key r) (key x),
    eq_iff (key x) (key r),
    IsUnique-append_one r rs,
  )

  pub has-update :
      (id j : String) (f : A → A) (rs : List A)
      → ((r : A) → key (f r) ≡ key r)
      → has j (update id f rs) ≡ has j rs
  unfolding has update
  has-update id j f [] h = refl
  has-update id j f (r ∷ rs) h = ground (arith, h r, has-update id j f rs h)

  pub find-update :
      (id j : String) (f : A → A) (rs : List A)
      → ((r : A) → key (f r) ≡ key r)
      → find j (update id f rs)
        ≡ (if id == j then elim (find j rs) [ none ↦ none | some r ↦ some (f r) ] else find j rs)
  unfolding find update
  find-update id j f [] h = ground arith
  find-update id j f (r ∷ rs) h =
      ground (arith, h r, eq_iff (key r) id, eq_iff (key r) j, eq_iff id j, find-update id j f rs h)

  pub IsUnique-update :
      (id : String) (f : A → A) (rs : List A)
      → ((r : A) → key (f r) ≡ key r)
      → IsUnique rs
      → IsUnique (update id f rs)
  unfolding update
  IsUnique-update id f [] h u = tt
  IsUnique-update id f (r ∷ rs) h u = ground (
    arith,
    h r,
    has-update id (key r) f rs h,
    has-update id (key (f r)) f rs h,
    IsUnique-update id f rs h u.1,
  )

  pub has-delete :
      (id j : String) (rs : List A) → has j (delete id rs) ≡ (if id == j then false else has j rs)
  unfolding has delete
  has-delete id j [] = ground arith
  has-delete id j (r ∷ rs) =
      ground (arith, eq_iff (key r) id, eq_iff (key r) j, eq_iff id j, has-delete id j rs)

  pub find-delete :
      (id j : String) (rs : List A) → find j (delete id rs) ≡ (if id == j then none else find j rs)
  unfolding find delete
  find-delete id j [] = ground arith
  find-delete id j (r ∷ rs) =
      ground (arith, eq_iff (key r) id, eq_iff (key r) j, eq_iff id j, find-delete id j rs)

  pub IsUnique-delete : (id : String) (rs : List A) → IsUnique rs → IsUnique (delete id rs)
  unfolding delete
  IsUnique-delete id [] u = tt
  IsUnique-delete id (r ∷ rs) u =
      ground (arith, has-delete id (key r) rs, IsUnique-delete id rs u.1)

  pub find-none_of_has : (id : String) (rs : List A) → has id rs ≡ false → find id rs ≡ none
  unfolding find has
  find-none_of_has id [] h = refl
  find-none_of_has id (r ∷ rs) h = ground (arith, find-none_of_has id rs)

  pub has-find :
      (id : String) (rs : List A) (r : A) → find id rs ≡ some r → (has id rs ≡ true) × (key r ≡ id)
  unfolding find has
  has-find id [] r h = cc
  has-find id (x ∷ rs) r h = ground (arith, eq_iff (key x) id, has-find id rs r)

  pub has-eq_find :
      (id : String) (rs : List A) → has id rs ≡ elim (find id rs) [ none ↦ false | some r ↦ true ]
  unfolding find has
  has-eq_find id [] = refl
  has-eq_find id (x ∷ rs) = ground (arith, has-eq_find id rs)
