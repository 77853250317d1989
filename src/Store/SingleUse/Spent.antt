-- ===== src/Store/SingleUse/Spent.antt =====
-- The rows of a token that has been redeemed.
use ping_mesh.Prelude.{
  String, ℤ, pos, List, [], ◌∷◌, true, false, Bool-cases, inl, inr, ◌≡◌, refl, ◌∙◌, arith, ◌==◌,
  eq_iff, any, All,
}
use ping_mesh.Db.{TokenRow, has, token_key, IsUnique}
use ping_mesh.Store.Tokens.{is_redeemable, redeem}

-- Every row of the token is used, and there is one.
pub record IsSpent (hash : String) (ts : List TokenRow) : Type 0 where
  pub stored : has token_key hash ts ≡ true
  pub used : All (λ t. (t.token_hash == hash) ≡ true → t.used ≡ pos 1) ts

-- A spent token is not redeemable at any time.
pub any-redeemable_of_used :
    (hash : String) (time : ℤ) (ts : List TokenRow)
    → All (λ t. (t.token_hash == hash) ≡ true → t.used ≡ pos 1) ts
    → any (is_redeemable hash time) ts ≡ false
unfolding is_redeemable
any-redeemable_of_used hash time [] h = refl
any-redeemable_of_used hash time (t ∷ ts) h =
    ground (arith, h.0, any-redeemable_of_used hash time ts h.1)

used-redeem :
    (hash other : String) (time : ℤ) (ts : List TokenRow)
    → All (λ t. (t.token_hash == hash) ≡ true → t.used ≡ pos 1) ts
    → All (λ t. (t.token_hash == hash) ≡ true → t.used ≡ pos 1) (redeem other time ts)
unfolding redeem
used-redeem hash other time [] h = tt
used-redeem hash other time (t ∷ ts) h = ground (arith, h.0, used-redeem hash other time ts h.1)

has-redeem :
    (hash other : String) (time : ℤ) (ts : List TokenRow)
    → has token_key hash (redeem other time ts) ≡ has token_key hash ts
unfolding has redeem
has-redeem hash other time [] = refl
has-redeem hash other time (t ∷ ts) = ground (arith, has-redeem hash other time ts)

pub redeem-IsSpent :
    (hash other : String) (time : ℤ) (ts : List TokenRow)
    → IsSpent hash ts
    → IsSpent hash (redeem other time ts)
redeem-IsSpent hash other time ts s = record {
  stored = has-redeem hash other time ts ∙ s.stored;
  used = used-redeem hash other time ts s.used;
}

-- With one row for each hash, redeeming it spends it.
used_of_absent :
    (hash : String) (ts : List TokenRow)
    → has token_key hash ts ≡ false
    → All (λ t. (t.token_hash == hash) ≡ true → t.used ≡ pos 1) ts
unfolding has
used_of_absent hash [] h = tt
used_of_absent hash (t ∷ ts) h = (λ e. ground arith, used_of_absent hash ts (ground arith))

has_of_redeemable :
    (hash : String) (time : ℤ) (ts : List TokenRow)
    → any (is_redeemable hash time) ts ≡ true
    → has token_key hash ts ≡ true
unfolding has is_redeemable
has_of_redeemable hash time [] h = cc
has_of_redeemable hash time (t ∷ ts) h = ground (arith, has_of_redeemable hash time ts)

-- The row of the token heads the list: no other row has its hash.
used_by_redeem_here :
    (hash : String) (time : ℤ) (t : TokenRow) (ts : List TokenRow)
    → (t.token_hash == hash) ≡ true
    → IsUnique token_key (t ∷ ts)
    → any (is_redeemable hash time) (t ∷ ts) ≡ true
    → All (λ t. (t.token_hash == hash) ≡ true → t.used ≡ pos 1) (redeem hash time (t ∷ ts))
unfolding redeem
used_by_redeem_here hash time t ts same u h =
    let alone : has token_key hash ts ≡ false = ground (arith, eq_iff t.token_hash hash) in
    let rest = used-redeem hash hash time ts (used_of_absent hash ts alone) in
    (ground (arith, has_of_redeemable hash time ts, eq_iff t.token_hash hash), rest)

not_here :
    (hash : String) (time : ℤ) (t : TokenRow) (ts : List TokenRow)
    → (t.token_hash == hash) ≡ false
    → any (is_redeemable hash time) (t ∷ ts) ≡ true
    → any (is_redeemable hash time) ts ≡ true
unfolding is_redeemable
not_here hash time t ts other h = ground arith

used_by_redeem :
    (hash : String) (time : ℤ) (ts : List TokenRow)
    → IsUnique token_key ts
    → any (is_redeemable hash time) ts ≡ true
    → All (λ t. (t.token_hash == hash) ≡ true → t.used ≡ pos 1) (redeem hash time ts)
unfolding redeem
used_by_redeem hash time [] u h = tt
used_by_redeem hash time (t ∷ ts) u h = elim (Bool-cases (t.token_hash == hash)) [
  | inl same ↦ used_by_redeem_here hash time t ts same u h
  | inr other ↦
      (λ e. ground arith, used_by_redeem hash time ts u.1 (not_here hash time t ts other h))
]

pub redeem-spends :
    (hash : String) (time : ℤ) (ts : List TokenRow)
    → IsUnique token_key ts
    → any (is_redeemable hash time) ts ≡ true
    → IsSpent hash (redeem hash time ts)
redeem-spends hash time ts u h = record {
  stored = has-redeem hash hash time ts ∙ has_of_redeemable hash time ts h;
  used = used_by_redeem hash time ts u h;
}
