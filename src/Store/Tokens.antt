-- ===== src/Store/Tokens.antt =====
-- internal/store/sqlite.go: join tokens.
use ping_mesh.Prelude.{
  String, ℤ, pos, eq_ℤ, ltb_ℤ, Bool, ◌&&◌, List, [], ◌∷◌, ◌++◌, ◌==◌, if◌then◌else◌, any, Result,
  ok, err, unique_violation,
}
use ping_mesh.Db.{Db, TokenRow, has, token_key}
use ping_mesh.World.{Env, Act, exec, write, now, ◌>>=◌}

unfoldable pub insert_token : String → ℤ → ℤ → Db → Result Db
insert_token hash expires_at created_at db =
    if has token_key hash db.join_tokens
    then err unique_violation
    else ok (record db {
      join_tokens =
          db.join_tokens
          ++ record {
            token_hash = hash;
            expires_at = expires_at;
            used = pos 0;
            created_at = created_at;
          }
            ∷ [];
    })

-- WHERE token_hash = ? AND used = 0 AND expires_at > ?
unfoldable pub is_redeemable : String → ℤ → TokenRow → Bool
is_redeemable hash time t = (t.token_hash == hash) && eq_ℤ t.used (pos 0) && ltb_ℤ time t.expires_at

-- SET used = 1
unfoldable pub redeem : String → ℤ → List TokenRow → List TokenRow
redeem hash time [] = []
redeem hash time (t ∷ ts) =
    (if is_redeemable hash time t then record t { used = pos 1 } else t) ∷ redeem hash time ts

-- The update, and whether it affected a row.
unfoldable pub consume_token : String → ℤ → Db → Result (Bool × Db)
consume_token hash time db = ok (
  any (is_redeemable hash time) db.join_tokens,
  record db { join_tokens = redeem hash time db.join_tokens },
)

module _ (env : Env) where
  unfoldable pub store_join_token : String → ℤ → Act (Result (Unit {0}))
  store_join_token hash expires_at = do
    time ← now env
    exec env (λ db. write (insert_token hash expires_at time db))

  unfoldable pub validate_and_consume_token : String → Act (Result Bool)
  validate_and_consume_token hash = do time ← now env; exec env (consume_token hash time)
