-- ===== src/Cluster/Join.antt =====
-- internal/cluster/join.go. Random bytes, SHA-256, Base64 and JSON are a parameter.
use ping_mesh.Prelude.{
  ℕ, ℤ, String, List, Option, none, some, Bool, Result, ok, err, message, wrapped,
}
use ping_mesh.Model.{JoinToken}
use ping_mesh.World.{Env, Act, pure, ◌>>=◌, now}
use ping_mesh.Store.{store_join_token, validate_and_consume_token}

-- `hash` is the Base64 text of the SHA-256 of a secret; `later` adds a duration in milliseconds to a
-- time; `encode` is the Base64 text of a token's JSON.
pub record Codecs : Type 0 where
  pub hash : List ℕ → String
  pub later : ℤ → ℤ → ℤ
  pub encode : JoinToken → String

module _ (env : Env) (codecs : Codecs) where
  abbrev pub token_text : JoinToken → Result (Unit {0}) → Result String
  token_text token (ok _) = ok (codecs.encode token)
  token_text token (err e) = err (wrapped "storing token" e)

  -- `secret` is what rand.Read gives: 32 bytes, or nothing.
  unfoldable pub generate_join_token : Option (List ℕ) → String → ℤ → Act (Result String)
  generate_join_token none coordinator_addr expiry =
      pure (err (wrapped "generating secret" (message "rand")))
  generate_join_token (some secret) coordinator_addr expiry = do
    time ← now env
    let token : JoinToken = record {
      coordinator_addr = coordinator_addr;
      secret = secret;
      expires_at = codecs.later time expiry;
    }
    stored ← store_join_token env (codecs.hash secret) token.expires_at
    pure (token_text token stored)

  unfoldable pub validate_join_token : List ℕ → Act (Result Bool)
  validate_join_token secret = validate_and_consume_token env (codecs.hash secret)

-- Base64 and JSON, read.
pub record Decoders : Type 0 where
  pub decode_base64 : String → Result String
  pub unmarshal_token : String → Result JoinToken

abbrev pub token_unmarshalled : Result JoinToken → Result JoinToken
token_unmarshalled (ok token) = ok token
token_unmarshalled (err e) = err (wrapped "parsing token" e)

abbrev pub token_decoded : Decoders → Result String → Result JoinToken
token_decoded d (ok token_json) = token_unmarshalled (d.unmarshal_token token_json)
token_decoded d (err e) = err (wrapped "decoding token" e)

unfoldable pub decode_join_token : Decoders → String → Result JoinToken
decode_join_token d token_str = token_decoded d (d.decode_base64 token_str)
