-- ===== src/Api/Reply.antt =====
-- internal/api/server.go: writeJSON and writeError, as the answer that they send. The text
-- of a failure is an error, which wraps the error that the text ends in.
use ping_mesh.Prelude.{ℕ, String, Error}

pub data Reply (A : Type 0) : Type 0 where
  json : ℕ → A → Reply A
  failure : ℕ → Error → Reply A

abbrev pub status_ok : ℕ
status_ok = 200

abbrev pub status_created : ℕ
status_created = 201

abbrev pub bad_request : ℕ
bad_request = 400

abbrev pub unauthorized : ℕ
unauthorized = 401

abbrev pub forbidden : ℕ
forbidden = 403

abbrev pub not_found : ℕ
not_found = 404

abbrev pub internal_error : ℕ
internal_error = 500

abbrev pub not_implemented : ℕ
not_implemented = 501

abbrev pub service_unavailable : ℕ
service_unavailable = 503

-- map[string]string{"status": …}
pub record Status : Type 0 where
  pub status : String
