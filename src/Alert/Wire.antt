-- ===== src/Alert/Wire.antt =====
-- What internal/alert/alert.go takes from libraries: JSON, HTTP, HMAC, SMTP and the texts of times.
use ping_mesh.Prelude.{String, ℤ, Result, Option, Error}
use ping_mesh.Model.{WebhookConfig, EmailConfig, WebhookPayload}
use ping_mesh.Checker.{Sprintf}

-- smtp.PlainAuth with an empty identity.
pub record PlainAuth : Type 0 where
  pub username : String
  pub password : String
  pub host : String

-- The steps of a session over TLS with the server at an address; each succeeds or fails.
pub record SmtpSession : Type 0 where
  pub dial : String → String → Result (Unit {0})
  pub new_client : String → Result (Unit {0})
  pub authenticate : PlainAuth → Result (Unit {0})
  pub mail : String → Result (Unit {0})
  pub rcpt : String → Result (Unit {0})
  pub begin_data : Result (Unit {0})
  pub write_data : String → Result (Unit {0})
  pub close_data : Result (Unit {0})
  pub quit : Result (Unit {0})

-- `hex_hmac` is the hexadecimal HMAC-SHA256 with a secret; `do_request` has the signature, if there is
-- one, and gives the code of the answer; `test_id` is the name that SendTest makes from the time.
pub record Transport : Type 0 where
  pub sprintf : Sprintf
  pub error_text : Error → String
  pub test_id : ℤ → String
  pub rfc3339 : ℤ → String
  pub duration_text : ℤ → String
  pub parse_webhook : String → Result WebhookConfig
  pub parse_email : String → Result EmailConfig
  pub marshal : WebhookPayload → Result String
  pub hex_hmac : String → String → String
  pub new_request : String → Result (Unit {0})
  pub do_request : String → String → Option String → Result ℤ
  pub send_mail : String → PlainAuth → String → String → String → Result (Unit {0})
  pub session : SmtpSession
