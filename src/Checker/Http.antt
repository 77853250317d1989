-- ===== src/Checker/Http.antt =====
-- internal/checker/http.go. The HTTP client is a parameter: whether a request can be made for a URL, and
-- what it brings in a time, with the time that it took.
use ping_mesh.Prelude.{
  String, ℕ, ℤ, pos, ltb_ℤ, leb_ℤ, eq_ℤ, quot_ℤ, not, ◌&&◌, List, [], ◌∷◌, ◌++◌, Option, none, some,
  Result, ok, err, ◌==◌, if◌then◌else◌,
}
use ping_mesh.Model.{
  Monitor, CheckType, CheckStatus, check_https, status_up, status_down, status_degraded,
}
use ping_mesh.Checker.Outcome.{Value, text, number, reason, Sprintf, CheckOutcome, down_outcome}
use ping_mesh.Checker.Target.{clean_target}

-- The first of resp.TLS.PeerCertificates; `remaining_ns` is time.Until(cert.NotAfter).
pub record Certificate : Type 0 where
  pub remaining_ns : ℤ
  pub issuer : String
  pub subject : String

pub record Response : Type 0 where
  pub status_code : ℤ
  pub protocol : String
  pub certificate : Option Certificate
  pub body : Result (List ℕ)  -- its bytes, as far as they are read

pub record HttpClient : Type 0 where
  pub new_request : String → Result (Unit {0})
  pub fetch : String → ℤ → Result Response × ℕ

-- Nanoseconds; the code compares hours divided by 24 with 7.
abbrev pub day_ns : ℕ
day_ns = 86400000000000

abbrev pub week_ns : ℕ
week_ns = 604800000000000

unfoldable pub scheme_of : CheckType → String
scheme_of check_type = if check_type == check_https then "https" else "http"

unfoldable pub http_port : String → ℤ → ℤ
http_port scheme port =
    if eq_ℤ port (pos 0) then (if scheme == "https" then pos 443 else pos 80) else port

-- The status that the code leaves before it looks at the certificate.
unfoldable pub code_status : Monitor → ℤ → CheckStatus
code_status m code =
    if ltb_ℤ (pos 0) m.expected_status && not (eq_ℤ code m.expected_status)
    then status_down
    else if eq_ℤ m.expected_status (pos 0) && leb_ℤ (pos 400) code
    then status_down
    else status_up

module _ (sprintf : Sprintf) where
  unfoldable pub http_url : CheckType → Monitor → String
  http_url check_type m = sprintf "%s://%s:%d" (
      text (scheme_of check_type)
      ∷ text (clean_target m.target)
      ∷ number (http_port (scheme_of check_type) m.port)
      ∷ [])

  unfoldable pub code_error : Monitor → ℤ → String
  code_error m code =
      if ltb_ℤ (pos 0) m.expected_status && not (eq_ℤ code m.expected_status)
      then sprintf "expected status %d, got %d" (number m.expected_status ∷ number code ∷ [])
      else if eq_ℤ m.expected_status (pos 0) && leb_ℤ (pos 400) code
      then sprintf "HTTP %d" (number code ∷ [])
      else ""

  unfoldable pub code_outcome : Monitor → Response → ℕ → CheckOutcome
  unfolding code_status code_error
  code_outcome m r latency = record {
    status = code_status m r.status_code;
    latency_us = latency;
    status_code = r.status_code;
    error = code_error m r.status_code;
    details = ("status_code", number r.status_code) ∷ ("protocol", text r.protocol) ∷ [];
  }

  abbrev pub certificate_details : Certificate → List (String × Value)
  certificate_details c =
      ("tls_expiry_days", number (quot_ℤ c.remaining_ns day_ns))
      ∷ ("tls_issuer", text c.issuer)
      ∷ ("tls_subject", text c.subject)
      ∷ []

  abbrev pub with_details : CheckOutcome → Certificate → CheckOutcome
  with_details o c = record o { details = o.details ++ certificate_details c }

  unfoldable pub with_certificate : Certificate → CheckOutcome → CheckOutcome
  with_certificate c o =
      if ltb_ℤ c.remaining_ns (pos week_ns)
      then record (with_details o c) {
        status = status_degraded;
        error =
            sprintf "TLS certificate expires in %d days"
              (number (quot_ℤ c.remaining_ns day_ns) ∷ []);
      }
      else with_details o c

  -- Only for HTTPS, and only where there is a certificate.
  unfoldable pub with_expiry : CheckType → Option Certificate → CheckOutcome → CheckOutcome
  unfolding with_certificate
  with_expiry check_type none o = o
  with_expiry check_type (some c) o = if check_type == check_https then with_certificate c o else o

  unfoldable pub http_outcome : CheckType → Monitor → Result Response × ℕ → CheckOutcome
  unfolding code_outcome with_expiry
  http_outcome check_type m (err e, latency) =
      down_outcome latency (pos 0) (sprintf "request failed: %v" (reason e ∷ []))
  http_outcome check_type m (ok r, latency) =
      with_expiry check_type r.certificate (code_outcome m r latency)

  unfoldable pub http_requested :
      HttpClient → CheckType → Monitor → String → Result (Unit {0}) → CheckOutcome
  unfolding http_outcome
  http_requested client check_type m url (err e) =
      down_outcome 0 (pos 0) (sprintf "creating request: %v" (reason e ∷ []))
  http_requested client check_type m url (ok _) =
      http_outcome check_type m (client.fetch url m.timeout_ms)

  unfoldable pub check_http_target : HttpClient → CheckType → Monitor → CheckOutcome
  unfolding http_url http_requested
  check_http_target client check_type m =
      let url = http_url check_type m in
      http_requested client check_type m url (client.new_request url)
