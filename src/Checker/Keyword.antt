-- ===== src/Checker/Keyword.antt =====
-- internal/checker/keyword.go, with the client of http.go.
use ping_mesh.Prelude.{
  String, ℕ, ℤ, pos, leb_ℤ, eq_ℤ, Bool, true, false, ◌&&◌, ◌||◌, List, [], ◌∷◌, Result, ok, err,
  ◌==◌, if◌then◌else◌, nat_eq, length, take,
}
use ping_mesh.Model.{Monitor, status_up, status_down}
use ping_mesh.Checker.Outcome.{text, number, reason, flag, Sprintf, CheckOutcome, down_outcome}
use ping_mesh.Checker.Target.{clean_target}
use ping_mesh.Checker.Http.{Response, HttpClient}

-- strings.Contains
unfoldable pub begins_with : List ℕ → List ℕ → Bool
begins_with [] s = true
begins_with (b ∷ p) [] = false
begins_with (b ∷ p) (c ∷ s) = nat_eq b c && begins_with p s

unfoldable pub contains : List ℕ → List ℕ → Bool
unfolding begins_with
contains p [] = begins_with p []
contains p (c ∷ s) = begins_with p (c ∷ s) || contains p s

-- 1<<20
abbrev pub body_limit : ℕ
body_limit = 1048576

abbrev pub keyword_port : ℤ → ℤ
keyword_port port = if eq_ℤ port (pos 0) then pos 80 else port

-- `utf8` is the bytes of a text.
module _ (sprintf : Sprintf) (utf8 : String → List ℕ) where
  unfoldable pub keyword_url : Monitor → String
  keyword_url m =
      sprintf "http://%s:%d" (text (clean_target m.target) ∷ number (keyword_port m.port) ∷ [])

  abbrev pub keyword_error : Monitor → Bool → String
  keyword_error m found =
      if found
      then ""
      else sprintf "keyword %q not found in response" (text m.expected_keyword ∷ [])

  -- `if result.Error == ""`
  abbrev pub or_code_error : String → ℤ → String
  or_code_error error code = if error == "" then sprintf "HTTP %d" (number code ∷ []) else error

  unfoldable pub keyword_verdict : Monitor → ℤ → List ℕ → ℕ → CheckOutcome
  keyword_verdict m code body latency =
      let found = contains (utf8 m.expected_keyword) body in
      record {
        status =
            if leb_ℤ (pos 400) code then status_down else if found then status_up else status_down;
        latency_us = latency;
        status_code = code;
        error =
            if leb_ℤ (pos 400) code
            then or_code_error (keyword_error m found) code
            else keyword_error m found;
        details =
            ("status_code", number code)
            ∷ ("keyword_found", flag found)
            ∷ ("body_length", number (pos (length body)))
            ∷ [];
      }

  unfoldable pub keyword_read : Monitor → ℤ → ℕ → Result (List ℕ) → CheckOutcome
  unfolding keyword_verdict
  keyword_read m code latency (err e) =
      down_outcome latency code (sprintf "reading body: %v" (reason e ∷ []))
  keyword_read m code latency (ok body) = keyword_verdict m code (take body_limit body) latency

  unfoldable pub keyword_outcome : Monitor → Result Response × ℕ → CheckOutcome
  unfolding keyword_read
  keyword_outcome m (err e, latency) =
      down_outcome latency (pos 0) (sprintf "request failed: %v" (reason e ∷ []))
  keyword_outcome m (ok r, latency) = keyword_read m r.status_code latency r.body

  unfoldable pub keyword_requested :
      HttpClient → Monitor → String → Result (Unit {0}) → CheckOutcome
  unfolding keyword_outcome
  keyword_requested client m url (err e) =
      down_outcome 0 (pos 0) (sprintf "creating request: %v" (reason e ∷ []))
  keyword_requested client m url (ok _) = keyword_outcome m (client.fetch url m.timeout_ms)

  unfoldable pub check_keyword : HttpClient → Monitor → CheckOutcome
  unfolding keyword_url keyword_requested
  check_keyword client m =
      let url = keyword_url m in keyword_requested client m url (client.new_request url)
