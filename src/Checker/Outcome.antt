-- ===== src/Checker/Outcome.antt =====
-- internal/checker/checker.go: the outcome of a check. fmt.Sprintf is a parameter, of a format and the
-- values that it prints; a duration that is measured is in microseconds.
use ping_mesh.Prelude.{String, ℕ, ℤ, Bool, List, [], Error}
use ping_mesh.Model.{CheckStatus, status_down}

pub data Value : Type 0 where
  text : String → Value
  number : ℤ → Value
  flag : Bool → Value
  reason : Error → Value
  texts : List String → Value

abbrev pub Sprintf : Type 0
Sprintf = String → List Value → String

pub record CheckOutcome : Type 0 where
  pub status : CheckStatus
  pub latency_us : ℕ
  pub status_code : ℤ
  pub error : String
  pub details : List (String × Value)

-- `&Result{Status: model.StatusDown, …}`
abbrev pub down_outcome : ℕ → ℤ → String → CheckOutcome
down_outcome latency code error = record {
  status = status_down;
  latency_us = latency;
  status_code = code;
  error = error;
  details = [];
}
