-- ===== src/Db/Rows/Results.antt =====
-- internal/store/sqlite.go: rows of check results.
use ping_mesh.Prelude.{String, ℤ, ℕ, Option, none, some, ◌==◌, if◌then◌else◌}
use ping_mesh.Model.{CheckResult}
use ping_mesh.Db.Rows.Nulls.{null_int, null_string, int_or_zero, string_or_empty}

pub record ResultRow : Type 0 where
  pub id : ℕ
  pub monitor_id : String
  pub node_id : String
  pub status : String
  pub latency_us : ℕ
  pub status_code : Option ℤ
  pub error : Option String
  pub details : Option String
  pub timestamp : ℤ

-- `details := ""; if result.Details != nil { … }`, then nullString
unfoldable pub result_row : ℕ → CheckResult → ResultRow
result_row id r = record {
  id = id;
  monitor_id = r.monitor_id;
  node_id = r.node_id;
  status = r.status;
  latency_us = r.latency_us;
  status_code = null_int r.status_code;
  error = null_string r.error;
  details = null_string (string_or_empty r.details);
  timestamp = r.timestamp;
}

-- `if details.Valid && details.String != ""`
unfoldable pub scan_details : Option String → Option String
scan_details none = none
scan_details (some d) = if d == "" then none else some d

unfoldable pub scan_result : ResultRow → CheckResult
scan_result r = record {
  id = r.id;
  monitor_id = r.monitor_id;
  node_id = r.node_id;
  status = r.status;
  latency_us = r.latency_us;
  status_code = int_or_zero r.status_code;
  error = string_or_empty r.error;
  details = scan_details r.details;
  timestamp = r.timestamp;
}
