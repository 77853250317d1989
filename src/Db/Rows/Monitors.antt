-- ===== src/Db/Rows/Monitors.antt =====
-- internal/store/sqlite.go: rows of monitors.
use ping_mesh.Prelude.{String, ℤ, pos, Option, eq_ℤ}
use ping_mesh.Model.{Monitor}
use ping_mesh.Db.Rows.Nulls.{null_int, null_string, bool_to_int, int_or_zero, string_or_empty}

pub record MonitorRow : Type 0 where
  pub id : String
  pub name : String
  pub group_name : String
  pub check_type : String
  pub target : String
  pub port : Option ℤ
  pub interval_ms : ℤ
  pub timeout_ms : ℤ
  pub retries : ℤ
  pub expected_status : Option ℤ
  pub expected_keyword : Option String
  pub dns_record_type : Option String
  pub dns_expected : Option String
  pub failure_threshold : ℤ
  pub recovery_threshold : ℤ
  pub quorum_type : String
  pub quorum_n : ℤ
  pub cooldown_ms : ℤ
  pub enabled : ℤ
  pub created_at : ℤ
  pub updated_at : ℤ

unfoldable pub monitor_row : Monitor → MonitorRow
monitor_row m = record {
  id = m.id;
  name = m.name;
  group_name = m.group_name;
  check_type = m.check_type;
  target = m.target;
  port = null_int m.port;
  interval_ms = m.interval_ms;
  timeout_ms = m.timeout_ms;
  retries = m.retries;
  expected_status = null_int m.expected_status;
  expected_keyword = null_string m.expected_keyword;
  dns_record_type = null_string m.dns_record_type;
  dns_expected = null_string m.dns_expected;
  failure_threshold = m.failure_threshold;
  recovery_threshold = m.recovery_threshold;
  quorum_type = m.quorum_type;
  quorum_n = m.quorum_n;
  cooldown_ms = m.cooldown_ms;
  enabled = bool_to_int m.enabled;
  created_at = m.created_at;
  updated_at = m.updated_at;
}

-- The columns that UPDATE monitors sets: all but the id and the time of creation.
unfoldable pub set_monitor_row : Monitor → MonitorRow → MonitorRow
unfolding monitor_row
set_monitor_row m r = record (monitor_row m) { id = r.id; created_at = r.created_at }

unfoldable pub scan_monitor : MonitorRow → Monitor
scan_monitor r = record {
  id = r.id;
  name = r.name;
  group_name = r.group_name;
  check_type = r.check_type;
  target = r.target;
  port = int_or_zero r.port;
  interval_ms = r.interval_ms;
  timeout_ms = r.timeout_ms;
  retries = r.retries;
  expected_status = int_or_zero r.expected_status;
  expected_keyword = string_or_empty r.expected_keyword;
  dns_record_type = string_or_empty r.dns_record_type;
  dns_expected = string_or_empty r.dns_expected;
  failure_threshold = r.failure_threshold;
  recovery_threshold = r.recovery_threshold;
  quorum_type = r.quorum_type;
  quorum_n = r.quorum_n;
  cooldown_ms = r.cooldown_ms;
  enabled = eq_ℤ r.enabled (pos 1);
  created_at = r.created_at;
  updated_at = r.updated_at;
}
