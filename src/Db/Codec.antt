-- ===== src/Db/Codec.antt =====
-- Reading back the row of a record gives the record.
use ping_mesh.Prelude.{ℕ, ◌≢◌, ◌≡◌, refl, ap, String, Option, none, some, arith, eq_iff}
use ping_mesh.Model.{Monitor, CheckResult, Incident, AlertChannel, AlertRecord}
use ping_mesh.Db.Rows.{
  MonitorRow, monitor_row, set_monitor_row, scan_monitor, result_row, scan_result, scan_details,
  incident_row, set_incident_row, scan_incident, IncidentRow, channel_row, scan_alert_channel,
  history_row, scan_history, int_or_zero-null_int, string_or_empty-null_string, string_or_empty,
  null_string, eq_one-bool_to_int,
}

pub scan_monitor-monitor_row : (m : Monitor) → scan_monitor (monitor_row m) ≡ m
unfolding scan_monitor monitor_row
scan_monitor-monitor_row m = λ i. record m {
  port = int_or_zero-null_int m.port i;
  expected_status = int_or_zero-null_int m.expected_status i;
  expected_keyword = string_or_empty-null_string m.expected_keyword i;
  dns_record_type = string_or_empty-null_string m.dns_record_type i;
  dns_expected = string_or_empty-null_string m.dns_expected i;
  enabled = eq_one-bool_to_int m.enabled i;
}

-- The row that UpdateMonitor leaves is read back as the update with the id and the time of
-- creation of the old row.
pub scan_monitor-set_monitor_row :
    (m : Monitor) (r : MonitorRow)
    → scan_monitor (set_monitor_row m r) ≡ record m { id = r.id; created_at = r.created_at }
unfolding scan_monitor set_monitor_row
scan_monitor-set_monitor_row m r = λ i. record m {
  id = r.id;
  created_at = r.created_at;
  port = int_or_zero-null_int m.port i;
  expected_status = int_or_zero-null_int m.expected_status i;
  expected_keyword = string_or_empty-null_string m.expected_keyword i;
  dns_record_type = string_or_empty-null_string m.dns_record_type i;
  dns_expected = string_or_empty-null_string m.dns_expected i;
  enabled = eq_one-bool_to_int m.enabled i;
}

pub scan_incident-incident_row : (i : Incident) → scan_incident (incident_row i) ≡ i
unfolding scan_incident incident_row
scan_incident-incident_row n = λ i. record n {
  confirmed_at = int_or_zero-null_int n.confirmed_at i;
  resolved_at = int_or_zero-null_int n.resolved_at i;
}

-- UPDATE keeps the id, the monitor and the times of the start and of the creation.
pub scan_incident-set_incident_row :
    (n : Incident) (r : IncidentRow)
    → scan_incident (set_incident_row n r) ≡ record n {
      id = r.id;
      monitor_id = r.monitor_id;
      started_at = r.started_at;
      created_at = r.created_at;
    }
unfolding scan_incident set_incident_row
scan_incident-set_incident_row n r = λ i. record n {
  id = r.id;
  monitor_id = r.monitor_id;
  started_at = r.started_at;
  created_at = r.created_at;
  confirmed_at = int_or_zero-null_int n.confirmed_at i;
  resolved_at = int_or_zero-null_int n.resolved_at i;
}

pub scan_alert_channel-channel_row : (c : AlertChannel) → scan_alert_channel (channel_row c) ≡ c
unfolding scan_alert_channel channel_row
scan_alert_channel-channel_row c = λ i. record c { enabled = eq_one-bool_to_int c.enabled i }

-- Raw details that are empty come back as nil.
pub scan_details_normal :
    (d : Option String) → d ≢ some "" → scan_details (null_string (string_or_empty d)) ≡ d
unfolding scan_details null_string string_or_empty
scan_details_normal none h = refl
scan_details_normal (some d) h = ground (arith, eq_iff d "", λ (e : d ≡ ""). h (ap some e))

-- A check result whose raw details are not empty text is read back from its row as it was, under
-- the id of the row.
pub scan_result-result_row :
    (id : ℕ) (r : CheckResult)
    → r.details ≢ some ""
    → scan_result (result_row id r) ≡ record r { id = id }
unfolding scan_result result_row
scan_result-result_row id r h = λ i. record r {
  id = id;
  status_code = int_or_zero-null_int r.status_code i;
  error = string_or_empty-null_string r.error i;
  details = scan_details_normal r.details h i;
}

pub scan_history-history_row :
    (id : ℕ) (r : AlertRecord) → scan_history (history_row id r) ≡ record r { id = id }
unfolding scan_history history_row
scan_history-history_row id r =
    λ i. record r { id = id; error = string_or_empty-null_string r.error i }
