-- ===== src/Db/Rows/Alerts.antt =====
-- internal/store/sqlite.go: rows of join tokens, alert channels and alert records.
use ping_mesh.Prelude.{String, ℤ, pos, ℕ, Option, eq_ℤ}
use ping_mesh.Model.{AlertChannel, AlertRecord}
use ping_mesh.Db.Rows.Nulls.{null_string, bool_to_int, string_or_empty}

pub record TokenRow : Type 0 where
  pub token_hash : String
  pub expires_at : ℤ
  pub used : ℤ
  pub created_at : ℤ

pub record ChannelRow : Type 0 where
  pub id : String
  pub name : String
  pub channel_type : String
  pub enabled : ℤ
  pub config : String
  pub created_at : ℤ
  pub updated_at : ℤ

unfoldable pub channel_row : AlertChannel → ChannelRow
channel_row c = record {
  id = c.id;
  name = c.name;
  channel_type = c.channel_type;
  enabled = bool_to_int c.enabled;
  config = c.config;
  created_at = c.created_at;
  updated_at = c.updated_at;
}

-- The columns that UPDATE alert_channels sets.
unfoldable pub set_channel_row : AlertChannel → ChannelRow → ChannelRow
set_channel_row c r = record r {
  name = c.name;
  channel_type = c.channel_type;
  enabled = bool_to_int c.enabled;
  config = c.config;
  updated_at = c.updated_at;
}

unfoldable pub scan_alert_channel : ChannelRow → AlertChannel
scan_alert_channel r = record {
  id = r.id;
  name = r.name;
  channel_type = r.channel_type;
  enabled = eq_ℤ r.enabled (pos 1);
  config = r.config;
  created_at = r.created_at;
  updated_at = r.updated_at;
}

pub record HistoryRow : Type 0 where
  pub id : ℕ
  pub channel_id : String
  pub incident_id : String
  pub monitor_id : String
  pub event_type : String
  pub status : String
  pub error : Option String
  pub sent_at : ℤ

unfoldable pub history_row : ℕ → AlertRecord → HistoryRow
history_row id r = record {
  id = id;
  channel_id = r.channel_id;
  incident_id = r.incident_id;
  monitor_id = r.monitor_id;
  event_type = r.event_type;
  status = r.status;
  error = null_string r.error;
  sent_at = r.sent_at;
}

unfoldable pub scan_history : HistoryRow → AlertRecord
scan_history r = record {
  id = r.id;
  channel_id = r.channel_id;
  incident_id = r.incident_id;
  monitor_id = r.monitor_id;
  event_type = r.event_type;
  status = r.status;
  error = string_or_empty r.error;
  sent_at = r.sent_at;
}
