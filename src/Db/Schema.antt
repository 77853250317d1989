-- ===== src/Db/Schema.antt =====
-- The database: one list of rows for each table, the two AUTOINCREMENT counters, and what its keys
-- and references promise.
use ping_mesh.Prelude.{String, ℕ, ◌<◌, ◌≡◌, true, List, [], All}
use ping_mesh.Model.{Node}
use ping_mesh.Db.Table.{has, IsUnique}
use ping_mesh.Db.Rows.{MonitorRow, ResultRow, IncidentRow, TokenRow, ChannelRow, HistoryRow}

pub record Db : Type 0 where
  pub nodes : List Node
  pub monitors : List MonitorRow
  pub check_results : List ResultRow
  pub incidents : List IncidentRow
  pub join_tokens : List TokenRow
  pub alert_channels : List ChannelRow
  pub alert_history : List HistoryRow
  pub next_result_id : ℕ
  pub next_history_id : ℕ

-- After the first migration.
unfoldable pub empty_db : Db
empty_db = record {
  nodes = [];
  monitors = [];
  check_results = [];
  incidents = [];
  join_tokens = [];
  alert_channels = [];
  alert_history = [];
  next_result_id = 1;
  next_history_id = 1;
}

abbrev pub node_key : Node → String
node_key n = n.id

abbrev pub monitor_key : MonitorRow → String
monitor_key m = m.id

abbrev pub incident_key : IncidentRow → String
incident_key i = i.id

abbrev pub token_key : TokenRow → String
token_key t = t.token_hash

abbrev pub channel_key : ChannelRow → String
channel_key c = c.id

-- REFERENCES monitors(id), REFERENCES nodes(id), and an id below the counter
abbrev pub ResultIsKnown : Db → ResultRow → Type 0
ResultIsKnown db r =
    (has monitor_key r.monitor_id db.monitors ≡ true)
    × (has node_key r.node_id db.nodes ≡ true)
    × (r.id < db.next_result_id)

abbrev pub IncidentIsKnown : Db → IncidentRow → Type 0
IncidentIsKnown db i = has monitor_key i.monitor_id db.monitors ≡ true

abbrev pub HistoryIsKnown : Db → HistoryRow → Type 0
HistoryIsKnown db h =
    (has channel_key h.channel_id db.alert_channels ≡ true) × (h.id < db.next_history_id)

-- The primary keys are unique, and every reference has its row.
pub record IsConsistent (db : Db) : Type 0 where
  pub nodes_unique : IsUnique node_key db.nodes
  pub monitors_unique : IsUnique monitor_key db.monitors
  pub incidents_unique : IsUnique incident_key db.incidents
  pub tokens_unique : IsUnique token_key db.join_tokens
  pub channels_unique : IsUnique channel_key db.alert_channels
  pub results_known : All (ResultIsKnown db) db.check_results
  pub incidents_known : All (IncidentIsKnown db) db.incidents
  pub history_known : All (HistoryIsKnown db) db.alert_history
