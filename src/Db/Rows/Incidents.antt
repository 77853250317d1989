-- ===== src/Db/Rows/Incidents.antt =====
-- internal/store/sqlite.go: rows of incidents.
use ping_mesh.Prelude.{String, ℤ, Option, List}
use ping_mesh.Model.{Incident}
use ping_mesh.Db.Rows.Nulls.{null_int, int_or_zero}

-- The column confirming_nodes holds the JSON text of the slice, `null` for nil; it is kept here as
-- the slice that the text stands for.
pub record IncidentRow : Type 0 where
  pub id : String
  pub monitor_id : String
  pub status : String
  pub started_at : ℤ
  pub confirmed_at : Option ℤ
  pub resolved_at : Option ℤ
  pub confirming_nodes : Option (List String)
  pub created_at : ℤ
  pub updated_at : ℤ

unfoldable pub incident_row : Incident → IncidentRow
incident_row i = record {
  id = i.id;
  monitor_id = i.monitor_id;
  status = i.status;
  started_at = i.started_at;
  confirmed_at = null_int i.confirmed_at;
  resolved_at = null_int i.resolved_at;
  confirming_nodes = i.confirming_nodes;
  created_at = i.created_at;
  updated_at = i.updated_at;
}

-- The columns that UPDATE incidents sets.
unfoldable pub set_incident_row : Incident → IncidentRow → IncidentRow
set_incident_row i r = record r {
  status = i.status;
  confirmed_at = null_int i.confirmed_at;
  resolved_at = null_int i.resolved_at;
  confirming_nodes = i.confirming_nodes;
  updated_at = i.updated_at;
}

unfoldable pub scan_incident : IncidentRow → Incident
scan_incident r = record {
  id = r.id;
  monitor_id = r.monitor_id;
  status = r.status;
  started_at = r.started_at;
  confirmed_at = int_or_zero r.confirmed_at;
  resolved_at = int_or_zero r.resolved_at;
  confirming_nodes = r.confirming_nodes;
  created_at = r.created_at;
  updated_at = r.updated_at;
}
