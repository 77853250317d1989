-- ===== src/Model/Incidents.antt =====
-- internal/model/types.go: incidents.
use ping_mesh.Prelude.{String, ℤ, List, Option}

abbrev pub IncidentStatus : Type 0
IncidentStatus = String

abbrev pub incident_suspect : IncidentStatus
incident_suspect = "suspect"

abbrev pub incident_confirmed : IncidentStatus
incident_confirmed = "confirmed"

abbrev pub incident_resolved : IncidentStatus
incident_resolved = "resolved"

-- A time that is 0 has not come; `none` is the nil slice of confirming nodes.
pub record Incident : Type 0 where
  pub id : String
  pub monitor_id : String
  pub status : IncidentStatus
  pub started_at : ℤ
  pub confirmed_at : ℤ
  pub resolved_at : ℤ
  pub confirming_nodes : Option (List String)
  pub created_at : ℤ
  pub updated_at : ℤ
