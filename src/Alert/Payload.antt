-- ===== src/Alert/Payload.antt =====
-- internal/alert/alert.go: the parts of a webhook's body.
use ping_mesh.Prelude.{
  ℤ, pos, ltb_ℤ, sub_64, quot_ℤ, String, List, [], Option, none, some, ◌==◌, if◌then◌else◌,
}
use ping_mesh.Model.{Incident, IncidentDetail, Monitor, MonitorSummary}

-- A nil slice is sent as an empty list.
abbrev pub or_empty : Option (List String) → List String
or_empty none = []
or_empty (some ids) = ids

-- `rfc3339` formats a time given in milliseconds.
unfoldable pub build_incident_detail : (ℤ → String) → Incident → IncidentDetail
build_incident_detail rfc3339 i = record {
  id = i.id;
  status = i.status;
  started_at = rfc3339 i.started_at;
  confirmed_at = if ltb_ℤ (pos 0) i.confirmed_at then rfc3339 i.confirmed_at else "";
  resolved_at = if ltb_ℤ (pos 0) i.resolved_at then rfc3339 i.resolved_at else "";
  confirming_nodes = or_empty i.confirming_nodes;
  duration_sec =
      if ltb_ℤ (pos 0) i.resolved_at
      then quot_ℤ (sub_64 i.resolved_at i.started_at) 1000
      else pos 0;
}

unfoldable pub build_monitor_summary : Monitor → MonitorSummary
build_monitor_summary m = record {
  id = m.id;
  name = m.name;
  check_type = m.check_type;
  target = m.target;
  group = m.group_name;
}

-- The name of the event in a webhook.
unfoldable pub event_name : String → String
event_name event_type =
    if event_type == "recovery" then "incident.resolved" else "incident.confirmed"
