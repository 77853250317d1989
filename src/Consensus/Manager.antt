-- ===== src/Consensus/Manager.antt =====
-- internal/consensus/incident.go. A method that changes the incident behind its pointer returns the
-- changed incident beside its error.
use ping_mesh.Prelude.{ℤ, pos, String, List, Option, none, some, Result, ok}
use ping_mesh.Model.{Incident, incident_suspect, incident_confirmed, incident_resolved}
use ping_mesh.World.{Env, Act, pure, or_return, ◌>>=◌, now, new_uuid}
use ping_mesh.Store.{get_active_incident, create_incident, update_incident}

abbrev pub new_incident : String → String → ℤ → Incident
new_incident id monitor_id time = record {
  id = id;
  monitor_id = monitor_id;
  status = incident_suspect;
  started_at = time;
  confirmed_at = pos 0;
  resolved_at = pos 0;
  confirming_nodes = none;
  created_at = time;
  updated_at = time;
}

abbrev pub confirmed : Incident → Option (List String) → ℤ → Incident
confirmed incident nodes time = record incident {
  status = incident_confirmed;
  confirmed_at = time;
  confirming_nodes = nodes;
  updated_at = time;
}

abbrev pub resolved : Incident → ℤ → Incident
resolved incident time = record incident {
  status = incident_resolved;
  resolved_at = time;
  updated_at = time;
}

module _ (env : Env) where
  unfoldable pub create_suspect : String → Act (Result Incident)
  create_suspect monitor_id = do
    time ← now env
    id ← new_uuid env
    let incident = new_incident id monitor_id time
    stored ← create_incident env incident
    or_return (λ _. pure (ok incident)) stored

  unfoldable pub found_or_created : String → Option Incident → Act (Result Incident)
  unfolding create_suspect
  found_or_created monitor_id none = create_suspect monitor_id
  found_or_created monitor_id (some incident) = pure (ok incident)

  unfoldable pub get_or_create_incident : String → Act (Result Incident)
  unfolding found_or_created
  get_or_create_incident monitor_id = do
    found ← get_active_incident env monitor_id
    or_return (found_or_created monitor_id) found

  unfoldable pub confirm_incident :
      Incident → Option (List String) → Act (Incident × Result (Unit {0}))
  confirm_incident incident nodes = do
    time ← now env
    let incident' = confirmed incident nodes time
    stored ← update_incident env incident'
    pure (incident', stored)

  unfoldable pub resolve_incident : Incident → Act (Incident × Result (Unit {0}))
  resolve_incident incident = do
    time ← now env
    let incident' = resolved incident time
    stored ← update_incident env incident'
    pure (incident', stored)
