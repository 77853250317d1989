-- ===== src/Store/Incidents.antt =====
-- internal/store/sqlite.go: incident operations.
use ping_mesh.Prelude.{
  String, Bool, not, ◌&&◌, List, [], ◌∷◌, ◌++◌, map, Option, ◌==◌, if◌then◌else◌, keep_if, head?,
  Result, ok, err, unique_violation, foreign_key_violation,
}
use mathlib.Core.Option
use ping_mesh.Model.{Incident, incident_resolved}
use ping_mesh.Db.{
  Db, IncidentRow, find, has, update, monitor_key, incident_key, incident_row, set_incident_row,
  scan_incident,
}
use ping_mesh.World.{Env, Act, exec, select, write}

unfoldable pub insert_incident : Incident → Db → Result Db
insert_incident i db =
    if has incident_key i.id db.incidents
    then err unique_violation
    else if has monitor_key i.monitor_id db.monitors
    then ok (record db { incidents = db.incidents ++ incident_row i ∷ [] })
    else err foreign_key_violation

unfoldable pub set_incident : Incident → Db → Result Db
set_incident i db =
    ok (record db { incidents = update incident_key i.id (set_incident_row i) db.incidents })

-- status != 'resolved'
unfoldable pub is_active : IncidentRow → Bool
is_active i = not (i.status == incident_resolved)

-- WHERE monitor_id = ? AND status != 'resolved'
unfoldable pub is_active_for : String → IncidentRow → Bool
unfolding is_active
is_active_for monitor_id i = (i.monitor_id == monitor_id) && is_active i

module _ (env : Env) where
  unfoldable pub create_incident : Incident → Act (Result (Unit {0}))
  create_incident i = exec env (λ db. write (insert_incident i db))

  unfoldable pub get_incident : String → Act (Result (Option Incident))
  get_incident id =
      exec env (select (λ db. Option.map scan_incident (find incident_key id db.incidents)))

  -- ORDER BY created_at DESC LIMIT 1
  unfoldable pub newest_active : String → Db → Option IncidentRow
  newest_active monitor_id db =
      head? (env.incidents_newest_first.sort (keep_if (is_active_for monitor_id) db.incidents))

  unfoldable pub get_active_incident : String → Act (Result (Option Incident))
  get_active_incident monitor_id =
      exec env (select (λ db. Option.map scan_incident (newest_active monitor_id db)))

  unfoldable pub update_incident : Incident → Act (Result (Unit {0}))
  update_incident i = exec env (λ db. write (set_incident i db))

  unfoldable pub list_incidents : Bool → Act (Result (List Incident))
  list_incidents active_only = exec env (
      select (λ db. map scan_incident (
        env.incidents_newest_first.sort
          (if active_only then keep_if is_active db.incidents else db.incidents))))
