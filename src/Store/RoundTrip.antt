-- ===== src/Store/RoundTrip.antt =====
-- What was written is what is read, and nothing else has changed.
use ping_mesh.Prelude.{
  String, false, ◌≡◌, refl, ap, ◌∙◌, Option, some, [], ◌∷◌, ◌++◌, arith, ◌==◌, eq_iff,
  if◌then◌else◌, ok, Bool-cases, Option-cases, inl, inr,
}
use mathlib.Core.Option
use ping_mesh.Model.{Monitor, Incident}
use ping_mesh.Db.{
  Db, find, has, update, find-append_one, find-update, find-none_of_has, monitor_key, incident_key,
  monitor_row, set_monitor_row, scan_monitor, scan_monitor-monitor_row,
  scan_monitor-set_monitor_row, scan_incident,
}
use ping_mesh.World.{Env, World, exec}
use ping_mesh.Store.Monitors.{
  create_monitor, get_monitor, update_monitor, insert_monitor, set_monitor,
}

-- The monitor with an id, as it is stored.
abbrev pub stored_monitor : String → Db → Option Monitor
stored_monitor id db = Option.map scan_monitor (find monitor_key id db.monitors)

abbrev pub stored_incident : String → Db → Option Incident
stored_incident id db = Option.map scan_incident (find incident_key id db.incidents)

stored_monitor-insert :
    (m : Monitor) (db : Db) (j : String)
    → has monitor_key m.id db.monitors ≡ false
    → stored_monitor j (record db { monitors = db.monitors ++ monitor_row m ∷ [] })
      ≡ (if m.id == j then some m else stored_monitor j db)
unfolding monitor_row
stored_monitor-insert m db j fresh = ground (
  arith,
  eq_iff m.id j,
  find-append_one monitor_key j (monitor_row m) db.monitors,
  find-none_of_has monitor_key j db.monitors,
  scan_monitor-monitor_row m,
)

stored_monitor-update :
    (m : Monitor) (db : Db) (j : String)
    → stored_monitor j
        (record db { monitors = update monitor_key m.id (set_monitor_row m) db.monitors })
      ≡ (if m.id == j
          then Option.map
              (λ old. record m { id = old.id; created_at = old.created_at })
              (stored_monitor j db)
          else stored_monitor j db)
unfolding scan_monitor set_monitor_row
stored_monitor-update m db j =
    rw (find-update monitor_key m.id j (set_monitor_row m) db.monitors (λ r. refl))
      (elim (Bool-cases (m.id == j)) [
        | inl same ↦ rw same (elim (Option-cases (find monitor_key j db.monitors)) [
          | inl gone ↦ rw gone
          | inr (r, found) ↦ rw found (ap some (scan_monitor-set_monitor_row m r))
        ])
        | inr other ↦ rw other
      ])

module _ (env : Env) where
  pub created :
      (m : Monitor) (j : String) (w w' : World)
      → create_monitor env m w ≡ (ok tt, w')
      → stored_monitor j w'.db ≡ (if m.id == j then some m else stored_monitor j w.db)
  unfolding create_monitor exec insert_monitor
  created m j w w' e = ground (arith, stored_monitor-insert m w.db j)

  pub updated :
      (m : Monitor) (j : String) (w w' : World)
      → update_monitor env m w ≡ (ok tt, w')
      → stored_monitor j w'.db ≡ (
          if m.id == j
          then Option.map
              (λ old. record m { id = old.id; created_at = old.created_at })
              (stored_monitor j w.db)
          else stored_monitor j w.db)
  unfolding update_monitor exec set_monitor
  updated m j w w' e = ground (arith, stored_monitor-update m w.db j)

  -- get_monitor reads what is stored, unless the engine fails.
  get_monitor_lem :
      (id : String) (w : World)
      → env.faults w.statements ≡ false
      → (get_monitor env id w).0 ≡ ok (stored_monitor id w.db)
  unfolding get_monitor exec
  get_monitor_lem id w e = rw e

  -- After a monitor has been created, and where the next statement does not fail, GetMonitor
  -- returns it whole under its id, and for every other id what was stored before.
  pub get-create_monitor :
      (m : Monitor) (j : String) (w w' : World)
      → create_monitor env m w ≡ (ok tt, w')
      → env.faults w'.statements ≡ false
      → (get_monitor env j w').0 ≡ ok (if m.id == j then some m else stored_monitor j w.db)
  get-create_monitor m j w w' e quiet = get_monitor_lem j w' quiet ∙ ap ok (created m j w w' e)

  -- After UpdateMonitor has succeeded, and where the next statement does not fail, GetMonitor
  -- returns for its id the update with the stored id and time of creation, or nil where there was
  -- no such monitor, and for every other id what was stored before.
  pub get-update_monitor :
      (m : Monitor) (j : String) (w w' : World)
      → update_monitor env m w ≡ (ok tt, w')
      → env.faults w'.statements ≡ false
      → (get_monitor env j w').0
        ≡ ok (
            if m.id == j
            then Option.map
                (λ old. record m { id = old.id; created_at = old.created_at })
                (stored_monitor j w.db)
            else stored_monitor j w.db)
  get-update_monitor m j w w' e quiet = get_monitor_lem j w' quiet ∙ ap ok (updated m j w w' e)
