-- ===== src/Store/Monitors.antt =====
-- internal/store/sqlite.go: monitor operations.
use ping_mesh.Prelude.{
  String, pos, eq_ℤ, ◌&&◌, ◌||◌, List, [], ◌∷◌, ◌++◌, map, Option, ◌==◌, if◌then◌else◌, any,
  keep_if, Result, ok, err, unique_violation, foreign_key_violation,
}
use mathlib.Core.Option
use ping_mesh.Model.{Monitor}
use ping_mesh.Db.{
  Db, MonitorRow, find, has, update, delete, monitor_key, monitor_row, set_monitor_row,
  scan_monitor,
}
use ping_mesh.World.{Env, Act, exec, select, write}

unfoldable pub insert_monitor : Monitor → Db → Result Db
insert_monitor m db =
    if has monitor_key m.id db.monitors
    then err unique_violation
    else ok (record db { monitors = db.monitors ++ monitor_row m ∷ [] })

unfoldable pub set_monitor : Monitor → Db → Result Db
set_monitor m db =
    ok (record db { monitors = update monitor_key m.id (set_monitor_row m) db.monitors })

unfoldable pub remove_monitor : String → Db → Result Db
remove_monitor id db =
    if has monitor_key id db.monitors
      && (any (λ r. r.monitor_id == id) db.check_results
          || any (λ i. i.monitor_id == id) db.incidents)
    then err foreign_key_violation
    else ok (record db { monitors = delete monitor_key id db.monitors })

-- An empty group name selects every monitor.
unfoldable pub monitors_in_group : String → List MonitorRow → List MonitorRow
monitors_in_group group rows =
    if group == "" then rows else keep_if (λ r. r.group_name == group) rows

module _ (env : Env) where
  unfoldable pub create_monitor : Monitor → Act (Result (Unit {0}))
  create_monitor m = exec env (λ db. write (insert_monitor m db))

  unfoldable pub get_monitor : String → Act (Result (Option Monitor))
  get_monitor id =
      exec env (select (λ db. Option.map scan_monitor (find monitor_key id db.monitors)))

  unfoldable pub list_monitors : String → Act (Result (List Monitor))
  list_monitors group = exec env (
      select
        (λ db. map scan_monitor (env.monitors_by_name.sort (monitors_in_group group db.monitors))))

  unfoldable pub update_monitor : Monitor → Act (Result (Unit {0}))
  update_monitor m = exec env (λ db. write (set_monitor m db))

  unfoldable pub delete_monitor : String → Act (Result (Unit {0}))
  delete_monitor id = exec env (λ db. write (remove_monitor id db))

  unfoldable pub list_enabled_monitors : Act (Result (List Monitor))
  list_enabled_monitors = exec env (
      select (λ db.
        map scan_monitor
          (env.monitors_by_name.sort (keep_if (λ r. eq_ℤ r.enabled (pos 1)) db.monitors))))
