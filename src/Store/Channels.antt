-- ===== src/Store/Channels.antt =====
-- internal/store/sqlite.go: alert channels and the history of deliveries.
use ping_mesh.Prelude.{
  String, ℤ, pos, eq_ℤ, suc, not, List, [], ◌∷◌, ◌++◌, map, Option, ◌==◌, if◌then◌else◌, keep_if,
  Result, ok, err, unique_violation, foreign_key_violation,
}
use mathlib.Core.Option
use ping_mesh.Model.{AlertChannel, AlertRecord}
use ping_mesh.Db.{
  Db, find, has, update, delete, channel_key, channel_row, set_channel_row, scan_alert_channel,
  history_row, scan_history,
}
use ping_mesh.World.{Env, Act, exec, select, write}
use ping_mesh.Store.Results.{limited}

unfoldable pub insert_channel : AlertChannel → Db → Result Db
insert_channel c db =
    if has channel_key c.id db.alert_channels
    then err unique_violation
    else ok (record db { alert_channels = db.alert_channels ++ channel_row c ∷ [] })

unfoldable pub set_channel : AlertChannel → Db → Result Db
set_channel c db =
    ok
      (record db { alert_channels = update channel_key c.id (set_channel_row c) db.alert_channels })

-- ON DELETE CASCADE
unfoldable pub remove_channel : String → Db → Result Db
remove_channel id db = ok (record db {
  alert_channels = delete channel_key id db.alert_channels;
  alert_history = keep_if (λ h. not (h.channel_id == id)) db.alert_history;
})

unfoldable pub insert_history : AlertRecord → Db → Result Db
insert_history r db =
    if has channel_key r.channel_id db.alert_channels
    then ok (record db {
      alert_history = db.alert_history ++ history_row db.next_history_id r ∷ [];
      next_history_id = suc db.next_history_id;
    })
    else err foreign_key_violation

module _ (env : Env) where
  unfoldable pub create_alert_channel : AlertChannel → Act (Result (Unit {0}))
  create_alert_channel c = exec env (λ db. write (insert_channel c db))

  unfoldable pub get_alert_channel : String → Act (Result (Option AlertChannel))
  get_alert_channel id =
      exec env
        (select (λ db. Option.map scan_alert_channel (find channel_key id db.alert_channels)))

  unfoldable pub list_alert_channels : Act (Result (List AlertChannel))
  list_alert_channels =
      exec env (select (λ db. map scan_alert_channel (env.channels_by_age.sort db.alert_channels)))

  unfoldable pub list_enabled_alert_channels : Act (Result (List AlertChannel))
  list_enabled_alert_channels = exec env (
      select (λ db.
        map scan_alert_channel
          (env.channels_by_age.sort (keep_if (λ c. eq_ℤ c.enabled (pos 1)) db.alert_channels))))

  unfoldable pub update_alert_channel : AlertChannel → Act (Result (Unit {0}))
  update_alert_channel c = exec env (λ db. write (set_channel c db))

  unfoldable pub delete_alert_channel : String → Act (Result (Unit {0}))
  delete_alert_channel id = exec env (λ db. write (remove_channel id db))

  unfoldable pub insert_alert_record : AlertRecord → Act (Result (Unit {0}))
  insert_alert_record r = exec env (λ db. write (insert_history r db))

  unfoldable pub list_alert_history : String → ℤ → Act (Result (List AlertRecord))
  list_alert_history channel_id limit = exec env (
      select (λ db. map scan_history (
        limited limit (
          env.history_newest_first.sort (
            if channel_id == ""
            then db.alert_history
            else keep_if (λ h. h.channel_id == channel_id) db.alert_history)))))
