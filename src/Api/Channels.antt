-- ===== src/Api/Channels.antt =====
-- internal/api/cli_handlers.go: the handlers of alert channels. Whether a text is JSON is a parameter.
use ping_mesh.Prelude.{
  String, ℤ, pos, List, Option, none, some, Bool, true, ◌||◌, ◌&&◌, not, Result, message, wrapped,
  ok, err, ◌==◌, if◌then◌else◌,
}
use ping_mesh.Model.{AlertChannel, AlertRecord}
use ping_mesh.World.{Env, Act, pure, ◌>>=◌, now, new_uuid}
use ping_mesh.Store.{
  list_alert_channels, create_alert_channel, get_alert_channel, update_alert_channel,
  delete_alert_channel, list_alert_history,
}
use ping_mesh.Alert.{Transport, send_test}
use ping_mesh.Api.Url.{Query, Numbers, limit_of}
use ping_mesh.Api.Reply.{
  Reply, json, failure, Status, status_ok, status_created, bad_request, internal_error, not_found,
}
use ping_mesh.Api.Monitors.{value_reply, found_reply, deleted_reply, updated_text}

abbrev pub config_or_empty : String → String
config_or_empty config = if config == "" then "{}" else config

abbrev pub new_channel : AlertChannel → String → ℤ → AlertChannel
new_channel c id time = record c {
  id = id;
  config = config_or_empty c.config;
  enabled = true;
  created_at = time;
  updated_at = time;
}

-- `Enabled` is taken as it is.
unfoldable pub with_channel_updates : AlertChannel → AlertChannel → ℤ → AlertChannel
with_channel_updates existing updates time = record existing {
  name = updated_text existing.name updates.name;
  config = updated_text existing.config updates.config;
  enabled = updates.enabled;
  updated_at = time;
}

module _ (env : Env) (is_json : String → Bool) where
  unfoldable pub handle_list_alert_channels : Act (Reply (List AlertChannel))
  handle_list_alert_channels = do channels ← list_alert_channels env; pure (value_reply channels)

  abbrev pub created_channel_reply : AlertChannel → Result (Unit {0}) → Reply AlertChannel
  created_channel_reply c (ok _) = json status_created c
  created_channel_reply c (err e) = failure internal_error e

  unfoldable pub store_channel : AlertChannel → Act (Reply AlertChannel)
  store_channel c = do
    time ← now env
    id ← new_uuid env
    stored ← create_alert_channel env (new_channel c id time)
    pure (created_channel_reply (new_channel c id time) stored)

  unfoldable pub handle_create_alert_channel : Result AlertChannel → Act (Reply AlertChannel)
  handle_create_alert_channel (err e) = pure (failure bad_request (wrapped "invalid JSON: " e))
  handle_create_alert_channel (ok c) =
      let done = store_channel c in
      if (c.name == "") || (c.channel_type == "")
      then pure (failure bad_request (message "name and type are required"))
      else if not (c.channel_type == "webhook") && not (c.channel_type == "email")
      then pure (failure bad_request (message "type must be 'webhook' or 'email'"))
      else if not (is_json (config_or_empty c.config))
      then pure (failure bad_request (message "config must be valid JSON"))
      else done

  unfoldable pub handle_get_alert_channel : String → Act (Reply AlertChannel)
  handle_get_alert_channel id = do
    channel ← get_alert_channel env id
    pure (found_reply "alert channel not found" channel)

  abbrev pub updated_channel_reply : AlertChannel → Result (Unit {0}) → Reply AlertChannel
  updated_channel_reply c (ok _) = json status_ok c
  updated_channel_reply c (err e) = failure internal_error e

  unfoldable pub store_channel_updates : AlertChannel → AlertChannel → Act (Reply AlertChannel)
  store_channel_updates existing updates = do
    time ← now env
    stored ← update_alert_channel env (with_channel_updates existing updates time)
    pure (updated_channel_reply (with_channel_updates existing updates time) stored)

  unfoldable pub apply_channel_updates :
      Result AlertChannel → Result (Option AlertChannel) → Act (Reply AlertChannel)
  apply_channel_updates body (err e) = pure (failure internal_error e)
  apply_channel_updates body (ok none) =
      pure (failure not_found (message "alert channel not found"))
  apply_channel_updates (err e) (ok (some existing)) =
      pure (failure bad_request (wrapped "invalid JSON: " e))
  apply_channel_updates (ok updates) (ok (some existing)) =
      if not (updates.config == "") && not (is_json updates.config)
      then pure (failure bad_request (message "config must be valid JSON"))
      else store_channel_updates existing updates

  unfoldable pub handle_update_alert_channel :
      String → Result AlertChannel → Act (Reply AlertChannel)
  handle_update_alert_channel id body = get_alert_channel env id >>= apply_channel_updates body

  unfoldable pub handle_delete_alert_channel : String → Act (Reply Status)
  handle_delete_alert_channel id = do done ← delete_alert_channel env id; pure (deleted_reply done)

  abbrev pub sent_reply : Result (Unit {0}) → Reply Status
  sent_reply (ok _) = json status_ok (record { status = "sent" })
  sent_reply (err e) = failure internal_error (wrapped "test failed: " e)

  -- With a dispatcher.
  unfoldable pub handle_test_alert_channel : Transport → String → Act (Reply Status)
  handle_test_alert_channel net id = do sent ← send_test env net id; pure (sent_reply sent)

  unfoldable pub handle_alert_history : Numbers → Query → Act (Reply (List AlertRecord))
  unfolding limit_of
  handle_alert_history numbers query = do
    records ← list_alert_history env (query "channel") (limit_of numbers (pos 50) (query "limit"))
    pure (value_reply records)
