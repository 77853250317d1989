-- ===== src/Api/Monitors.antt =====
-- internal/api/cli_handlers.go: the handlers of nodes, monitors, incidents and results. A list that
-- is nil is sent as an empty one.
use ping_mesh.Prelude.{
  String, List, Option, none, some, true, ℤ, pos, eq_ℤ, Result, message, wrapped, ok, err, ◌==◌,
  if◌then◌else◌,
}
use ping_mesh.Model.{Node, Monitor, Incident, CheckResult}
use ping_mesh.World.{Env, Act, pure, ◌>>=◌, now, new_uuid}
use ping_mesh.Store.{
  list_nodes, get_node, delete_node, list_monitors, create_monitor, get_monitor, update_monitor,
  delete_monitor, list_incidents, list_check_results,
}
use ping_mesh.Api.Url.{Query, Numbers, limit_of, since_of}
use ping_mesh.Api.Reply.{
  Reply, json, failure, Status, status_ok, status_created, bad_request, not_found, internal_error,
}

-- `if err != nil`, and else the value
abbrev pub value_reply : {A : Type 0} → Result A → Reply A
value_reply (ok a) = json status_ok a
value_reply (err e) = failure internal_error e

abbrev pub found_reply : {A : Type 0} → String → Result (Option A) → Reply A
found_reply text (ok (some a)) = json status_ok a
found_reply text (ok none) = failure not_found (message text)
found_reply text (err e) = failure internal_error e

abbrev pub deleted_reply : Result (Unit {0}) → Reply Status
deleted_reply (ok _) = json status_ok (record { status = "deleted" })
deleted_reply (err e) = failure internal_error e

-- `if x == 0 { x = default }`
abbrev pub or_default : ℤ → ℤ → ℤ
or_default x default = if eq_ℤ x (pos 0) then default else x

-- `if update != 0 { x = update }`
abbrev pub updated_int : ℤ → ℤ → ℤ
updated_int x update = if eq_ℤ update (pos 0) then x else update

abbrev pub updated_text : String → String → String
updated_text x update = if update == "" then x else update

unfoldable pub with_defaults : Monitor → String → ℤ → Monitor
with_defaults m id time = record m {
  id = id;
  created_at = time;
  updated_at = time;
  interval_ms = or_default m.interval_ms (pos 60000);
  timeout_ms = or_default m.timeout_ms (pos 5000);
  retries = or_default m.retries (pos 1);
  failure_threshold = or_default m.failure_threshold (pos 3);
  recovery_threshold = or_default m.recovery_threshold (pos 2);
  quorum_type = if m.quorum_type == "" then "majority" else m.quorum_type;
  cooldown_ms = or_default m.cooldown_ms (pos 300000);
  enabled = true;
}

unfoldable pub with_updates : Monitor → Monitor → ℤ → Monitor
with_updates existing updates time = record existing {
  name = updated_text existing.name updates.name;
  target = updated_text existing.target updates.target;
  port = updated_int existing.port updates.port;
  interval_ms = updated_int existing.interval_ms updates.interval_ms;
  timeout_ms = updated_int existing.timeout_ms updates.timeout_ms;
  group_name = updated_text existing.group_name updates.group_name;
  updated_at = time;
}

module _ (env : Env) where
  unfoldable pub handle_list_nodes : Act (Reply (List Node))
  handle_list_nodes = do nodes ← list_nodes env; pure (value_reply nodes)

  unfoldable pub handle_get_node : String → Act (Reply Node)
  handle_get_node id = do node ← get_node env id; pure (found_reply "node not found" node)

  unfoldable pub handle_delete_node : String → Act (Reply Status)
  handle_delete_node id = do done ← delete_node env id; pure (deleted_reply done)

  unfoldable pub handle_list_monitors : String → Act (Reply (List Monitor))
  handle_list_monitors group = do monitors ← list_monitors env group; pure (value_reply monitors)

  abbrev pub created_monitor_reply : Monitor → Result (Unit {0}) → Reply Monitor
  created_monitor_reply m (ok _) = json status_created m
  created_monitor_reply m (err e) = failure internal_error e

  unfoldable pub handle_create_monitor : Result Monitor → Act (Reply Monitor)
  unfolding with_defaults
  handle_create_monitor (err e) = pure (failure bad_request (wrapped "invalid JSON: " e))
  handle_create_monitor (ok m) = do
    time ← now env
    id ← new_uuid env
    stored ← create_monitor env (with_defaults m id time)
    pure (created_monitor_reply (with_defaults m id time) stored)

  unfoldable pub handle_get_monitor : String → Act (Reply Monitor)
  handle_get_monitor id = do
    monitor ← get_monitor env id
    pure (found_reply "monitor not found" monitor)

  abbrev pub updated_monitor_reply : Monitor → Result (Unit {0}) → Reply Monitor
  updated_monitor_reply m (ok _) = json status_ok m
  updated_monitor_reply m (err e) = failure internal_error e

  unfoldable pub apply_updates : Result Monitor → Result (Option Monitor) → Act (Reply Monitor)
  apply_updates body (err e) = pure (failure internal_error e)
  apply_updates body (ok none) = pure (failure not_found (message "monitor not found"))
  apply_updates (err e) (ok (some existing)) =
      pure (failure bad_request (wrapped "invalid JSON: " e))
  apply_updates (ok updates) (ok (some existing)) = do
    time ← now env
    stored ← update_monitor env (with_updates existing updates time)
    pure (updated_monitor_reply (with_updates existing updates time) stored)

  unfoldable pub handle_update_monitor : String → Result Monitor → Act (Reply Monitor)
  handle_update_monitor id body = get_monitor env id >>= apply_updates body

  unfoldable pub handle_delete_monitor : String → Act (Reply Status)
  handle_delete_monitor id = do done ← delete_monitor env id; pure (deleted_reply done)

  unfoldable pub handle_list_incidents : Query → Act (Reply (List Incident))
  handle_list_incidents query = do
    incidents ← list_incidents env (query "active" == "true")
    pure (value_reply incidents)

  unfoldable pub handle_history : Numbers → Query → Act (Reply (List CheckResult))
  unfolding since_of limit_of
  handle_history numbers query = do
    results ←
        list_check_results env (query "monitor") (query "node") (since_of numbers (query "since"))
          (limit_of numbers (pos 50) (query "limit"))
    pure (value_reply results)
