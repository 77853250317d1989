-- ===== src/System/Failures.antt =====
-- internal/api: what a request that is refused leaves behind.
use ping_mesh.Prelude.{◌≡◌, refl, ◌∙◌, Bool, false, Bool-cases, inl, inr, ◌==◌}
use ping_mesh.Model.{role_coordinator}
use ping_mesh.World.{World}
use ping_mesh.Store.{
  list_nodes, get_node, list_monitors, get_monitor, list_incidents, list_check_results,
  list_alert_channels, get_alert_channel, list_alert_history,
}
use ping_mesh.Api
use ping_mesh.System.Run
use ping_mesh.System.Run.{Setup, Request, answer}
use ping_mesh.System.Refusals.{
  succeeded, read_only, create_monitor-refused, delete_monitor-refused, delete_node-refused,
  update_monitor-refused, peer_heartbeat-refused, peer_result-refused, peer_config_sync-refused,
  pull_monitors-same, create_channel-refused, update_channel-refused, delete_channel-refused,
}

module _ (s : Setup) where
  open s use {env, config, codecs, platform, is_json, numbers, sprintf}

  -- Whether a request is answered with success.
  unfoldable pub accepted : Request → World → Bool
  accepted (Run.peer_heartbeat body) w = succeeded (Api.handle_peer_heartbeat env body w).0
  accepted (Run.peer_config_sync body) w = succeeded (Api.handle_peer_config_sync env body w).0
  accepted (Run.peer_result body) w = succeeded (Api.handle_peer_result env body w).0
  accepted Run.peer_config_pull w = succeeded (Api.handle_peer_config_sync_pull env config w).0
  accepted (Run.peer_join remote body) w =
      succeeded (Api.handle_peer_join env codecs platform config remote body w).0
  accepted Run.list_nodes w = succeeded (Api.handle_list_nodes env w).0
  accepted (Run.get_node id) w = succeeded (Api.handle_get_node env id w).0
  accepted (Run.delete_node id) w = succeeded (Api.handle_delete_node env id w).0
  accepted (Run.list_monitors group) w = succeeded (Api.handle_list_monitors env group w).0
  accepted (Run.create_monitor body) w = succeeded (Api.handle_create_monitor env body w).0
  accepted (Run.get_monitor id) w = succeeded (Api.handle_get_monitor env id w).0
  accepted (Run.update_monitor id body) w = succeeded (Api.handle_update_monitor env id body w).0
  accepted (Run.delete_monitor id) w = succeeded (Api.handle_delete_monitor env id w).0
  accepted (Run.list_incidents query) w = succeeded (Api.handle_list_incidents env query w).0
  accepted (Run.history query) w = succeeded (Api.handle_history env numbers query w).0
  accepted Run.status w = succeeded (Api.handle_status sprintf env config w).0
  accepted (Run.health rfc3339 p agent dial) w =
      succeeded (Api.handle_health sprintf env config rfc3339 p agent dial w).0
  accepted (Run.test_peer dial query) w =
      succeeded (Api.handle_test_peer sprintf env config dial query w).0
  accepted (Run.logs query buffer) w = succeeded (Api.handle_logs numbers query buffer)
  accepted Run.list_alert_channels w = succeeded (Api.handle_list_alert_channels env is_json w).0
  accepted (Run.create_channel body) w =
      succeeded (Api.handle_create_alert_channel env is_json body w).0
  accepted (Run.get_channel id) w = succeeded (Api.handle_get_alert_channel env is_json id w).0
  accepted (Run.update_channel id body) w =
      succeeded (Api.handle_update_alert_channel env is_json id body w).0
  accepted (Run.delete_channel id) w =
      succeeded (Api.handle_delete_alert_channel env is_json id w).0
  accepted (Run.test_channel net id) w =
      succeeded (Api.handle_test_alert_channel env is_json net id w).0
  accepted (Run.alert_history query) w =
      succeeded (Api.handle_alert_history env is_json numbers query w).0

-- A join spends its token before it can fail, and a failed test is recorded.
abbrev pub IsDirect : Request → Type 0
IsDirect (Run.peer_join remote body) = ⊥
IsDirect (Run.test_channel net id) = ⊥
IsDirect r = Unit

module _ (s : Setup) where
  open s use {env, config, codecs, platform, is_json, numbers, sprintf}

  pull-same : (w : World) → (Api.handle_peer_config_sync_pull env config w).1.db ≡ w.db
  unfolding Api.handle_peer_config_sync_pull list_monitors
  pull-same w = elim (Bool-cases (config.role == role_coordinator)) [
    | inl e ↦ rw e (
        pull_monitors-same env (list_monitors env "" w).0 (list_monitors env "" w).1
        ∙ read_only env _ w)
    | inr e ↦ rw e refl
  ]

  -- Whatever statements fail, a request of the peer API or the CLI API, other than a join and the
  -- test of a channel, that is answered with a failure leaves the database as it was.
  pub refused_request :
      (r : Request) (w : World) → IsDirect r → accepted s r w ≡ false → (answer s r w).db ≡ w.db
  unfolding answer accepted Api.handle_list_nodes Api.handle_get_node Api.handle_list_monitors
      Api.handle_get_monitor Api.handle_list_incidents Api.handle_history
      Api.handle_list_alert_channels Api.handle_get_alert_channel Api.handle_alert_history
      Api.handle_health Api.handle_test_peer Api.probe_peers Api.handle_status list_nodes get_node
      list_monitors get_monitor list_incidents list_check_results list_alert_channels
      get_alert_channel list_alert_history
  refused_request (Run.peer_heartbeat body) w d bad = peer_heartbeat-refused env body w bad
  refused_request (Run.peer_config_sync body) w d bad = peer_config_sync-refused env body w bad
  refused_request (Run.peer_result body) w d bad = peer_result-refused env body w bad
  refused_request Run.peer_config_pull w d bad = pull-same w
  refused_request (Run.peer_join remote body) w d bad = absurd d
  refused_request Run.list_nodes w d bad = read_only env _ w
  refused_request (Run.get_node id) w d bad = read_only env _ w
  refused_request (Run.delete_node id) w d bad = delete_node-refused env id w bad
  refused_request (Run.list_monitors group) w d bad = read_only env _ w
  refused_request (Run.create_monitor body) w d bad = create_monitor-refused env body w bad
  refused_request (Run.get_monitor id) w d bad = read_only env _ w
  refused_request (Run.update_monitor id body) w d bad = update_monitor-refused env id body w bad
  refused_request (Run.delete_monitor id) w d bad = delete_monitor-refused env id w bad
  refused_request (Run.list_incidents query) w d bad = read_only env _ w
  refused_request (Run.history query) w d bad = read_only env _ w
  refused_request Run.status w d bad = absurd (cc)
  refused_request (Run.health rfc3339 p agent dial) w d bad = read_only env _ w
  refused_request (Run.test_peer dial query) w d bad = read_only env _ w
  refused_request (Run.logs query buffer) w d bad = refl
  refused_request Run.list_alert_channels w d bad = read_only env _ w
  refused_request (Run.create_channel body) w d bad = create_channel-refused env is_json body w bad
  refused_request (Run.get_channel id) w d bad = read_only env _ w
  refused_request (Run.update_channel id body) w d bad =
      update_channel-refused env is_json id body w bad
  refused_request (Run.delete_channel id) w d bad = delete_channel-refused env is_json id w bad
  refused_request (Run.test_channel net id) w d bad = absurd d
  refused_request (Run.alert_history query) w d bad = read_only env _ w
