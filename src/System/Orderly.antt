-- ===== src/System/Orderly.antt =====
-- What every history of a node keeps of its database.
use ping_mesh.Prelude.{Bool, true, false, ◌==◌, List, [], ◌∷◌, if◌then◌else◌}
use ping_mesh.Model.{role_coordinator}
use ping_mesh.World.{World}
use ping_mesh.Store.Calls.{perform}
use ping_mesh.Store.Calls
use ping_mesh.Agent.Effects.Evolution.{evaluate_consensus-Sound}
use ping_mesh.Agent.Periodic.{coordinator_address, pull_config_sync}
use ping_mesh.Consensus.Sound.{IsOrderly, Sound, Sound-refl, Sound-trans}
use ping_mesh.Consensus.Lifecycle.{Evolves}
use ping_mesh.Api.{
  handle_list_nodes, handle_get_node, handle_delete_node, handle_list_monitors, handle_get_monitor,
  handle_delete_monitor, handle_list_incidents, handle_history, handle_list_alert_channels,
  handle_get_alert_channel, handle_delete_alert_channel, handle_alert_history, handle_health,
  handle_test_peer, probe_peers,
}
use ping_mesh.System.Run
use ping_mesh.System.Run.{Setup, Loop, Request, Event, run_loop, answer, happen, history_of}
use ping_mesh.System.Calm.{perform-Sound}
use ping_mesh.System.Parts.{
  deliver-IsCalm, test_channel-IsCalm, detect_offline-IsCalm, push_config_sync-IsCalm, token-IsCalm,
  send_heartbeat-IsCalm, sync_monitors-IsCalm, run_check-IsCalm, pull_from-IsCalm,
}
use ping_mesh.System.Handlers.{
  handle_peer_heartbeat-IsCalm, handle_peer_config_sync-IsCalm, handle_peer_result-IsCalm,
  config_pull-IsCalm, handle_peer_join-IsCalm, handle_create_monitor-IsCalm,
  handle_update_monitor-IsCalm, handle_create_alert_channel-IsCalm,
  handle_update_alert_channel-IsCalm, status-IsCalm,
}

if-Sound :
    (b : Bool) (w v v' : World)
    → Sound w.db v.db
    → Sound w.db v'.db
    → Sound w.db (if b then v else v').db
if-Sound true w v v' p q = p
if-Sound false w v v' p q = q

module _ (s : Setup) where
  open s use {env, config, codecs, platform, is_json, numbers, sprintf, error_text, stamp}

  run_loop-Sound : (l : Loop) (w : World) → Sound w.db (run_loop s l w).db
  unfolding run_loop pull_config_sync
  run_loop-Sound (Run.heartbeats scheduler) w = send_heartbeat-IsCalm env config stamp scheduler w
  run_loop-Sound (Run.monitor_sync scheduler) w = sync_monitors-IsCalm env config scheduler w
  run_loop-Sound Run.offline_detection w =
      if-Sound (config.role == role_coordinator) w _ w (detect_offline-IsCalm env config w)
        (Sound-refl w.db)
  run_loop-Sound Run.config_push w =
      if-Sound (config.role == role_coordinator) w _ w
        (push_config_sync-IsCalm env config.node_id w) (Sound-refl w.db)
  run_loop-Sound Run.consensus w =
      if-Sound (config.role == role_coordinator) w _ w (evaluate_consensus-Sound env w)
        (Sound-refl w.db)
  run_loop-Sound (Run.config_pull net) w =
      if-Sound (config.role == role_coordinator) w w _ (Sound-refl w.db)
        (pull_from-IsCalm env config sprintf net config.coordinator w)

  answer-Sound : (r : Request) (w : World) → Sound w.db (answer s r w).db
  unfolding answer perform handle_list_nodes handle_get_node handle_delete_node handle_list_monitors
      handle_get_monitor handle_delete_monitor handle_list_incidents handle_history
      handle_list_alert_channels handle_get_alert_channel handle_delete_alert_channel
      handle_alert_history handle_health handle_test_peer probe_peers
  answer-Sound (Run.peer_heartbeat body) w = handle_peer_heartbeat-IsCalm env body w
  answer-Sound (Run.peer_config_sync body) w = handle_peer_config_sync-IsCalm env body w
  answer-Sound (Run.peer_result body) w = handle_peer_result-IsCalm env body w
  answer-Sound Run.peer_config_pull w = config_pull-IsCalm env config w
  answer-Sound (Run.peer_join remote body) w =
      handle_peer_join-IsCalm env codecs platform config remote body w
  answer-Sound Run.list_nodes w = perform-Sound env Calls.list_nodes w tt
  answer-Sound (Run.get_node id) w = perform-Sound env (Calls.get_node id) w tt
  answer-Sound (Run.delete_node id) w = perform-Sound env (Calls.delete_node id) w tt
  answer-Sound (Run.list_monitors group) w = perform-Sound env (Calls.list_monitors group) w tt
  answer-Sound (Run.create_monitor body) w = handle_create_monitor-IsCalm env body w
  answer-Sound (Run.get_monitor id) w = perform-Sound env (Calls.get_monitor id) w tt
  answer-Sound (Run.update_monitor id body) w = handle_update_monitor-IsCalm env id body w
  answer-Sound (Run.delete_monitor id) w = perform-Sound env (Calls.delete_monitor id) w tt
  answer-Sound (Run.list_incidents query) w =
      perform-Sound env (Calls.list_incidents (query "active" == "true")) w tt
  answer-Sound (Run.history query) w = perform-Sound env (Calls.list_check_results _ _ _ _) w tt
  answer-Sound Run.status w = status-IsCalm env sprintf config w
  answer-Sound (Run.health rfc3339 p agent dial) w = perform-Sound env Calls.list_nodes w tt
  answer-Sound (Run.test_peer dial query) w = perform-Sound env Calls.list_nodes w tt
  answer-Sound (Run.logs query buffer) w = Sound-refl w.db
  answer-Sound Run.list_alert_channels w = perform-Sound env Calls.list_alert_channels w tt
  answer-Sound (Run.create_channel body) w = handle_create_alert_channel-IsCalm env is_json body w
  answer-Sound (Run.get_channel id) w = perform-Sound env (Calls.get_alert_channel id) w tt
  answer-Sound (Run.update_channel id body) w =
      handle_update_alert_channel-IsCalm env is_json id body w
  answer-Sound (Run.delete_channel id) w = perform-Sound env (Calls.delete_alert_channel id) w tt
  answer-Sound (Run.test_channel net id) w = test_channel-IsCalm env is_json net id w
  answer-Sound (Run.alert_history query) w = perform-Sound env (Calls.list_alert_history _ _) w tt

  happen-Sound : (e : Event) (w : World) → Sound w.db (happen s e w).db
  unfolding happen
  happen-Sound (Run.ticked l) w = run_loop-Sound l w
  happen-Sound (Run.requested r) w = answer-Sound r w
  happen-Sound (Run.checked nets id) w =
      run_check-IsCalm env error_text (coordinator_address config) config.node_id id nets w
  happen-Sound (Run.delivered net d) w = deliver-IsCalm env net d w
  happen-Sound (Run.token_made secret address expiry) w =
      token-IsCalm env codecs secret address expiry w

  history_of-Sound : (es : List Event) (w : World) → Sound w.db (history_of s es w).db
  unfolding history_of
  history_of-Sound [] w = Sound-refl w.db
  history_of-Sound (e ∷ es) w =
      Sound-trans w.db (happen s e w).db _ (happen-Sound e w) (history_of-Sound es (happen s e w))

  -- Whatever events happen at a node and in whatever order, from an orderly database, whatever
  -- statements fail and whatever the network answers, the database stays orderly: keys are unique,
  -- references hold, and no monitor has two active incidents; and every incident of before stays
  -- in its place and lives on by steps. The events are the work of each loop of the agent, the
  -- requests of the peer API and of the CLI API, checks, notifications and new join tokens, each
  -- run to its end before the next.
  pub history_keeps :
      (es : List Event) (w : World)
      → IsOrderly w.db
      → IsOrderly (history_of s es w).db × Evolves w.db.incidents (history_of s es w).db.incidents
  history_keeps es w o = history_of-Sound es w o
