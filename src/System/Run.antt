-- ===== src/System/Run.antt =====
-- internal/agent/agent.go: the loops that Run starts; internal/api/server.go and its routes: the
-- requests that the two servers answer; and the goroutines of the alerts and the scheduler.
use ping_mesh.Prelude.{
  ℕ, ℤ, String, Bool, List, [], ◌∷◌, Option, Result, Error, ◌==◌, if◌then◌else◌,
}
use ping_mesh.Model.{
  Config, role_coordinator, Monitor, AlertChannel, CheckResult, Heartbeat, ConfigSync, JoinRequest,
}
use ping_mesh.World.{Env, World, Delivery}
use ping_mesh.Checker.{Sprintf, Network}
use ping_mesh.Cluster.{Codecs, generate_join_token}
use ping_mesh.Cluster.PeerClient.{PeerHttp}
use ping_mesh.Scheduler.{Scheduler, run_check}
use ping_mesh.Alert.{Transport, deliver}
use ping_mesh.Agent.{evaluate_consensus, push_config_sync}
use ping_mesh.Agent.Periodic.{
  send_heartbeat, coordinator_address, detect_offline, pull_config_sync, sync_monitors,
}
use ping_mesh.Api.{
  Platform, handle_peer_heartbeat, handle_peer_config_sync, handle_peer_result,
  handle_peer_config_sync_pull, handle_peer_join, handle_list_nodes, handle_get_node,
  handle_delete_node, handle_list_monitors, handle_create_monitor, handle_get_monitor,
  handle_update_monitor, handle_delete_monitor, handle_list_incidents, handle_history,
  handle_list_alert_channels, handle_create_alert_channel, handle_get_alert_channel,
  handle_update_alert_channel, handle_delete_alert_channel, handle_test_alert_channel,
  handle_alert_history, handle_status, handle_health, handle_test_peer, Query, Numbers, Process,
  AgentInfo, Dialer,
}
use ping_mesh.Logbuf.{Buffer}

-- What one node is made with, and what is outside of it. The outside may answer each event otherwise.
pub record Setup : Type 0 where
  pub env : Env
  pub config : Config
  pub codecs : Codecs
  pub platform : Platform
  pub is_json : String → Bool
  pub numbers : Numbers
  pub sprintf : Sprintf
  pub error_text : Error → String
  pub stamp : ℤ → String

-- The loops that every node runs.
pub data Loop : Type 0 where
  heartbeats : Scheduler → Loop
  monitor_sync : Scheduler → Loop
  -- on the coordinator
  offline_detection config_push consensus : Loop
  -- elsewhere
  config_pull : PeerHttp → Loop

pub data Request : Type 0 where
  -- internal/api/peer_handlers.go
  peer_heartbeat : Result Heartbeat → Request
  peer_config_sync : Result ConfigSync → Request
  peer_result : Result CheckResult → Request
  peer_config_pull : Request
  peer_join : String → Result JoinRequest → Request
  -- internal/api/cli_handlers.go
  list_nodes list_alert_channels : Request
  get_node delete_node list_monitors get_monitor delete_monitor get_channel delete_channel :
      String → Request
  create_monitor : Result Monitor → Request
  update_monitor : String → Result Monitor → Request
  list_incidents history alert_history : Query → Request
  status : Request
  health : (ℤ → String) → Process → Option AgentInfo → Dialer → Request
  test_peer : Dialer → Query → Request
  logs : Query → Option Buffer → Request
  create_channel : Result AlertChannel → Request
  update_channel : String → Result AlertChannel → Request
  test_channel : Transport → String → Request

pub data Event : Type 0 where
  ticked : Loop → Event
  requested : Request → Event
  checked : (ℕ → Network) → String → Event
  delivered : Transport → Delivery → Event
  token_made : Option (List ℕ) → String → ℤ → Event

module _ (s : Setup) where
  open s use {env, config, codecs, platform, is_json, numbers, sprintf, error_text, stamp}

  -- Run starts the loops by the role: a loop that it does not start does nothing.
  unfoldable pub run_loop : Loop → World → World
  run_loop (heartbeats scheduler) w = (send_heartbeat env config stamp scheduler w).1
  run_loop (monitor_sync scheduler) w = (sync_monitors env config scheduler w).1
  run_loop offline_detection w =
      if config.role == role_coordinator then (detect_offline env config w).1 else w
  run_loop config_push w =
      if config.role == role_coordinator then (push_config_sync env config.node_id w).1 else w
  run_loop consensus w = if config.role == role_coordinator then (evaluate_consensus env w).1 else w
  run_loop (config_pull net) w =
      if config.role == role_coordinator then w else (pull_config_sync env config sprintf net w).1

  unfoldable pub answer : Request → World → World
  answer (peer_heartbeat body) w = (handle_peer_heartbeat env body w).1
  answer (peer_config_sync body) w = (handle_peer_config_sync env body w).1
  answer (peer_result body) w = (handle_peer_result env body w).1
  answer peer_config_pull w = (handle_peer_config_sync_pull env config w).1
  answer (peer_join remote body) w = (handle_peer_join env codecs platform config remote body w).1
  answer list_nodes w = (handle_list_nodes env w).1
  answer (get_node id) w = (handle_get_node env id w).1
  answer (delete_node id) w = (handle_delete_node env id w).1
  answer (list_monitors group) w = (handle_list_monitors env group w).1
  answer (create_monitor body) w = (handle_create_monitor env body w).1
  answer (get_monitor id) w = (handle_get_monitor env id w).1
  answer (update_monitor id body) w = (handle_update_monitor env id body w).1
  answer (delete_monitor id) w = (handle_delete_monitor env id w).1
  answer (list_incidents query) w = (handle_list_incidents env query w).1
  answer (history query) w = (handle_history env numbers query w).1
  answer status w = (handle_status sprintf env config w).1
  answer (health rfc3339 p agent dial) w =
      (handle_health sprintf env config rfc3339 p agent dial w).1
  answer (test_peer dial query) w = (handle_test_peer sprintf env config dial query w).1
  answer (logs query buffer) w = w
  answer list_alert_channels w = (handle_list_alert_channels env is_json w).1
  answer (create_channel body) w = (handle_create_alert_channel env is_json body w).1
  answer (get_channel id) w = (handle_get_alert_channel env is_json id w).1
  answer (update_channel id body) w = (handle_update_alert_channel env is_json id body w).1
  answer (delete_channel id) w = (handle_delete_alert_channel env is_json id w).1
  answer (test_channel net id) w = (handle_test_alert_channel env is_json net id w).1
  answer (alert_history query) w = (handle_alert_history env is_json numbers query w).1

  unfoldable pub happen : Event → World → World
  unfolding run_loop answer
  happen (ticked l) w = run_loop l w
  happen (requested r) w = answer r w
  happen (checked nets id) w =
      (run_check error_text env (coordinator_address config) config.node_id nets id w).1
  happen (delivered net d) w = (deliver env net d w).1
  happen (token_made secret address expiry) w =
      (generate_join_token env codecs secret address expiry w).1

  -- In the order in which they come.
  unfoldable pub history_of : List Event → World → World
  unfolding happen
  history_of [] w = w
  history_of (e ∷ es) w = history_of es (happen e w)
