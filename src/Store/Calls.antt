-- ===== src/Store/Calls.antt =====
-- internal/store/store.go: the interface Store, as calls that the rest of the program may make in any
-- order. No history of calls breaks a key or a reference.
use ping_mesh.Prelude.{String, ℤ, List, [], ◌∷◌, Bool, Bool-cases, inl, inr}
use ping_mesh.Model.{Node, Monitor, CheckResult, Incident, AlertChannel, AlertRecord}
use ping_mesh.Db.{IsConsistent}
use ping_mesh.World.{Env, World, exec, now}
use ping_mesh.World.Frame.{exec-select, exec-write}
use ping_mesh.Store.Nodes
use ping_mesh.Store.Monitors
use ping_mesh.Store.Results
use ping_mesh.Store.Incidents
use ping_mesh.Store.Tokens
use ping_mesh.Store.Channels
use ping_mesh.Store.Consistency.{
  insert_node-IsConsistent, set_node-IsConsistent, set_node_status-IsConsistent,
  remove_node-IsConsistent, insert_monitor-IsConsistent, set_monitor-IsConsistent,
  remove_monitor-IsConsistent, insert_result-IsConsistent, insert_incident-IsConsistent,
  set_incident-IsConsistent, insert_token-IsConsistent, consume_token-IsConsistent,
  insert_channel-IsConsistent, set_channel-IsConsistent, remove_channel-IsConsistent,
  insert_history-IsConsistent,
}

pub data Call : Type 0 where
  create_node update_node : Node → Call
  get_node delete_node : String → Call
  list_nodes : Call
  update_node_status : String → String → ℤ → Call
  create_monitor update_monitor : Monitor → Call
  get_monitor list_monitors delete_monitor : String → Call
  list_enabled_monitors : Call
  insert_check_result : CheckResult → Call
  get_latest_result count_consecutive_failures count_consecutive_successes : String → String → Call
  list_check_results : String → String → ℤ → ℤ → Call
  create_incident update_incident : Incident → Call
  get_incident get_active_incident : String → Call
  list_incidents : Bool → Call
  store_join_token : String → ℤ → Call
  validate_and_consume_token : String → Call
  create_alert_channel update_alert_channel : AlertChannel → Call
  get_alert_channel delete_alert_channel : String → Call
  list_alert_channels list_enabled_alert_channels : Call
  insert_alert_record : AlertRecord → Call
  list_alert_history : String → ℤ → Call

consume-IsConsistent :
    (env : Env) (hash : String) (time : ℤ) (w : World)
    → IsConsistent w.db
    → IsConsistent (exec env (Tokens.consume_token hash time) w).1.db
unfolding exec Tokens.consume_token
consume-IsConsistent env hash time w k = elim (Bool-cases (env.faults w.statements)) [
  | inl e ↦ rw e k
  | inr e ↦ rw e (consume_token-IsConsistent hash time w.db k)
]

module _ (env : Env) where
  -- The world after a call, whatever it returned.
  unfoldable pub perform : Call → World → World
  perform (create_node n) w = (Nodes.create_node env n w).1
  perform (get_node id) w = (Nodes.get_node env id w).1
  perform list_nodes w = (Nodes.list_nodes env w).1
  perform (update_node n) w = (Nodes.update_node env n w).1
  perform (delete_node id) w = (Nodes.delete_node env id w).1
  perform (update_node_status id status seen) w = (Nodes.update_node_status env id status seen w).1
  perform (create_monitor m) w = (Monitors.create_monitor env m w).1
  perform (get_monitor id) w = (Monitors.get_monitor env id w).1
  perform (list_monitors group) w = (Monitors.list_monitors env group w).1
  perform (update_monitor m) w = (Monitors.update_monitor env m w).1
  perform (delete_monitor id) w = (Monitors.delete_monitor env id w).1
  perform list_enabled_monitors w = (Monitors.list_enabled_monitors env w).1
  perform (insert_check_result r) w = (Results.insert_check_result env r w).1
  perform (get_latest_result m n) w = (Results.get_latest_result env m n w).1
  perform (count_consecutive_failures m n) w = (Results.count_consecutive_failures env m n w).1
  perform (count_consecutive_successes m n) w = (Results.count_consecutive_successes env m n w).1
  perform (list_check_results m n since limit) w =
      (Results.list_check_results env m n since limit w).1
  perform (create_incident i) w = (Incidents.create_incident env i w).1
  perform (get_incident id) w = (Incidents.get_incident env id w).1
  perform (get_active_incident m) w = (Incidents.get_active_incident env m w).1
  perform (update_incident i) w = (Incidents.update_incident env i w).1
  perform (list_incidents active) w = (Incidents.list_incidents env active w).1
  perform (store_join_token hash expires) w = (Tokens.store_join_token env hash expires w).1
  perform (validate_and_consume_token hash) w = (Tokens.validate_and_consume_token env hash w).1
  perform (create_alert_channel c) w = (Channels.create_alert_channel env c w).1
  perform (get_alert_channel id) w = (Channels.get_alert_channel env id w).1
  perform list_alert_channels w = (Channels.list_alert_channels env w).1
  perform list_enabled_alert_channels w = (Channels.list_enabled_alert_channels env w).1
  perform (update_alert_channel c) w = (Channels.update_alert_channel env c w).1
  perform (delete_alert_channel id) w = (Channels.delete_alert_channel env id w).1
  perform (insert_alert_record r) w = (Channels.insert_alert_record env r w).1
  perform (list_alert_history id limit) w = (Channels.list_alert_history env id limit w).1

  unfoldable pub run : List Call → World → World
  run [] w = w
  run (c ∷ cs) w = run cs (perform c w)

  pub perform-IsConsistent :
      (c : Call) (w : World) → IsConsistent w.db → IsConsistent (perform c w).db
  unfolding perform now Nodes.create_node Nodes.get_node Nodes.list_nodes Nodes.update_node
      Nodes.delete_node Nodes.update_node_status Monitors.create_monitor Monitors.get_monitor
      Monitors.list_monitors Monitors.update_monitor Monitors.delete_monitor
      Monitors.list_enabled_monitors Results.insert_check_result Results.get_latest_result
      Results.count_consecutive_failures Results.count_consecutive_successes
      Results.list_check_results Incidents.create_incident Incidents.get_incident
      Incidents.get_active_incident Incidents.update_incident Incidents.list_incidents
      Tokens.store_join_token Tokens.validate_and_consume_token Channels.create_alert_channel
      Channels.get_alert_channel Channels.list_alert_channels Channels.list_enabled_alert_channels
      Channels.update_alert_channel Channels.delete_alert_channel Channels.insert_alert_record
      Channels.list_alert_history
  perform-IsConsistent (create_node n) w k =
      exec-write env IsConsistent (Nodes.insert_node n) w (insert_node-IsConsistent n w.db k) k
  perform-IsConsistent (get_node id) w k = rw exec-select k
  perform-IsConsistent list_nodes w k = rw exec-select k
  perform-IsConsistent (update_node n) w k =
      exec-write env IsConsistent (Nodes.set_node n) w (set_node-IsConsistent n w.db k) k
  perform-IsConsistent (delete_node id) w k =
      exec-write env IsConsistent (Nodes.remove_node id) w (remove_node-IsConsistent id w.db k) k
  perform-IsConsistent (update_node_status id status seen) w k =
      exec-write env IsConsistent (Nodes.set_node_status id status seen) w
        (set_node_status-IsConsistent id status seen w.db k) k
  perform-IsConsistent (create_monitor m) w k =
      exec-write env IsConsistent (Monitors.insert_monitor m) w
        (insert_monitor-IsConsistent m w.db k) k
  perform-IsConsistent (get_monitor id) w k = rw exec-select k
  perform-IsConsistent (list_monitors group) w k = rw exec-select k
  perform-IsConsistent (update_monitor m) w k =
      exec-write env IsConsistent (Monitors.set_monitor m) w (set_monitor-IsConsistent m w.db k) k
  perform-IsConsistent (delete_monitor id) w k =
      exec-write env IsConsistent (Monitors.remove_monitor id) w
        (remove_monitor-IsConsistent id w.db k) k
  perform-IsConsistent list_enabled_monitors w k = rw exec-select k
  perform-IsConsistent (insert_check_result r) w k =
      exec-write env IsConsistent (Results.insert_result r) w (insert_result-IsConsistent r w.db k)
        k
  perform-IsConsistent (get_latest_result m n) w k = rw exec-select k
  perform-IsConsistent (count_consecutive_failures m n) w k = rw exec-select k
  perform-IsConsistent (count_consecutive_successes m n) w k = rw exec-select k
  perform-IsConsistent (list_check_results m n since limit) w k = rw exec-select k
  perform-IsConsistent (create_incident i) w k =
      exec-write env IsConsistent (Incidents.insert_incident i) w
        (insert_incident-IsConsistent i w.db k) k
  perform-IsConsistent (get_incident id) w k = rw exec-select k
  perform-IsConsistent (get_active_incident m) w k = rw exec-select k
  perform-IsConsistent (update_incident i) w k =
      exec-write env IsConsistent (Incidents.set_incident i) w (set_incident-IsConsistent i w.db k)
        k
  perform-IsConsistent (list_incidents active) w k = rw exec-select k
  perform-IsConsistent (store_join_token hash expires) w k =
      exec-write env IsConsistent (Tokens.insert_token hash expires (env.clock w.readings))
        (now env w).1 (insert_token-IsConsistent hash expires (env.clock w.readings) w.db k) k
  perform-IsConsistent (validate_and_consume_token hash) w k =
      consume-IsConsistent env hash (env.clock w.readings) (now env w).1 k
  perform-IsConsistent (create_alert_channel c) w k =
      exec-write env IsConsistent (Channels.insert_channel c) w
        (insert_channel-IsConsistent c w.db k) k
  perform-IsConsistent (get_alert_channel id) w k = rw exec-select k
  perform-IsConsistent list_alert_channels w k = rw exec-select k
  perform-IsConsistent list_enabled_alert_channels w k = rw exec-select k
  perform-IsConsistent (update_alert_channel c) w k =
      exec-write env IsConsistent (Channels.set_channel c) w (set_channel-IsConsistent c w.db k) k
  perform-IsConsistent (delete_alert_channel id) w k =
      exec-write env IsConsistent (Channels.remove_channel id) w
        (remove_channel-IsConsistent id w.db k) k
  perform-IsConsistent (insert_alert_record r) w k =
      exec-write env IsConsistent (Channels.insert_history r) w
        (insert_history-IsConsistent r w.db k) k
  perform-IsConsistent (list_alert_history id limit) w k = rw exec-select k

  -- Every sequence of calls of the store, whatever statements fail, takes a consistent database to
  -- a consistent one: primary keys stay unique and every reference keeps its row.
  pub run-IsConsistent :
      (cs : List Call) (w : World) → IsConsistent w.db → IsConsistent (run cs w).db
  unfolding run
  run-IsConsistent [] w k = k
  run-IsConsistent (c ∷ cs) w k = run-IsConsistent cs (perform c w) (perform-IsConsistent c w k)
