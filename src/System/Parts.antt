-- ===== src/System/Parts.antt =====
-- The loops and the goroutines of a node that leave the incidents alone.
use ping_mesh.Prelude.{
  Error, ◌==◌, sub_64, ℕ, ℤ, String, Bool, Bool-cases, inl, inr, List, [], ◌∷◌, Option, none, some,
  Result, ok, err,
}
use ping_mesh.Model.{
  Config, CoordinatorConfig, Node, Monitor, AlertChannel, ConfigSync, Incident, WebhookConfig,
}
use ping_mesh.World.{Env, Delivery, or_return, pure, ◌>>=◌, ◌>>◌, now}
use ping_mesh.Store.{
  list_monitors, list_nodes, get_monitor, list_enabled_monitors, get_alert_channel,
}
use ping_mesh.Store.Calls.{perform}
use ping_mesh.Store.Calls
use ping_mesh.Checker.{Sprintf, Checker, Network, get, register_all}
use ping_mesh.Cluster.{
  update_heartbeat, Codecs, generate_join_token, is_overdue, mark_offline, mark_overdue,
  detect_offline_nodes,
}
use ping_mesh.Cluster.PeerClient.{PeerHttp}
use ping_mesh.Cluster.PeerClient
use ping_mesh.Scheduler.{Scheduler, check_with, check_found, run_check}
use ping_mesh.Alert.Webhook.{webhook_parsed, send_webhook}
use ping_mesh.Alert.{
  Transport, send_to_channel, test_incident, test_monitor, deliver, send_test_to, test_found,
  send_test,
}
use ping_mesh.Agent.{push_to, push_listed, push_config_sync}
use ping_mesh.Agent.Periodic.{
  heartbeat_to, send_heartbeat, coordinator_address, detect_offline, offline_timeout_ms,
  apply_pulled, pull_from, sync_listed, sync_monitors,
}
use ping_mesh.Consensus.Sound.{Sound-refl, Sound-trans}
use ping_mesh.Api.{handle_test_alert_channel}
use ping_mesh.System.Calm.{IsCalm, bind-IsCalm, perform-Sound}
use ping_mesh.System.Handlers.{update_heartbeat-IsCalm, apply_config_sync-IsCalm}

module _ (env : Env) where
  webhook_parsed-IsCalm :
      (net : Transport) (i : Incident) (m : Monitor) (event : String) (r : Result WebhookConfig)
      → IsCalm (webhook_parsed net env i m event r)
  unfolding webhook_parsed now
  webhook_parsed-IsCalm net i m event (err e) w = Sound-refl w.db
  webhook_parsed-IsCalm net i m event (ok cfg) w = Sound-refl w.db

  send_to_channel-IsCalm :
      (net : Transport) (c : AlertChannel) (i : Incident) (m : Monitor) (event : String)
      → IsCalm (send_to_channel env net c i m event)
  unfolding send_to_channel send_webhook
  send_to_channel-IsCalm net c i m event w = elim (Bool-cases (c.channel_type == "webhook")) [
    | inl e ↦ rw e (webhook_parsed-IsCalm net i m event (net.parse_webhook c.config) w)
    | inr e ↦ elim (Bool-cases (c.channel_type == "email")) [
      | inl f ↦ rw (e, f) (Sound-refl w.db)
      | inr f ↦ rw (e, f) (Sound-refl w.db)
    ]
  ]

  pub deliver-IsCalm : (net : Transport) (d : Delivery) → IsCalm (deliver env net d)
  unfolding deliver now perform
  deliver-IsCalm net d w =
      let sent = send_to_channel env net d.channel d.incident d.monitor d.event_type w in
      Sound-trans w.db sent.1.db _
        (send_to_channel-IsCalm net d.channel d.incident d.monitor d.event_type w)
        (perform-Sound env (Calls.insert_alert_record _) (now env sent.1).1 tt)

  send_test_to-IsCalm : (net : Transport) (c : AlertChannel) → IsCalm (send_test_to env net c)
  unfolding send_test_to now perform
  send_test_to-IsCalm net c w =
      let v = (now env w).1 in
      let time : ℤ = env.clock w.readings in
      let sent =
        send_to_channel env net c (test_incident env net time) (test_monitor env net) "alert" v in
      Sound-trans v.db sent.1.db _
        (send_to_channel-IsCalm net c (test_incident env net time) (test_monitor env net) "alert" v)
        (perform-Sound env (Calls.insert_alert_record _) sent.1 tt)

  test_found-IsCalm :
      (net : Transport) (id : String) (r : Result (Option AlertChannel))
      → IsCalm (test_found env net id r)
  unfolding test_found
  test_found-IsCalm net id (ok (some c)) w = send_test_to-IsCalm net c w
  test_found-IsCalm net id (ok none) w = Sound-refl w.db
  test_found-IsCalm net id (err e) w = Sound-refl w.db

  pub test_channel-IsCalm :
      (is_json : String → Bool) (net : Transport) (id : String)
      → IsCalm (handle_test_alert_channel env is_json net id)
  unfolding handle_test_alert_channel send_test perform
  test_channel-IsCalm is_json net id =
      bind-IsCalm (get_alert_channel env id) (test_found env net id)
        (λ w. perform-Sound env (Calls.get_alert_channel id) w tt) (test_found-IsCalm net id)

  mark_overdue-IsCalm : (cutoff : ℤ) (ns : List Node) → IsCalm (mark_overdue env cutoff ns)
  unfolding mark_overdue perform
  mark_overdue-IsCalm cutoff [] w = Sound-refl w.db
  mark_overdue-IsCalm cutoff (n ∷ ns) w = elim (Bool-cases (is_overdue cutoff n)) [
    | inl e ↦ rw e (
        Sound-trans w.db (mark_offline env n w).1.db _
          (perform-Sound env (Calls.update_node_status n.id _ n.last_seen) w tt)
          (mark_overdue-IsCalm cutoff ns (mark_offline env n w).1))
    | inr e ↦ rw e (mark_overdue-IsCalm cutoff ns w)
  ]

  overdue_nodes-IsCalm :
      (timeout_ms : ℤ) (r : Result (List Node))
      → IsCalm (
          or_return
            (λ ns. do time ← now env; mark_overdue env (sub_64 time timeout_ms) ns; pure (ok tt))
            r)
  unfolding now
  overdue_nodes-IsCalm timeout_ms (err e) w = Sound-refl w.db
  overdue_nodes-IsCalm timeout_ms (ok ns) w = mark_overdue-IsCalm _ ns (now env w).1

  pub detect_offline-IsCalm : (config : Config) → IsCalm (detect_offline env config)
  unfolding detect_offline detect_offline_nodes perform
  detect_offline-IsCalm config w =
      Sound-trans w.db (list_nodes env w).1.db _ (perform-Sound env Calls.list_nodes w tt)
        (overdue_nodes-IsCalm offline_timeout_ms (list_nodes env w).0 (list_nodes env w).1)

  push_to-IsCalm :
      (self : String) (ms : List Monitor) (ns : Result (List Node))
      → IsCalm (push_to env self (ok ms) ns)
  unfolding push_to now
  push_to-IsCalm self ms (err e) w = Sound-refl w.db
  push_to-IsCalm self ms (ok ns) w = Sound-refl w.db

  push_listed-IsCalm :
      (self : String) (ms : Result (List Monitor)) → IsCalm (push_listed env self ms)
  unfolding push_listed perform
  push_listed-IsCalm self (err e) w = Sound-refl w.db
  push_listed-IsCalm self (ok ms) w =
      bind-IsCalm (list_nodes env) (push_to env self (ok ms))
        (λ v. perform-Sound env Calls.list_nodes v tt) (push_to-IsCalm self ms) w

  pub push_config_sync-IsCalm : (self : String) → IsCalm (push_config_sync env self)
  unfolding push_config_sync perform
  push_config_sync-IsCalm self =
      bind-IsCalm (list_monitors env "") (push_listed env self)
        (λ v. perform-Sound env (Calls.list_monitors "") v tt) (push_listed-IsCalm self)

  module _ (config : Config) where
    heartbeat_to-IsCalm :
        (stamp : ℤ → String) (scheduler : Scheduler) (o : Option String)
        → IsCalm (heartbeat_to env config stamp scheduler o)
    unfolding heartbeat_to now
    heartbeat_to-IsCalm stamp scheduler none w = Sound-refl w.db
    heartbeat_to-IsCalm stamp scheduler (some a) w = Sound-refl w.db

    pub send_heartbeat-IsCalm :
        (stamp : ℤ → String) (scheduler : Scheduler)
        → IsCalm (send_heartbeat env config stamp scheduler)
    unfolding send_heartbeat
    send_heartbeat-IsCalm stamp scheduler =
        bind-IsCalm (update_heartbeat env config.node_id)
          (λ (_ : Result (Unit {0})).
            heartbeat_to env config stamp scheduler (coordinator_address config))
          (update_heartbeat-IsCalm env config.node_id)
          (λ _. heartbeat_to-IsCalm stamp scheduler (coordinator_address config))

    apply_pulled-IsCalm : (r : Result ConfigSync) → IsCalm (apply_pulled env config r)
    unfolding apply_pulled
    apply_pulled-IsCalm (ok sync) w = apply_config_sync-IsCalm env sync w
    apply_pulled-IsCalm (err e) w = Sound-refl w.db

    pub pull_from-IsCalm :
        (sprintf : Sprintf) (net : PeerHttp) (o : Option CoordinatorConfig)
        → IsCalm (pull_from env config sprintf net o)
    unfolding pull_from
    pull_from-IsCalm sprintf net none w = Sound-refl w.db
    pull_from-IsCalm sprintf net (some c) w =
        apply_pulled-IsCalm (PeerClient.pull_config_sync sprintf net c.address) w

    sync_listed-IsCalm :
        (scheduler : Scheduler) (r : Result (List Monitor))
        → IsCalm (sync_listed env config scheduler r)
    unfolding sync_listed
    sync_listed-IsCalm scheduler (err e) w = Sound-refl w.db
    sync_listed-IsCalm scheduler (ok ms) w = Sound-refl w.db

    pub sync_monitors-IsCalm : (scheduler : Scheduler) → IsCalm (sync_monitors env config scheduler)
    unfolding sync_monitors perform
    sync_monitors-IsCalm scheduler =
        bind-IsCalm (list_enabled_monitors env) (sync_listed env config scheduler)
          (λ w. perform-Sound env Calls.list_enabled_monitors w tt) (sync_listed-IsCalm scheduler)

  module _ (error_text : Error → String) (coordinator : Option String) (node_id id : String)
      (nets : ℕ → Network) where
    check_with-IsCalm :
        (m : Monitor) (r : Result Checker)
        → IsCalm (check_with error_text env coordinator node_id id nets m r)
    unfolding check_with now perform
    check_with-IsCalm m (err e) w = Sound-refl w.db
    check_with-IsCalm m (ok c) w = perform-Sound env (Calls.insert_check_result _) (now env w).1 tt

    check_found-IsCalm :
        (r : Result (Option Monitor))
        → IsCalm (check_found error_text env coordinator node_id id nets r)
    unfolding check_found
    check_found-IsCalm (err e) w = Sound-refl w.db
    check_found-IsCalm (ok none) w = Sound-refl w.db
    check_found-IsCalm (ok (some m)) w = check_with-IsCalm m (get m.check_type (register_all [])) w

    pub run_check-IsCalm : IsCalm (run_check error_text env coordinator node_id nets id)
    unfolding run_check perform
    run_check-IsCalm =
        bind-IsCalm (get_monitor env id) (check_found error_text env coordinator node_id id nets)
          (λ w. perform-Sound env (Calls.get_monitor id) w tt) check_found-IsCalm

  pub token-IsCalm :
      (codecs : Codecs) (secret : Option (List ℕ)) (address : String) (expiry : ℤ)
      → IsCalm (generate_join_token env codecs secret address expiry)
  unfolding generate_join_token now perform
  token-IsCalm codecs none address expiry w = Sound-refl w.db
  token-IsCalm codecs (some secret) address expiry w =
      perform-Sound env (Calls.store_join_token _ _) (now env w).1 tt
