-- ===== src/System/Handlers.antt =====
-- The requests that the servers answer leave the incidents alone.
use ping_mesh.Prelude.{
  String, Bool, true, false, Bool-cases, inl, inr, ◌==◌, ◌&&◌, ◌||◌, not, List, [], ◌∷◌, Option,
  none, some, Result, ok, err,
}
use ping_mesh.Model.{
  Config, role_coordinator, Node, Monitor, AlertChannel, CheckResult, ConfigSync, JoinRequest,
}
use ping_mesh.World.{Env, ◌>>=◌, now, new_uuid}
use ping_mesh.Store.{get_monitor, get_node, list_monitors, list_nodes, get_alert_channel}
use ping_mesh.Store.Calls.{perform}
use ping_mesh.Store.Calls
use ping_mesh.Cluster.{Codecs, update_heartbeat, validate_join_token}
use ping_mesh.Agent.{merge_monitor, merge_monitors, merge_node, merge_nodes, apply_config_sync}
use ping_mesh.Api.{
  Platform, handle_peer_heartbeat, handle_peer_config_sync, handle_peer_result,
  handle_peer_config_sync_pull, pull_monitors, pull_nodes, handle_peer_join, join_with, admit,
  register, handle_create_monitor, apply_updates, handle_update_monitor, store_channel,
  handle_create_alert_channel, config_or_empty, store_channel_updates, apply_channel_updates,
  handle_update_alert_channel, handle_status,
}
use ping_mesh.Consensus.Sound.{Sound-refl, Sound-trans}
use ping_mesh.Checker.{Sprintf}
use ping_mesh.System.Calm.{IsCalm, bind-IsCalm, pure-IsCalm, perform-Sound}

module _ (env : Env) where
  pub update_heartbeat-IsCalm : (id : String) → IsCalm (update_heartbeat env id)
  unfolding update_heartbeat perform now
  update_heartbeat-IsCalm id w =
      perform-Sound env (Calls.update_node_status id _ _) (now env w).1 tt

  pub handle_peer_heartbeat-IsCalm : (body : _) → IsCalm (handle_peer_heartbeat env body)
  unfolding handle_peer_heartbeat
  handle_peer_heartbeat-IsCalm (err e) w = Sound-refl w.db
  handle_peer_heartbeat-IsCalm (ok hb) w = update_heartbeat-IsCalm hb.node_id w

  merge_monitor-IsCalm :
      (m : Monitor) (r : Result (Option Monitor)) → IsCalm (merge_monitor env m r)
  unfolding merge_monitor perform
  merge_monitor-IsCalm m (err e) w = Sound-refl w.db
  merge_monitor-IsCalm m (ok none) w = perform-Sound env (Calls.create_monitor m) w tt
  merge_monitor-IsCalm m (ok (some x)) w = perform-Sound env (Calls.update_monitor m) w tt

  merge_node-IsCalm : (n : Node) (r : Result (Option Node)) → IsCalm (merge_node env n r)
  unfolding merge_node perform
  merge_node-IsCalm n (err e) w = Sound-refl w.db
  merge_node-IsCalm n (ok none) w = perform-Sound env (Calls.create_node n) w tt
  merge_node-IsCalm n (ok (some x)) w = perform-Sound env (Calls.update_node n) w tt

  merge_monitors-IsCalm : (ms : List Monitor) → IsCalm (merge_monitors env ms)
  unfolding merge_monitors perform
  merge_monitors-IsCalm [] = pure-IsCalm tt
  merge_monitors-IsCalm (m ∷ ms) =
      bind-IsCalm (get_monitor env m.id >>= merge_monitor env m) (λ _. merge_monitors env ms)
        (bind-IsCalm (get_monitor env m.id) (merge_monitor env m)
          (λ w. perform-Sound env (Calls.get_monitor m.id) w tt) (merge_monitor-IsCalm m))
        (λ _. merge_monitors-IsCalm ms)

  merge_nodes-IsCalm : (ns : List Node) → IsCalm (merge_nodes env ns)
  unfolding merge_nodes perform
  merge_nodes-IsCalm [] = pure-IsCalm tt
  merge_nodes-IsCalm (n ∷ ns) =
      bind-IsCalm (get_node env n.id >>= merge_node env n) (λ _. merge_nodes env ns)
        (bind-IsCalm (get_node env n.id) (merge_node env n)
          (λ w. perform-Sound env (Calls.get_node n.id) w tt) (merge_node-IsCalm n))
        (λ _. merge_nodes-IsCalm ns)

  pub apply_config_sync-IsCalm : (sync : ConfigSync) → IsCalm (apply_config_sync env sync)
  unfolding apply_config_sync
  apply_config_sync-IsCalm sync =
      bind-IsCalm (merge_monitors env sync.monitors) (λ _. merge_nodes env sync.nodes)
        (merge_monitors-IsCalm sync.monitors) (λ _. merge_nodes-IsCalm sync.nodes)

  pub handle_peer_config_sync-IsCalm :
      (body : Result ConfigSync) → IsCalm (handle_peer_config_sync env body)
  unfolding handle_peer_config_sync
  handle_peer_config_sync-IsCalm (err e) w = Sound-refl w.db
  handle_peer_config_sync-IsCalm (ok sync) w = apply_config_sync-IsCalm sync w

  pub handle_peer_result-IsCalm : (body : Result CheckResult) → IsCalm (handle_peer_result env body)
  unfolding handle_peer_result perform
  handle_peer_result-IsCalm (err e) w = Sound-refl w.db
  handle_peer_result-IsCalm (ok r) w = perform-Sound env (Calls.insert_check_result r) w tt

  pull_nodes-IsCalm : (ms : List Monitor) (r : Result (List Node)) → IsCalm (pull_nodes env ms r)
  unfolding pull_nodes now
  pull_nodes-IsCalm ms (err e) w = Sound-refl w.db
  pull_nodes-IsCalm ms (ok ns) w = Sound-refl w.db

  pull_monitors-IsCalm : (r : Result (List Monitor)) → IsCalm (pull_monitors env r)
  unfolding pull_monitors perform
  pull_monitors-IsCalm (err e) = λ w. Sound-refl w.db
  pull_monitors-IsCalm (ok ms) =
      bind-IsCalm (list_nodes env) (pull_nodes env ms)
        (λ w. perform-Sound env Calls.list_nodes w tt) (pull_nodes-IsCalm ms)

  pub config_pull-IsCalm : (config : Config) → IsCalm (handle_peer_config_sync_pull env config)
  unfolding handle_peer_config_sync_pull perform
  config_pull-IsCalm config w = elim (Bool-cases (config.role == role_coordinator)) [
    | inl e ↦ rw e (
        bind-IsCalm (list_monitors env "") (pull_monitors env)
          (λ v. perform-Sound env (Calls.list_monitors "") v tt) pull_monitors-IsCalm w)
    | inr e ↦ rw e (Sound-refl w.db)
  ]

  pub handle_create_monitor-IsCalm :
      (body : Result Monitor) → IsCalm (handle_create_monitor env body)
  unfolding handle_create_monitor now new_uuid perform
  handle_create_monitor-IsCalm (err e) w = Sound-refl w.db
  handle_create_monitor-IsCalm (ok m) w =
      perform-Sound env (Calls.create_monitor _) (new_uuid env (now env w).1).1 tt

  apply_updates-IsCalm :
      (body : Result Monitor) (r : Result (Option Monitor)) → IsCalm (apply_updates env body r)
  unfolding apply_updates now perform
  apply_updates-IsCalm body (err e) w = Sound-refl w.db
  apply_updates-IsCalm body (ok none) w = Sound-refl w.db
  apply_updates-IsCalm (err e) (ok (some x)) w = Sound-refl w.db
  apply_updates-IsCalm (ok u) (ok (some x)) w =
      perform-Sound env (Calls.update_monitor _) (now env w).1 tt

  pub handle_update_monitor-IsCalm :
      (id : String) (body : Result Monitor) → IsCalm (handle_update_monitor env id body)
  unfolding handle_update_monitor perform
  handle_update_monitor-IsCalm id body =
      bind-IsCalm (get_monitor env id) (apply_updates env body)
        (λ w. perform-Sound env (Calls.get_monitor id) w tt) (apply_updates-IsCalm body)

  module _ (is_json : String → Bool) where
    store_channel-IsCalm : (c : AlertChannel) → IsCalm (store_channel env is_json c)
    unfolding store_channel now new_uuid perform
    store_channel-IsCalm c w =
        perform-Sound env (Calls.create_alert_channel _) (new_uuid env (now env w).1).1 tt

    pub handle_create_alert_channel-IsCalm :
        (body : Result AlertChannel) → IsCalm (handle_create_alert_channel env is_json body)
    unfolding handle_create_alert_channel
    handle_create_alert_channel-IsCalm (err e) w = Sound-refl w.db
    handle_create_alert_channel-IsCalm (ok c) w =
        elim (Bool-cases ((c.name == "") || (c.channel_type == ""))) [
          | inl e ↦ rw e (Sound-refl w.db)
          | inr e ↦
              elim (Bool-cases
                (not (c.channel_type == "webhook") && not (c.channel_type == "email"))) [
                  | inl f ↦ rw (e, f) (Sound-refl w.db)
                  | inr f ↦ elim (Bool-cases (not (is_json (config_or_empty c.config)))) [
                    | inl g ↦ rw (e, f, g) (Sound-refl w.db)
                    | inr g ↦ rw (e, f, g) (store_channel-IsCalm c w)
                  ]
                ]
        ]

    store_channel_updates-IsCalm :
        (x u : AlertChannel) → IsCalm (store_channel_updates env is_json x u)
    unfolding store_channel_updates now perform
    store_channel_updates-IsCalm x u w =
        perform-Sound env (Calls.update_alert_channel _) (now env w).1 tt

    apply_channel_updates-IsCalm :
        (body : Result AlertChannel) (r : Result (Option AlertChannel))
        → IsCalm (apply_channel_updates env is_json body r)
    unfolding apply_channel_updates
    apply_channel_updates-IsCalm body (err e) w = Sound-refl w.db
    apply_channel_updates-IsCalm body (ok none) w = Sound-refl w.db
    apply_channel_updates-IsCalm (err e) (ok (some x)) w = Sound-refl w.db
    apply_channel_updates-IsCalm (ok u) (ok (some x)) w =
        elim (Bool-cases (not (u.config == "") && not (is_json u.config))) [
          | inl e ↦ rw e (Sound-refl w.db)
          | inr e ↦ rw e (store_channel_updates-IsCalm x u w)
        ]

    pub handle_update_alert_channel-IsCalm :
        (id : String) (body : Result AlertChannel)
        → IsCalm (handle_update_alert_channel env is_json id body)
    unfolding handle_update_alert_channel perform
    handle_update_alert_channel-IsCalm id body =
        bind-IsCalm (get_alert_channel env id) (apply_channel_updates env is_json body)
          (λ w. perform-Sound env (Calls.get_alert_channel id) w tt)
          (apply_channel_updates-IsCalm body)

  module _ (codecs : Codecs) (platform : Platform) (config : Config) (remote : String) where
    register-IsCalm :
        (req : JoinRequest) (id : String) (cert : Result (String × String)) (ca : Result String)
        → IsCalm (register env codecs platform config remote req id cert ca)
    unfolding register now perform
    register-IsCalm req id (err e) ca w = Sound-refl w.db
    register-IsCalm req id (ok pair) (err e) w = Sound-refl w.db
    register-IsCalm req id (ok pair) (ok ca) w =
        perform-Sound env (Calls.create_node _) (now env w).1 tt

    admit-IsCalm :
        (req : JoinRequest) (valid : Result Bool)
        → IsCalm (admit env codecs platform config remote req valid)
    unfolding admit new_uuid
    admit-IsCalm req (err e) w = Sound-refl w.db
    admit-IsCalm req (ok true) w = register-IsCalm req _ _ _ (new_uuid env w).1
    admit-IsCalm req (ok false) w = Sound-refl w.db

    join_with-IsCalm :
        (body : Result JoinRequest) → IsCalm (join_with env codecs platform config remote body)
    unfolding join_with validate_join_token perform
    join_with-IsCalm (err e) = λ w. Sound-refl w.db
    join_with-IsCalm (ok req) =
        bind-IsCalm (validate_join_token env codecs req.secret)
          (admit env codecs platform config remote req)
          (λ w. perform-Sound env (Calls.validate_and_consume_token (codecs.hash req.secret)) w tt)
          (admit-IsCalm req)

    pub handle_peer_join-IsCalm :
        (body : Result JoinRequest)
        → IsCalm (handle_peer_join env codecs platform config remote body)
    unfolding handle_peer_join
    handle_peer_join-IsCalm body w = elim (Bool-cases (config.role == role_coordinator)) [
      | inl e ↦ rw e (join_with-IsCalm body w)
      | inr e ↦ rw e (Sound-refl w.db)
    ]

  pub status-IsCalm :
      (sprintf : Sprintf) (config : Config) → IsCalm (handle_status sprintf env config)
  unfolding handle_status perform
  status-IsCalm sprintf config w =
      let listed = (list_nodes env w).1 in
      let counted = (list_monitors env "" listed).1 in
      Sound-trans w.db listed.db _ (perform-Sound env Calls.list_nodes w tt) (
        Sound-trans listed.db counted.db _ (perform-Sound env (Calls.list_monitors "") listed tt)
          (perform-Sound env (Calls.list_incidents true) counted tt))
