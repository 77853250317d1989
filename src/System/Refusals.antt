-- ===== src/System/Refusals.antt =====
-- internal/api: the handlers that answer with a failure leave the database as it was.
use ping_mesh.Prelude.{
  ◌≡◌, refl, ap, ◌∙◌, String, Bool, true, false, not, ◌&&◌, ◌||◌, Bool-cases, inl, inr, ◌==◌, List,
  Option, none, some, Result, ok, err,
}
use ping_mesh.Model.{Node, Monitor, AlertChannel}
use ping_mesh.Db.{Db}
use ping_mesh.World.{Env, World, exec, select, write, now, new_uuid}
use ping_mesh.World.Frame.{exec_elim, exec-select}
use ping_mesh.Store.{
  insert_monitor, set_monitor, remove_monitor, remove_node, set_node_status, insert_result,
  insert_channel, set_channel, remove_channel, create_monitor, update_monitor, delete_monitor,
  delete_node, update_node_status, insert_check_result, create_alert_channel, update_alert_channel,
  delete_alert_channel, list_nodes, get_monitor, get_alert_channel,
}
use ping_mesh.Cluster.{update_heartbeat}
use ping_mesh.Api
use ping_mesh.Api.Reply.{Reply, json, failure}

abbrev pub succeeded : {A : Type 0} → Reply A → Bool
succeeded (json status body) = true
succeeded (failure status e) = false

-- A statement that writes, and a reply that is made from its outcome.
module _ (env : Env) {A : Type 0} (stmt : Db → Result Db)
    (reply : Result (Unit {0}) → Reply A) where
  refused :
      (w : World)
      → ((a : Unit {0}) → succeeded (reply (ok a)) ≡ true)
      → succeeded (reply (exec env (λ db. write (stmt db)) w).0) ≡ false
      → (exec env (λ db. write (stmt db)) w).1.db ≡ w.db
  refused w good =
      exec_elim env (λ db. write (stmt db)) w (λ x. succeeded (reply x.0) ≡ false → x.1.db ≡ w.db)
        (λ e bad. refl) (λ x e bad. refl) (λ a db e bad. cc (good a, bad))

pub read_only :
    (env : Env) {A : Type 0} (q : Db → A) (w : World) → (exec env (select q) w).1.db ≡ w.db
read_only env q w = ap (λ (v : World). v.db) (exec-select env q w)

module _ (env : Env) where
  pub apply_updates-refused :
      (body : Result Monitor) (r : Result (Option Monitor)) (w : World)
      → succeeded (Api.apply_updates env body r w).0 ≡ false
      → (Api.apply_updates env body r w).1.db ≡ w.db
  unfolding Api.apply_updates now update_monitor
  apply_updates-refused body (err e) w bad = refl
  apply_updates-refused body (ok none) w bad = refl
  apply_updates-refused (err e) (ok (some x)) w bad = refl
  apply_updates-refused (ok u) (ok (some x)) w bad =
      refused env (set_monitor _) (Api.updated_monitor_reply env _) (now env w).1 (λ a. refl) bad

  pub create_monitor-refused :
      (body : Result Monitor) (w : World)
      → succeeded (Api.handle_create_monitor env body w).0 ≡ false
      → (Api.handle_create_monitor env body w).1.db ≡ w.db
  unfolding Api.handle_create_monitor now new_uuid create_monitor
  create_monitor-refused (err e) w bad = refl
  create_monitor-refused (ok m) w bad =
      refused env (insert_monitor _) (Api.created_monitor_reply env _)
        (new_uuid env (now env w).1).1 (λ a. refl) bad

  pub delete_monitor-refused :
      (id : String) (w : World)
      → succeeded (Api.handle_delete_monitor env id w).0 ≡ false
      → (Api.handle_delete_monitor env id w).1.db ≡ w.db
  unfolding Api.handle_delete_monitor delete_monitor
  delete_monitor-refused id w bad =
      refused env (remove_monitor id) Api.deleted_reply w (λ a. refl) bad

  pub delete_node-refused :
      (id : String) (w : World)
      → succeeded (Api.handle_delete_node env id w).0 ≡ false
      → (Api.handle_delete_node env id w).1.db ≡ w.db
  unfolding Api.handle_delete_node delete_node
  delete_node-refused id w bad = refused env (remove_node id) Api.deleted_reply w (λ a. refl) bad

  pub update_monitor-refused :
      (id : String) (body : Result Monitor) (w : World)
      → succeeded (Api.handle_update_monitor env id body w).0 ≡ false
      → (Api.handle_update_monitor env id body w).1.db ≡ w.db
  unfolding Api.handle_update_monitor get_monitor
  update_monitor-refused id body w bad =
      apply_updates-refused body (get_monitor env id w).0 (get_monitor env id w).1 bad
      ∙ read_only env _ w

  pub peer_heartbeat-refused :
      (body : _) (w : World)
      → succeeded (Api.handle_peer_heartbeat env body w).0 ≡ false
      → (Api.handle_peer_heartbeat env body w).1.db ≡ w.db
  unfolding Api.handle_peer_heartbeat update_heartbeat now update_node_status
  peer_heartbeat-refused (err e) w bad = refl
  peer_heartbeat-refused (ok hb) w bad =
      refused env (set_node_status hb.node_id _ _) (Api.status_reply "heartbeat update failed")
        (now env w).1 (λ a. refl) bad

  pub peer_result-refused :
      (body : _) (w : World)
      → succeeded (Api.handle_peer_result env body w).0 ≡ false
      → (Api.handle_peer_result env body w).1.db ≡ w.db
  unfolding Api.handle_peer_result insert_check_result
  peer_result-refused (err e) w bad = refl
  peer_result-refused (ok r) w bad =
      refused env (insert_result r) (Api.status_reply "storing result failed") w (λ a. refl) bad

  pub peer_config_sync-refused :
      (body : _) (w : World)
      → succeeded (Api.handle_peer_config_sync env body w).0 ≡ false
      → (Api.handle_peer_config_sync env body w).1.db ≡ w.db
  unfolding Api.handle_peer_config_sync
  peer_config_sync-refused (err e) w bad = refl
  peer_config_sync-refused (ok sync) w bad = cc

  pub pull_nodes-same :
      (ms : List Monitor) (r : Result (List Node)) (w : World)
      → (Api.pull_nodes env ms r w).1.db ≡ w.db
  unfolding Api.pull_nodes now
  pull_nodes-same ms (err e) w = refl
  pull_nodes-same ms (ok ns) w = refl

  pub pull_monitors-same :
      (r : Result (List Monitor)) (w : World) → (Api.pull_monitors env r w).1.db ≡ w.db
  unfolding Api.pull_monitors list_nodes
  pull_monitors-same (err e) w = refl
  pull_monitors-same (ok ms) w =
      pull_nodes-same ms (list_nodes env w).0 (list_nodes env w).1 ∙ read_only env _ w

  module _ (is_json : String → Bool) where
    pub store_channel-refused :
        (c : AlertChannel) (w : World)
        → succeeded (Api.store_channel env is_json c w).0 ≡ false
        → (Api.store_channel env is_json c w).1.db ≡ w.db
    unfolding Api.store_channel now new_uuid create_alert_channel
    store_channel-refused c w bad =
        refused env (insert_channel _) (Api.created_channel_reply env is_json _)
          (new_uuid env (now env w).1).1 (λ a. refl) bad

    pub create_channel-refused :
        (body : Result AlertChannel) (w : World)
        → succeeded (Api.handle_create_alert_channel env is_json body w).0 ≡ false
        → (Api.handle_create_alert_channel env is_json body w).1.db ≡ w.db
    unfolding Api.handle_create_alert_channel
    create_channel-refused (err e) w = λ bad. refl
    create_channel-refused (ok c) w = elim (Bool-cases ((c.name == "") || (c.channel_type == ""))) [
      | inl e ↦ rw e (λ bad. refl)
      | inr e ↦
          elim (Bool-cases (not (c.channel_type == "webhook") && not (c.channel_type == "email"))) [
            | inl f ↦ rw (e, f) (λ bad. refl)
            | inr f ↦ elim (Bool-cases (not (is_json (Api.config_or_empty c.config)))) [
              | inl g ↦ rw (e, f, g) (λ bad. refl)
              | inr g ↦ rw (e, f, g) (store_channel-refused c w)
            ]
          ]
    ]

    pub store_updates-refused :
        (x u : AlertChannel) (w : World)
        → succeeded (Api.store_channel_updates env is_json x u w).0 ≡ false
        → (Api.store_channel_updates env is_json x u w).1.db ≡ w.db
    unfolding Api.store_channel_updates now update_alert_channel
    store_updates-refused x u w bad =
        refused env (set_channel _) (Api.updated_channel_reply env is_json _) (now env w).1
          (λ a. refl) bad

    pub apply_channel_updates-refused :
        (body : Result AlertChannel) (r : Result (Option AlertChannel)) (w : World)
        → succeeded (Api.apply_channel_updates env is_json body r w).0 ≡ false
        → (Api.apply_channel_updates env is_json body r w).1.db ≡ w.db
    unfolding Api.apply_channel_updates
    apply_channel_updates-refused body (err e) w = λ bad. refl
    apply_channel_updates-refused body (ok none) w = λ bad. refl
    apply_channel_updates-refused (err e) (ok (some x)) w = λ bad. refl
    apply_channel_updates-refused (ok u) (ok (some x)) w =
        elim (Bool-cases (not (u.config == "") && not (is_json u.config))) [
          | inl e ↦ rw e (λ bad. refl)
          | inr e ↦ rw e (store_updates-refused x u w)
        ]

    pub update_channel-refused :
        (id : String) (body : Result AlertChannel) (w : World)
        → succeeded (Api.handle_update_alert_channel env is_json id body w).0 ≡ false
        → (Api.handle_update_alert_channel env is_json id body w).1.db ≡ w.db
    unfolding Api.handle_update_alert_channel get_alert_channel
    update_channel-refused id body w bad =
        apply_channel_updates-refused body (get_alert_channel env id w).0
          (get_alert_channel env id w).1 bad
        ∙ read_only env _ w

    pub delete_channel-refused :
        (id : String) (w : World)
        → succeeded (Api.handle_delete_alert_channel env is_json id w).0 ≡ false
        → (Api.handle_delete_alert_channel env is_json id w).1.db ≡ w.db
    unfolding Api.handle_delete_alert_channel delete_alert_channel
    delete_channel-refused id w bad =
        refused env (remove_channel id) Api.deleted_reply w (λ a. refl) bad
