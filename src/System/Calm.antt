-- ===== src/System/Calm.antt =====
-- Calls of the store that do not write incidents, and code that is made of such calls.
use ping_mesh.Prelude.{
  ◌≡◌, refl, sym, subst, ℤ, String, Bool, true, false, List, ◌≤◌, arith, if◌then◌else◌,
}
use ping_mesh.Db.{Db, IncidentRow}
use ping_mesh.World.{Env, World, Act, pure, ◌>>=◌, exec, now, new_uuid}
use ping_mesh.World.Frame.{exec-select, exec-write}
use ping_mesh.Store.{
  insert_node, set_node, set_node_status, remove_node, insert_monitor, set_monitor, remove_monitor,
  insert_result, insert_token, consume_token, insert_channel, set_channel, remove_channel,
  insert_history,
}
use ping_mesh.Store.Calls.{Call, perform, perform-IsConsistent}
use ping_mesh.Store
use ping_mesh.Store.Calls
use ping_mesh.Consensus.Sound.{Sound, Sound-refl, Sound-trans}
use ping_mesh.Consensus.Lifecycle.{Evolves, Evolves-refl}
use ping_mesh.Consensus.Rows.{active_count}

-- All calls but those that store an incident.
abbrev pub IsQuiet : Call → Type 0
IsQuiet (Calls.create_incident i) = ⊥
IsQuiet (Calls.update_incident i) = ⊥
IsQuiet c = Unit

abbrev SameIncidents : Db → Db → Type 0
SameIncidents db db' = db'.incidents ≡ db.incidents

consume-same :
    (env : Env) (hash : String) (time : ℤ) (w : World)
    → SameIncidents w.db (exec env (consume_token hash time) w).1.db
unfolding exec consume_token
consume-same env hash time w = ground arith

module _ (env : Env) where
  perform-same : (c : Call) (w : World) → IsQuiet c → SameIncidents w.db (perform env c w).db
  unfolding perform now Store.create_node Store.get_node Store.list_nodes Store.update_node
      Store.delete_node Store.update_node_status Store.create_monitor Store.get_monitor
      Store.list_monitors Store.update_monitor Store.delete_monitor Store.list_enabled_monitors
      Store.insert_check_result Store.get_latest_result Store.count_consecutive_failures
      Store.count_consecutive_successes Store.list_check_results Store.get_incident
      Store.get_active_incident Store.list_incidents Store.store_join_token
      Store.validate_and_consume_token Store.create_alert_channel Store.get_alert_channel
      Store.list_alert_channels Store.list_enabled_alert_channels Store.update_alert_channel
      Store.delete_alert_channel Store.insert_alert_record Store.list_alert_history insert_node
      set_node set_node_status remove_node insert_monitor set_monitor remove_monitor insert_result
      insert_token insert_channel set_channel remove_channel insert_history
  perform-same (Calls.get_node id) w q = rw exec-select refl
  perform-same Calls.list_nodes w q = rw exec-select refl
  perform-same (Calls.get_monitor id) w q = rw exec-select refl
  perform-same (Calls.list_monitors g) w q = rw exec-select refl
  perform-same Calls.list_enabled_monitors w q = rw exec-select refl
  perform-same (Calls.get_latest_result m n) w q = rw exec-select refl
  perform-same (Calls.count_consecutive_failures m n) w q = rw exec-select refl
  perform-same (Calls.count_consecutive_successes m n) w q = rw exec-select refl
  perform-same (Calls.list_check_results m n s l) w q = rw exec-select refl
  perform-same (Calls.get_incident id) w q = rw exec-select refl
  perform-same (Calls.get_active_incident m) w q = rw exec-select refl
  perform-same (Calls.list_incidents a) w q = rw exec-select refl
  perform-same (Calls.get_alert_channel id) w q = rw exec-select refl
  perform-same Calls.list_alert_channels w q = rw exec-select refl
  perform-same Calls.list_enabled_alert_channels w q = rw exec-select refl
  perform-same (Calls.list_alert_history id l) w q = rw exec-select refl
  perform-same (Calls.create_node n) w q =
      exec-write env (SameIncidents w.db) (insert_node n) w (ground arith) refl
  perform-same (Calls.update_node n) w q =
      exec-write env (SameIncidents w.db) (set_node n) w (ground arith) refl
  perform-same (Calls.delete_node id) w q =
      exec-write env (SameIncidents w.db) (remove_node id) w (ground arith) refl
  perform-same (Calls.update_node_status id st seen) w q =
      exec-write env (SameIncidents w.db) (set_node_status id st seen) w (ground arith) refl
  perform-same (Calls.create_monitor m) w q =
      exec-write env (SameIncidents w.db) (insert_monitor m) w (ground arith) refl
  perform-same (Calls.update_monitor m) w q =
      exec-write env (SameIncidents w.db) (set_monitor m) w (ground arith) refl
  perform-same (Calls.delete_monitor id) w q =
      exec-write env (SameIncidents w.db) (remove_monitor id) w (ground arith) refl
  perform-same (Calls.insert_check_result r) w q =
      exec-write env (SameIncidents w.db) (insert_result r) w (ground arith) refl
  perform-same (Calls.create_alert_channel c) w q =
      exec-write env (SameIncidents w.db) (insert_channel c) w (ground arith) refl
  perform-same (Calls.update_alert_channel c) w q =
      exec-write env (SameIncidents w.db) (set_channel c) w (ground arith) refl
  perform-same (Calls.delete_alert_channel id) w q =
      exec-write env (SameIncidents w.db) (remove_channel id) w (ground arith) refl
  perform-same (Calls.insert_alert_record r) w q =
      exec-write env (SameIncidents w.db) (insert_history r) w (ground arith) refl
  perform-same (Calls.store_join_token h e) w q =
      exec-write env (SameIncidents w.db) (insert_token h e (env.clock w.readings)) (now env w).1
        (ground arith) refl
  perform-same (Calls.validate_and_consume_token h) w q =
      consume-same env h (env.clock w.readings) (now env w).1
  perform-same (Calls.create_incident i) w q = absurd q
  perform-same (Calls.update_incident i) w q = absurd q

  -- A quiet call keeps an orderly database orderly, and its incidents as they are.
  pub perform-Sound : (c : Call) (w : World) → IsQuiet c → Sound w.db (perform env c w).db
  perform-Sound c w q o =
      let same = perform-same c w q in
      (
        record {
          consistent = perform-IsConsistent env c w o.consistent;
          one_active = λ m.
              subst (λ (l : List IncidentRow). active_count m l ≤ 1) (sym same) (o.one_active m);
        },
        subst (λ (l : List IncidentRow). Evolves w.db.incidents l) (sym same)
            (Evolves-refl w.db.incidents),
      )

-- Code that keeps an orderly database orderly.
abbrev pub IsCalm : {A : Type 0} → Act A → Type 0
IsCalm m = (w : World) → Sound w.db (m w).1.db

pub pure-IsCalm : {A : Type 0} (a : A) → IsCalm (pure a)
pure-IsCalm a w = Sound-refl w.db

pub bind-IsCalm :
    {A B : Type 0} (m : Act A) (f : A → Act B)
    → IsCalm m
    → ((a : A) → IsCalm (f a))
    → IsCalm (m >>= f)
bind-IsCalm m f p q w = Sound-trans w.db (m w).1.db _ (p w) (q (m w).0 (m w).1)

module _ (env : Env) where
  pub now-IsCalm : IsCalm (now env)
  unfolding now
  now-IsCalm w = Sound-refl w.db

  pub new_uuid-IsCalm : IsCalm (new_uuid env)
  unfolding new_uuid
  new_uuid-IsCalm w = Sound-refl w.db

pub if-IsCalm :
    {A : Type 0} (b : Bool) (m k : Act A) → IsCalm m → IsCalm k → IsCalm (if b then m else k)
if-IsCalm true m k p q = p
if-IsCalm false m k p q = q
