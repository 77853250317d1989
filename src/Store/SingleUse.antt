-- ===== src/Store/SingleUse.antt =====
-- A join token is good for one node: once it has been redeemed, no history of calls makes it good again.
mod Spent
use Spent.{IsSpent, any-redeemable_of_used, redeem-IsSpent, redeem-spends}
use ping_mesh.Prelude.{
  subst, sym, any, String, ℤ, pos, eq_ℤ, List, [], ◌∷◌, ◌++◌, Bool, true, false, Bool-cases, inl,
  inr, ◌≡◌, ◌≢◌, refl, ◌∙◌, arith, ◌==◌, ◌&&◌, ◌||◌, eq_iff, eq_refl, if◌then◌else◌, any, All,
  All-append, Result, ok, err, ltb_ℤ,
}
use ping_mesh.Model.{Node, Monitor, CheckResult, Incident, AlertChannel, AlertRecord}
use ping_mesh.Db.{Db, TokenRow, has, has-append_one, token_key, IsUnique, IsConsistent}
use ping_mesh.World.{Env, World, exec, select, write, now, settle}
use ping_mesh.World.Frame.{exec-select, exec-write, After}
use ping_mesh.Store.Calls.{Call, perform, run}
use ping_mesh.Store.Calls
use ping_mesh.Store.Tokens.{
  insert_token, is_redeemable, redeem, consume_token, validate_and_consume_token,
}
use ping_mesh.Store.Nodes
use ping_mesh.Store.Monitors
use ping_mesh.Store.Results
use ping_mesh.Store.Incidents
use ping_mesh.Store.Tokens
use ping_mesh.Store.Channels

-- What leaves the tokens alone leaves them spent.
abbrev pub SpentIn : String → Db → Type 0
SpentIn hash db = IsSpent hash db.join_tokens

-- Statements on the other tables, and the insertion of a token.
-- A statement either refuses or changes another table.
abbrev pub Keeps : (Db → Result Db) → Type 0
Keeps stmt = (hash : String) (db : Db) → SpentIn hash db → After (SpentIn hash) (stmt db)

pub insert_node-Keeps : (n : Node) → Keeps (Nodes.insert_node n)
unfolding Nodes.insert_node
insert_node-Keeps n hash db s = ground arith

remove_node-Keeps : (id : String) → Keeps (Nodes.remove_node id)
unfolding Nodes.remove_node
remove_node-Keeps id hash db s = ground arith

insert_monitor-Keeps : (m : Monitor) → Keeps (Monitors.insert_monitor m)
unfolding Monitors.insert_monitor
insert_monitor-Keeps m hash db s = ground arith

remove_monitor-Keeps : (id : String) → Keeps (Monitors.remove_monitor id)
unfolding Monitors.remove_monitor
remove_monitor-Keeps id hash db s = ground arith

insert_result-Keeps : (r : CheckResult) → Keeps (Results.insert_result r)
unfolding Results.insert_result
insert_result-Keeps r hash db s = ground arith

insert_incident-Keeps : (i : Incident) → Keeps (Incidents.insert_incident i)
unfolding Incidents.insert_incident
insert_incident-Keeps i hash db s = ground arith

insert_channel-Keeps : (c : AlertChannel) → Keeps (Channels.insert_channel c)
unfolding Channels.insert_channel
insert_channel-Keeps c hash db s = ground arith

insert_history-Keeps : (r : AlertRecord) → Keeps (Channels.insert_history r)
unfolding Channels.insert_history
insert_history-Keeps r hash db s = ground arith

insert_token-Keeps :
    (other : String) (expires created : ℤ) → Keeps (insert_token other expires created)
unfolding insert_token
insert_token-Keeps other expires created hash db s =
    elim (Bool-cases (has token_key other db.join_tokens)) [
      | inl e ↦ rw e tt
      | inr e ↦ rw e (record {
        stored = has-append_one token_key hash _ db.join_tokens ∙ ground arith;
        used =
            All-append _ db.join_tokens _ s.used ((λ same. ground (arith, eq_iff other hash)), tt);
      })
    ]

module _ (env : Env) (hash : String) where
  consume-keeps :
      (other : String) (time : ℤ) (w : World)
      → SpentIn hash w.db
      → SpentIn hash (exec env (consume_token other time) w).1.db
  unfolding exec consume_token
  consume-keeps other time w s = elim (Bool-cases (env.faults w.statements)) [
    | inl e ↦ rw e s
    | inr e ↦ rw e (redeem-IsSpent hash other time w.db.join_tokens s)
  ]

  perform-keeps : (c : Call) (w : World) → SpentIn hash w.db → SpentIn hash (perform env c w).db
  unfolding perform now Nodes.create_node Nodes.get_node Nodes.list_nodes Nodes.update_node
      Nodes.delete_node Nodes.update_node_status Monitors.create_monitor Monitors.get_monitor
      Monitors.list_monitors Monitors.update_monitor Monitors.delete_monitor
      Monitors.list_enabled_monitors Results.insert_check_result Results.get_latest_result
      Results.count_consecutive_failures Results.count_consecutive_successes
      Results.list_check_results Incidents.create_incident Incidents.get_incident
      Incidents.get_active_incident Incidents.update_incident Incidents.list_incidents
      Tokens.store_join_token Tokens.validate_and_consume_token Channels.create_alert_channel
      Channels.get_alert_channel Channels.list_alert_channels Channels.list_enabled_alert_channels
      Channels.update_alert_channel Channels.delete_alert_channel Channels.insert_alert_record
      Channels.list_alert_history Channels.remove_channel Channels.set_channel
      Incidents.set_incident Monitors.set_monitor Nodes.set_node Nodes.set_node_status
  perform-keeps (Call.create_node n) w s =
      exec-write env (SpentIn hash) (Nodes.insert_node n) w (insert_node-Keeps n hash w.db s) s
  perform-keeps (Call.get_node id) w s = rw exec-select s
  perform-keeps Call.list_nodes w s = rw exec-select s
  perform-keeps (Call.update_node n) w s = exec-write env (SpentIn hash) (Nodes.set_node n) w s s
  perform-keeps (Call.delete_node id) w s =
      exec-write env (SpentIn hash) (Nodes.remove_node id) w (remove_node-Keeps id hash w.db s) s
  perform-keeps (Call.update_node_status id status seen) w s =
      exec-write env (SpentIn hash) (Nodes.set_node_status id status seen) w s s
  perform-keeps (Call.create_monitor m) w s =
      exec-write env (SpentIn hash) (Monitors.insert_monitor m) w
        (insert_monitor-Keeps m hash w.db s) s
  perform-keeps (Call.get_monitor id) w s = rw exec-select s
  perform-keeps (Call.list_monitors group) w s = rw exec-select s
  perform-keeps (Call.update_monitor m) w s =
      exec-write env (SpentIn hash) (Monitors.set_monitor m) w s s
  perform-keeps (Call.delete_monitor id) w s =
      exec-write env (SpentIn hash) (Monitors.remove_monitor id) w
        (remove_monitor-Keeps id hash w.db s) s
  perform-keeps Call.list_enabled_monitors w s = rw exec-select s
  perform-keeps (Call.insert_check_result r) w s =
      exec-write env (SpentIn hash) (Results.insert_result r) w (insert_result-Keeps r hash w.db s)
        s
  perform-keeps (Call.get_latest_result m n) w s = rw exec-select s
  perform-keeps (Call.count_consecutive_failures m n) w s = rw exec-select s
  perform-keeps (Call.count_consecutive_successes m n) w s = rw exec-select s
  perform-keeps (Call.list_check_results m n since limit) w s = rw exec-select s
  perform-keeps (Call.create_incident i) w s =
      exec-write env (SpentIn hash) (Incidents.insert_incident i) w
        (insert_incident-Keeps i hash w.db s) s
  perform-keeps (Call.get_incident id) w s = rw exec-select s
  perform-keeps (Call.get_active_incident m) w s = rw exec-select s
  perform-keeps (Call.update_incident i) w s =
      exec-write env (SpentIn hash) (Incidents.set_incident i) w s s
  perform-keeps (Call.list_incidents active) w s = rw exec-select s
  perform-keeps (Call.store_join_token other expires) w s =
      exec-write env (SpentIn hash) (insert_token other expires (env.clock w.readings))
        (now env w).1 (insert_token-Keeps other expires (env.clock w.readings) hash w.db s) s
  perform-keeps (Call.validate_and_consume_token other) w s =
      consume-keeps other (env.clock w.readings) (now env w).1 s
  perform-keeps (Call.create_alert_channel c) w s =
      exec-write env (SpentIn hash) (Channels.insert_channel c) w
        (insert_channel-Keeps c hash w.db s) s
  perform-keeps (Call.get_alert_channel id) w s = rw exec-select s
  perform-keeps Call.list_alert_channels w s = rw exec-select s
  perform-keeps Call.list_enabled_alert_channels w s = rw exec-select s
  perform-keeps (Call.update_alert_channel c) w s =
      exec-write env (SpentIn hash) (Channels.set_channel c) w s s
  perform-keeps (Call.delete_alert_channel id) w s =
      exec-write env (SpentIn hash) (Channels.remove_channel id) w s s
  perform-keeps (Call.insert_alert_record r) w s =
      exec-write env (SpentIn hash) (Channels.insert_history r) w
        (insert_history-Keeps r hash w.db s) s
  perform-keeps (Call.list_alert_history id limit) w s = rw exec-select s

  pub run-keeps : (cs : List Call) (w : World) → SpentIn hash w.db → SpentIn hash (run env cs w).db
  unfolding run
  run-keeps [] w s = s
  run-keeps (c ∷ cs) w s = run-keeps cs (perform env c w) (perform-keeps c w s)

  -- The call that redeems a token leaves it spent.
  pub validate-spends :
      (w w' : World)
      → IsConsistent w.db
      → validate_and_consume_token env hash w ≡ (ok true, w')
      → SpentIn hash w'.db
  unfolding validate_and_consume_token now exec consume_token
  validate-spends w w' c e =
      let time : ℤ = env.clock w.readings in
      let hit : any (is_redeemable hash time) w.db.join_tokens ≡ true = ground arith in
      let after : w'.db.join_tokens ≡ redeem hash time w.db.join_tokens = ground arith in
      subst (IsSpent hash) (sym after)
        (redeem-spends hash time w.db.join_tokens c.tokens_unique hit)

  pub spent-refused :
      (w : World) → SpentIn hash w.db → (validate_and_consume_token env hash w).0 ≢ ok true
  unfolding validate_and_consume_token now exec consume_token
  spent-refused w s e =
      ground (arith, any-redeemable_of_used hash (env.clock w.readings) w.db.join_tokens s.used)

  -- From a consistent database, once a token has been validated and consumed, no later validation
  -- of the same hash succeeds, after whatever calls of the store in between.
  pub validate_once :
      (w w' : World) (cs : List Call)
      → IsConsistent w.db
      → validate_and_consume_token env hash w ≡ (ok true, w')
      → (validate_and_consume_token env hash (run env cs w')).0 ≢ ok true
  validate_once w w' cs c e =
      spent-refused (run env cs w') (run-keeps cs w' (validate-spends w w' c e))
