-- ===== src/Store/Consistency/References.antt =====
-- Rows that refer to others, and rows that are referred to: what is added refers to a row that is
-- there, and what is taken away leaves no reference behind.
use ping_mesh.Prelude.{
  String, suc, ◌≡◌, false, not, ◌&&◌, List, [], ◌∷◌, arith, ◌==◌, eq_iff, any, keep_if, All,
  All-append, All-map, Bool-cases, inl, inr,
}
use ping_mesh.Model.{CheckResult, AlertRecord}
use ping_mesh.Db.{
  Db, IsConsistent, ResultIsKnown, IncidentIsKnown, HistoryIsKnown, has, delete, has-delete,
  IsUnique-delete, node_key, monitor_key, channel_key, result_row, history_row, ResultRow,
  IncidentRow, HistoryRow,
}
use ping_mesh.Store.Nodes.{remove_node}
use ping_mesh.Store.Monitors.{remove_monitor}
use ping_mesh.Store.Results.{insert_result}
use ping_mesh.Store.Channels.{remove_channel, insert_history}
use ping_mesh.Store.Consistency.Parts.{Kept, refused_if, allowed_if}

pub insert_result-IsConsistent : (r : CheckResult) (db : Db) → Kept (insert_result r) db
unfolding insert_result result_row
insert_result-IsConsistent r db c = elim (Bool-cases (has monitor_key r.monitor_id db.monitors)) [
  | inl m ↦ rw m (
      allowed_if IsConsistent _ _ (has node_key r.node_id db.nodes) λ n. record {
        nodes_unique = c.nodes_unique;
        monitors_unique = c.monitors_unique;
        incidents_unique = c.incidents_unique;
        tokens_unique = c.tokens_unique;
        channels_unique = c.channels_unique;
        results_known =
            All-append (ResultIsKnown (record db { next_result_id = suc db.next_result_id }))
              db.check_results _
              (All-map (ResultIsKnown db)
                (ResultIsKnown (record db { next_result_id = suc db.next_result_id }))
                (λ x h. (h.0, h.1, omega arith)) db.check_results c.results_known)
              ((m, n, omega arith), tt);
        incidents_known = c.incidents_known;
        history_known = c.history_known;
      })
  | inr m ↦ rw m tt
]

pub insert_history-IsConsistent : (r : AlertRecord) (db : Db) → Kept (insert_history r) db
unfolding insert_history history_row
insert_history-IsConsistent r db c =
    allowed_if IsConsistent _ _ (has channel_key r.channel_id db.alert_channels) λ k. record {
      nodes_unique = c.nodes_unique;
      monitors_unique = c.monitors_unique;
      incidents_unique = c.incidents_unique;
      tokens_unique = c.tokens_unique;
      channels_unique = c.channels_unique;
      results_known = c.results_known;
      incidents_known = c.incidents_known;
      history_known =
          All-append (HistoryIsKnown (record db { next_history_id = suc db.next_history_id }))
            db.alert_history _
            (All-map (HistoryIsKnown db)
              (HistoryIsKnown (record db { next_history_id = suc db.next_history_id }))
              (λ x h. (h.0, omega arith)) db.alert_history c.history_known)
            ((k, omega arith), tt);
    }

-- Nothing refers to the row that goes, so each reference keeps its row.
results-known_without_node :
    (db : Db) (id : String) (rs : List ResultRow)
    → (has node_key id db.nodes && any (λ r. r.node_id == id) rs) ≡ false
    → All (ResultIsKnown db) rs
    → All (ResultIsKnown (record db { nodes = delete node_key id db.nodes })) rs
results-known_without_node db id [] e h = tt
results-known_without_node db id (r ∷ rs) e h = ground (
  arith,
  has-delete node_key id r.node_id db.nodes,
  eq_iff id r.node_id,
  eq_iff r.node_id id,
  results-known_without_node db id rs,
)

results-known_without_monitor :
    (db : Db) (id : String) (rs : List ResultRow)
    → (has monitor_key id db.monitors && any (λ r. r.monitor_id == id) rs) ≡ false
    → All (ResultIsKnown db) rs
    → All (ResultIsKnown (record db { monitors = delete monitor_key id db.monitors })) rs
results-known_without_monitor db id [] e h = tt
results-known_without_monitor db id (r ∷ rs) e h = ground (
  arith,
  has-delete monitor_key id r.monitor_id db.monitors,
  eq_iff id r.monitor_id,
  eq_iff r.monitor_id id,
  results-known_without_monitor db id rs,
)

incidents-known_without_monitor :
    (db : Db) (id : String) (is : List IncidentRow)
    → (has monitor_key id db.monitors && any (λ i. i.monitor_id == id) is) ≡ false
    → All (IncidentIsKnown db) is
    → All (IncidentIsKnown (record db { monitors = delete monitor_key id db.monitors })) is
incidents-known_without_monitor db id [] e h = tt
incidents-known_without_monitor db id (i ∷ is) e h = ground (
  arith,
  has-delete monitor_key id i.monitor_id db.monitors,
  eq_iff id i.monitor_id,
  eq_iff i.monitor_id id,
  incidents-known_without_monitor db id is,
)

pub remove_node-IsConsistent : (id : String) (db : Db) → Kept (remove_node id) db
unfolding remove_node
remove_node-IsConsistent id db c = refused_if IsConsistent _ _ _ λ e. record {
  nodes_unique = IsUnique-delete node_key id db.nodes c.nodes_unique;
  monitors_unique = c.monitors_unique;
  incidents_unique = c.incidents_unique;
  tokens_unique = c.tokens_unique;
  channels_unique = c.channels_unique;
  results_known = results-known_without_node db id db.check_results e c.results_known;
  incidents_known = c.incidents_known;
  history_known = c.history_known;
}

pub remove_monitor-IsConsistent : (id : String) (db : Db) → Kept (remove_monitor id) db
unfolding remove_monitor
remove_monitor-IsConsistent id db c = refused_if IsConsistent _ _ _ λ e. record {
  nodes_unique = c.nodes_unique;
  monitors_unique = IsUnique-delete monitor_key id db.monitors c.monitors_unique;
  incidents_unique = c.incidents_unique;
  tokens_unique = c.tokens_unique;
  channels_unique = c.channels_unique;
  results_known =
      results-known_without_monitor db id db.check_results (ground arith) c.results_known;
  incidents_known =
      incidents-known_without_monitor db id db.incidents (ground arith) c.incidents_known;
  history_known = c.history_known;
}

-- The cascade takes the history of the channel that goes.
history-known_without_channel :
    (db : Db) (id : String) (hs : List HistoryRow)
    → All (HistoryIsKnown db) hs
    → All
        (HistoryIsKnown (record db { alert_channels = delete channel_key id db.alert_channels }))
        (keep_if (λ h. not (h.channel_id == id)) hs)
history-known_without_channel db id [] k = tt
history-known_without_channel db id (h ∷ hs) k = ground (
  arith,
  has-delete channel_key id h.channel_id db.alert_channels,
  eq_iff id h.channel_id,
  eq_iff h.channel_id id,
  history-known_without_channel db id hs k.1,
)

pub remove_channel-IsConsistent : (id : String) (db : Db) → Kept (remove_channel id) db
unfolding remove_channel
remove_channel-IsConsistent id db c = record {
  nodes_unique = c.nodes_unique;
  monitors_unique = c.monitors_unique;
  incidents_unique = c.incidents_unique;
  tokens_unique = c.tokens_unique;
  channels_unique = IsUnique-delete channel_key id db.alert_channels c.channels_unique;
  results_known = c.results_known;
  incidents_known = c.incidents_known;
  history_known = history-known_without_channel db id db.alert_history c.history_known;
}
