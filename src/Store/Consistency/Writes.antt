-- ===== src/Store/Consistency/Writes.antt =====
-- INSERT and UPDATE keep the keys unique and the references whole.
use ping_mesh.Prelude.{
  String, ℤ, ◌≡◌, refl, ◌∙◌, List, [], ◌∷◌, ◌++◌, arith, All, All-append, Bool-cases, inl, inr,
}
use ping_mesh.Model.{Node, Monitor, Incident, AlertChannel}
use ping_mesh.Db.{
  Db, IsConsistent, IncidentIsKnown, has, update, IsUnique, has-update, IsUnique-append_one,
  IsUnique-update, node_key, monitor_key, incident_key, token_key, channel_key, monitor_row,
  set_monitor_row, incident_row, set_incident_row, channel_row, set_channel_row, IncidentRow,
  TokenRow,
}
use ping_mesh.Store.Nodes.{insert_node, set_node, set_node_status}
use ping_mesh.Store.Monitors.{insert_monitor, set_monitor}
use ping_mesh.Store.Incidents.{insert_incident, set_incident}
use ping_mesh.Store.Tokens.{insert_token, redeem}
use ping_mesh.Store.Channels.{insert_channel, set_channel}
use ping_mesh.Store.Consistency.Parts.{
  Kept, with_nodes, with_monitors, with_incidents, with_tokens, with_channels, refused_if,
  allowed_if, has-grows,
}

pub insert_node-IsConsistent : (n : Node) (db : Db) → Kept (insert_node n) db
unfolding insert_node
insert_node-IsConsistent n db c = refused_if IsConsistent _ _ (has node_key n.id db.nodes) λ h.
    with_nodes c (db.nodes ++ n ∷ []) (IsUnique-append_one node_key n db.nodes h c.nodes_unique)
      (has-grows node_key n db.nodes)

pub set_node-IsConsistent : (n : Node) (db : Db) → Kept (set_node n) db
unfolding set_node
set_node-IsConsistent n db c =
    with_nodes c _ (IsUnique-update node_key n.id _ db.nodes (λ r. refl) c.nodes_unique)
      (λ id h. has-update node_key n.id id _ db.nodes (λ r. refl) ∙ h)

pub set_node_status-IsConsistent :
    (id status : String) (seen : ℤ) (db : Db) → Kept (set_node_status id status seen) db
unfolding set_node_status
set_node_status-IsConsistent id status seen db c =
    with_nodes c _ (IsUnique-update node_key id _ db.nodes (λ r. refl) c.nodes_unique)
      (λ j h. has-update node_key id j _ db.nodes (λ r. refl) ∙ h)

pub insert_monitor-IsConsistent : (m : Monitor) (db : Db) → Kept (insert_monitor m) db
unfolding insert_monitor monitor_row
insert_monitor-IsConsistent m db c =
    refused_if IsConsistent _ _ (has monitor_key m.id db.monitors) λ h.
      with_monitors c (db.monitors ++ monitor_row m ∷ [])
        (IsUnique-append_one monitor_key (monitor_row m) db.monitors h c.monitors_unique)
        (has-grows monitor_key (monitor_row m) db.monitors)

pub set_monitor-IsConsistent : (m : Monitor) (db : Db) → Kept (set_monitor m) db
unfolding set_monitor set_monitor_row
set_monitor-IsConsistent m db c =
    with_monitors c _
      (IsUnique-update monitor_key m.id (set_monitor_row m) db.monitors (λ r. refl)
        c.monitors_unique)
      (λ j h. rw (has-update monitor_key m.id j (set_monitor_row m) db.monitors (λ r. refl)) h)

pub insert_incident-IsConsistent : (i : Incident) (db : Db) → Kept (insert_incident i) db
unfolding insert_incident incident_row
insert_incident-IsConsistent i db c = elim (Bool-cases (has incident_key i.id db.incidents)) [
  | inl e ↦ rw e tt
  | inr h ↦ rw h (
      allowed_if IsConsistent _ _ (has monitor_key i.monitor_id db.monitors) λ k.
        with_incidents c (db.incidents ++ incident_row i ∷ [])
          (IsUnique-append_one incident_key (incident_row i) db.incidents h c.incidents_unique)
          (All-append (IncidentIsKnown db) db.incidents (incident_row i ∷ []) c.incidents_known
            (k, tt)))
]

incidents_known-update :
    (db : Db) (id : String) (i : Incident) (is : List IncidentRow)
    → All (IncidentIsKnown db) is
    → All (IncidentIsKnown db) (update incident_key id (set_incident_row i) is)
unfolding update set_incident_row
incidents_known-update db id i [] h = tt
incidents_known-update db id i (r ∷ is) h = ground (arith, incidents_known-update db id i is h.1)

pub set_incident-IsConsistent : (i : Incident) (db : Db) → Kept (set_incident i) db
unfolding set_incident set_incident_row
set_incident-IsConsistent i db c =
    with_incidents c _
      (IsUnique-update incident_key i.id (set_incident_row i) db.incidents (λ r. refl)
        c.incidents_unique)
      (incidents_known-update db i.id i db.incidents c.incidents_known)

pub insert_channel-IsConsistent : (ch : AlertChannel) (db : Db) → Kept (insert_channel ch) db
unfolding insert_channel channel_row
insert_channel-IsConsistent ch db c =
    refused_if IsConsistent _ _ (has channel_key ch.id db.alert_channels) λ h.
      with_channels c (db.alert_channels ++ channel_row ch ∷ [])
        (IsUnique-append_one channel_key (channel_row ch) db.alert_channels h c.channels_unique)
        (has-grows channel_key (channel_row ch) db.alert_channels)

pub set_channel-IsConsistent : (ch : AlertChannel) (db : Db) → Kept (set_channel ch) db
unfolding set_channel set_channel_row
set_channel-IsConsistent ch db c =
    with_channels c _
      (IsUnique-update channel_key ch.id (set_channel_row ch) db.alert_channels (λ r. refl)
        c.channels_unique)
      (λ j h.
        rw (has-update channel_key ch.id j (set_channel_row ch) db.alert_channels (λ r. refl)) h)

pub insert_token-IsConsistent :
    (hash : String) (expires created : ℤ) (db : Db) → Kept (insert_token hash expires created) db
unfolding insert_token
insert_token-IsConsistent hash expires created db c =
    refused_if IsConsistent _ _ (has token_key hash db.join_tokens)
      λ h. with_tokens c _ (IsUnique-append_one token_key _ db.join_tokens h c.tokens_unique)

has-redeem :
    (hash j : String) (time : ℤ) (ts : List TokenRow)
    → has token_key j (redeem hash time ts) ≡ has token_key j ts
unfolding has redeem
has-redeem hash j time [] = refl
has-redeem hash j time (t ∷ ts) = ground (arith, has-redeem hash j time ts)

redeem-IsUnique :
    (hash : String) (time : ℤ) (ts : List TokenRow)
    → IsUnique token_key ts
    → IsUnique token_key (redeem hash time ts)
unfolding redeem
redeem-IsUnique hash time [] u = tt
redeem-IsUnique hash time (t ∷ ts) u =
    ground (arith, has-redeem hash t.token_hash time ts, redeem-IsUnique hash time ts u.1)

pub consume_token-IsConsistent :
    (hash : String) (time : ℤ) (db : Db)
    → IsConsistent db
    → IsConsistent (record db { join_tokens = redeem hash time db.join_tokens })
consume_token-IsConsistent hash time db c =
    with_tokens c _ (redeem-IsUnique hash time db.join_tokens c.tokens_unique)
