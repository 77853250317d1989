-- ===== src/Store/Consistency/Parts.antt =====
-- A consistent database with one table replaced.
use ping_mesh.Prelude.{
  String, ◌≡◌, refl, Bool, true, false, List, [], ◌∷◌, ◌++◌, arith, if◌then◌else◌, All, All-map,
  Result, ok, err, Error,
}
use ping_mesh.Model.{Node}
use ping_mesh.Db.{
  Db, IsConsistent, ResultIsKnown, IncidentIsKnown, HistoryIsKnown, has, IsUnique, has-append_one,
  node_key, monitor_key, incident_key, token_key, channel_key, ResultRow, IncidentRow, TokenRow,
  ChannelRow, MonitorRow,
}
use ping_mesh.World.Frame.{After}

-- References stay whole where the rows that they name stay.
module _ (db db' : Db) where
  pub results-known :
      ((id : String)
        → has monitor_key id db.monitors ≡ true
        → has monitor_key id db'.monitors ≡ true)
      → ((id : String) → has node_key id db.nodes ≡ true → has node_key id db'.nodes ≡ true)
      → db.next_result_id ≡ db'.next_result_id
      → (rs : List ResultRow) → All (ResultIsKnown db) rs
      → All (ResultIsKnown db') rs
  results-known m n e =
      All-map (ResultIsKnown db) (ResultIsKnown db')
        (λ r h. (m r.monitor_id h.0, n r.node_id h.1, omega arith))

  pub incidents-known :
      ((id : String)
        → has monitor_key id db.monitors ≡ true
        → has monitor_key id db'.monitors ≡ true)
      → (rs : List IncidentRow) → All (IncidentIsKnown db) rs
      → All (IncidentIsKnown db') rs
  incidents-known m = All-map (IncidentIsKnown db) (IncidentIsKnown db') (λ r h. m r.monitor_id h)

abbrev pub Kept : (Db → Result Db) → Db → Type 0
Kept stmt db = IsConsistent db → After IsConsistent (stmt db)

-- New lists of rows in place of old ones.
module _ {db : Db} (c : IsConsistent db) where
  pub with_nodes :
      (ns : List Node)
      → IsUnique node_key ns
      → ((id : String) → has node_key id db.nodes ≡ true → has node_key id ns ≡ true)
      → IsConsistent (record db { nodes = ns })
  with_nodes ns u k = record {
    nodes_unique = u;
    monitors_unique = c.monitors_unique;
    incidents_unique = c.incidents_unique;
    tokens_unique = c.tokens_unique;
    channels_unique = c.channels_unique;
    results_known =
        results-known db (record db { nodes = ns }) (λ id m. m) k refl db.check_results
          c.results_known;
    incidents_known = c.incidents_known;
    history_known = c.history_known;
  }

  pub with_monitors :
      (ms : List MonitorRow)
      → IsUnique monitor_key ms
      → ((id : String) → has monitor_key id db.monitors ≡ true → has monitor_key id ms ≡ true)
      → IsConsistent (record db { monitors = ms })
  with_monitors ms u k = record {
    nodes_unique = c.nodes_unique;
    monitors_unique = u;
    incidents_unique = c.incidents_unique;
    tokens_unique = c.tokens_unique;
    channels_unique = c.channels_unique;
    results_known =
        results-known db (record db { monitors = ms }) k (λ id m. m) refl db.check_results
          c.results_known;
    incidents_known =
        incidents-known db (record db { monitors = ms }) k db.incidents c.incidents_known;
    history_known = c.history_known;
  }

  pub with_incidents :
      (is : List IncidentRow)
      → IsUnique incident_key is
      → All (IncidentIsKnown db) is
      → IsConsistent (record db { incidents = is })
  with_incidents is u k = record {
    nodes_unique = c.nodes_unique;
    monitors_unique = c.monitors_unique;
    incidents_unique = u;
    tokens_unique = c.tokens_unique;
    channels_unique = c.channels_unique;
    results_known = c.results_known;
    incidents_known = k;
    history_known = c.history_known;
  }

  pub with_tokens :
      (ts : List TokenRow) → IsUnique token_key ts → IsConsistent (record db { join_tokens = ts })
  with_tokens ts u = record {
    nodes_unique = c.nodes_unique;
    monitors_unique = c.monitors_unique;
    incidents_unique = c.incidents_unique;
    tokens_unique = u;
    channels_unique = c.channels_unique;
    results_known = c.results_known;
    incidents_known = c.incidents_known;
    history_known = c.history_known;
  }

  pub with_channels :
      (cs : List ChannelRow)
      → IsUnique channel_key cs
      → ((id : String) → has channel_key id db.alert_channels ≡ true → has channel_key id cs ≡ true)
      → IsConsistent (record db { alert_channels = cs })
  with_channels cs u k = record {
    nodes_unique = c.nodes_unique;
    monitors_unique = c.monitors_unique;
    incidents_unique = c.incidents_unique;
    tokens_unique = c.tokens_unique;
    channels_unique = u;
    results_known = c.results_known;
    incidents_known = c.incidents_known;
    history_known =
        All-map (HistoryIsKnown db) (HistoryIsKnown (record db { alert_channels = cs }))
          (λ h e. (k h.channel_id e.0, e.1)) db.alert_history c.history_known;
  }

-- Splits a statement that is refused on a test.
module _ {ℓ} (P : Db → Type ℓ) (e : Error) (db : Db) where
  pub refused_if : (b : Bool) → (b ≡ false → P db) → After P (if b then err e else ok db)
  refused_if true k = tt
  refused_if false k = k refl

  pub allowed_if : (b : Bool) → (b ≡ true → P db) → After P (if b then ok db else err e)
  allowed_if true k = k refl
  allowed_if false k = tt

pub has-grows :
    {A : Type 0} (key : A → String) (r : A) (rs : List A) (id : String)
    → has key id rs ≡ true
    → has key id (rs ++ r ∷ []) ≡ true
has-grows key r rs id h = ground (arith, has-append_one key id r rs)
