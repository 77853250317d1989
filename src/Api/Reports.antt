-- ===== src/Api/Reports.antt =====
-- internal/api/cli_handlers.go: the status of the cluster, the health of the node, its logs, and the
-- connections to its peers. Dialling, the runtime and the size of files are parameters.
use ping_mesh.Prelude.{
  String, ℤ, pos, ℕ, suc, List, [], ◌∷◌, Option, none, some, Bool, true, false, ◌&&◌, not, Result,
  ok, err, message, length, pos_part, ◌==◌, if◌then◌else◌,
}
use ping_mesh.Model.{
  Config, CoordinatorConfig, Node, Monitor, Incident, ClusterStatus, PeerStatus, HealthInfo,
}
use ping_mesh.World.{Env, Act, pure, ◌>>=◌}
use ping_mesh.Checker.{Sprintf, reason}
use ping_mesh.Logbuf.{Buffer, Entry, last}
use ping_mesh.Store.{list_nodes, list_monitors, list_incidents}
use ping_mesh.Api.Reply.{Reply, json, failure, status_ok, service_unavailable}
use ping_mesh.Api.Url.{Query, Numbers, limit_of}

-- `xs, _ := …`: nil, where there is an error, is sent as an empty list.
abbrev pub list_or_empty : {A : Type 0} → Result (List A) → List A
list_or_empty (ok xs) = xs
list_or_empty (err e) = []

abbrev pub status_of :
    Config → Result (List Node) → Result (List Monitor) → Result (List Incident) → ClusterStatus
status_of config nodes monitors incidents = record {
  node_id = config.node_id;
  role = config.role;
  nodes = list_or_empty nodes;
  monitor_count = length (list_or_empty monitors);
  active_incidents = list_or_empty incidents;
}

-- net.DialTimeout in the n-th turn of the loop: the microseconds that it took.
abbrev pub Dialer : Type 0
Dialer = ℕ → String → Result ℤ

-- The runtime and the file of the database.
pub record Process : Type 0 where
  pub go_version : String
  pub num_goroutines : ℤ
  pub alloc : ℕ
  pub db_file_size : Result ℕ

-- AgentInfo of internal/api/server.go. `uptime` is the time since the start, as a text, and a time
-- that is zero is `none`.
pub record AgentInfo : Type 0 where
  pub uptime : String
  pub active_monitors : ℤ
  pub last_heartbeat : Option ℤ
  pub last_config_sync : Option ℤ

-- Whether probePeers tests a node.
abbrev pub is_probed : Config → String → Node → Bool
is_probed config filter_node n =
    not (n.id == config.node_id) && (if filter_node == "" then true else n.id == filter_node)

abbrev pub time_text : (ℤ → String) → Option ℤ → String
time_text rfc3339 none = ""
time_text rfc3339 (some t) = rfc3339 t

module _ (sprintf : Sprintf) where
  abbrev pub reached : Node → Result ℤ → PeerStatus
  reached n (ok latency) = record {
    node_id = n.id;
    name = n.name;
    address = n.address;
    status = n.status;
    reachable = true;
    latency_us = latency;
    error = "";
  }
  reached n (err e) = record {
    node_id = n.id;
    name = n.name;
    address = n.address;
    status = n.status;
    reachable = false;
    latency_us = pos 0;
    error = sprintf "dial: %v" (reason e ∷ []);
  }

  -- The loop, from its k-th turn on.
  unfoldable pub probe_all : Config → String → Dialer → ℕ → List Node → List PeerStatus
  probe_all config filter_node dial k [] = []
  probe_all config filter_node dial k (n ∷ ns) =
      let rest = probe_all config filter_node dial (suc k) ns in
      if is_probed config filter_node n then reached n (dial k n.address) ∷ rest else rest

  -- `none` is nil.
  abbrev pub probed : Config → String → Dialer → Result (List Node) → Option (List PeerStatus)
  probed config filter_node dial (err e) = none
  probed config filter_node dial (ok nodes) = some (probe_all config filter_node dial 0 nodes)

  module _ (env : Env) (config : Config) where
    unfoldable pub probe_peers : Dialer → String → Act (Option (List PeerStatus))
    unfolding probe_all
    probe_peers dial filter_node = do
      nodes ← list_nodes env
      pure (probed config filter_node dial nodes)

    unfoldable pub handle_test_peer : Dialer → Query → Act (Reply (Option (List PeerStatus)))
    unfolding probe_peers
    handle_test_peer dial query = do
      peers ← probe_peers dial (query "node")
      pure (json status_ok peers)

    -- Every error of the store is dropped.
    unfoldable pub handle_status : Act (Reply ClusterStatus)
    handle_status = do
      nodes ← list_nodes env
      monitors ← list_monitors env ""
      incidents ← list_incidents env true
      pure (json status_ok (status_of config nodes monitors incidents))

    abbrev pub coordinator_text : Option CoordinatorConfig → String
    coordinator_text none = ""
    coordinator_text (some c) = c.address

    abbrev pub file_bytes : Result ℕ → ℕ
    file_bytes (ok size) = size
    file_bytes (err e) = 0

    abbrev pub with_agent : (ℤ → String) → Option AgentInfo → HealthInfo → HealthInfo
    with_agent rfc3339 none health = health
    with_agent rfc3339 (some a) health = record health {
      uptime = a.uptime;
      active_monitors = a.active_monitors;
      last_heartbeat = time_text rfc3339 a.last_heartbeat;
      last_config_sync = time_text rfc3339 a.last_config_sync;
    }

    abbrev pub own_health : Process → HealthInfo
    own_health p = record {
      node_id = config.node_id;
      name = config.node_name;
      role = config.role;
      uptime = "";
      go_version = p.go_version;
      num_goroutines = p.num_goroutines;
      memory_bytes = p.alloc;
      db_size_bytes = file_bytes p.db_file_size;
      coordinator = coordinator_text config.coordinator;
      active_monitors = pos 0;
      last_heartbeat = "";
      last_config_sync = "";
      peers = none;
    }

    unfoldable pub handle_health :
        (ℤ → String) → Process → Option AgentInfo → Dialer → Act (Reply HealthInfo)
    unfolding probe_peers
    handle_health rfc3339 p agent dial = do
      peers ← probe_peers dial ""
      pure (json status_ok (record (with_agent rfc3339 agent (own_health p)) { peers = peers }))

-- An empty list where Last gives nil.
unfoldable pub handle_logs : Numbers → Query → Option Buffer → Reply (List Entry)
unfolding last limit_of
handle_logs numbers query none = failure service_unavailable (message "log buffer not available")
handle_logs numbers query (some buffer) =
    json status_ok (last (pos_part (limit_of numbers (pos 100) (query "lines"))) buffer)
