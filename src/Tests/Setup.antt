-- ===== src/Tests/Setup.antt =====
-- A coordinator with two nodes, a monitor that is down, a webhook, and a join token. No statement
-- fails, and time stands still.
use ping_mesh.Prelude.{
  pos, leb_ℤ, String, true, false, List, [], ◌∷◌, none, some, ok, arith, IsTotal, IsTrans,
  insertion_sorter, lex_le-IsTotal, lex_le-IsTrans, codes,
}
use ping_mesh.Model.{
  Node, Monitor, CheckResult, Incident, AlertChannel, Config, JoinRequest, check_http, status_down,
  node_online, role_node, role_coordinator, incident_resolved,
}
use ping_mesh.Db.{Db, monitor_row, result_row, incident_row, channel_row}
use ping_mesh.World.{
  Env, World, node_le, monitor_le, result_le, incident_le, channel_le, history_le,
}
use ping_mesh.Cluster.{Codecs}
use ping_mesh.Api.{Platform}

pub int-IsTotal : IsTotal leb_ℤ
int-IsTotal x y h = ground arith

pub int-IsTrans : IsTrans leb_ℤ
int-IsTrans x y z h k = ground arith

abbrev pub quiet_env : Env
quiet_env = record {
  faults = λ n. false;
  clock = λ n. pos 5000;
  uuids = λ n. "u1";
  nodes_by_age =
      insertion_sorter node_le (λ x y. int-IsTotal x.created_at y.created_at)
        (λ x y z. int-IsTrans x.created_at y.created_at z.created_at);
  monitors_by_name =
      insertion_sorter monitor_le (λ x y. lex_le-IsTotal (codes x.name) (codes y.name))
        (λ x y z. lex_le-IsTrans (codes x.name) (codes y.name) (codes z.name));
  results_newest_first =
      insertion_sorter result_le (λ x y. int-IsTotal y.timestamp x.timestamp)
        (λ x y z h k. int-IsTrans z.timestamp y.timestamp x.timestamp k h);
  incidents_newest_first =
      insertion_sorter incident_le (λ x y. int-IsTotal y.created_at x.created_at)
        (λ x y z h k. int-IsTrans z.created_at y.created_at x.created_at k h);
  channels_by_age =
      insertion_sorter channel_le (λ x y. int-IsTotal x.created_at y.created_at)
        (λ x y z. int-IsTrans x.created_at y.created_at z.created_at);
  history_newest_first =
      insertion_sorter history_le (λ x y. int-IsTotal y.sent_at x.sent_at)
        (λ x y z h k. int-IsTrans z.sent_at y.sent_at x.sent_at k h);
}

abbrev pub node : String → Node
node id = record {
  id = id;
  name = id;
  location = "";
  address = "10.0.0.1:7433";
  role = role_node;
  status = node_online;
  last_seen = pos 4900;
  created_at = pos 1;
}

abbrev pub site : Monitor
site = record {
  id = "m1";
  name = "site";
  group_name = "";
  check_type = check_http;
  target = "example.com";
  port = pos 0;
  interval_ms = pos 60000;
  timeout_ms = pos 5000;
  retries = pos 1;
  expected_status = pos 200;
  expected_keyword = "";
  dns_record_type = "";
  dns_expected = "";
  failure_threshold = pos 1;
  recovery_threshold = pos 1;
  quorum_type = "majority";
  quorum_n = pos 0;
  cooldown_ms = pos 0;
  enabled = true;
  created_at = pos 2;
  updated_at = pos 2;
}

abbrev pub down : String → CheckResult
down node_id = record {
  id = 0;
  monitor_id = "m1";
  node_id = node_id;
  status = status_down;
  latency_us = 0;
  status_code = pos 0;
  error = "timeout";
  details = none;
  timestamp = pos 4000;
}

abbrev pub old_incident : Incident
old_incident = record {
  id = "u0";
  monitor_id = "m1";
  status = incident_resolved;
  started_at = pos 100;
  confirmed_at = pos 200;
  resolved_at = pos 300;
  confirming_nodes = some ("n1" ∷ []);
  created_at = pos 100;
  updated_at = pos 300;
}

abbrev pub hook : AlertChannel
hook = record {
  id = "c1";
  name = "hook";
  channel_type = "webhook";
  enabled = true;
  config = "{}";
  created_at = pos 3;
  updated_at = pos 3;
}

abbrev pub two_nodes : List Node
two_nodes = node "n1" ∷ node "n2" ∷ []

abbrev pub down_db : Db
down_db = record {
  nodes = two_nodes;
  monitors = monitor_row site ∷ [];
  check_results = result_row 1 (down "n1") ∷ result_row 2 (down "n2") ∷ [];
  incidents = incident_row old_incident ∷ [];
  join_tokens =
      record { token_hash = "hash"; expires_at = pos 9000; created_at = pos 1; used = pos 0 } ∷ [];
  alert_channels = channel_row hook ∷ [];
  alert_history = [];
  next_result_id = 3;
  next_history_id = 1;
}

abbrev pub world_of : Db → World
world_of db = record { db = db; statements = 0; readings = 0; drawn = 0; pending = [] }

abbrev pub down_world : World
down_world = world_of down_db

abbrev pub codecs : Codecs
codecs = record { hash = λ secret. "hash"; later = λ time expiry. time; encode = λ token. "token" }

abbrev pub platform : Platform
platform = record {
  split_host_port = λ address. some ("10.0.0.9", "7433");
  join_host_port = λ host port. host;
  is_remote_ip = λ host. true;
  node_cert = λ id addresses. ok ("cert", "key");
  ca_cert = ok "ca";
}

abbrev pub coordinator : Config
coordinator = record {
  node_id = "n1";
  node_name = "one";
  role = role_coordinator;
  data_dir = "/var/lib/pingmesh";
  listen_addr = "0.0.0.0:7433";
  cli_addr = "127.0.0.1:7434";
  coordinator = none;
  tls = none;
}

abbrev pub request : JoinRequest
request = record {
  secret = 1 ∷ 2 ∷ [];
  name = "three";
  listen_addr = "0.0.0.0:7433";
  cli_addr = "";
}
