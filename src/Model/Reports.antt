-- ===== src/Model/Reports.antt =====
-- internal/model/types.go: what a node reports of itself, its peers and its cluster.
use ping_mesh.Prelude.{String, ℤ, ℕ, Bool, List, Option}
use ping_mesh.Model.Cluster.{Node}
use ping_mesh.Model.Incidents.{Incident}

pub record ClusterStatus : Type 0 where
  pub node_id : String
  pub role : String
  pub nodes : List Node
  pub monitor_count : ℕ
  pub active_incidents : List Incident

pub record PeerStatus : Type 0 where
  pub node_id : String
  pub name : String
  pub address : String
  pub status : String
  pub reachable : Bool
  pub latency_us : ℤ  -- 0 where the peer is not reachable
  pub error : String

-- The sizes are in bytes, where the source has them in megabytes.
pub record HealthInfo : Type 0 where
  pub node_id : String
  pub name : String
  pub role : String
  pub uptime : String
  pub go_version : String
  pub num_goroutines : ℤ
  pub memory_bytes : ℕ
  pub db_size_bytes : ℕ
  pub coordinator : String
  pub active_monitors : ℤ
  pub last_heartbeat : String
  pub last_config_sync : String
  pub peers : Option (List PeerStatus)
