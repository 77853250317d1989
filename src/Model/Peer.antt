-- ===== src/Model/Peer.antt =====
-- internal/model/types.go: the messages between nodes.
use ping_mesh.Prelude.{String, ℤ, List}
use ping_mesh.Model.Cluster.{Node}
use ping_mesh.Model.Monitoring.{Monitor}

pub record Heartbeat : Type 0 where
  pub node_id : String
  pub timestamp : String
  pub active_monitors : ℤ
  pub checks_per_minute : ℤ

pub record ConfigSync : Type 0 where
  pub version : ℤ
  pub monitors : List Monitor
  pub nodes : List Node
