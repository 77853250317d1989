-- ===== src/Model/Cluster.antt =====
-- internal/model/types.go: nodes, roles and join requests; internal/config/config.go: the settings
-- of one node.
use ping_mesh.Prelude.{String, ℤ, List, ℕ, Option}

pub record Node : Type 0 where
  pub id : String
  pub name : String
  pub location : String
  pub address : String  -- host:port of the mutual-TLS interface
  pub role : String
  pub status : String
  pub last_seen : ℤ
  pub created_at : ℤ

abbrev pub role_coordinator : String
role_coordinator = "coordinator"

abbrev pub role_node : String
role_node = "node"

abbrev pub node_online : String
node_online = "online"

abbrev pub node_offline : String
node_offline = "offline"

abbrev pub node_suspect : String
node_suspect = "suspect"

pub record CoordinatorConfig : Type 0 where
  pub address : String

pub record TlsConfig : Type 0 where
  pub ca_path : String
  pub cert_path : String
  pub key_path : String

pub record Config : Type 0 where
  pub node_id : String
  pub node_name : String
  pub role : String
  pub data_dir : String
  pub listen_addr : String
  pub cli_addr : String
  pub coordinator : Option CoordinatorConfig
  pub tls : Option TlsConfig

-- The secret is its bytes, the expiry a time in milliseconds.
pub record JoinToken : Type 0 where
  pub coordinator_addr : String
  pub secret : List ℕ
  pub expires_at : ℤ

pub record JoinRequest : Type 0 where
  pub secret : List ℕ
  pub name : String
  pub listen_addr : String
  pub cli_addr : String

pub record JoinResponse : Type 0 where
  pub node_id : String
  pub ca_cert : String
  pub node_cert : String
  pub node_key : String
  pub coordinator_id : String
