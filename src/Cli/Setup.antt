-- ===== src/Cli/Setup.antt =====
-- internal/cli/init.go, join.go and token.go: the commands that make a coordinator, a join token and a
-- node. What they print is left out.
use ping_mesh.Prelude.{
  ℤ, ℕ, String, List, [], ◌∷◌, Option, none, some, Result, ok, err, message, ◌==◌, if◌then◌else◌,
}
use ping_mesh.Model.{
  Config, TlsConfig, Node, JoinToken, JoinResponse, role_coordinator, role_node, node_online,
}
use ping_mesh.World.{Env, new_uuid, now}
use ping_mesh.Checker.{text}
use ping_mesh.Store.{create_node}
use ping_mesh.Cluster.{Codecs, Decoders, generate_join_token, decode_join_token}
use ping_mesh.Cluster.PeerClient.{PeerHttp}
use ping_mesh.Cluster.PeerClient
use ping_mesh.Settings.{Disk, Os, default_cli_addr, load, save, write_file, certs_dir, db_path}
use ping_mesh.Cli.Steps.{Step, ◌>>=◌, ◌>>◌, give, on_disk, on_world, act, labelled}

-- The certificates of internal/cluster/tls.go, which are written to a directory; the database file;
-- the decoders of tokens; durations; and the name of the host, empty where it is not known.
pub record Tools : Type 0 where
  pub generate_ca : String → Disk → Result (Unit {0}) × Disk
  pub generate_node_cert : String → String → List String → Disk → Result (Unit {0}) × Disk
  pub open_store : String → Result (Unit {0})
  pub decoders : Decoders
  pub parse_duration : String → Result ℤ
  pub hostname : String

abbrev pub tls_paths : TlsConfig
tls_paths = record {
  ca_path = "certs/ca.crt";
  cert_path = "certs/node.crt";
  key_path = "certs/node.key";
}

abbrev pub coordinator_config : String → String → String → String → Config
coordinator_config node_id node_name data_dir listen_addr = record {
  node_id = node_id;
  node_name = node_name;
  role = role_coordinator;
  data_dir = data_dir;
  listen_addr = listen_addr;
  cli_addr = default_cli_addr;
  coordinator = none;
  tls = some tls_paths;
}

abbrev pub node_config : String → String → String → String → String → String → Config
node_config node_id node_name data_dir listen_addr cli_addr coordinator_addr = record {
  node_id = node_id;
  node_name = node_name;
  role = role_node;
  data_dir = data_dir;
  listen_addr = listen_addr;
  cli_addr = cli_addr;
  coordinator = some (record { address = coordinator_addr });
  tls = some tls_paths;
}

abbrev pub own_node : String → String → String → String → ℤ → Node
own_node id name listen_addr role time = record {
  id = id;
  name = name;
  location = "";
  address = listen_addr;
  role = role;
  status = node_online;
  last_seen = time;
  created_at = time;
}

module _ (os : Os) (tools : Tools) (env : Env) (data_dir : String) where
  abbrev pub name_or_host : String → String
  name_or_host name = if name == "" then tools.hostname else name

  -- `if _, err := config.Load(dataDir); err == nil`
  abbrev pub if_new : Result Config → Result (Unit {0})
  if_new (ok cfg) =
      err (message (os.sprintf "already initialized (config exists at %s)" (text data_dir ∷ [])))
  if_new (err e) = ok tt

  unfoldable pub refuse_again : Step (Unit {0})
  refuse_again m = (if_new (load os data_dir m.disk), m)

  -- The database, and the node itself in it.
  unfoldable pub register_self : Config → Step (Unit {0})
  register_self cfg = do
    labelled "initializing database" (give (tools.open_store (db_path os cfg)))
    time ← act (now env)
    labelled "registering node" (
        on_world
          (create_node env (own_node cfg.node_id cfg.node_name cfg.listen_addr cfg.role time)))

  unfoldable pub save_and_register : Config → Step (Unit {0})
  unfolding register_self
  save_and_register cfg = do labelled "saving config" (on_disk (save os cfg)); register_self cfg

  abbrev pub own_config : String → String → String → Config
  own_config listen_addr name node_id =
      coordinator_config node_id (name_or_host name) data_dir listen_addr

  unfoldable pub generate_certs : Config → Step (Unit {0})
  generate_certs cfg = do
    labelled "creating data directory" (give (os.make_dir data_dir))
    labelled "generating CA" (on_disk (tools.generate_ca (certs_dir os cfg)))
    labelled "generating node cert" (
        on_disk
          (tools.generate_node_cert (certs_dir os cfg) cfg.node_id ("127.0.0.1" ∷ "0.0.0.0" ∷ [])))

  unfoldable pub init_as : String → String → String → Step (Unit {0})
  unfolding generate_certs save_and_register
  init_as listen_addr name node_id = do
    generate_certs (own_config listen_addr name node_id)
    save_and_register (own_config listen_addr name node_id)

  unfoldable pub init : String → String → Step (Unit {0})
  unfolding refuse_again init_as
  init listen_addr name = do
    refuse_again
    node_id ← act (new_uuid env)
    init_as listen_addr name node_id

  unfoldable pub write_certs : String → JoinResponse → Step (Unit {0})
  write_certs dir resp = do
    labelled "creating certs directory" (give (os.make_dir dir))
    labelled "writing CA cert" (on_disk (write_file os (os.join dir "ca.crt") resp.ca_cert))
    labelled "writing node cert" (on_disk (write_file os (os.join dir "node.crt") resp.node_cert))
    labelled "writing node key" (on_disk (write_file os (os.join dir "node.key") resp.node_key))

  unfoldable pub joined : String → String → String → JoinToken → JoinResponse → Step (Unit {0})
  unfolding write_certs save_and_register
  joined name listen_addr cli_addr token resp = do
    write_certs (os.join data_dir "certs") resp
    save_and_register (
        node_config resp.node_id (name_or_host name) data_dir listen_addr cli_addr
          token.coordinator_addr)

  abbrev pub ask_to_join : PeerHttp → String → String → String → JoinToken → Step JoinResponse
  ask_to_join net name listen_addr cli_addr token = labelled "join failed" (
      give (
        PeerClient.join os.sprintf net token.coordinator_addr (record {
          secret = token.secret;
          name = name_or_host name;
          listen_addr = listen_addr;
          cli_addr = cli_addr;
        })))

  unfoldable pub join_by : PeerHttp → String → String → String → JoinToken → Step (Unit {0})
  unfolding joined
  join_by net name listen_addr cli_addr token = do
    resp ← ask_to_join net name listen_addr cli_addr token
    joined name listen_addr cli_addr token resp

  unfoldable pub join : PeerHttp → String → String → String → String → Step (Unit {0})
  unfolding refuse_again join_by decode_join_token
  join net token_text name listen_addr cli_addr = do
    refuse_again
    token ← labelled "invalid token" (give (decode_join_token tools.decoders token_text))
    join_by net name listen_addr cli_addr token

  abbrev pub if_coordinator : Config → Result (Unit {0})
  if_coordinator cfg =
      if cfg.role == "coordinator"
      then ok tt
      else err (message "join tokens can only be generated on the coordinator")

  unfoldable pub join_token : Codecs → Option (List ℕ) → String → String → Step String
  join_token codecs secret expires advertise_addr = do
    cfg ← λ m. (load os data_dir m.disk, m)
    give (if_coordinator cfg)
    expiry ← labelled "invalid expiry duration" (give (tools.parse_duration expires))
    labelled "opening database" (give (tools.open_store (db_path os cfg)))
    labelled "generating token" (
        on_world (
          generate_join_token env codecs secret
            (if advertise_addr == "" then cfg.listen_addr else advertise_addr) expiry))
