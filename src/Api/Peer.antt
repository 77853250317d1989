-- ===== src/Api/Peer.antt =====
-- internal/api/peer_handlers.go. A request is its decoded body, or the error of the decoder. The
-- addresses and the certificates are a parameter.
use ping_mesh.Prelude.{
  String, List, [], ◌∷◌, Option, none, some, Bool, ◌||◌, Result, message, wrapped, ok, err, ◌==◌,
  if◌then◌else◌, ℤ,
}
use ping_mesh.Model.{
  Node, Monitor, CheckResult, Heartbeat, ConfigSync, JoinRequest, JoinResponse, Config,
  role_coordinator, role_node, node_online,
}
use ping_mesh.World.{Env, Act, pure, ◌>>=◌, now, new_uuid}
use ping_mesh.Store.{create_node, insert_check_result, list_monitors, list_nodes}
use ping_mesh.Cluster.{Codecs, update_heartbeat, validate_join_token}
use ping_mesh.Agent.{apply_config_sync}
use ping_mesh.Api.Reply.{
  Reply, json, failure, Status, status_ok, bad_request, unauthorized, forbidden, internal_error,
  not_implemented,
}

-- net.SplitHostPort (host and port, or an error), net.JoinHostPort, whether a host is an IP address
-- that is not a loopback, the certificate and key that GenerateNodeCertPEM makes for an id and
-- addresses, and the file of the CA's certificate.
pub record Platform : Type 0 where
  pub split_host_port : String → Option (String × String)
  pub join_host_port : String → String → String
  pub is_remote_ip : String → Bool
  pub node_cert : String → List String → Result (String × String)
  pub ca_cert : Result String

-- A part of the address, "" where it does not parse.
abbrev pub host_part : Option (String × String) → String
host_part none = ""
host_part (some (host, port)) = host

abbrev pub port_part : Option (String × String) → String
port_part none = ""
port_part (some (host, port)) = port

abbrev pub status_reply : String → Result (Unit {0}) → Reply Status
status_reply text (ok _) = json status_ok (record { status = "ok" })
status_reply text (err e) = failure internal_error (message text)

module _ (platform : Platform) where
  -- The listen address, with the address of the remote end for an unspecified host.
  unfoldable pub resolve_address : String → String → String
  resolve_address listen_addr remote_addr =
      let parts = platform.split_host_port listen_addr in
      if (host_part parts == "0.0.0.0") || (host_part parts == "")
      then platform.join_host_port (host_part (platform.split_host_port remote_addr))
          (port_part parts)
      else listen_addr

  abbrev pub remote_host : Option (String × String) → List String
  remote_host none = []
  remote_host (some (host, port)) = if platform.is_remote_ip host then host ∷ [] else []

  unfoldable pub cert_addresses : String → List String
  cert_addresses listen_addr = "127.0.0.1" ∷ remote_host (platform.split_host_port listen_addr)

module _ (env : Env) where
  unfoldable pub handle_peer_check : Act (Reply Status)
  handle_peer_check = pure (failure not_implemented (message "peer check not yet implemented"))

  unfoldable pub handle_peer_heartbeat : Result Heartbeat → Act (Reply Status)
  handle_peer_heartbeat (err e) = pure (failure bad_request (wrapped "invalid JSON: " e))
  handle_peer_heartbeat (ok hb) = do
    stored ← update_heartbeat env hb.node_id
    pure (status_reply "heartbeat update failed" stored)

  -- The loops over the monitors and the nodes are those of applyConfigSync.
  unfoldable pub handle_peer_config_sync : Result ConfigSync → Act (Reply Status)
  handle_peer_config_sync (err e) = pure (failure bad_request (wrapped "invalid JSON: " e))
  handle_peer_config_sync (ok sync) = do
    done ← apply_config_sync env sync
    pure (json status_ok (record { status = "ok" }))

  unfoldable pub handle_peer_result : Result CheckResult → Act (Reply Status)
  handle_peer_result (err e) = pure (failure bad_request (wrapped "invalid JSON: " e))
  handle_peer_result (ok result) = do
    stored ← insert_check_result env result
    pure (status_reply "storing result failed" stored)

  unfoldable pub pull_nodes : List Monitor → Result (List Node) → Act (Reply ConfigSync)
  pull_nodes monitors (err e) = pure (failure internal_error (wrapped "loading nodes: " e))
  pull_nodes monitors (ok nodes) = do
    time ← now env
    pure (json status_ok (record { version = time; monitors = monitors; nodes = nodes }))

  unfoldable pub pull_monitors : Result (List Monitor) → Act (Reply ConfigSync)
  pull_monitors (err e) = pure (failure internal_error (wrapped "loading monitors: " e))
  pull_monitors (ok monitors) = list_nodes env >>= pull_nodes monitors

  unfoldable pub handle_peer_config_sync_pull : Config → Act (Reply ConfigSync)
  handle_peer_config_sync_pull config =
      if config.role == role_coordinator
      then (list_monitors env "" >>= pull_monitors)
      else pure (failure forbidden (message "only the coordinator serves config-sync"))

module _ (env : Env) (codecs : Codecs) (platform : Platform) (config : Config)
    (remote_addr : String) where
  abbrev pub joined_node : JoinRequest → String → ℤ → Node
  joined_node req id time = record {
    id = id;
    name = req.name;
    location = "";
    address = resolve_address platform req.listen_addr remote_addr;
    role = role_node;
    status = node_online;
    last_seen = time;
    created_at = time;
  }

  abbrev pub join_response : String → String → String × String → JoinResponse
  join_response id ca (cert, key) = record {
    node_id = id;
    ca_cert = ca;
    node_cert = cert;
    node_key = key;
    coordinator_id = config.node_id;
  }

  abbrev pub created_reply : JoinResponse → Result (Unit {0}) → Reply JoinResponse
  created_reply response (ok _) = json status_ok response
  created_reply response (err e) = failure internal_error (message "creating node record failed")

  -- From the certificates on: the record of the node, and the answer.
  unfoldable pub register :
      JoinRequest → String → Result (String × String) → Result String → Act (Reply JoinResponse)
  register req id (err e) ca =
      pure (failure internal_error (message "certificate generation failed"))
  register req id (ok pair) (err e) =
      pure (failure internal_error (message "reading CA cert failed"))
  register req id (ok pair) (ok ca) = do
    time ← now env
    stored ← create_node env (joined_node req id time)
    pure (created_reply (join_response id ca pair) stored)

  unfoldable pub admit : JoinRequest → Result Bool → Act (Reply JoinResponse)
  admit req (err e) = pure (failure internal_error (message "token validation failed"))
  admit req (ok valid) =
      if valid
      then (new_uuid env >>= λ id.
          register req id
            (platform.node_cert id
              (cert_addresses platform (resolve_address platform req.listen_addr remote_addr)))
            platform.ca_cert)
      else pure (failure unauthorized (message "invalid or expired join token"))

  unfoldable pub join_with : Result JoinRequest → Act (Reply JoinResponse)
  join_with (err e) = pure (failure bad_request (wrapped "invalid JSON: " e))
  join_with (ok req) = validate_join_token env codecs req.secret >>= admit req

  unfoldable pub handle_peer_join : Result JoinRequest → Act (Reply JoinResponse)
  handle_peer_join body =
      if config.role == role_coordinator
      then join_with body
      else pure (failure forbidden (message "only the coordinator can accept join requests"))
