-- ===== src/Cluster/PeerClient.antt =====
-- internal/cluster/peer_client.go. JSON and the HTTP client are a parameter.
use ping_mesh.Prelude.{
  String, ℤ, pos, leb_ℤ, eq_ℤ, not, [], ◌∷◌, Result, ok, err, message, wrapped, if◌then◌else◌,
}
use ping_mesh.Model.{Heartbeat, CheckResult, ConfigSync, JoinRequest, JoinResponse}
use ping_mesh.Checker.{Sprintf, text, number}

-- What is sent as JSON.
pub data Payload : Type 0 where
  heartbeat_payload : Heartbeat → Payload
  result_payload : CheckResult → Payload
  sync_payload : ConfigSync → Payload
  join_payload : JoinRequest → Payload

-- An answer; its body is read to the end, or as far as an error.
pub record PeerReply : Type 0 where
  pub status_code : ℤ
  pub body : Result String

pub record PeerHttp : Type 0 where
  pub marshal : Payload → Result String
  pub post : String → String → Result PeerReply
  pub fetch : String → Result PeerReply
  pub decode_join : String → Result JoinResponse
  pub decode_sync : Result String → Result ConfigSync

-- `body, _ := io.ReadAll(…)`
abbrev pub or_empty : Result String → String
or_empty (ok s) = s
or_empty (err e) = ""

module _ (sprintf : Sprintf) (net : PeerHttp) where
  unfoldable pub posted : String → Result PeerReply → Result (Unit {0})
  posted path (err e) = err (wrapped (sprintf "POST %s" (text path ∷ [])) e)
  posted path (ok r) =
      if leb_ℤ (pos 400) r.status_code
      then err (
          message (
            sprintf "POST %s returned HTTP %d: %s"
              (text path ∷ number r.status_code ∷ text (or_empty r.body) ∷ [])))
      else ok tt

  unfoldable pub post_marshalled : String → String → Result String → Result (Unit {0})
  unfolding posted
  post_marshalled addr path (err e) = err (wrapped "marshalling request" e)
  post_marshalled addr path (ok body) =
      posted path (net.post (sprintf "http://%s%s" (text addr ∷ text path ∷ [])) body)

  unfoldable pub post_json : String → String → Payload → Result (Unit {0})
  unfolding post_marshalled
  post_json addr path v = post_marshalled addr path (net.marshal v)

  unfoldable pub send_heartbeat : String → Heartbeat → Result (Unit {0})
  unfolding post_json
  send_heartbeat addr hb = post_json addr "/api/v1/peer/heartbeat" (heartbeat_payload hb)

  unfoldable pub push_result : String → CheckResult → Result (Unit {0})
  unfolding post_json
  push_result addr r = post_json addr "/api/v1/peer/result" (result_payload r)

  unfoldable pub push_config_sync : String → ConfigSync → Result (Unit {0})
  unfolding post_json
  push_config_sync addr sync = post_json addr "/api/v1/peer/config-sync" (sync_payload sync)

  -- `fmt.Errorf("…: %w", err)`
  abbrev pub wrap : {A : Type 0} → String → Result A → Result A
  wrap prefix (ok a) = ok a
  wrap prefix (err e) = err (wrapped prefix e)

  unfoldable pub join_read : ℤ → Result String → Result JoinResponse
  join_read code (err e) = err (wrapped "reading join response" e)
  join_read code (ok body) =
      if not (eq_ℤ code (pos 200))
      then err (message (sprintf "join failed (HTTP %d): %s" (number code ∷ text body ∷ [])))
      else wrap "decoding join response" (net.decode_join body)

  unfoldable pub join_answered : Result PeerReply → Result JoinResponse
  unfolding join_read
  join_answered (err e) = err (wrapped "sending join request" e)
  join_answered (ok r) = join_read r.status_code r.body

  unfoldable pub join_marshalled : String → Result String → Result JoinResponse
  unfolding join_answered
  join_marshalled addr (err e) = err (wrapped "marshalling join request" e)
  join_marshalled addr (ok body) =
      join_answered (net.post (sprintf "http://%s/api/v1/peer/join" (text addr ∷ [])) body)

  unfoldable pub join : String → JoinRequest → Result JoinResponse
  unfolding join_marshalled
  join addr req = join_marshalled addr (net.marshal (join_payload req))

  unfoldable pub sync_answered : Result PeerReply → Result ConfigSync
  sync_answered (err e) = err (wrapped "GET config-sync" e)
  sync_answered (ok r) =
      if leb_ℤ (pos 400) r.status_code
      then err (
          message (
            sprintf "GET config-sync returned HTTP %d: %s"
              (number r.status_code ∷ text (or_empty r.body) ∷ [])))
      else wrap "decoding config-sync" (net.decode_sync r.body)

  unfoldable pub pull_config_sync : String → Result ConfigSync
  unfolding sync_answered
  pull_config_sync addr =
      sync_answered (net.fetch (sprintf "http://%s/api/v1/peer/config-sync" (text addr ∷ [])))
