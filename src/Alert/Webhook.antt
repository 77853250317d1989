-- ===== src/Alert/Webhook.antt =====
-- internal/alert/alert.go: sendWebhook.
use Prim.Native.String.{◌++◌}
use ping_mesh.Prelude.{
  String, ℤ, pos, leb_ℤ, [], ◌∷◌, Option, none, some, Result, ok, err, message, wrapped, ◌==◌,
  if◌then◌else◌,
}
use ping_mesh.Model.{AlertChannel, Incident, Monitor, WebhookConfig, WebhookPayload}
use ping_mesh.World.{Env, Act, pure, ◌>>=◌, now}
use ping_mesh.Checker.{number}
use ping_mesh.Alert.Payload.{build_incident_detail, build_monitor_summary, event_name}
use ping_mesh.Alert.Wire.{Transport}

module _ (net : Transport) where
  unfoldable pub webhook_payload : Incident → Monitor → String → ℤ → WebhookPayload
  unfolding build_incident_detail build_monitor_summary event_name
  webhook_payload incident monitor event_type time = record {
    event = event_name event_type;
    timestamp = net.rfc3339 time;
    incident = build_incident_detail net.rfc3339 incident;
    monitor = build_monitor_summary monitor;
  }

  -- The header X-PingMesh-Signature, where there is a secret.
  unfoldable pub signature : WebhookConfig → String → Option String
  signature cfg body =
      if cfg.secret == "" then none else some ("sha256=" ++ net.hex_hmac cfg.secret body)

  unfoldable pub webhook_answered : Result ℤ → Result (Unit {0})
  webhook_answered (err e) = err (wrapped "sending webhook" e)
  webhook_answered (ok code) =
      if leb_ℤ (pos 300) code
      then err (message (net.sprintf "webhook returned status %d" (number code ∷ [])))
      else ok tt

  unfoldable pub webhook_requested : WebhookConfig → String → Result (Unit {0}) → Result (Unit {0})
  unfolding webhook_answered signature
  webhook_requested cfg body (err e) = err (wrapped "creating request" e)
  webhook_requested cfg body (ok _) =
      webhook_answered (net.do_request cfg.url body (signature cfg body))

  unfoldable pub webhook_marshalled : WebhookConfig → Result String → Result (Unit {0})
  unfolding webhook_requested
  webhook_marshalled cfg (err e) = err (wrapped "marshaling payload" e)
  webhook_marshalled cfg (ok body) = webhook_requested cfg body (net.new_request cfg.url)

  module _ (env : Env) where
    unfoldable pub webhook_parsed :
        Incident → Monitor → String → Result WebhookConfig → Act (Result (Unit {0}))
    unfolding webhook_payload webhook_marshalled
    webhook_parsed incident monitor event_type (err e) =
        pure (err (wrapped "parsing webhook config" e))
    webhook_parsed incident monitor event_type (ok cfg) = do
      time ← now env
      pure (webhook_marshalled cfg (net.marshal (webhook_payload incident monitor event_type time)))

    unfoldable pub send_webhook :
        AlertChannel → Incident → Monitor → String → Act (Result (Unit {0}))
    unfolding webhook_parsed
    send_webhook c incident monitor event_type =
        webhook_parsed incident monitor event_type (net.parse_webhook c.config)
