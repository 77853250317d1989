-- ===== src/Alert/Dispatch.antt =====
-- internal/alert/alert.go: SendAlert, SendRecovery and SendTest, and the goroutines that `dispatch`
-- starts.
use ping_mesh.Prelude.{
  String, ℤ, pos, sub_64, List, [], ◌∷◌, ◌++◌, map, Option, none, some, Result, ok, err, message,
  wrapped, ◌==◌, if◌then◌else◌, Bool,
}
use ping_mesh.Model.{AlertChannel, AlertRecord, Incident, Monitor, incident_confirmed, check_http}
use ping_mesh.World.{Env, Act, Delivery, pure, ◌>>=◌, now}
use ping_mesh.Alert.Wire.{Transport}
use ping_mesh.Alert.Webhook.{send_webhook}
use ping_mesh.Alert.Email.{send_email}
use ping_mesh.Store.{list_enabled_alert_channels, get_alert_channel, insert_alert_record}

-- One goroutine for each channel.
abbrev pub deliveries : List AlertChannel → Incident → Monitor → String → List Delivery
deliveries channels incident monitor event_type =
    map
      (λ c. record { channel = c; incident = incident; monitor = monitor; event_type = event_type })
      channels

unfoldable pub spawn : List Delivery → Act (Unit {0})
spawn ds w = (tt, record w { pending = w.pending ++ ds })

-- An error of the query is logged.
unfoldable pub notify : Incident → Monitor → String → Result (List AlertChannel) → Act (Unit {0})
notify incident monitor event_type (ok cs) = spawn (deliveries cs incident monitor event_type)
notify incident monitor event_type (err e) = pure tt

module _ (env : Env) where
  unfoldable pub dispatch : Incident → Monitor → String → Act (Unit {0})
  dispatch incident monitor event_type =
      list_enabled_alert_channels env >>= notify incident monitor event_type

  unfoldable pub send_alert : Incident → Monitor → Act (Unit {0})
  unfolding dispatch
  send_alert incident monitor = dispatch incident monitor "alert"

  unfoldable pub send_recovery : Incident → Monitor → Act (Unit {0})
  unfolding dispatch
  send_recovery incident monitor = dispatch incident monitor "recovery"

module _ (env : Env) (net : Transport) where
  unfoldable pub send_to_channel :
      AlertChannel → Incident → Monitor → String → Act (Result (Unit {0}))
  unfolding send_webhook send_email
  send_to_channel c incident monitor event_type =
      if c.channel_type == "webhook"
      then send_webhook net env c incident monitor event_type
      else if c.channel_type == "email"
      then pure (send_email net c incident monitor event_type)
      else pure (err (wrapped "unknown channel type" (message c.channel_type)))

  abbrev pub outcome : Result (Unit {0}) → String
  outcome (ok _) = "success"
  outcome (err e) = "failed"

  abbrev pub failure_text : Result (Unit {0}) → String
  failure_text (ok _) = ""
  failure_text (err e) = net.error_text e

  abbrev pub delivery_record :
      String → String → String → String → Result (Unit {0}) → ℤ → AlertRecord
  delivery_record channel_id incident_id monitor_id event_type sent time = record {
    id = 0;
    channel_id = channel_id;
    incident_id = incident_id;
    monitor_id = monitor_id;
    event_type = event_type;
    status = outcome sent;
    error = failure_text sent;
    sent_at = time;
  }

  -- The body of the goroutine.
  unfoldable pub deliver : Delivery → Act (Unit {0})
  unfolding send_to_channel
  deliver d = do
    sent ← send_to_channel d.channel d.incident d.monitor d.event_type
    time ← now env
    stored ←
        insert_alert_record env
          (delivery_record d.channel.id d.incident.id d.monitor.id d.event_type sent time)
    pure tt

  abbrev pub test_incident : ℤ → Incident
  test_incident time = record {
    id = net.test_id time;
    monitor_id = "test-monitor";
    status = incident_confirmed;
    started_at = sub_64 time (pos 120000);
    confirmed_at = time;
    resolved_at = pos 0;
    confirming_nodes = some ("test-node-1" ∷ "test-node-2" ∷ []);
    created_at = pos 0;
    updated_at = pos 0;
  }

  abbrev pub test_monitor : Monitor
  test_monitor = record {
    id = "test-monitor";
    name = "Test Monitor";
    group_name = "test";
    check_type = check_http;
    target = "example.com";
    port = pos 0;
    interval_ms = pos 0;
    timeout_ms = pos 0;
    retries = pos 0;
    expected_status = pos 0;
    expected_keyword = "";
    dns_record_type = "";
    dns_expected = "";
    failure_threshold = pos 0;
    recovery_threshold = pos 0;
    quorum_type = "";
    quorum_n = pos 0;
    cooldown_ms = pos 0;
    enabled = Bool.false;
    created_at = pos 0;
    updated_at = pos 0;
  }

  -- SendTest once the channel is there: the test is sent, recorded, and its error returned.
  unfoldable pub send_test_to : AlertChannel → Act (Result (Unit {0}))
  unfolding send_to_channel
  send_test_to c = do
    time ← now env
    sent ← send_to_channel c (test_incident time) test_monitor "alert"
    stored ←
        insert_alert_record env
          (delivery_record c.id (net.test_id time) "test-monitor" "test" sent time)
    pure sent

  unfoldable pub test_found : String → Result (Option AlertChannel) → Act (Result (Unit {0}))
  unfolding send_test_to
  test_found channel_id (ok (some c)) = send_test_to c
  test_found channel_id (ok none) = pure (err (wrapped "channel not found" (message channel_id)))
  test_found channel_id (err e) = pure (err (wrapped "loading channel" e))

  unfoldable pub send_test : String → Act (Result (Unit {0}))
  unfolding test_found
  send_test channel_id = get_alert_channel env channel_id >>= test_found channel_id
