-- ===== src/Tests/Alerts.antt =====
-- A webhook that answers 204, and a mail server that refuses the recipient.
use ping_mesh.Prelude.{
  List, map, false, ◌≡◌, refl, ◌↔◌, ◌⊎◌, pos, true, [], ◌∷◌, ◌++◌, ok, err, message,
}
use ping_mesh.Model.{AlertRecord}
use ping_mesh.Db.{has, channel_key, channel_row, history_row}
use ping_mesh.World.{Delivery}
use ping_mesh.Alert.{Transport, SmtpSession, deliver, dispatch}
use ping_mesh.Alert.Fanout.{AllAbout, enabled_channels, dispatch_lem}
use ping_mesh.Alert.Receipt.{IsPosted, deliver-IsPosted}
use ping_mesh.Tests.Setup.{quiet_env, site, hook, old_incident, down_world}
use ping_mesh.Tests.Checks.{sprintf}

abbrev refusing : SmtpSession
refusing = record {
  dial = λ addr host. ok tt;
  new_client = λ host. ok tt;
  authenticate = λ auth. ok tt;
  mail = λ from. ok tt;
  rcpt = λ to. err (message "no such user");
  begin_data = ok tt;
  write_data = λ msg. ok tt;
  close_data = ok tt;
  quit = ok tt;
}

abbrev net : Transport
net = record {
  sprintf = sprintf;
  error_text = λ e. "failed";
  test_id = λ time. "test";
  rfc3339 = λ time. "2024-01-01T00:00:00Z";
  duration_text = λ ms. "1m0s";
  parse_webhook = λ s. ok (record { url = "https://example.com/hook"; secret = "key" });
  parse_email = λ s. err (message "no mail");
  marshal = λ p. ok p.event;
  hex_hmac = λ secret body. "00";
  new_request = λ url. ok tt;
  do_request = λ url body sig. ok (pos 204);
  send_mail = λ addr auth from to msg. ok tt;
  session = refusing;
}

abbrev alert : Delivery
alert = record { channel = hook; incident = old_incident; monitor = site; event_type = "alert" }

hook_stored : has channel_key hook.id down_world.db.alert_channels ≡ true
unfolding has channel_row
hook_stored = refl

deliver-IsPosted_example :
    (r : AlertRecord) × ((deliver quiet_env net alert down_world).1.db.alert_history
      ≡ [] ++ history_row 1 r ∷ [])
    × ((r.channel_id ≡ "c1") × (r.incident_id ≡ "u0"))
    × ((r.status ≡ "success") ↔ IsPosted net old_incident site "alert" (pos 5000) "{}")
    × ((r.status ≡ "success") ⊎ (r.status ≡ "failed"))
deliver-IsPosted_example = deliver-IsPosted quiet_env net alert down_world refl refl hook_stored

dispatch_lem_example :
    ((dispatch quiet_env old_incident site "alert" down_world).1.db ≡ down_world.db)
    × (((quiet_env.faults 0 ≡ false)
          × (ds : List Delivery) × ((dispatch quiet_env old_incident site "alert"
                down_world).1.pending
              ≡ [] ++ ds)
          × (map (λ (d : Delivery). d.channel) ds ≡ enabled_channels quiet_env down_world.db)
          × AllAbout old_incident site "alert" ds)
        ⊎ ((quiet_env.faults 0 ≡ true)
            × ((dispatch quiet_env old_incident site "alert" down_world).1.pending ≡ [])))
dispatch_lem_example = dispatch_lem quiet_env old_incident site "alert" down_world
