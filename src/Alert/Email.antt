-- ===== src/Alert/Email.antt =====
-- internal/alert/alert.go: sendEmail and sendMailTLS.
use Prim.Native.String.{◌++◌}
use ping_mesh.Prelude.{
  String, pos, ltb_ℤ, sub_64, [], ◌∷◌, Result, ok, err, wrapped, ◌==◌, if◌then◌else◌, length,
}
use ping_mesh.Model.{AlertChannel, Incident, Monitor, EmailConfig}
use ping_mesh.Checker.{text, number}
use ping_mesh.Alert.Payload.{or_empty}
use ping_mesh.Alert.Wire.{Transport, PlainAuth}

-- `if err := …; err != nil { return fmt.Errorf("…: %w", err) }`
abbrev pub then_step : String → Result (Unit {0}) → Result (Unit {0}) → Result (Unit {0})
then_step prefix (ok _) rest = rest
then_step prefix (err e) rest = err (wrapped prefix e)

module _ (net : Transport) where
  unfoldable pub send_mail_tls :
      String → PlainAuth → String → String → String → String → Result (Unit {0})
  send_mail_tls addr auth from to msg host = then_step "TLS dial" (net.session.dial addr host) (
      then_step "SMTP client" (net.session.new_client host) (
        then_step "SMTP auth" (net.session.authenticate auth) (
          then_step "SMTP MAIL" (net.session.mail from) (
            then_step "SMTP RCPT" (net.session.rcpt to) (
              then_step "SMTP DATA" net.session.begin_data (
                then_step "SMTP write" (net.session.write_data msg)
                  (then_step "SMTP close data" net.session.close_data net.session.quit)))))))

  unfoldable pub email_subject : Monitor → String → String
  email_subject monitor event_type = net.sprintf "[PingMesh] %s: %s (%s) is %s" (
      text (if event_type == "recovery" then "RECOVERY" else "ALERT")
      ∷ text monitor.name
      ∷ text monitor.target
      ∷ text (if event_type == "recovery" then "RECOVERED" else "DOWN")
      ∷ [])

  unfoldable pub email_opening : Incident → Monitor → String → String
  email_opening incident monitor event_type =
      net.sprintf
        "PingMesh Alert\n\nEvent: %s\nMonitor: %s\nType: %s\nTarget: %s\nGroup: %s\n\nIncident ID: %s\nStarted At: %s\nConfirming Nodes: %d\n"
        (text event_type
          ∷ text monitor.name
          ∷ text monitor.check_type
          ∷ text monitor.target
          ∷ text monitor.group_name
          ∷ text incident.id
          ∷ text (net.rfc3339 incident.started_at)
          ∷ number (pos (length (or_empty incident.confirming_nodes)))
          ∷ [])

  unfoldable pub email_body : Incident → Monitor → String → String
  unfolding email_opening
  email_body incident monitor event_type =
      (email_opening incident monitor event_type
        ++ (if ltb_ℤ (pos 0) incident.confirmed_at
            then net.sprintf "Confirmed At: %s\n" (text (net.rfc3339 incident.confirmed_at) ∷ [])
            else ""))
      ++ (if ltb_ℤ (pos 0) incident.resolved_at
          then net.sprintf "Resolved At: %s\n" (text (net.rfc3339 incident.resolved_at) ∷ [])
            ++ net.sprintf "Duration: %s\n"
                (text (net.duration_text (sub_64 incident.resolved_at incident.started_at)) ∷ [])
          else "")

  unfoldable pub email_message : EmailConfig → String → String → String
  email_message cfg subject body =
      net.sprintf
        "From: %s\r\nTo: %s\r\nSubject: %s\r\nMIME-Version: 1.0\r\nContent-Type: text/plain; charset=UTF-8\r\n\r\n%s"
        (text cfg.from ∷ text cfg.to ∷ text subject ∷ text body ∷ [])

  unfoldable pub email_to : EmailConfig → String → Result (Unit {0})
  unfolding send_mail_tls
  email_to cfg msg =
      let addr = net.sprintf "%s:%d" (text cfg.smtp_host ∷ number cfg.smtp_port ∷ []) in
      let auth : PlainAuth = record {
        username = cfg.username;
        password = cfg.password;
        host = cfg.smtp_host;
      } in
      if cfg.tls
      then send_mail_tls addr auth cfg.from cfg.to msg cfg.smtp_host
      else net.send_mail addr auth cfg.from cfg.to msg

  unfoldable pub email_parsed : Incident → Monitor → String → Result EmailConfig → Result (Unit {0})
  unfolding email_to email_message email_subject email_body
  email_parsed incident monitor event_type (err e) = err (wrapped "parsing email config" e)
  email_parsed incident monitor event_type (ok cfg) = email_to cfg (
      email_message cfg (email_subject monitor event_type) (email_body incident monitor event_type))

  unfoldable pub send_email : AlertChannel → Incident → Monitor → String → Result (Unit {0})
  unfolding email_parsed
  send_email c incident monitor event_type =
      email_parsed incident monitor event_type (net.parse_email c.config)
