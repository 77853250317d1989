-- ===== src/Alert/Receipt.antt =====
-- internal/alert/alert.go: what the history says of a webhook.
use ping_mesh.Prelude.{
  ◌≡◌, ◌≢◌, ◌↔◌, ◌⊎◌, inl, inr, refl, ap, ℤ, pos, leb_ℤ, ◌<ℤ◌, String, true, false, [], ◌∷◌, ◌++◌,
  Result, ok, err, Bool-cases, ◌==◌, eq_iff, arith,
}
use ping_mesh.Model.{AlertRecord, Incident, Monitor, WebhookConfig}
use ping_mesh.Db.{has, channel_key, history_row}
use ping_mesh.World.{Env, World, Delivery, exec, now, settle}
use ping_mesh.Store.{insert_alert_record, insert_history}
use ping_mesh.Alert.Wire.{Transport}
use ping_mesh.Alert.Webhook.{
  webhook_payload, signature, webhook_answered, webhook_requested, webhook_marshalled,
  webhook_parsed, send_webhook,
}
use ping_mesh.Alert.Dispatch.{send_to_channel, outcome, delivery_record, deliver}

abbrev Succeeds : Result (Unit {0}) → Type 0
Succeeds (ok _) = Unit
Succeeds (err e) = ⊥

module _ (net : Transport) (i : Incident) (m : Monitor) (event : String) (time : ℤ) where
  -- The payload was posted to the URL of the channel, signed with its secret, and answered with a code
  -- below 300.
  pub record IsPosted (config : String) : Type 0 where
    pub hook : WebhookConfig
    pub parsed : net.parse_webhook config ≡ ok hook
    pub body : String
    pub marshalled : net.marshal (webhook_payload net i m event time) ≡ ok body
    pub made : net.new_request hook.url ≡ ok tt
    pub code : ℤ
    pub answered : net.do_request hook.url body (signature net hook body) ≡ ok code
    pub accepted : code <ℤ pos 300

  answered_iff :
      (r : Result ℤ)
      → Succeeds (webhook_answered net r) ↔ ((code : ℤ) × (r ≡ ok code) × (code <ℤ pos 300))
  unfolding webhook_answered
  answered_iff (err e) = (λ s. absurd s, λ (code, eq, low). absurd (cc))
  answered_iff (ok code) = elim (Bool-cases (leb_ℤ (pos 300) code)) [
    | inl bad ↦ rw bad (λ s. absurd s, λ (c, eq, low). absurd (ground arith))
    | inr good ↦ rw good (λ s. (code, refl, ground arith), λ x. tt)
  ]

  requested-IsPosted :
      (config : String) (hook : WebhookConfig) (body : String)
      → net.parse_webhook config ≡ ok hook
      → net.marshal (webhook_payload net i m event time) ≡ ok body
      → (q : Result (Unit {0})) → net.new_request hook.url ≡ q
      → Succeeds (webhook_requested net hook body q)
      → IsPosted config
  unfolding webhook_requested
  requested-IsPosted config hook body p b (err e) q s = absurd s
  requested-IsPosted config hook body p b (ok u) q s =
      let (code, a, low) =
        (answered_iff (net.do_request hook.url body (signature net hook body))).0 s in
      record {
        hook = hook;
        parsed = p;
        body = body;
        marshalled = b;
        made = q;
        code = code;
        answered = a;
        accepted = low;
      }

  marshalled-IsPosted :
      (config : String) (hook : WebhookConfig)
      → net.parse_webhook config ≡ ok hook
      → (b : Result String) → net.marshal (webhook_payload net i m event time) ≡ b
      → Succeeds (webhook_marshalled net hook b)
      → IsPosted config
  unfolding webhook_marshalled
  marshalled-IsPosted config hook p (err e) b s = absurd s
  marshalled-IsPosted config hook p (ok body) b s =
      requested-IsPosted config hook body p b (net.new_request hook.url) refl s

module _ (env : Env) (net : Transport) (i : Incident) (m : Monitor) (event : String)
    (w : World) where
  parsed-IsPosted :
      (config : String) (r : Result WebhookConfig)
      → net.parse_webhook config ≡ r
      → Succeeds (webhook_parsed net env i m event r w).0
      → IsPosted net i m event (env.clock w.readings) config
  unfolding webhook_parsed now
  parsed-IsPosted config (err e) p s = absurd s
  parsed-IsPosted config (ok hook) p s =
      marshalled-IsPosted net i m event (env.clock w.readings) config hook p
        (net.marshal (webhook_payload net i m event (env.clock w.readings))) refl s

  IsPosted-parsed :
      (config : String)
      → IsPosted net i m event (env.clock w.readings) config
      → Succeeds (webhook_parsed net env i m event (net.parse_webhook config) w).0
  unfolding webhook_parsed now webhook_marshalled webhook_requested
  IsPosted-parsed config p =
      rw (p.parsed, p.marshalled, p.made)
        ((answered_iff net i m event (env.clock w.readings)
            (net.do_request p.hook.url p.body (signature net p.hook p.body))).1
          (p.code, p.answered, p.accepted))

  -- Making and posting a webhook runs no statement.
  webhook_parsed-db :
      (r : Result WebhookConfig)
      → ((webhook_parsed net env i m event r w).1.db ≡ w.db)
        × ((webhook_parsed net env i m event r w).1.statements ≡ w.statements)
  unfolding webhook_parsed now
  webhook_parsed-db (err e) = (refl, refl)
  webhook_parsed-db (ok hook) = (refl, refl)

false_ne_true : false ≢ true
false_ne_true e = cc

success_iff :
    (env : Env) (net : Transport) (r : Result (Unit {0}))
    → ((outcome env net r ≡ "success") ↔ Succeeds r)
      × ((outcome env net r ≡ "success") ⊎ (outcome env net r ≡ "failed"))
success_iff env net (ok u) = ((λ e. tt, λ s. refl), inl refl)
success_iff env net (err e) =
    ((λ e. absurd (false_ne_true (ap (λ s. s == "success") e)), λ s. absurd s), inr refl)

-- Where the one statement does not fail and the channel is stored, the delivery to a webhook
-- appends one row to the history: its record names the channel and the incident, and its status is
-- success exactly if the settings of the channel are read, the payload is marshalled and posted to
-- their URL with the signature of their secret, and the answer has a code below 300, and failed
-- otherwise.
pub deliver-IsPosted :
    (env : Env) (net : Transport) (d : Delivery) (w : World)
    → d.channel.channel_type ≡ "webhook"
    → env.faults w.statements ≡ false
    → has channel_key d.channel.id w.db.alert_channels ≡ true
    → (r : AlertRecord) × ((deliver env net d w).1.db.alert_history
        ≡ w.db.alert_history ++ history_row w.db.next_history_id r ∷ [])
      × ((r.channel_id ≡ d.channel.id) × (r.incident_id ≡ d.incident.id))
      × ((r.status ≡ "success")
          ↔ IsPosted net d.incident d.monitor d.event_type (env.clock w.readings) d.channel.config)
      × ((r.status ≡ "success") ⊎ (r.status ≡ "failed"))
unfolding deliver send_to_channel send_webhook now insert_alert_record insert_history exec settle
deliver-IsPosted env net d w kind fine stored =
    let sent =
      webhook_parsed net env d.incident d.monitor d.event_type (net.parse_webhook d.channel.config)
        w in
    let same =
      webhook_parsed-db env net d.incident d.monitor d.event_type w
        (net.parse_webhook d.channel.config) in
    let r =
      delivery_record env net d.channel.id d.incident.id d.monitor.id d.event_type sent.0
        (env.clock sent.1.readings) in
    let told = success_iff env net sent.0 in
    let hooked : (d.channel.channel_type == "webhook") ≡ true =
      ground (arith, kind, eq_iff d.channel.channel_type "webhook") in
    (
      r,
      rw (hooked, same.0, same.1, fine, stored),
      (refl, refl),
      (
        λ e.
            parsed-IsPosted env net d.incident d.monitor d.event_type w d.channel.config _ refl
              (told.0.0 e),
        λ p.
            told.0.1
              (IsPosted-parsed env net d.incident d.monitor d.event_type w d.channel.config p),
      ),
      told.1,
    )
