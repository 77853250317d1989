-- ===== src/Agent/Announce.antt =====
-- What one evaluation of a monitor announces: nothing, or one incident to every enabled channel, as
-- it stands in the database by then.
pub mod Once
use ping_mesh.Prelude.{
  ◌≡◌, refl, sym, subst, ℕ, String, List, ◌++◌, Result, ok, err, Bool-cases, inl, inr, ◌⊎◌, ◌==◌,
}
use ping_mesh.Model.{Monitor, Incident, incident_suspect, incident_confirmed, incident_resolved}
use ping_mesh.World.{Env, World, Delivery}
use ping_mesh.Alert.{deliveries, send_alert, send_recovery}
use ping_mesh.Alert.Fanout.{enabled_channels, dispatch-pending}
use ping_mesh.Consensus.{confirm_incident, resolve_incident, evaluate_quorum}
use ping_mesh.Consensus.Sound.{IsHeld}
use ping_mesh.Consensus.Sound.Stored.{
  IsStored, StoredIf, confirm_incident-StoredIf, resolve_incident-StoredIf,
  confirm_incident-pending, resolve_incident-pending,
}
use ping_mesh.Consensus.Sound.Created.{Hands}
use ping_mesh.Agent.Effects.{dispatch-db}
use ping_mesh.Agent.Evaluate.{
  slice_of, after_confirming, after_resolving, confirm_if_suspect, resolve_if_quorum,
}

-- The event and the status it tells of.
abbrev pub IsNews : String → Incident → Type 0
IsNews event i =
    ((event ≡ "alert") × (i.status ≡ incident_confirmed))
    ⊎ ((event ≡ "recovery") × (i.status ≡ incident_resolved))

-- Of the notifications that wait before, and the world after.
pub record Announces (env : Env) (m : Monitor) (before : List Delivery) (v : World) : Type 0 where
  pub incident : Incident
  pub event : String
  pub started : v.pending ≡ before ++ deliveries (enabled_channels env v.db) incident m event
  pub news : IsNews event incident
  pub stored : IsStored incident v.db
  pub mine : incident.monitor_id ≡ m.id

abbrev pub Outcome : Env → Monitor → List Delivery → World → Type 0
Outcome env m before v = (v.pending ≡ before) ⊎ Announces env m before v

module _ (env : Env) (m : Monitor) where
  announced :
      (i : Incident) (event : String) (w v : World)
      → v.db ≡ w.db
      → (v.pending ≡ w.pending)
        ⊎ (v.pending ≡ w.pending ++ deliveries (enabled_channels env w.db) i m event)
      → IsNews event i
      → IsStored i w.db
      → i.monitor_id ≡ m.id
      → Outcome env m w.pending v
  announced i event w v same (inl quiet) news stored mine = inl quiet
  announced i event w v same (inr sent) news stored mine = inr (record {
    incident = i;
    event = event;
    started =
        subst (λ d. v.pending ≡ w.pending ++ deliveries (enabled_channels env d) i m event)
          (sym same) sent;
    news = news;
    stored = subst (IsStored i) (sym same) stored;
    mine = mine;
  })

  after_confirming-Outcome :
      (i : Incident) (r : Result (Unit {0})) (w : World)
      → i.status ≡ incident_confirmed
      → i.monitor_id ≡ m.id
      → StoredIf r i w.db
      → Outcome env m w.pending (after_confirming env m (i, r) w).1
  unfolding after_confirming send_alert
  after_confirming-Outcome i (ok _) w s mine h =
      announced i "alert" w _ (dispatch-db env i m "alert" w) (dispatch-pending env i m "alert" w)
        (inl (refl, s)) h mine
  after_confirming-Outcome i (err e) w s mine h = inl refl

  after_resolving-Outcome :
      (i : Incident) (r : Result (Unit {0})) (w : World)
      → i.status ≡ incident_resolved
      → i.monitor_id ≡ m.id
      → StoredIf r i w.db
      → Outcome env m w.pending (after_resolving env m (i, r) w).1
  unfolding after_resolving send_recovery
  after_resolving-Outcome i (ok _) w s mine h =
      announced i "recovery" w _ (dispatch-db env i m "recovery" w)
        (dispatch-pending env i m "recovery" w) (inr (refl, s)) h mine
  after_resolving-Outcome i (err e) w s mine h = inl refl

  pub confirm_if_suspect-Outcome :
      (ids : List String) (r : Result Incident) (w : World)
      → Hands m.id w.db r
      → Outcome env m w.pending (confirm_if_suspect env m ids r w).1
  unfolding confirm_if_suspect confirm_incident
  confirm_if_suspect-Outcome ids (err e) w h = inl refl
  confirm_if_suspect-Outcome ids (ok i) w (held, mine) =
      elim (Bool-cases (i.status == incident_suspect)) [
        | inl e ↦
            let c = confirm_incident env i (slice_of ids) w in
            rw e (
              subst (λ p. Outcome env m p (after_confirming env m c.0 c.1).1)
                (confirm_incident-pending env i w held (slice_of ids))
                (after_confirming-Outcome c.0.0 c.0.1 c.1 refl mine
                  (confirm_incident-StoredIf env i w held (slice_of ids))))
        | inr e ↦ rw e (inl refl)
      ]

  pub resolve_if_quorum-Outcome :
      (total : ℕ) (i : Incident) (k : ℕ) (w : World)
      → IsHeld i w.db
      → i.monitor_id ≡ m.id
      → Outcome env m w.pending (resolve_if_quorum env m total i k w).1
  unfolding resolve_if_quorum resolve_incident
  resolve_if_quorum-Outcome total i k w held mine =
      elim (Bool-cases (evaluate_quorum m.quorum_type m.quorum_n k total)) [
        | inl e ↦
            let c = resolve_incident env i w in
            rw e (
              subst (λ p. Outcome env m p (after_resolving env m c.0 c.1).1)
                (resolve_incident-pending env i w held)
                (after_resolving-Outcome c.0.0 c.0.1 c.1 refl mine
                  (resolve_incident-StoredIf env i w held)))
        | inr e ↦ rw e (inl refl)
      ]
