-- ===== src/Alert/Fanout.antt =====
-- The goroutines that `dispatch` starts: one for each enabled channel.
use ping_mesh.Prelude.{
  ap, All, true, false, [], ◌∷◌, ◌≡◌, refl, String, List, map, ◌++◌, pos, eq_ℤ, keep_if, Bool-cases,
  inl, inr, ◌⊎◌,
}
use ping_mesh.Model.{AlertChannel, Incident, Monitor}
use ping_mesh.Db.{Db, scan_alert_channel}
use ping_mesh.World.{Env, World, Delivery, exec, settle}
use ping_mesh.Store.{list_enabled_alert_channels}
use ping_mesh.Alert.Dispatch.{dispatch, notify, spawn, deliveries}

abbrev pub enabled_channels : Env → Db → List AlertChannel
enabled_channels env db =
    map scan_alert_channel
      (env.channels_by_age.sort (keep_if (λ c. eq_ℤ c.enabled (pos 1)) db.alert_channels))

pub dispatch-pending :
    (env : Env) (i : Incident) (m : Monitor) (event : String) (w : World)
    → ((dispatch env i m event w).1.pending ≡ w.pending)
      ⊎ ((dispatch env i m event w).1.pending
          ≡ w.pending ++ deliveries (enabled_channels env w.db) i m event)
unfolding dispatch notify spawn list_enabled_alert_channels exec
dispatch-pending env i m event w = elim (Bool-cases (env.faults w.statements)) [
  | inl e ↦ inl (rw e refl)
  | inr e ↦ inr (rw e refl)
]

-- Each notification is of the incident, the monitor and the event.
abbrev pub AllAbout : Incident → Monitor → String → List Delivery → Type 0
AllAbout i m event ds =
    All (λ (d : Delivery). (d.incident ≡ i) × (d.monitor ≡ m) × (d.event_type ≡ event)) ds

deliveries-AllAbout :
    (i : Incident) (m : Monitor) (event : String) (cs : List AlertChannel)
    → AllAbout i m event (deliveries cs i m event)
deliveries-AllAbout i m event [] = tt
deliveries-AllAbout i m event (c ∷ cs) = ((refl, refl, refl), deliveries-AllAbout i m event cs)

deliveries-channels :
    (i : Incident) (m : Monitor) (event : String) (cs : List AlertChannel)
    → map (λ (d : Delivery). d.channel) (deliveries cs i m event) ≡ cs
deliveries-channels i m event [] = refl
deliveries-channels i m event (c ∷ cs) =
    ap (λ (l : List AlertChannel). c ∷ l) (deliveries-channels i m event cs)

-- dispatch leaves the database as it was. Where its query does not fail, it starts exactly one
-- notification for each stored channel that is enabled, oldest channel first, behind those that
-- wait, each about the incident, the monitor and the event; where the query fails, it starts none.
pub dispatch_lem :
    (env : Env) (i : Incident) (m : Monitor) (event : String) (w : World)
    → ((dispatch env i m event w).1.db ≡ w.db)
      × (((env.faults w.statements ≡ false)
            × (ds : List Delivery) × ((dispatch env i m event w).1.pending ≡ w.pending ++ ds)
            × (map (λ (d : Delivery). d.channel) ds ≡ enabled_channels env w.db)
            × AllAbout i m event ds)
          ⊎ ((env.faults w.statements ≡ true) × ((dispatch env i m event w).1.pending ≡ w.pending)))
unfolding dispatch notify spawn list_enabled_alert_channels exec settle
dispatch_lem env i m event w = elim (Bool-cases (env.faults w.statements)) [
  | inl e ↦ (rw e refl, inr (e, rw e refl))
  | inr e ↦
      let cs = enabled_channels env w.db in
      (
        rw e refl,
        inl (
          e,
          deliveries cs i m event,
          rw e refl,
          deliveries-channels i m event cs,
          deliveries-AllAbout i m event cs,
        ),
      )
]
