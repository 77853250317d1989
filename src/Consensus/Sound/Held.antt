-- ===== src/Consensus/Sound/Held.antt =====
-- ConfirmIncident and ResolveIncident on an incident that a row holds.
use ping_mesh.Prelude.{
  ◌≡◌, ◌≢◌, refl, sym, ap, subst, ◌∙◌, ℤ, String, true, List, Option, arith, ◌==◌, eq_iff, All,
  All-map,
}
use ping_mesh.Model.{Incident, incident_suspect, incident_resolved}
use ping_mesh.Db.{
  Db, IncidentRow, update, incident_key, set_incident_row, scan_incident, int_or_zero,
  int_or_zero-null_int,
}
use ping_mesh.World.{Env, World, now}
use ping_mesh.World.Frame.{exec-write}
use ping_mesh.Store.{update_incident, is_active, is_active_for, set_incident}
use ping_mesh.Store.Consistency.{set_incident-IsConsistent}
use ping_mesh.Consensus.Lifecycle.{Step, Evolves-update}
use ping_mesh.Consensus.Rows.{only_row, active_count-update}
use ping_mesh.Consensus.Manager.{confirmed, resolved, confirm_incident, resolve_incident}
use ping_mesh.Consensus.Sound.{Sound, Sound-refl, IsHeld}

wakes_nothing :
    (m : String) (i : Incident) (r : IncidentRow)
    → is_active r ≡ true
    → is_active_for m (set_incident_row i r) ≡ true
    → is_active_for m r ≡ true
unfolding is_active_for set_incident_row
wakes_nothing m i r h a = ground arith

-- An update of a held incident by a step that wakes nothing.
module _ (i : Incident) (db : Db) (held : IsHeld i db) where
  set_held :
      (i' : Incident)
      → i'.id ≡ held.row.id
      → Step held.row (set_incident_row i' held.row)
      → Sound db
          (record db { incidents = update incident_key i'.id (set_incident_row i') db.incidents })
  unfolding set_incident
  set_held i' e st o = (
    record {
      consistent = set_incident-IsConsistent i' db o.consistent;
      one_active = λ m. omega (
        arith,
        o.one_active m,
        active_count-update m i'.id (set_incident_row i') db.incidents
            (All-map _ _ (still m) db.incidents only),
      );
    },
    Evolves-update i'.id (set_incident_row i') db.incidents (
        All-map _ _ (λ r h q. subst (λ z. Step z (set_incident_row i' z)) (sym (h q)) st)
          db.incidents only),
  )
    where
      only : All (λ r. (r.id == i'.id) ≡ true → r ≡ held.row) db.incidents
      only =
          subst (λ id. All (λ r. (r.id == id) ≡ true → r ≡ held.row) db.incidents) (sym e)
            (only_row held.row db.incidents o.consistent.incidents_unique held.stored)

      still :
          (m : String) (r : IncidentRow)
          → ((r.id == i'.id) ≡ true → r ≡ held.row)
          → (r.id == i'.id) ≡ true
          → is_active_for m (set_incident_row i' r) ≡ true
          → is_active_for m r ≡ true
      still m r h q a =
          wakes_nothing m i' r (subst (λ z. is_active z ≡ true) (sym (h q)) held.active) a

-- The fields of a held incident are those of its row.
module _ (i : Incident) (db : Db) (held : IsHeld i db) where
  pub id_of_held : i.id ≡ held.row.id
  unfolding scan_incident
  id_of_held = ap (λ (x : Incident). x.id) (sym held.same)

  pub status_of_held : held.row.status ≡ i.status
  unfolding scan_incident
  status_of_held = ap (λ (x : Incident). x.status) held.same

  resolved_at_of_held : i.resolved_at ≡ int_or_zero held.row.resolved_at
  unfolding scan_incident
  resolved_at_of_held = ap (λ (x : Incident). x.resolved_at) (sym held.same)

  confirmed_at_of_held : i.confirmed_at ≡ int_or_zero held.row.confirmed_at
  unfolding scan_incident
  confirmed_at_of_held = ap (λ (x : Incident). x.confirmed_at) (sym held.same)

  nodes_of_held : i.confirming_nodes ≡ held.row.confirming_nodes
  unfolding scan_incident
  nodes_of_held = ap (λ (x : Incident). x.confirming_nodes) (sym held.same)

  pub not_resolved_of_held : held.row.status ≢ incident_resolved
  unfolding is_active
  not_resolved_of_held e = ground (arith, held.active, eq_iff held.row.status incident_resolved)

  confirm-Step :
      (nodes : Option (List String)) (time : ℤ)
      → i.status ≡ incident_suspect
      → Step held.row (set_incident_row (confirmed i nodes time) held.row)
  unfolding set_incident_row
  confirm-Step nodes time suspect =
      Step.confirm (record { id = refl; monitor_id = refl; started_at = refl; created_at = refl })
        (status_of_held ∙ suspect) refl (int_or_zero-null_int i.resolved_at ∙ resolved_at_of_held)

  resolve-Step : (time : ℤ) → Step held.row (set_incident_row (resolved i time) held.row)
  unfolding set_incident_row
  resolve-Step time =
      Step.resolve (record { id = refl; monitor_id = refl; started_at = refl; created_at = refl })
        not_resolved_of_held refl (int_or_zero-null_int i.confirmed_at ∙ confirmed_at_of_held)
        nodes_of_held

-- ConfirmIncident on a held suspect, and ResolveIncident on any held incident.
module _ (env : Env) (i : Incident) (w : World) (held : IsHeld i w.db) where
  pub confirm_incident-Sound :
      (nodes : Option (List String))
      → i.status ≡ incident_suspect
      → Sound w.db (confirm_incident env i nodes w).1.db
  unfolding confirm_incident now update_incident set_incident
  confirm_incident-Sound nodes suspect =
      exec-write env (Sound w.db) (set_incident (confirmed i nodes (env.clock w.readings)))
        (now env w).1
        (set_held i w.db held (confirmed i nodes (env.clock w.readings)) (id_of_held i w.db held)
          (confirm-Step i w.db held nodes (env.clock w.readings) suspect))
        (Sound-refl w.db)

  pub resolve_incident-Sound : Sound w.db (resolve_incident env i w).1.db
  unfolding resolve_incident now update_incident set_incident
  resolve_incident-Sound =
      exec-write env (Sound w.db) (set_incident (resolved i (env.clock w.readings))) (now env w).1
        (set_held i w.db held (resolved i (env.clock w.readings)) (id_of_held i w.db held)
          (resolve-Step i w.db held (env.clock w.readings)))
        (Sound-refl w.db)
