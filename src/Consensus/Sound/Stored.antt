-- ===== src/Consensus/Sound/Stored.antt =====
-- A confirmation or a resolution that succeeds stands in the database, and neither starts a
-- notification.
use ping_mesh.Prelude.{
  Elem, ◌≡◌, ◌∙◌, refl, sym, ap, subst, ℤ, String, true, List, [], ◌∷◌, Option, Result, ok, err,
  ok-injective, inl, inr, eq_iff, ◌==◌,
}
use ping_mesh.Model.{Incident}
use ping_mesh.Db.{
  Db, IncidentRow, update, incident_key, scan_incident, set_incident_row,
  scan_incident-set_incident_row,
}
use ping_mesh.World.{Env, World, write, now}
use ping_mesh.World.Frame.{exec_elim, exec-pending}
use ping_mesh.Store.{update_incident, set_incident}
use ping_mesh.Consensus.Manager.{confirmed, resolved, confirm_incident, resolve_incident}
use ping_mesh.Consensus.Sound.{IsHeld}
use ping_mesh.Consensus.Sound.Held.{id_of_held}

-- A row of the database holds the incident.
pub record IsStored (i : Incident) (db : Db) : Type 0 where
  pub row : IncidentRow
  pub stored : Elem row db.incidents
  pub same : scan_incident row ≡ i

abbrev pub StoredIf : Result (Unit {0}) → Incident → Db → Type 0
StoredIf (ok _) i db = IsStored i db
StoredIf (err e) i db = Unit

Elem-update :
    (r : IncidentRow) (id : String) (f : IncidentRow → IncidentRow) (rs : List IncidentRow)
    → (r.id == id) ≡ true
    → Elem r rs
    → Elem (f r) (update incident_key id f rs)
unfolding update
Elem-update r id f [] e h = h
Elem-update r id f (x ∷ rs) e (inl same) = rw (same, e) (inl refl)
Elem-update r id f (x ∷ rs) e (inr h) = inr (Elem-update r id f rs e h)

module _ (env : Env) (i i' : Incident) (w : World) (held : IsHeld i w.db) where
  update_incident-StoredIf :
      i.id ≡ i'.id
      → scan_incident (set_incident_row i' held.row) ≡ i'
      → StoredIf (update_incident env i' w).0 i' (update_incident env i' w).1.db
  unfolding update_incident set_incident
  update_incident-StoredIf same_id reads =
      exec_elim env (λ db. write (set_incident i' db)) w (λ x. StoredIf x.0 i' x.1.db) (λ e. tt)
        (λ x e. tt)
        (λ a db e. subst (IsStored i') (ap (λ (p : Unit {0} × Db). p.1) (ok-injective e)) (record {
          row = set_incident_row i' held.row;
          stored = Elem-update held.row i'.id (set_incident_row i') w.db.incidents hit held.stored;
          same = reads;
        }))
    where
      hit : (held.row.id == i'.id) ≡ true
      hit = (eq_iff held.row.id i'.id).1 (sym (id_of_held i w.db held) ∙ same_id)

module _ (env : Env) (i : Incident) (w : World) (held : IsHeld i w.db) where
  reads_confirmed :
      (nodes : Option (List String)) (time : ℤ)
      → scan_incident (set_incident_row (confirmed i nodes time) held.row) ≡ confirmed i nodes time
  unfolding scan_incident
  reads_confirmed nodes time =
      subst
        (λ x.
          scan_incident (set_incident_row (confirmed x nodes time) held.row)
          ≡ confirmed x nodes time)
        held.same (scan_incident-set_incident_row _ held.row)

  reads_resolved :
      (time : ℤ) → scan_incident (set_incident_row (resolved i time) held.row) ≡ resolved i time
  unfolding scan_incident
  reads_resolved time =
      subst (λ x. scan_incident (set_incident_row (resolved x time) held.row) ≡ resolved x time)
        held.same (scan_incident-set_incident_row _ held.row)

  pub confirm_incident-StoredIf :
      (nodes : Option (List String))
      → let c = confirm_incident env i nodes w in StoredIf c.0.1 c.0.0 c.1.db
  unfolding confirm_incident now
  confirm_incident-StoredIf nodes =
      update_incident-StoredIf env i (confirmed i nodes (env.clock w.readings)) (now env w).1 held
        refl (reads_confirmed nodes (env.clock w.readings))

  pub resolve_incident-StoredIf : let c = resolve_incident env i w in StoredIf c.0.1 c.0.0 c.1.db
  unfolding resolve_incident now
  resolve_incident-StoredIf =
      update_incident-StoredIf env i (resolved i (env.clock w.readings)) (now env w).1 held refl
        (reads_resolved (env.clock w.readings))

  pub confirm_incident-pending :
      (nodes : Option (List String)) → (confirm_incident env i nodes w).1.pending ≡ w.pending
  unfolding confirm_incident now update_incident
  confirm_incident-pending nodes = exec-pending env _ (now env w).1

  pub resolve_incident-pending : (resolve_incident env i w).1.pending ≡ w.pending
  unfolding resolve_incident now update_incident
  resolve_incident-pending = exec-pending env _ (now env w).1
